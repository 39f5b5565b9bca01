-- ===== src/Lib.antt =====
-- Verification of MultiProxy, a control plane for TCP and UDP relays: a panel that schedules
-- relay nodes and answers DNS queries with their addresses, and an agent on each node that runs
-- the relay processes and switches between backends.
--
-- How the parts interact. The agent reports counters and health in status messages
-- (crates/contract). The panel's scheduler accounts traffic, debounces saturation, classifies
-- every node, and builds the availability snapshot of every line group from the classes. The DNS
-- resolver picks a line group for a client and serves what the snapshot holds for it. On the
-- node, a session takes the panel's pushes, writes the configurations and has the supervisor run
-- them; the failover engine folds probe results into each rule, selects the active backend, and
-- renders the relay configurations (crates/relaycfg) that the supervisor's processes run; the
-- sampler turns byte counters into the capacity that a heartbeat reports. The panel also checks,
-- and repairs with care, the records at its DNS provider and its local zones.
--
-- The files, and the code that each is about:
-- - Prelude: what the modules share. Texts are lists of code points, machine integers are natural
--   numbers with the saturation or the wrap written out, a HashMap is a list of entries, sort_by
--   is a stable insertion sort.
-- - Contract: the data of the messages and of the database. Isp is crates/contract/src/isp.rs,
--   Model model.rs, Protocol and Messages protocol.rs, Version version.rs, Snapshot snapshot.rs.
-- - Relaycfg: crates/relaycfg/src/lib.rs, the two renderers. The JSON printer is a parameter.
-- - Connections: crates/panel/src/ws_server.rs, the registry of agent connections and the
--   structured rules of a push; the session token is an argument, a channel a number. Pushes has
--   the rest of the handlers, as what they decide and store, Versions version_newer of
--   crates/panel/src/updater.rs.
-- - Cloudflare: crates/panel/src/cloudflare.rs. Records compares and classifies records, Client
--   makes requests and reads answers, Ensure has the operations. The HTTP client and the parsers
--   of JSON are the record Provider.
-- - Integrity: crates/panel/src/dns_integrity.rs. Report is the report, Desired
--   derive_desired_state, Records repair_cloudflare_records, Local inspect_local_zones over the
--   record Store, Groups the checks that only read. The deadline is an argument, which tells of
--   each call whether it starts and ends in time.
-- - Configgen: crates/panel/src/configgen.rs, the configurations and the backends of a node.
-- - Failover: crates/agent/src/failover.rs. Endpoint is EndpointState and the tunables, Rule is
--   RuleState with reselect, Engine the FailoverEngine. The probe is a parameter, durations are
--   milliseconds, and None stands for the panic of an index out of range.
-- - Probing: crates/agent/src/selfheal.rs, the TCP probe and the defaults of its trait. The
--   outcome of a connection is an argument, by address and time allowed.
-- - Supervisor: crates/agent/src/supervisor.rs. The traits ChildProcess and ProcessSpawner are
--   the record Processes over a state of the operating system; what is relied on of them is the
--   record Lives.
-- - Sampler: crates/agent/src/capacity.rs. An Instant is a number of nanoseconds; the floating
--   point rate is a parameter. NetDev is the parser of /proc/net/dev.
-- - Session: crates/agent/src/conn.rs, config.rs and report.rs. Config is config::apply over the
--   record Files, Pushing has select_apply_push, the restarts and apply_failover_switch, Loop is
--   what each event does in run_session, with the record Machine for the sockets, clocks and
--   probes, Handshake is its first half, and Backoff has run_reconnect_loop. What is relied on of
--   processes and files is the record Observes of Effects. A list of events stands for what the
--   select! of the loop yields; a panic and a replaced process are steps of their own. A probe
--   cycle that its budget cuts off is an event that changes nothing.
-- - Scheduler: crates/panel/src/scheduler.rs. Capacity is apply_capacity and debounce_saturation,
--   Health is health_reason and classify_node, Build is build_snapshot. The address parser is a
--   parameter.
-- - Ddns: crates/panel/src/ddns.rs. Address tests addresses and picks one of a lookup, Refresh is
--   refresh_all with the rebuild of the snapshot. The lookup is an argument, by node and name.
-- - Dns: crates/panel/src/dns. Answer is answer.rs, Ecs is ecs.rs, and Zone, ZoneRecords and
--   Handler are handler.rs. The geographic lookup, the clock and the DNS library's names are
--   parameters.
-- - Tests of each part, and Tests at the root: runs on small inputs, and the theorems at such
--   inputs.
--
-- Bounds. Every loop is structural recursion over a list. The only fuel is in the decimal
-- printer, which takes one round more than the number printed and so never runs out, since each
-- round divides by ten. Additions that the code makes saturating saturate at the width's greatest
-- value; the counters that it adds to atomically, the restart counter and the counter epoch wrap.
--
-- Not modelled: sockets, timers, files, SQL and the HTTP interface, which are I/O; serde, the DNS
-- wire format, cryptography and the relays themselves, which are other packages; the trace that
-- the resolver keeps for a page, which no decision reads; the page itself. Nor are the panel's
-- HTTP interface and its store, and the loopback probes of the integrity check.
pub mod Prelude
pub mod Contract
pub mod Integrity
pub mod Relaycfg
pub mod Cloudflare
pub mod Configgen
pub mod Connections
pub mod Ddns
pub mod Dns
pub mod Probing
pub mod Failover
pub mod Sampler
pub mod Scheduler
pub mod Session
pub mod Supervisor
mod Tests
