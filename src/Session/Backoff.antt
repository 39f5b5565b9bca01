-- ===== src/Session/Backoff.antt =====
-- crates/agent/src/conn.rs: the delays between connections, and the budget of a probe cycle.
-- Durations are nanoseconds; `duration_max` is the greatest `Duration`, at which its operations saturate.
use multi_proxy.Prelude.{
  ℕ, ◌+◌, ◌*◌, ◌/◌, ◌%◌, ◌^◌, List, [], ◌∷◌, Bool, true, false, ◌||◌, Text, if◌then◌else◌, min, max,
  saturating_add, saturating_mul,
}
use multi_proxy.Contract.Messages.{AuthRejectReason, CloseReason, token_rotated}
use multi_proxy.Failover.Endpoint.{FailoverTunables}

abbrev pub duration_max : ℕ
duration_max = 18446744073709551615999999999

pub record Backoff : Type 0 where
  pub initial : ℕ
  pub max_delay : ℕ
  pub current : ℕ

unfoldable pub new_backoff : ℕ → ℕ → Backoff
new_backoff initial max_delay = record {
  initial = initial;
  max_delay = max_delay;
  current = initial;
}

abbrev pub nanos_per_sec : ℕ
nanos_per_sec = 1000000000

unfoldable pub default_backoff : Backoff
unfolding new_backoff
default_backoff = new_backoff nanos_per_sec (30 * nanos_per_sec)

unfoldable pub reset : Backoff → Backoff
reset b = record b { current = b.initial }

-- `jitter` is the part of a second that the clock shows; `as u64` cuts the nanoseconds off.
unfoldable pub next_delay : Backoff → ℕ → ℕ × Backoff
next_delay b jitter =
    let nanos = b.current % 2 ^ 64 in
    (
      saturating_add duration_max b.current (jitter % (nanos / 8 + 1)),
      record b { current = min (saturating_mul duration_max b.current 2) b.max_delay },
    )

-- In milliseconds, as the tunables.
unfoldable pub cycle_budget : FailoverTunables → ℕ → ℕ
cycle_budget t heartbeat = min (heartbeat / 2) (max (t.probe_timeout * 4) 2000)

pub data SessionEnd : Type 0 where
  disconnected : Bool → Text → SessionEnd
  auth_rejected : AuthRejectReason → SessionEnd
  server_close : CloseReason → SessionEnd
  shutdown_signal : SessionEnd

unfoldable pub was_established : SessionEnd → Bool
was_established (disconnected established why) = established
was_established (auth_rejected reason) = false
was_established (server_close reason) = true
was_established shutdown_signal = true

-- Whether the outer loop stops: on a local shutdown, or when the token was rotated.
abbrev pub stops : SessionEnd → Bool
stops shutdown_signal = true
stops (server_close token_rotated) = true
stops (server_close reason) = false
stops (disconnected established why) = false
stops (auth_rejected reason) = false

-- How the sleep ends: when the delay has passed; or before, when the shutdown signal changes or its sender is
-- gone, with the signal still off, and then the loop connects again at once; or by a shutdown.
pub data Sleep : Type 0 where
  slept woken shut_down : Sleep

-- One round of the outer loop: whether a shutdown is on at its start, the session's end, the clock's
-- part of a second, and how the sleep ends.
pub record Attempt : Type 0 where
  pub shut_before : Bool
  pub session_end : SessionEnd
  pub jitter : ℕ
  pub sleep : Sleep

abbrev pub is_shut_down : Sleep → Bool
is_shut_down slept = false
is_shut_down woken = false
is_shut_down shut_down = true

abbrev pub settle : SessionEnd → Backoff → Backoff
settle end b = if was_established end then reset b else b

-- The delays that the loop chooses, each with how its sleep ends.
unfoldable pub run_reconnect_loop : List Attempt → Backoff → List (ℕ × Sleep)
unfolding was_established reset next_delay
run_reconnect_loop [] b = []
run_reconnect_loop (t ∷ rest) b =
    let (delay, b') = next_delay (settle t.session_end b) t.jitter in
    let delays = run_reconnect_loop rest b' in
    if t.shut_before || stops t.session_end
    then []
    else (if is_shut_down t.sleep then (delay, t.sleep) ∷ [] else (delay, t.sleep) ∷ delays)
