-- ===== src/Integrity/Records.antt =====
-- crates/panel/src/dns_integrity.rs: the check, and the repair, of Cloudflare's records.
-- A call that the deadline cuts off is one whose request fails; `deadline` tells what is left of it.
use multi_proxy.Prelude.{
  Bool, true, false, ◌&&◌, ◌||◌, List, [], ◌∷◌, ◌++◌, Text, codes, ◌==◌, nat_eq, list_eq,
  if◌then◌else◌, to_ascii_lowercase, map,
}
use multi_proxy.Prelude.Results.{Result, ok, err, Action}
use multi_proxy.Cloudflare.Records.{Wanted, wanted_at, RecordState, missing, ok_record, conflict}
use multi_proxy.Cloudflare.Client.{CfApiError, api, show_error, Provider, CfClient}
use multi_proxy.Cloudflare.Ensure.{
  EnsureRecord, already_ok, created, ensure_missing_record, classify_record,
}
use multi_proxy.Integrity.Report.{
  CheckStatus, fine, repaired, attention, failed, skipped, CheckItem, push,
}
use multi_proxy.Integrity.Desired.{DesiredState}

unfoldable pub format_provider_error : CfApiError → Text
unfolding show_error
format_provider_error e = codes "Cloudflare: " ++ show_error e

-- `str::contains`.
abbrev starts_with : Text → Text → Bool
starts_with text [] = true
starts_with [] (c ∷ part) = false
starts_with (d ∷ text) (c ∷ part) = (d == c) && starts_with text part

unfoldable pub contains_text : Text → Text → Bool
contains_text [] part = starts_with [] part
contains_text (c ∷ text) part = starts_with (c ∷ text) part || contains_text text part

unfoldable pub is_conflict_error : CfApiError → Bool
unfolding contains_text show_error to_ascii_lowercase
is_conflict_error e = contains_text (to_ascii_lowercase (show_error e)) (codes "conflict")

abbrev pub of_ensured : EnsureRecord → CheckStatus
of_ensured (already_ok r) = fine
of_ensured (created r) = repaired

abbrev pub of_state : RecordState → CheckStatus
of_state ok_record = fine
of_state missing = attention
of_state conflict = attention

abbrev arrow : Wanted → Text
arrow w = w.record_type ++ (codes " " ++ (w.name ++ (codes " -> " ++ w.content)))

abbrev message_of : CheckStatus → Wanted → Text
message_of fine w = codes "已存在且匹配: " ++ arrow w
message_of repaired w = codes "已补齐: " ++ arrow w
message_of attention w = codes "记录缺失或冲突，未修改: " ++ arrow w
message_of failed w = []
message_of skipped w = []

abbrev child_record : Text → Text → Text × Wanted
child_record ns_host child = (codes "cf_child_ns", wanted_at (codes "NS") child ns_host)

-- The records that there should be, with the ids of their items.
unfoldable pub desired_records : DesiredState → List (Text × Wanted)
desired_records d =
    (codes "cf_ns_host_a", wanted_at (codes "A") d.ns_host d.panel_ip)
    ∷ map (child_record d.ns_host) d.managed_children

module _ (World : Type 0) (p : Provider World) (client : CfClient)
    (deadline : World → Bool × Bool) where
  abbrev timed_out : {A : Type 0} → Bool → Result CfApiError A → Result CfApiError A
  timed_out true r = err (api (codes "DNS integrity provider deadline exceeded"))
  timed_out false r = r

  abbrev pub run_if :
      {A : Type 0} → Bool × Bool → Action World CfApiError A → Action World CfApiError A
  run_if (false, elapses) m w = (err (api (codes "DNS integrity provider deadline exceeded")), w)
  run_if (true, elapses) m w = let (r, w') = m w in (timed_out elapses r, w')

  -- Whether time is left when the call starts, and whether it elapses during the call.
  unfoldable pub with_provider_deadline :
      {A : Type 0} → Action World CfApiError A → Action World CfApiError A
  with_provider_deadline m w = run_if (deadline w) m w

  abbrev pub mapped :
      {A : Type 0} → (A → CheckStatus) → Result CfApiError A → Result CfApiError CheckStatus
  mapped f (ok a) = ok (f a)
  mapped f (err e) = err e

  unfoldable pub check_record : Bool → Wanted → World → Result CfApiError CheckStatus × World
  unfolding with_provider_deadline ensure_missing_record classify_record
  check_record true want w =
      let (r, w') = with_provider_deadline (ensure_missing_record World p client want 300) w in
      (mapped of_ensured r, w')
  check_record false want w =
      let (r, w') = with_provider_deadline (classify_record World p client want) w in
      (mapped of_state r, w')

  abbrev pub push_result :
      Text → Wanted → Result CfApiError CheckStatus → List CheckItem → List CheckItem
  push_result id want (ok status) out = push out id want.name status (message_of status want)
  push_result id want (err e) out =
      push out id want.name (if is_conflict_error e then attention else failed)
        (format_provider_error e)

  unfoldable pub check_records :
      Bool → List (Text × Wanted) → List CheckItem → World → List CheckItem × World
  unfolding check_record push is_conflict_error format_provider_error
  check_records repair [] out w = (out, w)
  check_records repair ((id, want) ∷ wants) out w =
      let (r, w') = check_record repair want w in
      check_records repair wants (push_result id want r out) w'

  unfoldable pub repair_cloudflare_records :
      DesiredState → Bool → List CheckItem → World → List CheckItem × World
  unfolding check_records desired_records
  repair_cloudflare_records desired repair out w =
      check_records repair (desired_records desired) out w
