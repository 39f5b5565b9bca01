-- ===== src/Integrity/Report.antt =====
-- crates/panel/src/dns_integrity.rs: the items of a check and the report that they amount to.
use multi_proxy.Prelude.{ℕ, ◌+◌, Bool, true, false, List, [], ◌∷◌, ◌++◌, Text, if◌then◌else◌}

pub data CheckStatus : Type 0 where
  fine repaired attention failed skipped : CheckStatus

pub data SummaryBucket : Type 0 where
  ok_bucket repaired_bucket attention_bucket failed_bucket : SummaryBucket

unfoldable pub summary_bucket : CheckStatus → SummaryBucket
summary_bucket fine = ok_bucket
summary_bucket repaired = repaired_bucket
summary_bucket attention = attention_bucket
summary_bucket skipped = attention_bucket
summary_bucket failed = failed_bucket

pub record CheckItem : Type 0 where
  pub id : Text
  pub scope : Text
  pub status : CheckStatus
  pub message : Text

pub record IntegritySummary : Type 0 where
  pub ok_count : ℕ
  pub repaired_count : ℕ
  pub attention_count : ℕ
  pub failed_count : ℕ

pub data IntegrityStatus : Type 0 where
  all_fine all_repaired needs_attention has_failed : IntegrityStatus

pub record IntegrityReport : Type 0 where
  pub status : IntegrityStatus
  pub checked_at : ℕ
  pub summary : IntegritySummary
  pub checks : List CheckItem

-- The loop's counters and flags.
pub record Tally : Type 0 where
  pub summary : IntegritySummary
  pub repaired_seen : Bool
  pub attention_seen : Bool
  pub failed_seen : Bool

abbrev pub new_tally : Tally
new_tally = record {
  summary = record { ok_count = 0; repaired_count = 0; attention_count = 0; failed_count = 0 };
  repaired_seen = false;
  attention_seen = false;
  failed_seen = false;
}

abbrev pub count : SummaryBucket → Tally → Tally
count ok_bucket t = record t { summary = record t.summary { ok_count = t.summary.ok_count + 1 } }
count repaired_bucket t = record t {
  summary = record t.summary { repaired_count = t.summary.repaired_count + 1 };
  repaired_seen = true;
}
count attention_bucket t = record t {
  summary = record t.summary { attention_count = t.summary.attention_count + 1 };
  attention_seen = true;
}
count failed_bucket t = record t {
  summary = record t.summary { failed_count = t.summary.failed_count + 1 };
  failed_seen = true;
}

-- The two tests at the end of the loop's body.
abbrev pub flag : CheckStatus → Tally → Tally
flag fine t = t
flag repaired t = t
flag attention t = record t { attention_seen = true }
flag skipped t = record t { attention_seen = true }
flag failed t = record t { failed_seen = true }

unfoldable pub tally : Tally → List CheckItem → Tally
unfolding summary_bucket
tally t [] = t
tally t (c ∷ checks) = tally (flag c.status (count (summary_bucket c.status) t)) checks

abbrev pub status_of : Tally → IntegrityStatus
status_of t =
    if t.failed_seen
    then has_failed
    else if t.attention_seen
    then needs_attention
    else if t.repaired_seen
    then all_repaired
    else all_fine

unfoldable pub finish : ℕ → List CheckItem → IntegrityReport
unfolding tally
finish now checks =
    let t = tally new_tally checks in
    record { status = status_of t; checked_at = now; summary = t.summary; checks = checks }

-- `ReportBuilder::push`.
unfoldable pub push : List CheckItem → Text → Text → CheckStatus → Text → List CheckItem
push checks id scope status message =
    checks ++ (record { id = id; scope = scope; status = status; message = message } ∷ [])
