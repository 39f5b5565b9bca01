-- ===== src/Integrity/Reporting.antt =====
-- crates/panel/src/dns_integrity.rs: what the report says of its items.
use multi_proxy.Prelude.{ℕ, ◌+◌, ◌≡◌, ◌||◌, List, [], ◌∷◌, if◌then◌else◌, ltb}
use multi_proxy.Integrity.Report.{
  CheckStatus, SummaryBucket, ok_bucket, repaired_bucket, attention_bucket, failed_bucket,
  summary_bucket, CheckItem, IntegritySummary, IntegrityStatus, all_fine, all_repaired,
  needs_attention, has_failed, Tally, count, flag,
}

-- How many items are in a bucket.
abbrev in_bucket : SummaryBucket → SummaryBucket → ℕ
in_bucket ok_bucket ok_bucket = 1
in_bucket repaired_bucket repaired_bucket = 1
in_bucket attention_bucket attention_bucket = 1
in_bucket failed_bucket failed_bucket = 1
in_bucket b c = 0

unfoldable pub count_in : SummaryBucket → List CheckItem → ℕ
count_in b [] = 0
count_in b (c ∷ checks) = in_bucket b (summary_bucket c.status) + count_in b checks

-- Before and after the items: the counts grow by the items of their buckets, and a flag is up if it was or if
-- an item of its bucket came.
abbrev pub Counts : Tally → Tally → ℕ → ℕ → ℕ → ℕ → Type 0
Counts t t' ok_n repaired_n attention_n failed_n =
    (t'.summary.ok_count ≡ t.summary.ok_count + ok_n)
    × (t'.summary.repaired_count ≡ t.summary.repaired_count + repaired_n)
    × (t'.summary.attention_count ≡ t.summary.attention_count + attention_n)
    × (t'.summary.failed_count ≡ t.summary.failed_count + failed_n)
    × (t'.repaired_seen ≡ (t.repaired_seen || ltb 0 repaired_n))
    × (t'.attention_seen ≡ (t.attention_seen || ltb 0 attention_n))
    × (t'.failed_seen ≡ (t.failed_seen || ltb 0 failed_n))

abbrev next_tally : CheckStatus → Tally → Tally
next_tally s t = flag s (count (summary_bucket s) t)

-- The worst of what is counted.
unfoldable pub worst : IntegritySummary → IntegrityStatus
worst s =
    if ltb 0 s.failed_count
    then has_failed
    else if ltb 0 s.attention_count
    then needs_attention
    else if ltb 0 s.repaired_count
    then all_repaired
    else all_fine
