-- ===== src/Dns/Clock.antt =====
-- crates/panel/src/dns/answer.rs and crates/contract/src/model.rs: the local minute of the day, and the
-- windows of the line groups.
use multi_proxy.Prelude.{
  ℕ, ◌+◌, ◌*◌, ◌/◌, ◌%◌, ◌<◌, ◌≡◌, ◌≢◌, not, arith, leb, leb→le, Bool-cases, refl, not_leb, inl,
  inr,
}
use multi_proxy.Prelude.Int.{ℤ, ◌+ℤ◌, scale, rem_euclid, pos_part, neg_part, sub_ℕ}
use multi_proxy.Contract.Model.{window_contains}
use multi_proxy.Dns.Answer.{local_minute_of_day}

rem_sub :
    (a b : ℕ)
    → (rem_euclid (sub_ℕ a b) 86400 < 86400)
      × ((rem_euclid (sub_ℕ a b) 86400 + b) % 86400 ≡ a % 86400)
unfolding rem_euclid
rem_sub a b = elim (Bool-cases (leb b a)) [
  | inl e ↦ rw e (let l = leb→le b a e in (omega arith, omega arith))
  | inr e ↦ rw e (omega (arith, not_leb b a e), omega (arith, not_leb b a e))
]

sub_parts : (a b : ℕ) → pos_part (sub_ℕ a b) + b ≡ neg_part (sub_ℕ a b) + a
sub_parts a b = elim (Bool-cases (leb b a)) [
  | inl e ↦ rw e (omega (arith, leb→le b a e))
  | inr e ↦ rw e (omega (arith, not_leb b a e))
]

minute_of :
    (r s x y p q now_ms : ℕ)
    → r < 86400
    → s ≡ now_ms / 1000
    → x + q * 60 ≡ y + p * 60
    → (r + y) % 86400 ≡ (s + x) % 86400
    → (r / 60 < 1440) × ((r / 60 + q) % 1440 ≡ (now_ms / 60000 + p) % 1440)
minute_of r s x y p q now_ms h e d k = (omega arith, omega arith)

-- The minute is one of the 1440 of a day, and it is the minute at UTC, later by the offset, up to whole
-- days.
local_minute_of_day_lem :
    (now_ms : ℕ) (tz_offset_min : ℤ)
    → (local_minute_of_day now_ms tz_offset_min < 1440)
      × ((local_minute_of_day now_ms tz_offset_min + neg_part tz_offset_min) % 1440
          ≡ (now_ms / 60000 + pos_part tz_offset_min) % 1440)
unfolding local_minute_of_day ◌+ℤ◌ scale
local_minute_of_day_lem now_ms tz_offset_min =
    let p = pos_part tz_offset_min in
    let q = neg_part tz_offset_min in
    let x = pos_part (sub_ℕ (p * 60) (q * 60)) in
    let y = neg_part (sub_ℕ (p * 60) (q * 60)) in
    let (h, k) = rem_sub (now_ms / 1000 + x) (0 + y) in
    minute_of (rem_euclid (sub_ℕ (now_ms / 1000 + x) (0 + y)) 86400) (now_ms / 1000) x (0 + y) p q
      now_ms h refl (omega (arith, sub_parts (p * 60) (q * 60))) k

-- Two windows, each ending at the minute at which the other one starts, with two different such minutes,
-- share out the day: a time is in one of them exactly if it is not in the other.
pub window_contains-not :
    (a b t : ℕ)
    → a ≢ b
    → window_contains (record { start_min = a; end_min = b }) t
      ≡ not (window_contains (record { start_min = b; end_min = a }) t)
unfolding window_contains
window_contains-not a b t h = ground arith
