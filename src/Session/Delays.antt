-- ===== src/Session/Delays.antt =====
-- crates/agent/src/conn.rs: the delays that the outer loop chooses, over every run of sessions.
use multi_proxy.Prelude.{
  ℕ, zero, suc, ◌+◌, ◌*◌, ◌/◌, ◌^◌, ◌≤◌, ◌<◌, ◌≡◌, List, [], ◌∷◌, Bool, true, false, ◌||◌,
  if◌then◌else◌, min,
}
use multi_proxy.Session.Backoff.{
  Backoff, SessionEnd, Sleep, Attempt, is_shut_down, was_established, stops,
}

-- Doubled so many times, up to the greatest delay.
unfoldable doubled : ℕ → ℕ → ℕ
doubled initial zero = initial
doubled initial (suc k) = doubled initial k * 2

unfoldable pub base_delay : ℕ → ℕ → ℕ → ℕ
unfolding doubled
base_delay initial max_delay k = min (doubled initial k) max_delay

-- How many sessions have failed in a row before this one, once it has ended.
abbrev streak_at : SessionEnd → ℕ → ℕ
streak_at end k = if was_established end then 0 else k

-- A round that stops the loop.
abbrev pub breaks : Attempt → Bool
breaks t = t.shut_before || stops t.session_end

abbrev OrEnds : Bool → List (ℕ × Sleep) → Type 0 → Type 0
OrEnds true delays rest = delays ≡ []
OrEnds false delays rest = rest

-- The loop goes on until a round stops it; each delay is the base delay of the streak, or longer by an eighth
-- of it at most.
abbrev pub Scheduled : ℕ → ℕ → ℕ → List Attempt → List (ℕ × Sleep) → Type 0
Scheduled initial max_delay k [] delays = delays ≡ []
Scheduled initial max_delay k (t ∷ attempts) [] = breaks t ≡ true
Scheduled initial max_delay k (t ∷ attempts) ((d, sleep) ∷ delays) =
    let base = base_delay initial max_delay (streak_at t.session_end k) in
    (breaks t ≡ false)
    × (base ≤ d)
    × (d ≤ base + base / 8)
    × (sleep ≡ t.sleep)
    × OrEnds (is_shut_down t.sleep) delays
        (Scheduled initial max_delay (suc (streak_at t.session_end k)) attempts delays)

-- A schedule in bounds: what doubles stays a `Duration`, and its nanoseconds fit u64.
pub record Bounded (initial max_delay : ℕ) : Type 0 where
  pub starts_below : initial ≤ max_delay
  pub fits : max_delay < 2 ^ 64

abbrev At : ℕ → ℕ → ℕ → Backoff → Type 0
At initial max_delay k b =
    (b.initial ≡ initial) × (b.max_delay ≡ max_delay) × (b.current ≡ base_delay initial max_delay k)
