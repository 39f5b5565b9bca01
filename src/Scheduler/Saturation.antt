-- ===== src/Scheduler/Saturation.antt =====
-- crates/panel/src/scheduler.rs: the saturation counters against the history of the windows.
use multi_proxy.Prelude.{
  ℕ, suc, ◌<◌, ◌≡◌, refl, ap, ◌∙◌, false, List, [], ◌∷◌, some, arith, ltb, leb, if◌then◌else◌,
  nat_beq,
}
use multi_proxy.Contract.Model.{SaturationState, normal, saturated}
use multi_proxy.Scheduler.Capacity.{
  Debounce, debounce_pct, debounce_saturation, percent, cap_bps, sat_enter_pct, sat_exit_pct,
  sat_windows,
}

abbrev start : Debounce
start = record { state = normal; enter_windows = 0; exit_windows = 0 }

-- The state after a history of throughputs, the newest first, under a bandwidth cap.
unfoldable pub debounced : ℕ → List ℕ → Debounce
debounced mbps [] = start
debounced mbps (x ∷ h) = debounce_saturation (debounced mbps h) x (some mbps)

-- How many of the newest windows are at or above the enter mark, and how many below the exit mark.
abbrev pub high : ℕ → List ℕ → ℕ
high mbps [] = 0
high mbps (x ∷ h) = if leb sat_enter_pct (percent x (cap_bps mbps)) then suc (high mbps h) else 0

abbrev pub low : ℕ → List ℕ → ℕ
low mbps [] = 0
low mbps (x ∷ h) = if ltb (percent x (cap_bps mbps)) sat_exit_pct then suc (low mbps h) else 0

abbrev flips : SaturationState → ℕ → ℕ → SaturationState
flips normal hi lo = if leb sat_windows hi then saturated else normal
flips saturated hi lo = if leb sat_windows lo then normal else saturated

-- The specification: a normal node is saturated with the third high window in a row, and a saturated
-- one is normal again with the third low window in a row.
unfoldable pub saturation : ℕ → List ℕ → SaturationState
saturation mbps [] = normal
saturation mbps (x ∷ h) = flips (saturation mbps h) (high mbps (x ∷ h)) (low mbps (x ∷ h))

abbrev pub counts : SaturationState → ℕ → ℕ → Debounce
counts normal hi lo = record { state = normal; enter_windows = hi; exit_windows = 0 }
counts saturated hi lo = record { state = saturated; enter_windows = 0; exit_windows = lo }

-- The streak that the state watches is short of three.
abbrev pub Short : SaturationState → ℕ → ℕ → Type 0
Short normal hi lo = hi < 3
Short saturated hi lo = lo < 3

step_state :
    (s : SaturationState) (p hi lo : ℕ)
    → Short s hi lo
    → (let hi' = if leb sat_enter_pct p then suc hi else 0 in
        let lo' = if ltb p sat_exit_pct then suc lo else 0 in
        let d = counts s hi lo in
        (debounce_pct s p d.enter_windows d.exit_windows ≡ counts (flips s hi' lo') hi' lo')
        × Short (flips s hi' lo') hi' lo')
unfolding debounce_pct
step_state normal p hi lo h = ground arith
step_state saturated p hi lo h = ground arith

nonzero_cap : (mbps : ℕ) → 0 < mbps → nat_beq (cap_bps mbps) 0 ≡ false
nonzero_cap mbps h = let p : 0 < cap_bps mbps = omega arith in ground arith

debounce_with_cap :
    (d : Debounce) (x mbps : ℕ)
    → 0 < mbps
    → debounce_saturation d x (some mbps)
      ≡ debounce_pct d.state (percent x (cap_bps mbps)) d.enter_windows d.exit_windows
unfolding debounce_saturation
debounce_with_cap d x mbps h = rw (nonzero_cap mbps h)

counts_state : (s : SaturationState) (hi lo : ℕ) → (counts s hi lo).state ≡ s
counts_state normal hi lo = refl
counts_state saturated hi lo = refl

-- Under a nonzero bandwidth cap the debounce holds after every history of windows the specified
-- state, counting the high windows in a row while normal and the low ones while saturated, and the
-- streak that it counts is shorter than three.
pub debounced-refines :
    (mbps : ℕ) (h : List ℕ)
    → 0 < mbps
    → (debounced mbps h ≡ counts (saturation mbps h) (high mbps h) (low mbps h))
      × Short (saturation mbps h) (high mbps h) (low mbps h)
unfolding debounced saturation
debounced-refines mbps [] p = (refl, omega arith)
debounced-refines mbps (x ∷ h) p =
    let (e, short) = debounced-refines mbps h p in
    let s = saturation mbps h in
    let d = counts s (high mbps h) (low mbps h) in
    let pct = percent x (cap_bps mbps) in
    let (stepped, next) = step_state s pct (high mbps h) (low mbps h) short in
    let state : d.state ≡ s = counts_state s (high mbps h) (low mbps h) in
    (
      ap (λ c. debounce_saturation c x (some mbps)) e
          ∙ debounce_with_cap d x mbps p
          ∙ ap (λ c. debounce_pct c pct d.enter_windows d.exit_windows) state
          ∙ stepped,
      next,
    )
