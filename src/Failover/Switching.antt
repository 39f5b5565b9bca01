-- ===== src/Failover/Switching.antt =====
-- crates/agent/src/failover.rs: when `reselect` moves the active backend, and where to.
use multi_proxy.Prelude.{
  ℕ, zero, suc, ◌≤◌, ◌<◌, ◌≡◌, refl, sym, ap, subst, ◌⊎◌, inl, inr, ◌≢◌, Bool, true, false, List,
  [], ◌∷◌, Option, some, get_elem?, length, arith, Bool-cases, ◌∙◌,
}
use multi_proxy.Failover.Endpoint.{FailoverTunables, EndpointState, dwell_ticks}
use multi_proxy.Failover.Rule.{RuleState, prefer, commit, reselect, index_beq}
use multi_proxy.Failover.Selection.{IsValid, UpAt, NoneUp-UpAt, reselect_cases}

-- What one selection does to a rule: it keeps the endpoints, and it tells whether the index moved.
pub record Selects (rs rs' : RuleState) (changed : Bool) : Type 0 where
  pub valid : IsValid rs'
  pub same_spec : rs'.spec ≡ rs.spec
  pub same_endpoints : rs'.endpoints ≡ rs.endpoints
  pub quiet : changed ≡ false → rs' ≡ rs
  pub moved : changed ≡ true → (rs'.ticks_since_switch ≡ 0) × (rs'.active_idx ≢ rs.active_idx)

Selects-same : (rs : RuleState) → IsValid rs → Selects rs rs false
Selects-same rs v = record {
  valid = v;
  same_spec = refl;
  same_endpoints = refl;
  quiet = λ _. refl;
  moved = λ h. cc;
}

commit-Selects :
    (rs : RuleState) (i : ℕ)
    → IsValid rs
    → i < length rs.endpoints
    → Selects rs (commit rs (some i)).0 (commit rs (some i)).1
unfolding commit
commit-Selects rs i v h = elim (Bool-cases (index_beq (some i) rs.active_idx)) [
  | inl e ↦ rw e (Selects-same rs v)
  | inr e ↦ rw e (record {
    valid = record { matched = v.matched; in_bounds = h };
    same_spec = refl;
    same_endpoints = refl;
    quiet = λ k. cc;
    moved = λ _. (refl, λ q. ground arith);
  })
]

get_elem?-lt :
    (es : List EndpointState) (i : ℕ) {e : EndpointState} → get_elem? es i ≡ some e → i < length es
get_elem?-lt [] i h = cc
get_elem?-lt (d ∷ es) zero h = omega arith
get_elem?-lt (d ∷ es) (suc i) h = omega (arith, get_elem?-lt es i h)

prefer-lt :
    (e : EndpointState) (cur b ticks dwell n : ℕ) → cur < n → b < n → prefer e cur b ticks dwell < n
unfolding prefer
prefer-lt e cur b ticks dwell n h k = ground arith

-- For a valid rule `reselect` does not panic, keeps the rule valid and its endpoints as they are; it
-- reports no change exactly by leaving the rule as it was, and a change by another active index and
-- a dwell count that starts at 0.
pub reselect_total :
    (rs : RuleState) (t : FailoverTunables)
    → IsValid rs
    → (rs' : RuleState) × (changed : Bool) × (reselect rs t ≡ some (rs', changed))
      × Selects rs rs' changed
reselect_total rs t v = elim (reselect_cases rs t v) [
  | inl (_, h) ↦ (rs, false, h, Selects-same rs v)
  | inr (cur, b, e, _, found, best, h) ↦ (
    _,
    _,
    h,
    commit-Selects rs _ v (
        prefer-lt e cur b rs.ticks_since_switch (dwell_ticks t) (length rs.endpoints)
          (get_elem?-lt rs.endpoints cur found) best.2),
  )
]

commit_active : (rs : RuleState) (i : ℕ) → (commit rs (some i)).0.active_idx ≡ some i
unfolding commit
commit_active rs i = ground arith

commit_endpoints : (rs : RuleState) (i : ℕ) → (commit rs (some i)).0.endpoints ≡ rs.endpoints
unfolding commit
commit_endpoints rs i = ground arith

-- The best is chosen for a reason, or the active endpoint is up and stays.
prefer_cases :
    (e : EndpointState) (cur b ticks dwell : ℕ)
    → ((prefer e cur b ticks dwell ≡ b) × ((e.up ≡ false) ⊎ ((b < cur) × (dwell ≤ ticks))))
      ⊎ ((prefer e cur b ticks dwell ≡ cur) × (e.up ≡ true))
unfolding prefer
prefer_cases e cur b ticks dwell = ground arith

prefer_up :
    (es : List EndpointState) (e : EndpointState) (cur b ticks dwell : ℕ)
    → get_elem? es cur ≡ some e
    → UpAt es b
    → UpAt es (prefer e cur b ticks dwell)
prefer_up es e cur b ticks dwell found u = elim (prefer_cases e cur b ticks dwell) [
  | inl (p, _) ↦ subst (UpAt es) (sym p) u
  | inr (p, h) ↦ subst (UpAt es) (sym p) (e, found, h)
]

same_result :
    {rs' rs'' : RuleState} {c c' : Bool} {r : Option (RuleState × Bool)}
    → r ≡ some (rs', c)
    → r ≡ some (rs'', c')
    → ◌≡◌ {A = RuleState × Bool} (rs', c) (rs'', c')
same_result p q = cc

UpAt-unique :
    (es : List EndpointState) (i : ℕ) {e : EndpointState}
    → get_elem? es i ≡ some e
    → UpAt es i
    → e.up ≡ true
UpAt-unique es i p (d, q, h) = cc

-- A valid rule that has an endpoint which is up is never left on a dead one: after `reselect` its active
-- endpoint is up.
pub reselect-UpAt :
    (rs : RuleState) (t : FailoverTunables) (i : ℕ) (rs' : RuleState) (changed : Bool)
    → IsValid rs
    → UpAt rs.endpoints i
    → reselect rs t ≡ some (rs', changed)
    → (a : ℕ) × (rs'.active_idx ≡ some a) × UpAt rs'.endpoints a
reselect-UpAt rs t i rs' changed v u r = elim (reselect_cases rs t v) [
  | inl (n, _) ↦ absurd (NoneUp-UpAt rs.endpoints i n u)
  | inr (cur, b, e, _, found, best, h) ↦
      let p = prefer e cur b rs.ticks_since_switch (dwell_ticks t) in
      let same : rs' ≡ (commit rs (some p)).0 = ap (λ x. x.0) (same_result r h) in
      (
        p,
        ap (λ x. x.active_idx) same ∙ commit_active rs p,
        subst (λ es. UpAt es p) (sym (ap (λ x. x.endpoints) same ∙ commit_endpoints rs p))
            (prefer_up rs.endpoints e cur b rs.ticks_since_switch (dwell_ticks t) found best.0),
      )
]

commit_changed :
    (rs : RuleState) (i cur : ℕ)
    → rs.active_idx ≡ some cur
    → (commit rs (some i)).1 ≡ true
    → i ≢ cur
unfolding commit
commit_changed rs i cur e h = ground arith

-- Min-dwell, on a valid rule: a switch away from an active endpoint that is up goes to an endpoint of higher priority,
-- the first that is up, and only after the dwell window has passed.
pub reselect_dwell :
    (rs : RuleState) (t : FailoverTunables) (cur : ℕ) (rs' : RuleState)
    → IsValid rs
    → rs.active_idx ≡ some cur
    → UpAt rs.endpoints cur
    → reselect rs t ≡ some (rs', true)
    → (b : ℕ) × (rs'.active_idx ≡ some b)
      × UpAt rs.endpoints b
      × (b < cur)
      × (dwell_ticks t ≤ rs.ticks_since_switch)
      × ((i : ℕ) → UpAt rs.endpoints i → b ≤ i)
reselect_dwell rs t cur rs' v active u r = elim (reselect_cases rs t v) [
  | inl (n, _) ↦ absurd (NoneUp-UpAt rs.endpoints cur n u)
  | inr (cur', b, e, active', found, best, h) ↦
      let p = prefer e cur' b rs.ticks_since_switch (dwell_ticks t) in
      let same : cur ≡ cur' = cc in
      let now : rs' ≡ (commit rs (some p)).0 = ap (λ x. x.0) (same_result r h) in
      let moves : (commit rs (some p)).1 ≡ true = sym (ap (λ x. x.1) (same_result r h)) in
      let other : p ≢ cur' = commit_changed rs p cur' active' moves in
      let alive : e.up ≡ true =
        UpAt-unique rs.endpoints cur' found (subst (UpAt rs.endpoints) same u) in
      let why = prefer_cases e cur' b rs.ticks_since_switch (dwell_ticks t) in
      let chosen : p ≡ b = ground arith in
      (
        b,
        ap (λ x. x.active_idx) now ∙ commit_active rs p ∙ ap (λ x. some x) chosen,
        best.0,
        ground arith,
        ground arith,
        best.1,
      )
]

commit_active_same :
    (rs : RuleState) (i : ℕ) → rs.active_idx ≡ some i → commit rs (some i) ≡ (rs, false)
unfolding commit
commit_active_same rs i h = ground arith

-- Weighing an active endpoint that is up and is the best leaves it in place.
settled :
    (rs : RuleState) (t : FailoverTunables) (p : ℕ)
    → IsValid rs
    → rs.active_idx ≡ some p
    → UpAt rs.endpoints p
    → ((i : ℕ) → UpAt rs.endpoints i → p ≤ i)
    → reselect rs t ≡ some (rs, false)
settled rs t p v active u least = elim (reselect_cases rs t v) [
  | inl (_, h) ↦ h
  | inr (cur, b, e, active', found, best, h) ↦
      let same : p ≡ cur = cc in
      let alive : e.up ≡ true =
        UpAt-unique rs.endpoints cur found (subst (UpAt rs.endpoints) same u) in
      let why = prefer_cases e cur b rs.ticks_since_switch (dwell_ticks t) in
      let low : p ≤ b = least b best.0 in
      let stays : prefer e cur b rs.ticks_since_switch (dwell_ticks t) ≡ cur = ground arith in
      h ∙ ap (λ c. some c) (ap (λ q. commit rs (some q)) stays ∙ commit_active_same rs cur active')
]

-- On a valid rule, a second selection on the same probe results never switches again.
pub reselect_settles :
    (rs : RuleState) (t : FailoverTunables) (rs' : RuleState) (changed : Bool)
    → IsValid rs
    → reselect rs t ≡ some (rs', changed)
    → reselect rs' t ≡ some (rs', false)
reselect_settles rs t rs' changed v r = elim (reselect_cases rs t v) [
  | inl (_, h) ↦
      let same : rs' ≡ rs = ap (λ x. x.0) (same_result r h) in
      subst (λ s. reselect s t ≡ some (s, false)) (sym same) h
  | inr (cur, b, e, active, found, best, h) ↦
      let p = prefer e cur b rs.ticks_since_switch (dwell_ticks t) in
      let now : rs' ≡ (commit rs (some p)).0 = ap (λ x. x.0) (same_result r h) in
      let below : p < length rs.endpoints =
        prefer-lt e cur b rs.ticks_since_switch (dwell_ticks t) (length rs.endpoints)
          (get_elem?-lt rs.endpoints cur found) best.2 in
      let selected = commit-Selects rs p v below in
      subst (λ s. reselect s t ≡ some (s, false)) (sym now)
        (elim (prefer_cases e cur b rs.ticks_since_switch (dwell_ticks t)) [
          | inl (is_best, _) ↦
              settled (commit rs (some p)).0 t p selected.valid (commit_active rs p)
                (subst (λ es. UpAt es p) (sym (commit_endpoints rs p))
                  (subst (UpAt rs.endpoints) (sym is_best) best.0))
                (subst (λ es. (i : ℕ) → UpAt es i → p ≤ i) (sym (commit_endpoints rs p))
                  (subst (λ q. (i : ℕ) → UpAt rs.endpoints i → q ≤ i) (sym is_best) best.1))
          | inr (stays, _) ↦
              let kept : commit rs (some p) ≡ (rs, false) =
                ap (λ q. commit rs (some q)) stays ∙ commit_active_same rs cur active in
              subst (λ s. reselect s t ≡ some (s, false)) (sym (ap (λ x. x.0) kept))
                (h ∙ ap (λ c. some c) kept)
        ])
]
