-- ===== src/Failover/Selection.antt =====
-- crates/agent/src/failover.rs: what `reselect` guarantees of the active backend.
use multi_proxy.Prelude.{
  ℕ, zero, suc, ◌≤◌, ◌<◌, ◌≡◌, refl, sym, subst, ap, ◌⊎◌, inl, inr, true, false, List, [], ◌∷◌,
  Option, none, some, get_elem?, length, arith, Bool-cases,
}
use multi_proxy.Failover.Endpoint.{FailoverTunables, EndpointState, dwell_ticks}
use multi_proxy.Failover.Rule.{RuleState, best_up, prefer, choose, commit, reselect, next_index}

-- The endpoint at an index is up.
abbrev pub UpAt : List EndpointState → ℕ → Type 0
UpAt es i = (e : EndpointState) × (get_elem? es i ≡ some e) × (e.up ≡ true)

abbrev pub NoneUp : List EndpointState → Type 0
NoneUp [] = Unit {0}
NoneUp (e ∷ es) = (e.up ≡ false) × NoneUp es

-- What the position search returns.
abbrev pub IsBest : List EndpointState → Option ℕ → Type 0
IsBest es none = NoneUp es
IsBest es (some b) = UpAt es b × ((i : ℕ) → UpAt es i → b ≤ i) × (b < length es)

pub NoneUp-UpAt : (es : List EndpointState) (i : ℕ) → NoneUp es → ¬ UpAt es i
NoneUp-UpAt [] i n u = cc u.1
NoneUp-UpAt (e ∷ es) zero n (d, p, q) = grind arith
NoneUp-UpAt (e ∷ es) (suc i) n u = NoneUp-UpAt es i n.1 u

IsBest-next :
    (e : EndpointState) (es : List EndpointState) (o : Option ℕ)
    → e.up ≡ false
    → IsBest es o
    → IsBest (e ∷ es) (next_index o)
IsBest-next e es none h b = (h, b)
IsBest-next e es (some i) h (u, least, bound) = (u, later, omega arith)
  where
    later : (j : ℕ) → UpAt (e ∷ es) j → suc i ≤ j
    later zero (d, p, q) = grind arith
    later (suc j) v = omega (arith, least j v)

best_up_first :
    (e : EndpointState) (es : List EndpointState) → e.up ≡ true → best_up (e ∷ es) ≡ some 0
unfolding best_up
best_up_first e es h = ground arith

best_up_later :
    (e : EndpointState) (es : List EndpointState)
    → e.up ≡ false
    → best_up (e ∷ es) ≡ next_index (best_up es)
unfolding best_up
best_up_later e es h = ground arith

pub best_up-IsBest : (es : List EndpointState) → IsBest es (best_up es)
best_up-IsBest [] = unfold best_up in tt
best_up-IsBest (e ∷ es) = elim (Bool-cases e.up) [
  | inl h ↦
      subst (IsBest (e ∷ es)) (sym (best_up_first e es h))
        ((e, refl, h), (λ i u. omega arith), omega arith)
  | inr h ↦
      subst (IsBest (e ∷ es)) (sym (best_up_later e es h))
        (IsBest-next e es (best_up es) h (best_up-IsBest es))
]

-- The endpoints match the backends, and the active index is one of them unless there is none.
abbrev pub ActiveIn : ℕ → Option ℕ → Type 0
ActiveIn n none = n ≡ 0
ActiveIn n (some i) = i < n

pub record IsValid (rs : RuleState) : Type 0 where
  pub matched : length rs.endpoints ≡ length rs.spec.backends
  pub in_bounds : ActiveIn (length rs.endpoints) rs.active_idx

get_elem?_of_lt :
    (es : List EndpointState) (i : ℕ)
    → i < length es
    → (e : EndpointState) × (get_elem? es i ≡ some e)
get_elem?_of_lt [] i h = absurd (omega arith)
get_elem?_of_lt (e ∷ es) zero h = (e, refl)
get_elem?_of_lt (e ∷ es) (suc i) h = get_elem?_of_lt es i (omega arith)

commit_same : (rs : RuleState) → commit rs rs.active_idx ≡ (rs, false)
unfolding commit
commit_same rs = ground arith

-- The two ways through `reselect`: no endpoint is up, or the active one is weighed against the best.
abbrev Weighed : RuleState → FailoverTunables → Type 0
Weighed rs t =
    (cur : ℕ) × (b : ℕ) × (e : EndpointState) × (rs.active_idx ≡ some cur)
    × (get_elem? rs.endpoints cur ≡ some e)
    × IsBest rs.endpoints (some b)
    × (reselect rs t
        ≡ some (commit rs (some (prefer e cur b rs.ticks_since_switch (dwell_ticks t)))))

weigh :
    (rs : RuleState) (t : FailoverTunables) (o p : Option ℕ)
    → best_up rs.endpoints ≡ o
    → rs.active_idx ≡ p
    → IsBest rs.endpoints o
    → ActiveIn (length rs.endpoints) p
    → (NoneUp rs.endpoints × (reselect rs t ≡ some (rs, false))) ⊎ Weighed rs t
unfolding reselect choose
weigh rs t none p eo ep best valid = inl (best, rw (eo, choose) (ap (λ c. some c) (commit_same rs)))
weigh rs t (some b) none eo ep best valid = absurd (omega (arith, best.2))
weigh rs t (some b) (some cur) eo ep best valid =
    let (e, found) = get_elem?_of_lt rs.endpoints cur valid in
    inr (cur, b, e, ep, found, best, ground arith)

pub reselect_cases :
    (rs : RuleState) (t : FailoverTunables)
    → IsValid rs
    → (NoneUp rs.endpoints × (reselect rs t ≡ some (rs, false))) ⊎ Weighed rs t
reselect_cases rs t v =
    weigh rs t (best_up rs.endpoints) rs.active_idx refl refl (best_up-IsBest rs.endpoints)
      v.in_bounds
