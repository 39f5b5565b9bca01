-- ===== src/Probing/Agreement.antt =====
-- crates/agent/src/selfheal.rs: the methods of the TCP probe beside the defaults that they replace.
use multi_proxy.Prelude.{
  ℕ, ◌≡◌, refl, ap, Bool, true, List, [], ◌∷◌, Text, any, Bool-cases, inl, inr, if◌then◌else◌,
}
use multi_proxy.Contract.Model.{BackendEndpoint}
use multi_proxy.Probing.{
  TcpBackendProbe, health_of, default_reachable, default_reachable_each, connects, reachable,
  reachable_each, reachable_each_timed,
}

module _ (connect : Text → ℕ → Bool) (p : TcpBackendProbe) where
  reachable_any :
      (targets : List BackendEndpoint)
      → reachable connect p targets ≡ default_reachable (reachable_each connect p) targets
  unfolding reachable reachable_each default_reachable any
  reachable_any [] = refl
  reachable_any (t ∷ []) = refl
  reachable_any (t ∷ u ∷ targets) =
      ap (λ b. if connects connect p t then true else b) (reachable_any (u ∷ targets))

  single : (t : BackendEndpoint) → reachable connect p (t ∷ []) ≡ connects connect p t
  unfolding reachable
  single t = elim (Bool-cases (connects connect p t)) [ inl e ↦ rw e refl | inr e ↦ rw e refl ]

  each_single :
      (targets : List BackendEndpoint)
      → reachable_each connect p targets ≡ default_reachable_each (reachable connect p) targets
  unfolding reachable_each default_reachable_each
  each_single [] = refl
  each_single (t ∷ targets) =
      rw (single t) (ap (λ hs. health_of t (connects connect p t) ∷ hs) (each_single targets))

  timed :
      (targets : List BackendEndpoint)
      → reachable_each_timed connect p targets p.timeout ≡ reachable_each connect p targets
  unfolding reachable_each reachable_each_timed connects
  timed [] = refl
  timed (t ∷ targets) = ap (λ hs. health_of t (connects connect p t) ∷ hs) (timed targets)

  -- If whether a connection is made depends on the address and the time allowed only, then the methods
  -- of the TCP probe give what the defaults of its trait would: some target is reachable exactly if
  -- one is in the list of all, although the search stops at the first; each entry of the list is what
  -- the target alone gives, in order; and a timed probe with the probe's own time gives that list.
  pub reachable_defaults :
      (targets : List BackendEndpoint)
      → (reachable connect p targets ≡ default_reachable (reachable_each connect p) targets)
        × (reachable_each connect p targets ≡ default_reachable_each (reachable connect p) targets)
        × (reachable_each_timed connect p targets p.timeout ≡ reachable_each connect p targets)
  reachable_defaults targets = (reachable_any targets, each_single targets, timed targets)
