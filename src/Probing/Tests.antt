-- ===== src/Probing/Tests.antt =====
-- crates/agent/src/selfheal.rs: a run on a small input, and the theorem at such an input.
use multi_proxy.Prelude.{
  ℕ, ◌≡◌, refl, Bool, true, List, [], ◌∷◌, Text, codes, ◌==◌, nat_eq, list_eq, list_beq,
}
use multi_proxy.Contract.Model.{BackendEndpoint}
use multi_proxy.Probing.{
  TcpBackendProbe, default_reachable, default_reachable_each, reachable, reachable_each,
  reachable_each_timed,
}
use multi_proxy.Probing.Agreement.{reachable_defaults}

abbrev one_answers : Text → ℕ → Bool
one_answers addr timeout = addr == codes "b:443"

abbrev probe : TcpBackendProbe
probe = record { timeout = 3000 }

abbrev targets : List BackendEndpoint
targets = record { host = codes "a"; port = 80 } ∷ record { host = codes "b"; port = 443 } ∷ []

second_reachable : reachable one_answers probe targets ≡ true
unfolding reachable list_beq
second_reachable = refl

reachable_defaults_example :
    (reachable one_answers probe targets
      ≡ default_reachable (reachable_each one_answers probe) targets)
    × (reachable_each one_answers probe targets
        ≡ default_reachable_each (reachable one_answers probe) targets)
    × (reachable_each_timed one_answers probe targets 3000
        ≡ reachable_each one_answers probe targets)
reachable_defaults_example = reachable_defaults one_answers probe targets
