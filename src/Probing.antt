-- ===== src/Probing.antt =====
-- crates/agent/src/selfheal.rs: the probe of backends over TCP, and the defaults of its trait.
-- `connect` tells whether a connection to an address is made within a number of milliseconds.
use multi_proxy.Prelude.{
  ℕ, Bool, true, false, List, [], ◌∷◌, ◌++◌, Text, map, any, codes, decimal, if◌then◌else◌,
}
use multi_proxy.Contract.Model.{BackendEndpoint}
use multi_proxy.Contract.Protocol.{BackendHealth}
pub mod Agreement
mod Tests

abbrev pub health_of : BackendEndpoint → Bool → BackendHealth
health_of t reachable = record { host = t.host; port = t.port; reachable = reachable }

-- The defaults of the trait `BackendProbe`, each over the other method.
unfoldable pub default_reachable :
    (List BackendEndpoint → List BackendHealth) → List BackendEndpoint → Bool
unfolding any
default_reachable each targets = any (λ (h : BackendHealth). h.reachable) (each targets)

unfoldable pub default_reachable_each :
    (List BackendEndpoint → Bool) → List BackendEndpoint → List BackendHealth
default_reachable_each reachable [] = []
default_reachable_each reachable (t ∷ targets) =
    health_of t (reachable (t ∷ [])) ∷ default_reachable_each reachable targets

unfoldable pub default_reachable_each_timed :
    (List BackendEndpoint → List BackendHealth) → List BackendEndpoint → ℕ → List BackendHealth
default_reachable_each_timed each targets timeout = each targets

pub record TcpBackendProbe : Type 0 where
  pub timeout : ℕ

module _ (connect : Text → ℕ → Bool) where
  unfoldable pub connects_within : BackendEndpoint → ℕ → Bool
  unfolding decimal
  connects_within target timeout =
      connect (target.host ++ (codes ":" ++ decimal target.port)) timeout

  unfoldable pub connects : TcpBackendProbe → BackendEndpoint → Bool
  unfolding connects_within
  connects p target = connects_within target p.timeout

  abbrev first_connects : TcpBackendProbe → List BackendEndpoint → Bool
  first_connects p [] = false
  first_connects p (t ∷ targets) = if connects p t then true else first_connects p targets

  abbrev is_empty : List BackendEndpoint → Bool
  is_empty [] = true
  is_empty (t ∷ targets) = false

  unfoldable pub reachable : TcpBackendProbe → List BackendEndpoint → Bool
  unfolding connects
  reachable p targets = if is_empty targets then false else first_connects p targets

  unfoldable pub reachable_each : TcpBackendProbe → List BackendEndpoint → List BackendHealth
  unfolding connects
  reachable_each p [] = []
  reachable_each p (t ∷ targets) = health_of t (connects p t) ∷ reachable_each p targets

  -- Several connections run at once, but `buffered` hands on their results in the order of the targets.
  unfoldable pub reachable_each_timed :
      TcpBackendProbe → List BackendEndpoint → ℕ → List BackendHealth
  unfolding connects_within
  reachable_each_timed p targets timeout =
      map (λ t. health_of t (connects_within t timeout)) targets

-- `NoBackendProbe`.
unfoldable pub no_backend_reachable : List BackendEndpoint → Bool
no_backend_reachable targets = false
