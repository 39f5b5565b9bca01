-- ===== src/Configgen/Backends.antt =====
-- crates/panel/src/configgen.rs: the backends that a push names for probing.
use multi_proxy.Prelude.{◌≡◌, ◌≢◌, true, List, [], ◌∷◌, nat_eq, list_eq, All, Any}
use multi_proxy.Contract.Model.{ForwardRule, BackendEndpoint}
use multi_proxy.Configgen.{backend_of, endpoint_leb}

-- Sorted and without repetition.
abbrev pub Ascending : List BackendEndpoint → Type 0
Ascending [] = Unit
Ascending (x ∷ xs) = All (λ y. (endpoint_leb x y ≡ true) × (x ≢ y)) xs × Ascending xs

-- A rule targets the backend.
abbrev pub Targeted : List ForwardRule → BackendEndpoint → Type 0
Targeted rules b = Any (λ r. backend_of r ≡ b) rules
