-- ===== src/Supervisor/Isolation.antt =====
-- crates/agent/src/supervisor.rs: what `start` and `stop_tool` do to the slots of both tools.
use multi_proxy.Prelude.{◌≡◌, refl, ◌↔◌, Option, none, some, Text}
use multi_proxy.Contract.Model.{Tool, gost, realm}
use multi_proxy.Supervisor.{
  Result, ok, err, Processes, Supervisor, slot, set_slot, start, unit_result, ok_child, kill_child,
  child_of, restart_count,
}
use multi_proxy.Supervisor.Healing.{other, path_of}

module _ (World Child E : Type 0) (os : Processes World Child E) where
  abbrev pub IsOk : Result E Unit → Type 0
  IsOk (ok u) = Unit
  IsOk (err e) = ⊥

  abbrev pub HasChild : Option Child → Type 0
  HasChild none = ⊥
  HasChild (some c) = Unit

  IsOk-iff : (r : Result E Child) → IsOk (unit_result World Child E os r) ↔ HasChild (ok_child r)
  IsOk-iff (ok c) = ((λ _. tt), λ _. tt)
  IsOk-iff (err e) = ((λ z. z), λ z. z)

  -- Starting a tool, whether the spawn succeeds or not, makes the tool desired with the new
  -- configuration, with a child exactly if the start reports success, and changes neither the other
  -- tool's slot nor the restart counter.
  pub start_records :
      (tool : Tool) (path : Text) (s : Supervisor Child) (w : World)
      → let (r, after) = start World Child E os tool path s w in
        (path_of (slot after.0 tool) ≡ some path)
        × (IsOk r ↔ HasChild (child_of (slot after.0 tool)))
        × (slot after.0 (other tool) ≡ slot s (other tool))
        × (restart_count after.0 ≡ restart_count s)
  unfolding start slot set_slot restart_count
  start_records gost path s w = (
    refl,
    IsOk-iff (os.spawn gost path (kill_child World Child E os (child_of (slot s gost)) w)).0,
    refl,
    refl,
  )
  start_records realm path s w = (
    refl,
    IsOk-iff (os.spawn realm path (kill_child World Child E os (child_of (slot s realm)) w)).0,
    refl,
    refl,
  )
