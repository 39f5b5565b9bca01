-- ===== src/Supervisor.antt =====
-- crates/agent/src/supervisor.rs: the supervisor of the forwarding processes, one slot per tool.
-- The processes are behind the two traits of the source, here the record `Processes` over a state of the
-- operating system. The agent's copy of the `Tool` enum is the contract's.
pub mod Healing
pub mod Isolation
mod Tests
use multi_proxy.Prelude.{
  ℕ, ◌+◌, ◌%◌, ◌^◌, Bool, true, false, ◌||◌, List, [], ◌∷◌, ◌++◌, Option, none, some, Text,
  if◌then◌else◌,
}
pub use multi_proxy.Prelude.Results.{Result, ok, err}
use multi_proxy.Contract.Model.{Tool, gost, realm}

-- `ChildProcess` and `ProcessSpawner`; a child is a handle, its state is in the world.
pub record Processes (World Child E : Type 0) : Type 0 where
  pub is_running : Child → World → Result E Bool × World
  pub kill : Child → World → Result E Unit × World
  pub pid : Child → Option ℕ
  pub spawn : Tool → Text → World → Result E Child × World

pub record Slot (Child : Type 0) : Type 0 where
  pub config_path : Text
  pub child : Option Child

pub record Supervisor (Child : Type 0) : Type 0 where
  pub gost_slot : Option (Slot Child)
  pub realm_slot : Option (Slot Child)
  pub restarts : ℕ

module _ {Child : Type 0} where
  unfoldable pub slot : Supervisor Child → Tool → Option (Slot Child)
  slot s gost = s.gost_slot
  slot s realm = s.realm_slot

  unfoldable pub set_slot : Supervisor Child → Tool → Option (Slot Child) → Supervisor Child
  set_slot s gost new = record s { gost_slot = new }
  set_slot s realm new = record s { realm_slot = new }

  abbrev pub child_of : Option (Slot Child) → Option Child
  child_of none = none
  child_of (some sl) = sl.child

  abbrev pub ok_child : {E : Type 0} → Result E Child → Option Child
  ok_child (ok c) = some c
  ok_child (err e) = none

unfoldable pub new_supervisor : (Child : Type 0) → Supervisor Child
new_supervisor Child = record { gost_slot = none; realm_slot = none; restarts = 0 }

module _ (World Child E : Type 0) (os : Processes World Child E) where
  -- Killing what there is; the outcome is ignored.
  abbrev pub kill_child : Option Child → World → World
  kill_child none w = w
  kill_child (some c) w = (os.kill c w).1

  abbrev pub unit_result : Result E Child → Result E Unit
  unit_result (ok c) = ok tt
  unit_result (err e) = err e

  unfoldable pub start :
      Tool → Text → Supervisor Child → World → Result E Unit × (Supervisor Child × World)
  unfolding slot set_slot
  start tool path s w =
      let (r, w') = os.spawn tool path (kill_child (child_of (slot s tool)) w) in
      (
        unit_result r,
        (set_slot s tool (some (record { config_path = path; child = ok_child r })), w'),
      )

  unfoldable pub stop_tool : Tool → Supervisor Child → World → Supervisor Child × World
  unfolding slot set_slot
  stop_tool tool s w = (set_slot s tool none, kill_child (child_of (slot s tool)) w)

  unfoldable pub stop : Supervisor Child → World → Supervisor Child × World
  unfolding stop_tool
  stop s w = let (s', w') = stop_tool gost s w in stop_tool realm s' w'

  -- Whether a child is alive, where a missing one is not.
  abbrev pub check_child : Option Child → World → Result E Bool × World
  check_child none w = (ok false, w)
  check_child (some c) w = os.is_running c w

  -- The respawn from the slot's last configuration.
  abbrev pub respawned :
      Tool
      → Text
      → Supervisor Child
      → Result E Child × World
      → Result E Bool × (Supervisor Child × World)
  respawned tool path s (err e, w) = (err e, (s, w))
  respawned tool path s (ok c, w) = (
    ok true,
    (
      record (set_slot s tool (some (record { config_path = path; child = some c }))) {
        restarts = (s.restarts + 1) % 2 ^ 32;
      },
      w,
    ),
  )

  abbrev pub heal_checked :
      Tool
      → Text
      → Supervisor Child
      → Result E Bool × World
      → Result E Bool × (Supervisor Child × World)
  heal_checked tool path s (err e, w) = (err e, (s, w))
  heal_checked tool path s (ok true, w) = (ok false, (s, w))
  heal_checked tool path s (ok false, w) = respawned tool path s (os.spawn tool path w)

  -- One round of the loop over the tools, for the tool's slot.
  abbrev pub heal_slot :
      Tool
      → Option (Slot Child)
      → Supervisor Child
      → World
      → Result E Bool × (Supervisor Child × World)
  heal_slot tool none s w = (ok false, (s, w))
  heal_slot tool (some sl) s w = heal_checked tool sl.config_path s (check_child sl.child w)

  unfoldable pub heal_tool :
      Tool → Supervisor Child → World → Result E Bool × (Supervisor Child × World)
  unfolding slot set_slot
  heal_tool tool s w = heal_slot tool (slot s tool) s w

  abbrev pub or_healed :
      Bool → Result E Bool × (Supervisor Child × World) → Result E Bool × (Supervisor Child × World)
  or_healed healed (err e, s) = (err e, s)
  or_healed healed (ok again, s) = (ok (healed || again), s)

  -- The second round, unless the first returned early.
  abbrev pub heal_realm :
      Result E Bool × (Supervisor Child × World) → Result E Bool × (Supervisor Child × World)
  heal_realm (err e, s) = (err e, s)
  heal_realm (ok healed, (s, w)) = or_healed healed (heal_tool realm s w)

  unfoldable pub heal_if_crashed :
      Supervisor Child → World → Result E Bool × (Supervisor Child × World)
  unfolding heal_tool
  heal_if_crashed s w = heal_realm (heal_tool gost s w)

  -- `unwrap_or(false)`.
  abbrev pub or_false : Result E Bool → Bool
  or_false (ok up) = up
  or_false (err e) = false

  abbrev pub unless_down : Bool → World → Bool × World → Bool × World
  unless_down true w rest = rest
  unless_down false w rest = (false, w)

  -- The loop, with the answer when no slot is left; a slot that is down returns early.
  unfoldable pub all_up : Bool → List (Option (Slot Child)) → World → Bool × World
  all_up any [] w = (any, w)
  all_up any (none ∷ slots) w = all_up any slots w
  all_up any (some sl ∷ slots) w =
      let checked = check_child sl.child w in
      unless_down (or_false checked.0) checked.1 (all_up true slots checked.1)

  unfoldable pub forwarding_up : Supervisor Child → World → Bool × World
  unfolding all_up
  forwarding_up s w = all_up false (s.gost_slot ∷ s.realm_slot ∷ []) w

  abbrev pub pid_of : Option Child → List ℕ
  pid_of none = []
  pid_of (some c) = elim (os.pid c) [ none ↦ [] | some n ↦ n ∷ [] ]

  unfoldable pub pids : Supervisor Child → List ℕ
  pids s = pid_of (child_of s.gost_slot) ++ pid_of (child_of s.realm_slot)

unfoldable pub restart_count : {Child : Type 0} → Supervisor Child → ℕ
restart_count s = s.restarts
