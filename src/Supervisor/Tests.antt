-- ===== src/Supervisor/Tests.antt =====
-- crates/agent/src/supervisor.rs: the supervisor over a small operating system.
use multi_proxy.Prelude.{
  ℕ, ◌+◌, ◌≡◌, refl, ◌↔◌, inl, true, List, [], ◌∷◌, some, Text, codes, ◌==◌, nat_eq, contains,
  filter, not, arith, if◌then◌else◌,
}
use multi_proxy.Contract.Model.{gost, realm}
use multi_proxy.Supervisor.{
  Result, ok, err, Processes, Supervisor, heal_if_crashed, forwarding_up, start, slot, child_of,
  restart_count,
}
use multi_proxy.Supervisor.Healing.{Lives, path_of, heal_if_crashed-forwarding_up}
use multi_proxy.Supervisor.Isolation.{IsOk, HasChild, start_records}

-- The next process id, and the processes that live.
abbrev World : Type 0
World = ℕ × List ℕ

abbrev small_os : Processes World ℕ Text
small_os = record {
  is_running = λ c w. (ok (contains w.1 c), w);
  kill = λ c w. (ok tt, (w.0, filter (λ d. not (d == c)) w.1));
  pid = λ c. some c;
  spawn = λ tool path w. (ok w.0, (w.0 + 1, w.0 ∷ w.1));
}

abbrev done : ℕ → Result Text ℕ
done n = ok n

spawned_lives : (w : World) (c : ℕ) → done w.0 ≡ ok c → contains (w.0 ∷ w.1) c ≡ true
unfolding contains
spawned_lives w c e = grind arith

still_lives : (n d : ℕ) (xs : List ℕ) → contains xs d ≡ true → contains (n ∷ xs) d ≡ true
unfolding contains
still_lives n d xs e = ground arith

abbrev small_laws : Lives World ℕ Text small_os
small_laws = record {
  alive = λ c w. contains w.1 c;
  checked = λ c w. refl;
  check_keeps = λ c d w. refl;
  spawned = λ tool path w c e. spawned_lives w c e;
  spawn_keeps = λ tool path w d e. still_lives w.0 d w.1 e;
}

-- gost has crashed, and realm runs.
abbrev crashed : Supervisor ℕ
crashed = record {
  gost_slot = some (record { config_path = codes "gost.json"; child = some 1 });
  realm_slot = some (record { config_path = codes "realm.toml"; child = some 2 });
  restarts = 0;
}

abbrev healed : Supervisor ℕ
healed = record {
  gost_slot = some (record { config_path = codes "gost.json"; child = some 3 });
  realm_slot = some (record { config_path = codes "realm.toml"; child = some 2 });
  restarts = 1;
}

heals :
    heal_if_crashed World ℕ Text small_os crashed (3, 2 ∷ []) ≡ (ok true, (healed, (4, 3 ∷ 2 ∷ [])))
unfolding heal_if_crashed contains
heals = refl

heal_if_crashed-forwarding_up_example :
    ((forwarding_up World ℕ Text small_os healed (4, 3 ∷ 2 ∷ [])).0 ≡ true)
    × (path_of healed.gost_slot ≡ path_of crashed.gost_slot)
    × (path_of healed.realm_slot ≡ path_of crashed.realm_slot)
heal_if_crashed-forwarding_up_example =
    heal_if_crashed-forwarding_up World ℕ Text small_os small_laws crashed healed (3, 2 ∷ [])
      (4, 3 ∷ 2 ∷ []) true heals (inl tt)

start_records_example :
    let (r, after) = start World ℕ Text small_os gost (codes "new.json") crashed (3, 2 ∷ []) in
    (path_of (slot after.0 gost) ≡ some (codes "new.json"))
    × (IsOk World ℕ Text small_os r ↔ HasChild World ℕ Text small_os (child_of (slot after.0 gost)))
    × (slot after.0 realm ≡ slot crashed realm)
    × (restart_count after.0 ≡ restart_count crashed)
start_records_example =
    start_records World ℕ Text small_os gost (codes "new.json") crashed (3, 2 ∷ [])

-- The check of gost's child fails: the round ends, and realm, which has crashed, is not restarted.
abbrev failing_os : Processes World ℕ Text
failing_os = record small_os {
  is_running = λ c w. (if c == 1 then err (codes "check failed") else ok (contains w.1 c), w);
}

healing_stops :
    heal_if_crashed World ℕ Text failing_os crashed (3, [])
    ≡ (err (codes "check failed"), (crashed, (3, [])))
unfolding heal_if_crashed contains
healing_stops = refl
