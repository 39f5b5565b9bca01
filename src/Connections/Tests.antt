-- ===== src/Connections/Tests.antt =====
-- crates/panel/src/ws_server.rs: an agent that reconnects before its old socket is torn down.
use multi_proxy.Prelude.{◌≡◌, refl, List, [], ◌∷◌, codes, get, inl, inr}
use multi_proxy.Connections.Supersede.{
  Event, registered, touched, disconnected, after, current, Settled, after-current,
  registered-Settled,
}

-- The newest event first: the old socket's teardown comes after the new registration.
abbrev history : List Event
history =
    disconnected (codes "n") (codes "s1")
    ∷ touched (codes "n") 1000
    ∷ registered (codes "n") (codes "s2") 2
    ∷ registered (codes "n") (codes "s1") 1
    ∷ []

after-current_example : get (codes "n") (after history).conns ≡ current (codes "n") history
after-current_example = after-current (codes "n") history

registered-Settled_example : Settled (codes "n") (record { session = codes "s1"; tx = 1 }) history
registered-Settled_example =
    registered-Settled (codes "n") (codes "s1") 1 history (inr (inr (inr (inl refl))))
