-- ===== src/Connections/Supersede.antt =====
-- crates/panel/src/ws_server.rs: which connection of a node is registered after any history.
use multi_proxy.Prelude.{
  ℕ, ◌≡◌, refl, sym, ap, ◌∙◌, ◌≢◌, ◌⊎◌, inl, inr, List, [], ◌∷◌, Option, none, some, Text, ◌==◌,
  nat_eq, list_eq, list_beq_iff, get, erase, get-insert, get-erase, if◌then◌else◌, Bool-cases,
  arith, Member, subst,
}
use multi_proxy.Connections.{
  AgentConn, Registry, close_prev, supersede_register, touch_runtime, drop_conn, disconnect,
}

pub data Event : Type 0 where
  registered : Text → Text → ℕ → Event
  touched : Text → ℕ → Event
  disconnected : Text → Text → Event

abbrev pub empty : Registry
empty = record { conns = []; runtimes = []; superseded = [] }

-- The registry after a history, whose newest event is first.
unfoldable pub after : List Event → Registry
unfolding supersede_register touch_runtime disconnect
after [] = empty
after (registered node_id session tx ∷ es) = supersede_register (after es) node_id session tx
after (touched node_id now ∷ es) = touch_runtime (after es) node_id now
after (disconnected node_id session ∷ es) = disconnect (after es) node_id session

abbrev pub unless_session : Text → Option AgentConn → Option AgentConn
unless_session session none = none
unless_session session (some conn) = if conn.session == session then none else some conn

-- The specification, for one node: the newest connection, until it disconnects itself.
unfoldable pub current : Text → List Event → Option AgentConn
current node [] = none
current node (registered node_id session tx ∷ es) =
    if node_id == node then some (record { session = session; tx = tx }) else current node es
current node (touched node_id now ∷ es) = current node es
current node (disconnected node_id session ∷ es) =
    if node_id == node then unless_session session (current node es) else current node es

get-drop_conn_self :
    (r : Registry) (node session : Text) (o : Option AgentConn)
    → get node r.conns ≡ o
    → get node (drop_conn r node session o).conns ≡ unless_session session o
get-drop_conn_self r node session none e = e
get-drop_conn_self r node session (some conn) e = elim (Bool-cases (conn.session == session)) [
  | inl b ↦ rw b (ground (arith, get-erase node node r.conns, list_beq_iff node node))
  | inr b ↦ rw b e
]

get-drop_conn_other :
    (r : Registry) (node node_id session : Text) (o : Option AgentConn)
    → node_id ≢ node
    → get node (drop_conn r node_id session o).conns ≡ get node r.conns
get-drop_conn_other r node node_id session none n = refl
get-drop_conn_other r node node_id session (some conn) n =
    elim (Bool-cases (conn.session == session)) [
      | inl b ↦ rw b (ground (arith, get-erase node_id node r.conns, list_beq_iff node_id node))
      | inr b ↦ rw b refl
    ]

get_nil : (node : Text) → get {V = AgentConn} node [] ≡ none
unfolding get
get_nil node = refl

-- After any history of registrations, contacts and teardowns, the connection of a node is the newest one
-- registered for it, until that one's own session disconnects: neither the teardown of a superseded
-- connection nor what happens to other nodes removes it.
pub after-current : (node : Text) (es : List Event) → get node (after es).conns ≡ current node es
unfolding after current supersede_register touch_runtime disconnect
after-current node [] = get_nil node
after-current node (registered node_id session tx ∷ es) = ground (
  arith,
  after-current node es,
  get-erase node_id node (after es).conns,
  get-insert node_id node (record { session = session; tx = tx }) (erase node_id (after es).conns),
)
after-current node (touched node_id now ∷ es) = after-current node es
after-current node (disconnected node_id session ∷ es) = elim (Bool-cases (node_id == node)) [
  | inl b ↦
      let same : node_id ≡ node = (list_beq_iff node_id node).0 b in
      rw b (
        ap (λ n. get node (drop_conn (after es) n session (get n (after es).conns)).conns) same
        ∙ get-drop_conn_self (after es) node session (get node (after es).conns) refl
        ∙ ap (unless_session session) (after-current node es))
  | inr b ↦
      let ne : node_id ≢ node = λ q. ground (arith, list_beq_iff node_id node) in
      rw b (
        get-drop_conn_other (after es) node node_id session (get node_id (after es).conns) ne
        ∙ after-current node es)
]

drop_conn-superseded :
    (r : Registry) (node session : Text) (o : Option AgentConn)
    → (drop_conn r node session o).superseded ≡ r.superseded
drop_conn-superseded r node session none = refl
drop_conn-superseded r node session (some conn) = elim (Bool-cases (conn.session == session)) [
  | inl b ↦ rw b refl
  | inr b ↦ rw b refl
]

Member-close_prev :
    (tx : ℕ) (o : Option AgentConn) (closed : List ℕ)
    → Member tx closed
    → Member tx (close_prev o closed)
Member-close_prev tx none closed m = m
Member-close_prev tx (some prev) closed m = inr m

closes :
    (c : AgentConn) (o : Option AgentConn) (closed : List ℕ)
    → o ≡ some c
    → Member c.tx (close_prev o closed)
closes c none closed e = cc
closes c (some prev) closed e = inl (ground arith)

-- A registered connection is the current one, or was told to close, or has disconnected itself.
abbrev pub Settled : Text → AgentConn → List Event → Type 0
Settled node c es =
    (current node es ≡ some c)
    ⊎ (Member c.tx (after es).superseded ⊎ Member (disconnected node c.session) es)

Settled-registered :
    (node : Text) (c : AgentConn) (node_id session : Text) (tx : ℕ) (es : List Event)
    → Settled node c es
    → Settled node c (registered node_id session tx ∷ es)
unfolding after current supersede_register
Settled-registered node c node_id session tx es (inr (inl m)) =
    inr (inl (Member-close_prev c.tx (get node_id (after es).conns) (after es).superseded m))
Settled-registered node c node_id session tx es (inr (inr d)) = inr (inr (inr d))
Settled-registered node c node_id session tx es (inl e) = elim (Bool-cases (node_id == node)) [
  | inl b ↦
      let same : node ≡ node_id = sym ((list_beq_iff node_id node).0 b) in
      inr (
        inl (
          closes c (get node_id (after es).conns) (after es).superseded
            (ap (λ n. get n (after es).conns) (sym same) ∙ after-current node es ∙ e)))
  | inr b ↦ inl (rw b e)
]

Settled-disconnected :
    (node : Text) (c : AgentConn) (node_id session : Text) (es : List Event)
    → Settled node c es
    → Settled node c (disconnected node_id session ∷ es)
unfolding after current disconnect
Settled-disconnected node c node_id session es (inr (inl m)) = inr (
    inl (
      subst (Member c.tx)
        (sym (drop_conn-superseded (after es) node_id session (get node_id (after es).conns))) m))
Settled-disconnected node c node_id session es (inr (inr d)) = inr (inr (inr d))
Settled-disconnected node c node_id session es (inl e) = elim (Bool-cases (node_id == node)) [
  | inr b ↦ inl (rw b e)
  | inl b ↦ elim (Bool-cases (c.session == session)) [
    | inl s ↦ inr (
        inr (
          inl (
            ap (λ n. disconnected n session) ((list_beq_iff node_id node).0 b)
            ∙ ap (λ t. disconnected node t) (sym ((list_beq_iff c.session session).0 s)))))
    | inr s ↦ inl (rw b (ap (unless_session session) e ∙ rw s refl))
  ]
]

Settled-touched :
    (node : Text) (c : AgentConn) (node_id : Text) (now : ℕ) (es : List Event)
    → Settled node c es
    → Settled node c (touched node_id now ∷ es)
unfolding after current touch_runtime
Settled-touched node c node_id now es (inl e) = inl e
Settled-touched node c node_id now es (inr (inl m)) = inr (inl m)
Settled-touched node c node_id now es (inr (inr d)) = inr (inr (inr d))

current_newest :
    (node session : Text) (tx : ℕ) (es : List Event)
    → current node (registered node session tx ∷ es) ≡ some (record { session = session; tx = tx })
unfolding current
current_newest node session tx es = ground (arith, list_beq_iff node node)

-- Two sockets of one node are never both left alive: after any history, a connection that was ever
-- registered is the node's current one, or has been told to close as superseded, or its session has
-- disconnected.
pub registered-Settled :
    (node session : Text) (tx : ℕ) (es : List Event)
    → Member (registered node session tx) es
    → Settled node (record { session = session; tx = tx }) es
registered-Settled node session tx [] m = elim m [ ]
registered-Settled node session tx (registered n s t ∷ es) (inl e) =
    inl (ap (λ ev. current node (ev ∷ es)) e ∙ current_newest node session tx es)
registered-Settled node session tx (registered n s t ∷ es) (inr m) =
    Settled-registered node _ n s t es (registered-Settled node session tx es m)
registered-Settled node session tx (touched n now ∷ es) (inl e) = cc
registered-Settled node session tx (touched n now ∷ es) (inr m) =
    Settled-touched node _ n now es (registered-Settled node session tx es m)
registered-Settled node session tx (disconnected n s ∷ es) (inl e) = cc
registered-Settled node session tx (disconnected n s ∷ es) (inr m) =
    Settled-disconnected node _ n s es (registered-Settled node session tx es m)
