-- ===== src/Net/System/Visible.antt =====
-- The server without its streams and queues is the event loop of Net/EventLoop.
use buzzweb_server.Common.{
  ◌≡◌, refl, sym, ap, subst, ◌∙◌, true, false, Option, none, some, List, [], ◌∷◌, ◌==◌, eq_iff,
  arith, inl, inr, Bool-cases, Option-cases,
}
use mathlib.Core.Path.{fun_ext}
use buzzweb_server.Domain.Participant.{ParticipantId}
use buzzweb_server.Domain.InMemory.{Rooms}
use buzzweb_server.App.Json.{Json}
use buzzweb_server.Net.Listener.{SessionKind}
use buzzweb_server.Net.Session.{Hub, Session}
use buzzweb_server.Net.EventLoop
use buzzweb_server.Net.EventLoop.{Running, Sessions, no_draw, handled, deliver}
use buzzweb_server.Net.Connection
use buzzweb_server.Net.Connection.{
  Connection, new_connection, resumed, broken, after_handshake, after_accept, after_read,
  after_close, read_done,
}
use buzzweb_server.Net.System.{
  Connections, System, Event, connects, handshakes, accepts, writes, reads, closes, runs_post, put,
  placed, at_connection,
}

abbrev pub session_of : Option Connection → Option Session
session_of none = none
session_of (some c) = some c.session

abbrev pub sessions_of : Connections → Sessions
sessions_of connections p = session_of (connections p)

abbrev pub running_of : System → Running
running_of system = record {
  rooms = system.rooms;
  hub = system.hub;
  sessions = sessions_of system.connections;
}

-- what the event loop sees of an event: nothing of a post that runs, nor of a write without an error
abbrev pub visible : Event → List EventLoop.Event
visible (connects kind self) = EventLoop.Event.connects self ∷ []
visible (handshakes p failed) = EventLoop.Event.handshakes p failed ∷ []
visible (accepts p failed) = EventLoop.Event.accepts p failed ∷ []
visible (writes p true) = EventLoop.Event.fails p ∷ []
visible (writes p false) = []
visible (reads p result draw) = EventLoop.Event.reads p result draw ∷ []
visible (closes p is_open) = EventLoop.Event.closes p ∷ []
visible runs_post = []

put-sessions :
    (c : Connection) (connections : Connections)
    → sessions_of (put c connections) ≡ EventLoop.set c.session (sessions_of connections)
put-sessions c connections = fun_ext (λ p. elim (Bool-cases (c.session.self.participant_id == p)) [
  | inl same ↦ rw same refl
  | inr differs ↦ rw differs refl
])

pub placed-running :
    (system next : System) (c : Connection) (rooms : Rooms) (hub : Hub)
    → placed system (some (c, (rooms, hub))) ≡ some next
    → running_of next ≡ EventLoop.updated (sessions_of system.connections) (c.session, (rooms, hub))
placed-running system next c rooms hub e =
    let there : next
        ≡ record system { rooms = rooms; hub = hub; connections = put c system.connections } =
      ground (arith, e) in
    ap running_of there
    ∙ ap (λ (s : Sessions). record { rooms = rooms; hub = hub; sessions = s })
        (put-sessions c system.connections)

-- What a handler does to the stream changes neither the session nor the kind of the stream.
abbrev pub Keeps : (Connection → Option Connection) → Type 0
Keeps stream =
    (c c' : Connection) → stream c ≡ some c' → (c'.session ≡ c.session) × (c'.kind ≡ c.kind)

pub resumed-session :
    (stream : Connection → Option Connection) (c c' : Connection) (result : Session × (Rooms × Hub))
    (world : Rooms × Hub)
    → Keeps stream
    → resumed stream c result ≡ some (c', world)
    → ((c'.session, world) ≡ result) × (c'.kind ≡ c.kind)
resumed-session stream c c' (session, world') world keeps e =
    elim (Option-cases (stream (Connection.took session c))) [
      | inl stuck ↦ absurd (ground (arith, e, stuck))
      | inr (c1, moved) ↦
          let same = keeps (Connection.took session c) c1 moved in
          (ground (arith, e, moved, same), ground (arith, e, moved, same))
    ]

-- All connections are of one kind.
abbrev pub AreOfKind : SessionKind → System → Type 0
AreOfKind kind system =
    (p : ParticipantId) (c : Connection) → system.connections p ≡ some c → c.kind ≡ kind

abbrev pub KeepsKinds : System → System → Type 0
KeepsKinds system next = (kind : SessionKind) → AreOfKind kind system → AreOfKind kind next

pub placed-AreOfKind :
    (system next : System) (c : Connection) (rooms : Rooms) (hub : Hub) (kind : SessionKind)
    → placed system (some (c, (rooms, hub))) ≡ some next
    → c.kind ≡ kind
    → AreOfKind kind system
    → AreOfKind kind next
placed-AreOfKind system next c rooms hub kind e own all p other there =
    let here : put c system.connections p ≡ some other =
      let same : next
          ≡ record system { rooms = rooms; hub = hub; connections = put c system.connections } =
        ground (arith, e) in
      sym (ap (λ (s : System). s.connections p) same) ∙ there in
    ground (arith, here, own, all p other)

-- A handler that acts on the session as the event loop's does.
pub visible_handler :
    (json : Json) (event : EventLoop.Event) (system next : System) (p : ParticipantId)
    (handler : Connection → Rooms × Hub → Option (Connection × (Rooms × Hub)))
    → ((c c' : Connection) (world : Rooms × Hub)
        → handler c (system.rooms, system.hub) ≡ some (c', world)
        → ((c'.session, world) ≡ handled json event c.session (system.rooms, system.hub))
          × (c'.kind ≡ c.kind))
    → at_connection system handler (system.connections p) ≡ some next
    → (running_of next ≡ deliver json event (running_of system) (sessions_of system.connections p))
      × KeepsKinds system next
visible_handler json event system next p handler acts e =
    elim (Option-cases (system.connections p)) [
      | inl nobody ↦
          let unchanged : system ≡ next = ground (arith, e, nobody) in
          rw nobody
            (ap running_of (sym unchanged), λ kind all. subst (AreOfKind kind) unchanged all)
      | inr (c, here) ↦ elim (Option-cases (handler c (system.rooms, system.hub))) [
        | inl stuck ↦ absurd (ground (arith, e, here, stuck))
        | inr ((c', (rooms, hub)), moved) ↦
            let (same, kept) = acts c c' (rooms, hub) moved in
            let there : placed system (some (c', (rooms, hub))) ≡ some next =
              ground (arith, e, here, moved) in
            rw (here, sym same)
              (
                placed-running system next c' rooms hub there,
                λ kind all.
                    placed-AreOfKind system next c' rooms hub kind there (kept ∙ all p c here) all,
              )
      ]
    ]

put-sessions_same :
    (c : Connection) (connections : Connections)
    → session_of (connections c.session.self.participant_id) ≡ some c.session
    → sessions_of (put c connections) ≡ sessions_of connections
put-sessions_same c connections same = fun_ext (λ p.
    elim (Bool-cases (c.session.self.participant_id == p)) [
      | inl own ↦
          rw own (
            sym same
            ∙ ap (sessions_of connections) ((eq_iff c.session.self.participant_id p).0 own))
      | inr differs ↦ rw differs refl
    ])

-- A handler that leaves the session and the world alone.
pub silent_handler :
    (system next : System) (p : ParticipantId)
    (handler : Connection → Rooms × Hub → Option (Connection × (Rooms × Hub)))
    → ((c : Connection) → system.connections p ≡ some c → c.session.self.participant_id ≡ p)
    → ((c c' : Connection) (world : Rooms × Hub)
        → handler c (system.rooms, system.hub) ≡ some (c', world)
        → (c'.session ≡ c.session) × (world ≡ (system.rooms, system.hub)) × (c'.kind ≡ c.kind))
    → at_connection system handler (system.connections p) ≡ some next
    → (running_of next ≡ running_of system) × KeepsKinds system next
silent_handler system next p handler named silent e = elim (Option-cases (system.connections p)) [
  | inl nobody ↦
      let unchanged : system ≡ next = ground (arith, e, nobody) in
      (ap running_of (sym unchanged), λ kind all. subst (AreOfKind kind) unchanged all)
  | inr (c, here) ↦ elim (Option-cases (handler c (system.rooms, system.hub))) [
    | inl stuck ↦ absurd (ground (arith, e, here, stuck))
    | inr ((c', (rooms, hub)), moved) ↦
        let (same, untouched, kept) = silent c c' (rooms, hub) moved in
        let there : placed system (some (c', (system.rooms, system.hub))) ≡ some next =
          ground (arith, e, here, moved, untouched) in
        let own : c'.session.self.participant_id ≡ p =
          ap (λ (s : Session). s.self.participant_id) same ∙ named c here in
        (
          placed-running system next c' system.rooms system.hub there
              ∙ ap
                  (λ (s : Sessions). record {
                    rooms = system.rooms;
                    hub = system.hub;
                    sessions = s;
                  })
                  (sym (put-sessions c' system.connections)
                    ∙ put-sessions_same c' system.connections (
                        ap (sessions_of system.connections) own
                        ∙ ap session_of here
                        ∙ ap (λ (s : Session). some s) (sym same))),
          λ kind all.
              placed-AreOfKind system next c' system.rooms system.hub kind there
                (kept ∙ all p c here) all,
        )
  ]
]
