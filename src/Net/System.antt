-- ===== src/Net/System.antt =====
-- The whole server at work: the connections of all clients, the rooms and the registry, and the one
-- thread that runs the handlers, `Server::Run` in Server.cpp. `Send` posts a function to the event
-- loop, which runs the posted functions in the order of the posts, in between the other handlers.
pub mod Posts
pub mod Sound
pub mod Handled
pub mod Delivered
pub mod Draining
pub mod Drained
pub mod Replied
pub mod Reached
pub mod Relayed
pub mod Parted
pub mod Arrived
pub mod Visible
pub mod Refinement
pub mod Attended
pub mod Tests
pub mod RelayTests
pub mod ArrivalTests
use buzzweb_server.Common.{
  ℕ, suc, ◌+◌, String, Bool, true, false, Option, none, some, List, [], ◌∷◌, ◌==◌, ◌≡◌,
  if◌then◌else◌, get_elem?,
}
use buzzweb_server.Domain.Participant.{ParticipantId}
use buzzweb_server.Domain.InMemory.{Rooms, in_memory, no_rooms}
use buzzweb_server.App.Json.{Json}
use buzzweb_server.Net.SessionRegistry.{SessionPtr}
use buzzweb_server.Net.Listener.{SessionKind}
use buzzweb_server.Net.Session.{Hub, ReadResult}
use buzzweb_server.Net.EventLoop.{no_draw}
use buzzweb_server.Net.Connection
use buzzweb_server.Net.Connection.{Connection, Outstanding, new_connection, with_world}

abbrev pub Connections : Type 0
Connections = ParticipantId → Option Connection

-- The first `executed` of the posts `hub.sent` have run.
pub record System : Type 0 where
  pub rooms : Rooms
  pub hub : Hub
  pub connections : Connections
  pub executed : ℕ

abbrev pub begun : System
begun = record {
  rooms = no_rooms;
  hub = record { registry = []; sent = [] };
  connections = λ p. none;
  executed = 0;
}

abbrev pub put : Connection → Connections → Connections
put c connections p = if c.session.self.participant_id == p then some c else connections p

-- What can happen next: a client connects; an operation of its session completes, with an error or
-- without; the function that `Close` posted runs; the next of the functions that `Send` posted runs.
pub data Event : Type 0 where
  connects : SessionKind → SessionPtr → Event
  handshakes accepts writes : ParticipantId → Bool → Event
  reads : ParticipantId → ReadResult → (ℕ → ℕ) → Event
  closes : ParticipantId → Bool → Event
  runs_post : Event

abbrev pub placed : System → Option (Connection × (Rooms × Hub)) → Option System
placed system none = none
placed system (some (c, (rooms, hub))) =
    some (record system { rooms = rooms; hub = hub; connections = put c system.connections })

-- Nothing happens to a session that is not there.
abbrev pub at_connection :
    System
    → (Connection → Rooms × Hub → Option (Connection × (Rooms × Hub)))
    → Option Connection
    → Option System
at_connection system handler none = some system
at_connection system handler (some c) = placed system (handler c (system.rooms, system.hub))

abbrev pub advanced : System → System
advanced system = record system { executed = system.executed + 1 }

abbrev pub post_run : System → Option (SessionPtr × String) → Option System
post_run system none = some system
post_run system (some (receiver, message)) =
    at_connection (advanced system) (λ c world. with_world world (Connection.send_posted message c))
      (system.connections receiver.participant_id)

module _ (json : Json) where
  unfoldable pub step : Event → System → Option System
  step (connects kind self) system =
      placed system
        (with_world (system.rooms, system.hub) (Connection.start (new_connection kind self)))
  step (handshakes p failed) system =
      at_connection system (Connection.on_tls_handshake json in_memory no_draw failed)
        (system.connections p)
  step (accepts p failed) system =
      at_connection system (Connection.on_web_socket_accept json in_memory no_draw failed)
        (system.connections p)
  step (writes p failed) system =
      at_connection system (Connection.on_write json in_memory no_draw failed)
        (system.connections p)
  step (reads p result draw) system =
      at_connection system (Connection.on_read json in_memory draw result) (system.connections p)
  step (closes p is_open) system =
      at_connection system (Connection.close json in_memory no_draw is_open) (system.connections p)
  step runs_post system = post_run system (get_elem? system.hub.sent system.executed)

  -- the events one after another; `none` when two operations of a stream overlap
  unfoldable pub run : List Event → System → Option System
  run [] system = some system
  run (event ∷ events) system = elim (step event system) [
    | none ↦ none
    | some system' ↦ run events system'
  ]

-- Every session of `p` is such that `P` holds.
abbrev pub Holds : (Connection → Type 0) → ParticipantId → System → Type 0
Holds P p system = (c : Connection) → system.connections p ≡ some c → P c

-- An operation completes only while it is outstanding, and a new session has a new id.
abbrev pub IsPossible : Event → System → Type 0
IsPossible (connects kind self) system = system.connections self.participant_id ≡ none
IsPossible (handshakes p failed) system =
    Holds (λ c. c.outstanding ≡ Outstanding.handshake) p system
IsPossible (accepts p failed) system = Holds (λ c. c.outstanding ≡ Outstanding.accept) p system
IsPossible (writes p failed) system = Holds (λ c. c.queue.in_flight ≡ true) p system
IsPossible (reads p result draw) system = Holds (λ c. c.outstanding ≡ Outstanding.read) p system
IsPossible (closes p is_open) system = Unit {0}
IsPossible runs_post system = Unit {0}

-- What holds of the state after an event, where there is one.
abbrev pub Afterwards : (System → Type 0) → Option System → Type 0
Afterwards P none = Unit {0}
Afterwards P (some system) = P system

unfoldable pub ArePossible : Json → List Event → System → Type 0
ArePossible json [] system = Unit {0}
ArePossible json (event ∷ events) system =
    IsPossible event system × Afterwards (ArePossible json events) (step json event system)
