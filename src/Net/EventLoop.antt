-- ===== src/Net/EventLoop.antt =====
-- All sessions of a server together: `Server::Run` hands one event after another to the session that
-- it belongs to. A session is known by its participant's id. What the handlers do to the streams is
-- in Net/Connection and Net/System.
pub mod Presence
pub mod Reachable
pub mod Tests
use buzzweb_server.Common.{
  ℕ, String, Bool, true, false, Option, none, some, List, [], ◌∷◌, ◌==◌, ◌≡◌, if◌then◌else◌,
  Outcome, returned, threw,
}
use buzzweb_server.Domain.Participant.{ParticipantId}
use buzzweb_server.Domain.InMemory.{Rooms, in_memory, no_rooms}
use buzzweb_server.App.Json.{Json}
use buzzweb_server.Net.SessionRegistry.{SessionPtr}
use buzzweb_server.Net.Session.{
  Hub, Session, ReadResult, new_session, on_read, fail, close, on_web_socket_accept,
  on_tls_handshake,
}

abbrev pub Sessions : Type 0
Sessions = ParticipantId → Option Session

pub record Running : Type 0 where
  pub rooms : Rooms
  pub hub : Hub
  pub sessions : Sessions

abbrev pub started : Running
started = record {
  rooms = no_rooms;
  hub = record { registry = []; sent = [] };
  sessions = λ p. none;
}

abbrev pub set : Session → Sessions → Sessions
set session sessions p = if session.self.participant_id == p then some session else sessions p

-- `connects` makes a session, whose handshake and WebSocket accept complete later, each with an error
-- or without; a read comes with what the generator would draw; `fails` is a write with an error.
pub data Event : Type 0 where
  connects : SessionPtr → Event
  handshakes accepts : ParticipantId → Bool → Event
  reads : ParticipantId → ReadResult → (ℕ → ℕ) → Event
  fails closes : ParticipantId → Event

abbrev pub updated : Sessions → Session × (Rooms × Hub) → Running
updated sessions (session, (rooms, hub)) = record {
  rooms = rooms;
  hub = hub;
  sessions = set session sessions;
}

-- An exception leaves the session as it was.
abbrev pub after_read : Session → Outcome Session × (Rooms × Hub) → Session × (Rooms × Hub)
after_read session (returned session', world) = (session', world)
after_read session (threw what, world) = (session, world)

-- Only a read may draw numbers.
abbrev pub no_draw : ℕ → ℕ
no_draw attempt = 0

module _ (json : Json) where
  abbrev pub handled : Event → Session → Rooms × Hub → Session × (Rooms × Hub)
  handled (connects self) session world = (session, world)
  handled (handshakes p failed) session world =
      on_tls_handshake json in_memory no_draw failed session world
  handled (accepts p failed) session world =
      on_web_socket_accept json in_memory no_draw failed session world
  handled (reads p result draw) session world =
      after_read session (on_read json in_memory draw result session world)
  handled (fails p) session world = fail json in_memory no_draw session world
  handled (closes p) session world = close json in_memory no_draw session world

  abbrev pub session_for : Event → Sessions → Option Session
  session_for (connects self) sessions = some (new_session self)
  session_for (handshakes p failed) sessions = sessions p
  session_for (accepts p failed) sessions = sessions p
  session_for (reads p result draw) sessions = sessions p
  session_for (fails p) sessions = sessions p
  session_for (closes p) sessions = sessions p

  abbrev pub deliver : Event → Running → Option Session → Running
  deliver event running none = running
  deliver event running (some session) =
      updated running.sessions (handled event session (running.rooms, running.hub))

  unfoldable pub step : Event → Running → Running
  step event running = deliver event running (session_for event running.sessions)

  unfoldable pub run : List Event → Running → Running
  run [] running = running
  run (event ∷ events) running = run events (step event running)

-- A new session has a new id, and no text is read on a session that is not registered.
abbrev pub IsOrderly : Event → Running → Type 0
IsOrderly (connects self) running = running.sessions self.participant_id ≡ none
IsOrderly (reads p (ReadResult.text_message message) draw) running =
    (session : Session) → running.sessions p ≡ some session → session.registered ≡ true
IsOrderly _ running = Unit {0}

unfoldable pub AreOrderly : Json → List Event → Running → Type 0
AreOrderly json [] running = Unit {0}
AreOrderly json (event ∷ events) running =
    IsOrderly event running × AreOrderly json events (step json event running)
