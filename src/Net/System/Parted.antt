-- ===== src/Net/System/Parted.antt =====
-- What becomes of the end of a member's session: the others of the room are told.
use buzzweb_server.Common.{
  ℕ, String, ◌≡◌, ◌≢◌, refl, sym, ap, subst, ◌∙◌, Bool, true, false, some, List, ◌∷◌, ◌++◌, eq_iff,
  arith,
}
use buzzweb_server.Domain.Participant.{ParticipantId}
use buzzweb_server.Domain.Room.{RoomCode}
use buzzweb_server.Domain.RoomRepository.{holds}
use buzzweb_server.Domain.InMemory.{Rooms, in_memory}
use buzzweb_server.Domain.InMemory.Refinement.{view, in_memory-Contract}
use buzzweb_server.App.Messages.{ControlDispatcherEvent, LeftRoomEvent}
use buzzweb_server.App.Json.{Json}
use buzzweb_server.App.ProtocolCodec.Encode.{encode_event}
use buzzweb_server.Net.Session
use buzzweb_server.Net.Session.{Hub, Session, ReadResult, remove_from_registry}
use buzzweb_server.Net.Session.News.{Has, remove_from_registry-tells}
use buzzweb_server.Net.SessionRegistry
use buzzweb_server.Net.SessionRegistry.{SessionPtr}
use buzzweb_server.Net.Connection
use buzzweb_server.Net.Connection.{Connection, Outstanding, took, completed, close_lowest_layer}
use buzzweb_server.Net.System.{System, begun, Event, reads, put, step, run, IsPossible, ArePossible}
use buzzweb_server.Net.System.Delivered.{step-IsSound, begun-IsSound}
use buzzweb_server.Net.System.Drained.{remaining}
use buzzweb_server.Net.System.Reached.{sound-reaches}
use buzzweb_server.Net.System.Attended.{AreAttended, run-IsPresentIn, members-attended}
use buzzweb_server.Net.System.Relayed.{found_session}
use buzzweb_server.Net.EventLoop.Reachable.{started-IsPresent}

-- The read of a session completes with the end of the stream, or with another error.
abbrev pub last_read : Bool → ReadResult
last_read false = ReadResult.closed
last_read true = ReadResult.failed

-- The session that `RemoveFromRegistry` finds then.
abbrev pub ending : Bool → Session → Session
ending false session = session
ending true session = record session { closing = true }

-- what the read's handler leaves of the stream
abbrev ended_stream : Bool → Connection → Connection
ended_stream false c = c
ended_stream true c = close_lowest_layer c

module _ (json : Json) where
  abbrev removed : (ℕ → ℕ) → Bool → Connection → System → Session × (Rooms × Hub)
  removed draw failed c system =
      remove_from_registry json in_memory draw (ending failed c.session) (system.rooms, system.hub)

  abbrev parted : (ℕ → ℕ) → Bool → Connection → System → System
  parted draw failed c system =
      let (session, (rooms, hub)) = removed draw failed c system in
      record system {
        rooms = rooms;
        hub = hub;
        connections = put (ended_stream failed (took session (completed c))) system.connections;
      }

  ended_read :
      (p : ParticipantId) (failed : Bool) (draw : ℕ → ℕ) (system : System) (c : Connection)
      → system.connections p ≡ some c
      → step json (reads p (last_read failed) draw) system ≡ some (parted draw failed c system)
  unfolding step Connection.on_read Session.on_read Session.fail
  ended_read p false draw system c here = rw here refl
  ended_read p true draw system c here = rw here refl

  -- the session of the removal is the same session
  removed_self :
      (draw : ℕ → ℕ) (failed : Bool) (c : Connection) (system : System)
      → (removed draw failed c system).0.self ≡ c.session.self
  unfolding remove_from_registry
  removed_self draw false c system = ground arith
  removed_self draw true c system = ground arith

  others_stay :
      (draw : ℕ → ℕ) (failed : Bool) (c : Connection) (system : System) (q : ParticipantId)
      → c.session.self.participant_id ≢ q
      → (parted draw failed c system).connections q ≡ system.connections q
  others_stay draw false c system q other = ground (
    arith,
    other,
    removed_self draw false c system,
    eq_iff (removed draw false c system).0.self.participant_id q,
  )
  others_stay draw true c system q other = ground (
    arith,
    other,
    removed_self draw true c system,
    eq_iff (removed draw true c system).0.self.participant_id q,
  )

  told :
      (draw : ℕ → ℕ) (failed : Bool) (c : Connection) (system : System) (q : ParticipantId)
      (code : RoomCode) (session : SessionPtr)
      → c.session.registered ≡ true
      → c.session.self.participant_id ≢ q
      → holds c.session.self.participant_id (view system.rooms code) ≡ true
      → holds q (view system.rooms code) ≡ true
      → SessionRegistry.find q system.hub.registry ≡ some session
      → (event : LeftRoomEvent) × (event.room_code ≡ code)
        × (event.left_participant_id ≡ c.session.self.participant_id)
        × Has
            (session, encode_event json (ControlDispatcherEvent.left_room event))
            (parted draw failed c system).hub.sent
  told draw false c system q code session =
      remove_from_registry-tells json in_memory-Contract draw c.session system.rooms system.hub q
        code session
  told draw true c system q code session =
      remove_from_registry-tells json in_memory-Contract draw (ending true c.session) system.rooms
        system.hub q code session

  -- In every state that the server reaches, when the read of a session of a room's member completes
  -- with the end of the stream or another error, every other member of the room whose session is not
  -- closing is told: once the events that are left for that session have happened, which are all
  -- possible, the event that says that the participant has left the room is among the messages
  -- written to its client. It is assumed that operations complete only while they are outstanding,
  -- that new sessions have new ids, and that no text was read on a session that is not registered.
  pub departure-delivered :
      (events : List Event) (system : System) (p q : ParticipantId) (d : Connection)
      (code : RoomCode) (failed : Bool) (draw : ℕ → ℕ)
      → AreAttended json events begun
      → run json events begun ≡ some system
      → holds p (view system.rooms code) ≡ true
      → holds q (view system.rooms code) ≡ true
      → p ≢ q
      → system.connections q ≡ some d
      → d.session.closing ≡ false
      → (event : LeftRoomEvent) × (event.room_code ≡ code)
        × (event.left_participant_id ≡ p)
        × ((next : System) × (step json (reads p (last_read failed) draw) system ≡ some next)
            × ArePossible json (remaining q next d) next
            × ((last : System) × (d' : Connection) × (run json (remaining q next d) next
                  ≡ some last)
                × (last.connections q ≡ some d')
                × ((front : List String) × (back : List String) × (d'.queue.written
                      ≡ front
                        ++ encode_event json (ControlDispatcherEvent.left_room event) ∷ back))))
  departure-delivered events system p q d code failed draw attended ran leaving inside differ there
        open_still =
      let (h, present) =
        run-IsPresentIn json events begun system (begun-IsSound json) (started-IsPresent json)
          attended ran in
      let (c, here, on, reading, _) =
        members-attended json events system p code attended ran leaving in
      let own = h.named p c here in
      let other = subst (λ i. i ≢ q) (sym own) differ in
      let (session, found, target) =
        found_session q system.hub.registry (present.present q code inside) present.keyed in
      let (event, at_room, left, (front, back, sent)) =
        told draw failed c system q code session on other
          (ap (λ i. holds i (view system.rooms code)) own ∙ leaving) inside found in
      let moved = ended_read p failed draw system c here in
      let can : IsPossible (reads p (last_read failed) draw) system =
        λ c' there'. ground (arith, here, there', reading) in
      let h1 = step-IsSound json _ system _ h can moved in
      let (are, written) =
        sound-reaches json _ q d session
          (encode_event json (ControlDispatcherEvent.left_room event)) h1
          (others_stay draw failed c system q other ∙ there) open_still target
          (front, back, sent) in
      (event, at_room, left ∙ own, (_, moved, are, written))
