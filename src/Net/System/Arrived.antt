-- ===== src/Net/System/Arrived.antt =====
-- What becomes of a join that is granted: the others of the room are told.
use buzzweb_server.Common.{
  ℕ, String, ◌≡◌, ◌≢◌, sym, ap, subst, ◌∙◌, true, false, some, List, ◌∷◌, ◌++◌, eq_iff, arith,
}
use buzzweb_server.Common.Attempt.{gave}
use buzzweb_server.Domain.Participant.{ParticipantId}
use buzzweb_server.Domain.RoomRepository.{holds}
use buzzweb_server.Domain.InMemory.{in_memory}
use buzzweb_server.Domain.InMemory.Refinement.{view, in_memory-Contract}
use buzzweb_server.App.Result.{ok}
use buzzweb_server.App.RoomServiceTypes.{ParticipantJoinedRoom}
use buzzweb_server.App.RoomService.{join_room}
use buzzweb_server.App.Messages.{
  ControlDispatcherEvent, ControlDispatcherRequest, CommandType, JoinRoomCommand, JoinedRoomEvent,
}
use buzzweb_server.App.Json.{Json}
use buzzweb_server.App.ProtocolCodec.Decode.{decode_request}
use buzzweb_server.App.ProtocolCodec.Encode.{encode_event}
use buzzweb_server.Net.Session.{ReadResult}
use buzzweb_server.Net.Session.Arrival.{handle_message-tells}
use buzzweb_server.Net.Connection.{Connection, Outstanding}
use buzzweb_server.Net.System.{System, begun, Event, reads, put, step, run, IsPossible, ArePossible}
use buzzweb_server.Net.System.Delivered.{step-IsSound, begun-IsSound}
use buzzweb_server.Net.System.Drained.{remaining}
use buzzweb_server.Net.System.Reached.{sound-reaches}
use buzzweb_server.Net.System.Attended.{AreAttended, run-IsPresentIn}
use buzzweb_server.Net.System.Replied.{read_on, text_read}
use buzzweb_server.Net.System.Relayed.{found_session}
use buzzweb_server.Net.EventLoop.Reachable.{started-IsPresent}

module _ (json : Json) where
  -- In every state that the server reaches, when a session reads a text that asks for a join which
  -- the room service grants, every other member of the room whose session is not closing is told:
  -- once the events that are left for that session have happened, which are all possible, the event
  -- that names the room and the participant who has joined is among the messages written to its
  -- client. It is assumed that operations complete only while they are outstanding, that new
  -- sessions have new ids, and that no text was read before on a session that was not registered.
  pub arrival-delivered :
      (events : List Event) (system : System) (p q : ParticipantId) (c d : Connection)
      (message : String) (draw : ℕ → ℕ) (request : ControlDispatcherRequest json.Value)
      (join : JoinRoomCommand) (joined : ParticipantJoinedRoom)
      → AreAttended json events begun
      → run json events begun ≡ some system
      → system.connections p ≡ some c
      → c.outstanding ≡ Outstanding.read
      → decode_request json p message ≡ gave request
      → request.command ≡ CommandType.join_room join
      → (join_room in_memory join.room_code join.participant join.password_hash system.rooms).0
        ≡ ok joined
      → p ≢ q
      → holds q (view system.rooms join.room_code) ≡ true
      → system.connections q ≡ some d
      → d.session.closing ≡ false
      → (event : JoinedRoomEvent) × (event.room_code ≡ join.room_code)
        × (event.joined_participant ≡ join.participant)
        × ((next : System) × (step json (reads p (ReadResult.text_message message) draw) system
              ≡ some next)
            × ArePossible json (remaining q next d) next
            × ((last : System) × (d' : Connection) × (run json (remaining q next d) next
                  ≡ some last)
                × (last.connections q ≡ some d')
                × ((front : List String) × (back : List String) × (d'.queue.written
                      ≡ front
                        ++ encode_event json (ControlDispatcherEvent.joined_room event) ∷ back))))
  arrival-delivered events system p q c d message draw request join joined attended ran here reading
        decoded is_join admitted differ inside there open_still =
      let (h, present) =
        run-IsPresentIn json events begun system (begun-IsSound json) (started-IsPresent json)
          attended ran in
      let own = h.named p c here in
      let other = subst (λ i. i ≢ q) (sym own) differ in
      let (session, found, target) =
        found_session q system.hub.registry (present.present q join.room_code inside)
          present.keyed in
      let (event, at_room, same, (front, back, sent)) =
        handle_message-tells json c.session.self in_memory-Contract draw message system.rooms
          system.hub request join joined q session
          (ap (λ i. decode_request json i message) own ∙ decoded) is_join admitted other inside
          found in
      let moved = text_read json p message draw system c here in
      let can : IsPossible (reads p (ReadResult.text_message message) draw) system =
        λ c' there'. ground (arith, here, there', reading) in
      let h1 = step-IsSound json _ system _ h can moved in
      let stays : put (read_on c) system.connections q ≡ some d =
        ground (arith, other, there, eq_iff c.session.self.participant_id q) in
      let (are, written) =
        sound-reaches json _ q d session
          (encode_event json (ControlDispatcherEvent.joined_room event)) h1 stays open_still target
          (front, back, sent) in
      (event, at_room, same, (_, moved, are, written))
