-- ===== src/Net/System/Relayed.antt =====
-- What becomes of a signaling message between two members of a room: it reaches the target's client.
use buzzweb_server.Common.{
  ℕ, String, ◌≡◌, refl, ap, subst, ◌∙◌, true, false, some, List, [], ◌∷◌, ◌++◌, ◌==◌, eq_iff, arith,
  inl, inr, Option-cases, Bool-cases, has_value,
}
use buzzweb_server.Common.Attempt.{gave}
use mathlib.Core.List.{append_assoc}
use buzzweb_server.Domain.Participant.{ParticipantId}
use buzzweb_server.Domain.RoomRepository.{holds}
use buzzweb_server.Domain.InMemory.{Rooms, in_memory}
use buzzweb_server.Domain.InMemory.Refinement.{view, in_memory-Contract}
use buzzweb_server.App.Messages.{
  ControlDispatcherRequest, ControlDispatcherResponse, ControlMessageType, CommandType,
  SignalingCommand, SuccessResponsePayload, RequestMeta,
}
use buzzweb_server.App.ControlDispatcher.Spec.{Stored, answer, granted}
use buzzweb_server.App.ControlDispatcher.Refinement.{dispatch-refines}
use buzzweb_server.App.Json.{Json}
use buzzweb_server.App.ProtocolCodec.Decode.{decode_request}
use buzzweb_server.App.ProtocolCodec.Requests.{IsFrom, decode_request-IsFrom}
use buzzweb_server.App.ProtocolCodec.Encode.{encode_response, encode_signaling_event}
use buzzweb_server.Net.SessionRegistry
use buzzweb_server.Net.SessionRegistry.{SessionPtr, Registry, IsKeyed}
use buzzweb_server.Net.Session.{Hub, ReadResult, deliver_events, session_handler, handle_message}
use buzzweb_server.Net.Connection.{Connection, Outstanding}
use buzzweb_server.Net.System.{System, begun, Event, reads, put, step, run, IsPossible, ArePossible}
use buzzweb_server.Net.System.Delivered.{step-IsSound, begun-IsSound}
use buzzweb_server.Net.System.Drained.{remaining}
use buzzweb_server.Net.System.Reached.{sound-reaches}
use buzzweb_server.Net.System.Attended.{AreAttended, run-IsPresentIn}
use buzzweb_server.Net.System.Replied.{read_on, text_read}
use buzzweb_server.Net.EventLoop.Reachable.{started-IsPresent}

relay_granted :
    (J : Type 0) (meta : RequestMeta) (draw : ℕ → ℕ) (type : ControlMessageType)
    (command : CommandType J) (signaling : SignalingCommand J) (stored : Stored)
    → command ≡ CommandType.signaling signaling
    → type ≡ ControlMessageType.signaling
    → holds signaling.from_participant_id (stored signaling.room_code) ≡ true
    → holds signaling.target_participant_id (stored signaling.room_code) ≡ true
    → (answer meta draw type command stored).0
      ≡ granted meta (SuccessResponsePayload.signaling signaling) []
unfolding answer
relay_granted J meta draw type command signaling stored is_relay relays from_in to_in =
    rw (is_relay, relays, from_in, to_in) refl

pub found_session :
    (q : ParticipantId) (registry : Registry)
    → has_value (SessionRegistry.find q registry) ≡ true
    → IsKeyed registry
    → (session : SessionPtr) × (SessionRegistry.find q registry ≡ some session)
      × (session.participant_id ≡ q)
found_session q registry there keyed = elim (Option-cases (SessionRegistry.find q registry)) [
  | inl missing ↦ absurd (ground (arith, missing, there))
  | inr (session, found) ↦ (session, found, keyed q session found)
]

module _ (json : Json) where
  -- The message is posted to the session that the registry finds for the target, and then the reply.
  relay_posts :
      (draw : ℕ → ℕ) (self session : SessionPtr) (message : String) (rooms : Rooms) (hub : Hub)
      (request : ControlDispatcherRequest json.Value) (signaling : SignalingCommand json.Value)
      → decode_request json self.participant_id message ≡ gave request
      → request.command ≡ CommandType.signaling signaling
      → holds self.participant_id (view rooms signaling.room_code) ≡ true
      → holds signaling.target_participant_id (view rooms signaling.room_code) ≡ true
      → SessionRegistry.find signaling.target_participant_id hub.registry ≡ some session
      → (reply : String) × ((handle_message json in_memory draw self message (rooms, hub)).1.1.sent
          ≡ hub.sent ++ (session, encode_signaling_event json signaling) ∷ (self, reply) ∷ [])
  unfolding handle_message session_handler deliver_events
  relay_posts draw self session message rooms hub request signaling decoded is_relay from_in to_in
        found =
      let own =
        subst (IsFrom self.participant_id request.meta) is_relay
          (decode_request-IsFrom json self.participant_id message request decoded) in
      let refines =
        dispatch-refines in_memory-Contract draw request (session_handler json self)
          (λ result h. refl) hub rooms in
      let given =
        relay_granted json.Value request.meta draw request.meta.type request.command signaling
          (view rooms) is_relay own.0
          (ap (λ p. holds p (view rooms signaling.room_code)) own.1 ∙ from_in) to_in in
      let response =
        ControlDispatcherResponse.success request.meta
          (SuccessResponsePayload.signaling signaling) in
      let event = encode_signaling_event json signaling in
      let handled = refines.called ∙ ap (λ r. (session_handler json self r hub).1) given in
      let relayed : (session_handler json self
            (granted request.meta (SuccessResponsePayload.signaling signaling) []) hub).1.sent
          ≡ hub.sent ++ (session, event) ∷ (self, encode_response json response) ∷ [] =
        rw found (
          append_assoc hub.sent ((session, event) ∷ [])
            ((self, encode_response json response) ∷ [])) in
      (encode_response json response, rw decoded (ap (λ (h : Hub). h.sent) handled ∙ relayed))

  put_found :
      (c d : Connection) (system : System) (p q : ParticipantId)
      → c.session.self.participant_id ≡ p
      → system.connections p ≡ some c
      → system.connections q ≡ some d
      → d.session.closing ≡ false
      → (d' : Connection) × (put (read_on c) system.connections q ≡ some d')
        × (d'.session.closing ≡ false)
  put_found c d system p q own here there open_still = elim (Bool-cases (p == q)) [
    | inl same ↦ (
      read_on c,
      ground (arith, own, same),
      ground (arith, here, there, same, open_still, eq_iff p q),
    )
    | inr differs ↦ (d, ground (arith, own, differs, there), open_still)
  ]

  -- In every state that the server reaches, when a session reads a signaling message of its
  -- participant to another member of a room, the message reaches the client of the target, if the
  -- target's session is not closing: once the events that are left for that session have happened,
  -- which are all possible, the encoded message is among those written to its client. It is assumed,
  -- as for every run here, that operations complete only while they are outstanding, that new
  -- sessions have new ids, and that no text was read on a session that is not registered.
  pub relay-delivered :
      (events : List Event) (system : System) (p : ParticipantId) (c d : Connection)
      (message : String) (draw : ℕ → ℕ) (request : ControlDispatcherRequest json.Value)
      (signaling : SignalingCommand json.Value)
      → AreAttended json events begun
      → run json events begun ≡ some system
      → system.connections p ≡ some c
      → c.outstanding ≡ Outstanding.read
      → decode_request json p message ≡ gave request
      → request.command ≡ CommandType.signaling signaling
      → holds p (view system.rooms signaling.room_code) ≡ true
      → holds signaling.target_participant_id (view system.rooms signaling.room_code) ≡ true
      → system.connections signaling.target_participant_id ≡ some d
      → d.session.closing ≡ false
      → let q = signaling.target_participant_id in
        (next : System) × (d1 : Connection) × (step json
            (reads p (ReadResult.text_message message) draw)
            system
          ≡ some next)
        × (next.connections q ≡ some d1)
        × ArePossible json (remaining q next d1) next
        × ((last : System) × (d' : Connection) × (run json (remaining q next d1) next ≡ some last)
            × (last.connections q ≡ some d')
            × ((front : List String) × (back : List String) × (d'.queue.written
                  ≡ front ++ encode_signaling_event json signaling ∷ back)))
  relay-delivered events system p c d message draw request signaling attended ran here reading
        decoded is_relay from_in to_in there open_still =
      let q = signaling.target_participant_id in
      let (h, present) =
        run-IsPresentIn json events begun system (begun-IsSound json) (started-IsPresent json)
          attended ran in
      let own = h.named p c here in
      let (d1, there1, open1) = put_found c d system p q own here there open_still in
      let moved = text_read json p message draw system c here in
      let can : IsPossible (reads p (ReadResult.text_message message) draw) system =
        λ other found. ground (arith, here, found, reading) in
      let h1 = step-IsSound json _ system _ h can moved in
      let (session, found, target) =
        found_session q system.hub.registry (present.present q signaling.room_code to_in)
          present.keyed in
      let (reply, sent) =
        relay_posts draw c.session.self session message system.rooms system.hub request signaling
          (ap (λ i. decode_request json i message) own ∙ decoded) is_relay
          (ap (λ i. holds i (view system.rooms signaling.room_code)) own ∙ from_in) to_in found in
      let (are, written) =
        sound-reaches json _ q d1 session (encode_signaling_event json signaling) h1 there1 open1
          target (system.hub.sent, (c.session.self, reply) ∷ [], sent) in
      (_, d1, moved, there1, are, written)
