-- ===== src/Net/Session/Arrival.antt =====
-- Who is told when a participant joins a room, in `HandleMessage` and `DeliverEvents` of Session.cpp.
use buzzweb_server.Common.{
  ℕ, String, ◌≡◌, ◌≢◌, refl, sym, ap, subst, ◌∙◌, true, Option, none, some, [], ◌∷◌, ◌++◌, ◌==◌,
  eq_iff, arith, inl, inr, Bool-cases, Option-cases, any_of, any_of-append,
}
use buzzweb_server.Common.Attempt.{gave}
use buzzweb_server.Domain.Participant.{Participant, ParticipantId}
use buzzweb_server.Domain.Room.{Room, RoomCode, RoomSecret, has_id, has_participant}
use buzzweb_server.Domain.RoomRepository.{RoomRepository, Contract, holds}
use buzzweb_server.App.Result.{ok}
use buzzweb_server.App.RoomServiceTypes.{ParticipantJoinedRoom}
use buzzweb_server.App.RoomService.{join_room}
use buzzweb_server.App.RoomService.Spec.{join_spec, refusal}
use buzzweb_server.App.RoomService.Join.{join_room-refines}
use buzzweb_server.App.Messages.{
  ControlDispatcherEvent, ControlDispatcherRequest, ControlMessageType, CommandType,
  JoinRoomCommand, JoinedRoomEvent, RequestMeta,
}
use buzzweb_server.App.ControlDispatcher.Spec.{Stored, answer, join_answer}
use buzzweb_server.App.ControlDispatcher.Refinement.{dispatch-refines}
use buzzweb_server.App.Json.{Json}
use buzzweb_server.App.ProtocolCodec.Decode.{decode_request}
use buzzweb_server.App.ProtocolCodec.Requests.{IsFrom, decode_request-IsFrom}
use buzzweb_server.App.ProtocolCodec.Encode.{encode_event}
use buzzweb_server.Net.SessionRegistry
use buzzweb_server.Net.SessionRegistry.{SessionPtr}
use buzzweb_server.Net.Session.{Hub, session_handler, handle_message, deliver_events, deliver_event}
use buzzweb_server.Net.Session.News.{Has, deliver_to-reaches}

joined_among :
    (code : RoomCode) (participant : Participant) (given : Option RoomSecret) (o : Option Room)
    (joined : ParticipantJoinedRoom) (q : ParticipantId)
    → (join_spec code participant given o).0 ≡ ok joined
    → holds q o ≡ true
    → (joined.room_code ≡ code)
      × (joined.participant ≡ participant)
      × (any_of (has_id q) joined.room_participants ≡ true)
unfolding has_participant
joined_among code participant given none joined q e inside = absurd (ground (arith, e))
joined_among code participant given (some room) joined q e inside =
    elim (Bool-cases (has_participant participant.id room)) [
      | inl again ↦ absurd (ground (arith, e, again))
      | inr outside ↦ elim (Option-cases (refusal room.room_secret given)) [
        | inl free ↦
            let now : joined.room_participants ≡ room.participants ++ participant ∷ [] =
              ground (arith, e, outside, free) in
            (
              ground (arith, e, outside, free),
              ground (arith, e, outside, free),
              ground (
                arith,
                now,
                inside,
                any_of-append (has_id q) room.participants (participant ∷ []),
              ),
            )
        | inr (why, refuses) ↦ absurd (ground (arith, e, outside, refuses))
      ]
    ]

join_answered :
    (J : Type 0) (meta : RequestMeta) (draw : ℕ → ℕ) (type : ControlMessageType)
    (command : CommandType J) (join : JoinRoomCommand) (stored : Stored)
    (joined : ParticipantJoinedRoom)
    → command ≡ CommandType.join_room join
    → type ≡ ControlMessageType.join_room
    → (join_spec join.room_code join.participant join.password_hash (stored join.room_code)).0
      ≡ ok joined
    → (answer meta draw type command stored).0 ≡ join_answer meta (ok joined)
unfolding answer
join_answered J meta draw type command join stored joined is_join joins admitted =
    rw (is_join, joins, answer) (ap (join_answer meta) admitted)

module _ (json : Json) (self : SessionPtr) where
  answer-tells :
      (meta : RequestMeta) (joined : ParticipantJoinedRoom) (hub : Hub) (q : ParticipantId)
      (session : SessionPtr)
      → joined.participant.id ≢ q
      → any_of (has_id q) joined.room_participants ≡ true
      → SessionRegistry.find q hub.registry ≡ some session
      → Has
          (
            session,
            encode_event json (
                ControlDispatcherEvent.joined_room (record {
                  room_code = joined.room_code;
                  joined_participant = joined.participant;
                  event_receivers = joined.room_participants;
                })),
          )
          (session_handler json self (join_answer meta (ok joined)) hub).1.sent
  unfolding session_handler deliver_events deliver_event
  answer-tells meta joined hub q session differ among found =
      deliver_to-reaches (λ participant. participant.id == joined.participant.id) _
        joined.room_participants _ q session
        (λ x own. ground (arith, own, differ, eq_iff x.id joined.participant.id)) among found

  -- When a join that the message asks for is granted, everyone else who is in the room and connected
  -- is sent the news of it.
  pub handle_message-tells :
      {S : Type 0} {repository : RoomRepository S} {view : S → Stored}
      (contract : Contract repository view) (draw : ℕ → ℕ) (message : String) (s : S) (hub : Hub)
      (request : ControlDispatcherRequest json.Value) (join : JoinRoomCommand)
      (joined : ParticipantJoinedRoom) (q : ParticipantId) (session : SessionPtr)
      → decode_request json self.participant_id message ≡ gave request
      → request.command ≡ CommandType.join_room join
      → (join_room repository join.room_code join.participant join.password_hash s).0 ≡ ok joined
      → self.participant_id ≢ q
      → holds q (view s join.room_code) ≡ true
      → SessionRegistry.find q hub.registry ≡ some session
      → (event : JoinedRoomEvent) × (event.room_code ≡ join.room_code)
        × (event.joined_participant ≡ join.participant)
        × Has
            (session, encode_event json (ControlDispatcherEvent.joined_room event))
            (handle_message json repository draw self message (s, hub)).1.1.sent
  unfolding handle_message session_handler
  handle_message-tells {view = view} contract draw message s hub request join joined q session
        decoded is_join admitted differ inside found =
      let own =
        subst (IsFrom self.participant_id request.meta) is_join
          (decode_request-IsFrom json self.participant_id message request decoded) in
      let spec =
        sym (join_room-refines contract join.room_code join.participant join.password_hash s).0
        ∙ admitted in
      let (at_room, same, among) =
        joined_among join.room_code join.participant join.password_hash (view s join.room_code)
          joined q spec inside in
      let handled =
        (dispatch-refines contract draw request (session_handler json self) (λ result h. refl) hub
          s).called
        ∙ ap (λ r. (session_handler json self r hub).1)
            (join_answered json.Value request.meta draw request.meta.type request.command join
              (view s) joined is_join own.0 spec) in
      let differs : joined.participant.id ≢ q =
        subst (λ i. i ≢ q) (sym (ap (λ (x : Participant). x.id) same ∙ own.1)) differ in
      (
        record {
          room_code = joined.room_code;
          joined_participant = joined.participant;
          event_receivers = joined.room_participants;
        },
        at_room,
        same,
        rw (decoded, handled) (answer-tells request.meta joined hub q session differs among found),
      )
