-- ===== src/Net/Session/Receivers.antt =====
-- Who receives what is sent for one answer of the dispatcher.
use buzzweb_server.Common.{
  ℕ, String, ◌≡◌, ◌⊎◌, inl, inr, refl, sym, ◌∙◌, Bool, true, false, Option, none, some, List, [],
  ◌&&◌, Each, any_of,
}
use buzzweb_server.Domain.Participant.{Participant, ParticipantId}
use buzzweb_server.Domain.Room.{Room, RoomCode, RoomSecret, has_id}
use buzzweb_server.Domain.RoomRepository.{holds}
use buzzweb_server.App.Result.{ok, err}
use buzzweb_server.App.RoomServiceTypes.{
  CreateRoomResult, ParticipantJoinedRoomResult, ParticipantLeftRoomResult,
}
use buzzweb_server.App.RoomService.Spec.{join_spec, leave_spec}
use buzzweb_server.App.Messages.{
  ControlDispatcherResult, ControlDispatcherResponse, ErrorResponsePayload, CreateRoomCommand,
  SuccessResponsePayload, SignalingCommand, RequestMeta,
}
use buzzweb_server.App.ControlDispatcher.Spec.{
  Stored, create_answer, join_answer, leave_answer, relay_answer, refused, granted,
}
use buzzweb_server.App.Json.{Json}
use buzzweb_server.App.ProtocolCodec.Encode.{encode_response, encode_signaling_event}
use buzzweb_server.Net.SessionRegistry
use buzzweb_server.Net.SessionRegistry.{SessionPtr, Registry, IsKeyed}
use buzzweb_server.Net.Session.{Hub, hand, respond, relay_to, session_handler}
use buzzweb_server.Net.Session.Delivery.{
  Adds, Adds-one, Adds-trans, AllowsEvent, Each-of_ids, deliver_events-Adds,
}
use buzzweb_server.Net.Session.Members.{join_spec-ok, leave_spec-ok}

module _ (json : Json) (self : SessionPtr) where
  -- The sender, or a member of a room in which the sender is, or was.
  abbrev pub IsInvolved : Stored → Stored → SessionPtr → Type 0
  IsInvolved before after session =
      (session ≡ self)
      ⊎ ((code : RoomCode) × ((holds self.participant_id (before code) ≡ true)
            ⊎ (holds self.participant_id (after code) ≡ true))
          × (holds session.participant_id (after code) ≡ true))

  module _ (before after : Stored) (hub : Hub) (keyed : IsKeyed hub.registry) where
    abbrev pub Q : SessionPtr × String → Type 0
    Q (session, message) = IsInvolved before after session

    respond-Adds :
        (result : ControlDispatcherResult json.Value) (sent : List (SessionPtr × String))
        → Each (AllowsEvent Q json hub.registry) result.events
        → Adds Q
            (record hub { sent = sent })
            (respond json self result (record hub { sent = sent }))
    respond-Adds result sent allows =
        let start = record hub { sent = sent } in
        let next = hand self (encode_response json result.response) start in
        Adds-trans Q start next (respond json self result start)
          (Adds-one Q start self _ (inl refl))
          (deliver_events-Adds Q json result.events next allows)

    -- Those who are in a room of `after` may be told when the sender is or was in that room.
    members-Allow :
        (code : RoomCode) (skip : Participant → Bool) (receivers : List Participant)
        → (holds self.participant_id (before code) ≡ true)
          ⊎ (holds self.participant_id (after code) ≡ true)
        → ((q : ParticipantId) → any_of (has_id q) receivers ≡ true → holds q (after code) ≡ true)
        → Each
            (λ q.
              skip q ≡ false
              → (session : SessionPtr) → SessionRegistry.find q.id hub.registry ≡ some session
              → IsInvolved before after session)
            receivers
    members-Allow code skip receivers sender inside =
        Each-of_ids receivers (λ q among told session found.
          inr (code, sender, rw (keyed q.id session found) (inside q.id among)))

    pub joined-Adds :
        (meta : RequestMeta) (participant : Participant) (code : RoomCode)
        (given : Option RoomSecret) (o : Option Room) (result : ParticipantJoinedRoomResult)
        → participant.id ≡ self.participant_id
        → (join_spec code participant given o).0 ≡ result
        → after code ≡ (join_spec code participant given o).1
        → Adds Q hub (session_handler json self (join_answer meta result) hub).1
    unfolding session_handler
    joined-Adds meta participant code given o (err e) own_id spec stored =
        respond-Adds (join_answer meta (err e)) hub.sent tt
    joined-Adds meta participant code given o (ok joined) own_id spec stored =
        let (same, entered, members) = join_spec-ok code participant given o joined spec in
        respond-Adds (join_answer meta (ok joined)) hub.sent (
          members-Allow code _ joined.room_participants
              (inr (rw (stored, sym own_id) (sym (members participant.id) ∙ entered)))
              (λ q among. rw stored (sym (members q) ∙ among)),
          tt,
        )

    pub left-Adds :
        (meta : RequestMeta) (code : RoomCode) (result : ParticipantLeftRoomResult)
        → (leave_spec code self.participant_id (before code)).0 ≡ result
        → after code ≡ (leave_spec code self.participant_id (before code)).1
        → Adds Q hub (session_handler json self (leave_answer meta result) hub).1
    unfolding session_handler
    left-Adds meta code (err e) spec stored = respond-Adds (leave_answer meta (err e)) hub.sent tt
    left-Adds meta code (ok left) spec stored =
        let (was_inside, same, members) =
          leave_spec-ok code self.participant_id (before code) left spec in
        respond-Adds (leave_answer meta (ok left)) hub.sent (
          members-Allow code _ left.remaining_participants (inl was_inside)
              (λ q among. rw stored (sym (members q) ∙ among)),
          tt,
        )

    pub created-Adds :
        (meta : RequestMeta) (draw : ℕ → ℕ) (command : CreateRoomCommand)
        (result : CreateRoomResult)
        → Adds Q hub
            (session_handler json self (create_answer meta draw command result before).0 hub).1
    unfolding session_handler
    created-Adds meta draw command (err e) =
        respond-Adds (create_answer meta draw command (err e) before).0 hub.sent tt
    created-Adds meta draw command (ok room) =
        respond-Adds (create_answer meta draw command (ok room) before).0 hub.sent tt

    relayed-Adds :
        (meta : RequestMeta) (signaling : SignalingCommand json.Value) (target : Option SessionPtr)
        → SessionRegistry.find signaling.target_participant_id hub.registry ≡ target
        → holds self.participant_id (after signaling.room_code) ≡ true
        → holds signaling.target_participant_id (after signaling.room_code) ≡ true
        → Adds Q hub (
            relay_to json self
              (granted meta (SuccessResponsePayload.signaling signaling) [])
              meta
              signaling
              target
              hub)
    relayed-Adds meta signaling none found sender receiver =
        Adds-one Q hub self
          (encode_response json
            (ControlDispatcherResponse.error meta ErrorResponsePayload.participant_unavailable))
          (inl refl)
    relayed-Adds meta signaling (some target) found sender receiver =
        let message = encode_signaling_event json signaling in
        let next = hand target message hub in
        let result = granted meta (SuccessResponsePayload.signaling signaling) [] in
        Adds-trans Q hub next (respond json self result next)
          (Adds-one Q hub target message (
            inr (
              signaling.room_code,
              inr sender,
              rw (keyed signaling.target_participant_id target found) receiver,
            )))
          (respond-Adds result next.sent tt)

    pub signaling-Adds :
        (meta : RequestMeta) (signaling : SignalingCommand json.Value) (sender receiver : Bool)
        → signaling.from_participant_id ≡ self.participant_id
        → holds signaling.from_participant_id (after signaling.room_code) ≡ sender
        → holds signaling.target_participant_id (after signaling.room_code) ≡ receiver
        → Adds Q hub
            (session_handler json self (relay_answer meta signaling (sender && receiver)) hub).1
    unfolding session_handler
    signaling-Adds meta signaling true true own_id from_inside to_inside =
        relayed-Adds meta signaling _ refl (rw (sym own_id) from_inside) to_inside
    signaling-Adds meta signaling true false own_id from_inside to_inside =
        respond-Adds (relay_answer meta signaling false) hub.sent tt
    signaling-Adds meta signaling false receiver own_id from_inside to_inside =
        respond-Adds (relay_answer meta signaling false) hub.sent tt

    pub refused-Adds :
        (meta : RequestMeta) (payload : ErrorResponsePayload)
        → Adds Q hub (session_handler json self (refused meta payload) hub).1
    unfolding session_handler
    refused-Adds meta payload = respond-Adds (refused meta payload) hub.sent tt
