-- ===== src/Net/Session/Entering.antt =====
-- `HandleMessage`: who enters a room with a message.
use buzzweb_server.Common.{
  ℕ, String, ◌≡◌, ◌⊎◌, inl, inr, refl, sym, true, Option, none, some, [], ◌∷◌, ◌==◌, eq_iff, arith,
  any_of-append, Bool-cases,
}
use buzzweb_server.Domain.Participant.{Participant, ParticipantId}
use buzzweb_server.Domain.Room.{Room, RoomCode, RoomSecret, has_id, has_participant}
use buzzweb_server.Domain.RoomRepository.{RoomRepository, Contract, holds}
use buzzweb_server.App.Result.{ok, err}
use buzzweb_server.App.RoomServiceTypes.{CreateRoomResult}
use buzzweb_server.App.RoomService.Spec.{join_spec, leave_spec}
use buzzweb_server.App.RoomService.Create.{create_spec}
use buzzweb_server.App.RoomService.Disconnect.{holds-leave}
use buzzweb_server.App.Messages.{ControlMessageType, CommandType, CreateRoomCommand, RequestMeta}
use buzzweb_server.App.ControlDispatcher.Spec.{Stored, answer, put, enter, create_answer}
use buzzweb_server.App.ControlDispatcher.Refinement.{dispatch-refines}
use buzzweb_server.App.Json.{Json}
use buzzweb_server.App.ProtocolCodec.Decode.{decode_request}
use buzzweb_server.App.ProtocolCodec.Requests.{IsFrom, Attempt-cases, decode_request-IsFrom}
use buzzweb_server.Net.SessionRegistry.{SessionPtr}
use buzzweb_server.Net.Session.{Hub, session_handler, handle_message}

-- Whoever is in `after` is in `before`, or is `p`.
abbrev pub IsEntry : ParticipantId → Option Room → Option Room → Type 0
IsEntry p before after =
    (q : ParticipantId) → holds q after ≡ true → (holds q before ≡ true) ⊎ (q ≡ p)

join-IsEntry :
    (code : RoomCode) (participant : Participant) (given : Option RoomSecret) (o : Option Room)
    → IsEntry participant.id o (join_spec code participant given o).1
unfolding has_participant
join-IsEntry code participant given none q e = absurd (ground (arith, e))
join-IsEntry code participant given (some room) q e = ground (
  arith,
  e,
  eq_iff participant.id q,
  any_of-append (has_id q) room.participants (participant ∷ []),
)

leave-IsEntry :
    (code : RoomCode) (p : ParticipantId) (o : Option Room) → IsEntry p o (leave_spec code p o).1
leave-IsEntry code p o q e = ground (arith, e, holds-leave code p q o)

put-IsEntry :
    (p : ParticipantId) (code : RoomCode) (o : Option Room) (stored : Stored)
    → IsEntry p (stored code) o
    → (j : RoomCode) → IsEntry p (stored j) (put code o stored j)
put-IsEntry p code o stored entry j q e = elim (Bool-cases (code == j)) [
  | inl here ↦ rw (sym ((eq_iff code j).0 here)) (entry q (ground (arith, e, here)))
  | inr other ↦ inl (ground (arith, e, other))
]

create-IsEntry :
    (J : Type 0) (meta : RequestMeta) (draw : ℕ → ℕ) (command : CreateRoomCommand) (stored : Stored)
    (result : CreateRoomResult) (j : RoomCode)
    → IsEntry command.participant.id
        (stored j)
        ((create_answer {J = J} meta draw command result stored).1 j)
unfolding has_participant
create-IsEntry J meta draw command stored (err x) j q e = inl e
create-IsEntry J meta draw command stored (ok room) j q e =
    put-IsEntry command.participant.id room.code (some (enter command.participant room)) stored
      (λ p inside. ground (arith, inside, eq_iff command.participant.id p)) j q e

answer-IsEntry :
    (J : Type 0) (p : ParticipantId) (meta : RequestMeta) (draw : ℕ → ℕ) (type : ControlMessageType)
    (command : CommandType J) (stored : Stored)
    → IsFrom p meta command
    → (j : RoomCode) → IsEntry p (stored j) ((answer meta draw type command stored).1 j)
unfolding answer
answer-IsEntry J p meta draw ControlMessageType.create_room (CommandType.create_room command) stored
      from j =
    rw (sym from.1) (
      create-IsEntry J meta draw command stored
        (create_spec 100 0 draw command.password_hash stored) j)
answer-IsEntry J p meta draw ControlMessageType.join_room (CommandType.join_room command) stored
      from j =
    rw (sym from.1) (
      put-IsEntry command.participant.id command.room_code _ stored
        (join-IsEntry command.room_code command.participant command.password_hash
          (stored command.room_code))
        j)
answer-IsEntry J p meta draw ControlMessageType.leave_room (CommandType.leave_room command) stored
      from j =
    rw (sym from.1) (
      put-IsEntry command.participant_id command.room_code _ stored
        (leave-IsEntry command.room_code command.participant_id (stored command.room_code)) j)
answer-IsEntry J p meta draw ControlMessageType.signaling (CommandType.signaling command) stored
      from j =
    λ q e. inl e
answer-IsEntry J p meta draw _ _ stored from j = λ q e. inl e

module _ (json : Json) {S : Type 0} {repository : RoomRepository S} {view : S → Stored}
    (contract : Contract repository view) (draw : ℕ → ℕ) (self : SessionPtr) (s : S)
    (hub : Hub) where
  pub handle_message-IsEntry :
      (message : String) (j : RoomCode)
      → IsEntry self.participant_id
          (view s j)
          (view (handle_message json repository draw self message (s, hub)).1.0 j)
  unfolding handle_message session_handler
  handle_message-IsEntry message j =
      elim (Attempt-cases (decode_request json self.participant_id message)) [
        | inl (request, decoded) ↦ rw decoded (
            let r =
              dispatch-refines contract draw request (session_handler json self) (λ result h. refl)
                hub s in
            rw (r.stores j) (
              answer-IsEntry json.Value self.participant_id request.meta draw request.meta.type
                request.command (view s)
                (decode_request-IsFrom json self.participant_id message request decoded) j))
        | inr (e, failed) ↦ rw failed (λ q inside. inl inside)
      ]
