-- ===== src/App/ControlDispatcher/Locality.antt =====
-- The room that the answer of `Dispatch` to a request depends on, and that it may change.
use buzzweb_server.Common.{
  subst, ℕ, ◌≡◌, ◌≢◌, refl, ap, ◌∙◌, Option, none, some, ◌==◌, ◌&&◌, eq_iff, arith, if◌then◌else◌,
}
use buzzweb_server.Domain.Room.{Room, RoomCode}
use buzzweb_server.Domain.RoomRepository.{holds}
use buzzweb_server.App.RoomService.Spec.{join_spec, leave_spec}
use buzzweb_server.App.Messages.{
  ControlMessageType, CommandType, ControlDispatcherResult, RequestMeta, JoinRoomCommand,
  LeaveRoomCommand, SignalingCommand, ErrorResponsePayload,
}
use buzzweb_server.App.ControlDispatcher.Spec.{
  Stored, answer, put, refused, join_answer, leave_answer, relay_answer,
}

-- The room that a request names; a creation draws the code of a new one.
abbrev pub room_of : {J : Type 0} → CommandType J → Option RoomCode
room_of (CommandType.create_room command) = none
room_of (CommandType.join_room command) = some command.room_code
room_of (CommandType.leave_room command) = some command.room_code
room_of (CommandType.signaling command) = some command.room_code

-- An answer that depends on one room, and changes no other.
pub record IsLocal {J : Type 0} (code : RoomCode) (f : Stored → ControlDispatcherResult J × Stored)
    : Type 0 where
  pub replies : (a b : Stored) → a code ≡ b code → (f a).0 ≡ (f b).0
  pub changes : (a b : Stored) → a code ≡ b code → (f a).1 code ≡ (f b).1 code
  pub keeps : (a : Stored) (j : RoomCode) → code ≢ j → (f a).1 j ≡ a j

reads-IsLocal :
    {J : Type 0} (code : RoomCode) (reply : Option Room → ControlDispatcherResult J)
    → IsLocal code (λ stored. (reply (stored code), stored))
reads-IsLocal code reply = record {
  replies = λ a b same. ap reply same;
  changes = λ a b same. same;
  keeps = λ a j other. refl;
}

put-IsLocal :
    {J : Type 0} (code : RoomCode) (act : Option Room → ControlDispatcherResult J × Option Room)
    → IsLocal code (λ stored. ((act (stored code)).0, put code (act (stored code)).1 stored))
put-IsLocal code act = record {
  replies = λ a b same. ap (λ o. (act o).0) same;
  changes = λ a b same.
      ap (λ o. if code == code then (act o).1 else a code) same
      ∙ ap (λ o. if code == code then (act (b code)).1 else o) same;
  keeps = λ a j other. ground (arith, other, eq_iff code j);
}

module _ {J : Type 0} (meta : RequestMeta) (draw : ℕ → ℕ) where
  unsuited-IsLocal :
      (code : RoomCode)
      → IsLocal {J = J} code (λ stored. (refused meta ErrorResponsePayload.internal_error, stored))
  unsuited-IsLocal code = reads-IsLocal code (λ o. refused meta ErrorResponsePayload.internal_error)

  join-IsLocal :
      (command : JoinRoomCommand)
      → IsLocal command.room_code
          (answer {J = J} meta draw ControlMessageType.join_room (CommandType.join_room command))
  unfolding answer
  join-IsLocal command = put-IsLocal command.room_code (λ o.
      let (result, room) =
        join_spec command.room_code command.participant command.password_hash o in
      (join_answer meta result, room))

  leave-IsLocal :
      (command : LeaveRoomCommand)
      → IsLocal command.room_code
          (answer {J = J} meta draw ControlMessageType.leave_room (CommandType.leave_room command))
  unfolding answer
  leave-IsLocal command = put-IsLocal command.room_code (λ o.
      let (result, room) = leave_spec command.room_code command.participant_id o in
      (leave_answer meta result, room))

  relay-IsLocal :
      (command : SignalingCommand J)
      → IsLocal command.room_code
          (answer meta draw ControlMessageType.signaling (CommandType.signaling command))
  unfolding answer
  relay-IsLocal command = reads-IsLocal command.room_code (λ o.
      relay_answer meta command
        (holds command.from_participant_id o && holds command.target_participant_id o))

  pub answer-IsLocal :
      (code : RoomCode) (type : ControlMessageType) (command : CommandType J)
      → room_of command ≡ some code
      → IsLocal code (answer meta draw type command)
  unfolding answer
  answer-IsLocal code ControlMessageType.create_room (CommandType.create_room command) e =
      absurd (ground (arith, e))
  answer-IsLocal code ControlMessageType.create_room _ e = unsuited-IsLocal code
  answer-IsLocal code ControlMessageType.join_room (CommandType.join_room command) e =
      let here : command.room_code ≡ code = ground (arith, e) in
      subst
        (λ i.
          IsLocal i
            (answer {J = J} meta draw ControlMessageType.join_room (CommandType.join_room command)))
        here (join-IsLocal command)
  answer-IsLocal code ControlMessageType.join_room _ e = unsuited-IsLocal code
  answer-IsLocal code ControlMessageType.leave_room (CommandType.leave_room command) e =
      let here : command.room_code ≡ code = ground (arith, e) in
      subst
        (λ i.
          IsLocal i (
            answer {J = J} meta draw ControlMessageType.leave_room
              (CommandType.leave_room command)))
        here (leave-IsLocal command)
  answer-IsLocal code ControlMessageType.leave_room _ e = unsuited-IsLocal code
  answer-IsLocal code ControlMessageType.signaling (CommandType.signaling command) e =
      let here : command.room_code ≡ code = ground (arith, e) in
      subst
        (λ i.
          IsLocal i
            (answer {J = J} meta draw ControlMessageType.signaling (CommandType.signaling command)))
        here (relay-IsLocal command)
  answer-IsLocal code ControlMessageType.signaling _ e = unsuited-IsLocal code
