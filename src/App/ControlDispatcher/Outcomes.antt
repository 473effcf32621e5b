-- ===== src/App/ControlDispatcher/Outcomes.antt =====
-- One call of the handler with the outcome of a use case or of the questions of a relay.
use buzzweb_server.Common.{
  ℕ, ◌≡◌, refl, Bool, true, false, ◌&&◌, Outcome, returned, Done, recover, continue, ◌>>=◌,
}
use buzzweb_server.Domain.Room.{RoomCode}
use buzzweb_server.Domain.RoomRepository.{RoomRepository, Contract, holds}
use buzzweb_server.App.Result.{ok, err}
use buzzweb_server.App.RoomServiceTypes.{
  ErrorType, RoomServiceError, ParticipantJoinedRoomResult, ParticipantLeftRoomResult,
}
use buzzweb_server.App.RoomService
use buzzweb_server.App.Messages.{
  ControlDispatcherRequest, ControlDispatcherResult, ErrorResponsePayload, SignalingCommand,
}
use buzzweb_server.App.ControlDispatcher.{
  Handler, invoke, send_error, map_service_error, joined, left, relayed, target_in_room,
}
use buzzweb_server.App.ControlDispatcher.Spec.{
  told, refused, Stored, join_answer, leave_answer, relay_answer,
}

-- One call of the handler on `result` from its state `h`, and a repository that shows `stored`.
pub record Answers {J S H : Type 0} (view : S → Stored) (handler : Handler J H) (h : H)
    (result : ControlDispatcherResult J) (stored : Stored) (o : Outcome Done × (S × H))
    : Type 0 where
  pub returns : o.0 ≡ returned tt
  pub called : o.1.1 ≡ (handler result h).1
  pub stores : (j : RoomCode) → view o.1.0 j ≡ stored j

map_service_error-told : (e : RoomServiceError) → map_service_error e ≡ told e.type
unfolding map_service_error
map_service_error-told e = of_type e.type
  where
    of_type :
        (type : ErrorType) → map_service_error (record { type = type; msg = e.msg }) ≡ told type
    of_type ErrorType.wrong_password = refl
    of_type ErrorType.room_not_found = refl
    of_type ErrorType.room_code_generation_failed = refl
    of_type ErrorType.participant_unavailable = refl
    of_type ErrorType.not_in_room = refl
    of_type ErrorType.already_joined = refl
    of_type ErrorType.room_already_exists = refl
    of_type ErrorType.password_not_provided = refl
    of_type ErrorType.internal_error = refl

module _ {J S H : Type 0} {repository : RoomRepository S} {view : S → Stored}
    (contract : Contract repository view) (draw : ℕ → ℕ) (request : ControlDispatcherRequest J)
    (handler : Handler J H)
    (quiet : (result : ControlDispatcherResult J) (h : H) → (handler result h).0 ≡ returned tt)
    (h : H) where
  abbrev pub caught : Outcome Done × (S × H) → Outcome Done × (S × H)
  caught =
      recover
        (λ what. send_error repository draw request handler ErrorResponsePayload.internal_error)

  pub settled :
      (result : ControlDispatcherResult J) (s : S) (stored : Stored)
      → ((j : RoomCode) → view s j ≡ stored j)
      → Answers view handler h result stored (caught (invoke handler result (s, h)))
  settled result s stored e = record {
    returns = rw (quiet result h);
    called = rw (quiet result h);
    stores = λ j. rw (quiet result h) (e j);
  }

  -- A refusal of the room service, as the client is told of it.
  pub refused-Answers :
      (e : RoomServiceError) (s : S) (stored : Stored)
      → ((j : RoomCode) → view s j ≡ stored j)
      → Answers view handler h
          (refused request.meta (told e.type))
          stored
          (caught (send_error repository draw request handler (map_service_error e) (s, h)))
  refused-Answers e s stored same =
      rw (map_service_error-told e) (settled (refused request.meta (told e.type)) s stored same)

  pub joined-Answers :
      (result : ParticipantJoinedRoomResult) (s : S) (stored : Stored)
      → ((j : RoomCode) → view s j ≡ stored j)
      → Answers view handler h
          (join_answer request.meta result)
          stored
          (caught (joined repository draw request handler result (s, h)))
  joined-Answers (err e) s stored same = refused-Answers e s stored same
  joined-Answers (ok result) s stored same = settled _ s stored same

  pub left-Answers :
      (result : ParticipantLeftRoomResult) (s : S) (stored : Stored)
      → ((j : RoomCode) → view s j ≡ stored j)
      → Answers view handler h
          (leave_answer request.meta result)
          stored
          (caught (left repository draw request handler result (s, h)))
  left-Answers (err e) s stored same = refused-Answers e s stored same
  left-Answers (ok result) s stored same = settled _ s stored same

  relayed-Answers :
      (command : SignalingCommand J) (both : Bool) (s : S)
      → Answers view handler h
          (relay_answer request.meta command both)
          (view s)
          (caught (relayed repository draw request handler command both (s, h)))
  relayed-Answers command true s = settled _ s (view s) (λ j. refl)
  relayed-Answers command false s = settled _ s (view s) (λ j. refl)

  -- The two questions of the relay, answered by the repository.
  pub asked-Answers :
      (command : SignalingCommand J) (s : S)
      → let from = holds command.from_participant_id (view s command.room_code) in
        let target = holds command.target_participant_id (view s command.room_code) in
        Answers view handler h (relay_answer request.meta command (from && target)) (view s) (
          caught (
            continue
              (RoomService.participant_in_room repository command.from_participant_id
                command.room_code s)
              (λ inside.
                target_in_room repository draw request handler command inside
                >>= relayed repository draw request handler command)
              (s, h)))
  unfolding RoomService.participant_in_room
  asked-Answers command s =
      rw (contract.participant_outcome command.from_participant_id command.room_code s)
        (from_known (holds command.from_participant_id (view s command.room_code)))
    where
      from_known :
          (from : Bool)
          → Answers view handler h
              (relay_answer request.meta command
                (from && holds command.target_participant_id (view s command.room_code)))
              (view s)
              (caught (
                (target_in_room repository draw request handler command from
                    >>= relayed repository draw request handler command)
                  (s, h)))
      from_known false = relayed-Answers command false s
      from_known true =
          rw (contract.participant_outcome command.target_participant_id command.room_code s) (
            relayed-Answers command (holds command.target_participant_id (view s command.room_code))
              s)
