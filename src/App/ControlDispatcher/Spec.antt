-- ===== src/App/ControlDispatcher/Spec.antt =====
-- What a request is answered and what it changes, over a repository that keeps its contract.
use buzzweb_server.Common.{ℕ, Bool, Option, some, List, [], ◌∷◌, ◌&&◌, ◌==◌, if◌then◌else◌}
use buzzweb_server.Domain.Participant.{Participant}
use buzzweb_server.Domain.Room.{Room, RoomCode}
use buzzweb_server.Domain.RoomRepository.{holds}
use buzzweb_server.App.Result.{ok, err}
use buzzweb_server.App.RoomServiceTypes.{
  ErrorType, CreateRoomResult, ParticipantJoinedRoomResult, ParticipantLeftRoomResult,
}
use buzzweb_server.App.RoomService.Spec.{join_spec, leave_spec}
use buzzweb_server.App.RoomService.Create.{create_spec}
use buzzweb_server.App.Messages.{
  ControlMessageType, CommandType, ControlDispatcherResponse, ControlDispatcherResult,
  ErrorResponsePayload, SuccessResponsePayload, ControlDispatcherEvent, CreateRoomCommand,
  SignalingCommand, RequestMeta,
}

-- What a client is told when the room service refuses.
abbrev pub told : ErrorType → ErrorResponsePayload
told ErrorType.room_not_found = ErrorResponsePayload.room_not_found
told ErrorType.already_joined = ErrorResponsePayload.already_in_room
told ErrorType.not_in_room = ErrorResponsePayload.not_in_room
told ErrorType.password_not_provided = ErrorResponsePayload.password_not_provided
told ErrorType.wrong_password = ErrorResponsePayload.wrong_password
told ErrorType.room_already_exists = ErrorResponsePayload.room_already_exists
told ErrorType.room_code_generation_failed = ErrorResponsePayload.room_code_generation_failed
told ErrorType.participant_unavailable = ErrorResponsePayload.participant_unavailable
told ErrorType.internal_error = ErrorResponsePayload.internal_error

module _ {J : Type 0} (meta : RequestMeta) where
  abbrev pub refused : ErrorResponsePayload → ControlDispatcherResult J
  refused payload = record { response = ControlDispatcherResponse.error meta payload; events = [] }

  abbrev pub granted :
      SuccessResponsePayload J → List ControlDispatcherEvent → ControlDispatcherResult J
  granted payload events = record {
    response = ControlDispatcherResponse.success meta payload;
    events = events;
  }

  -- A join is answered with the room's participants, and they are told of it.
  abbrev pub join_answer : ParticipantJoinedRoomResult → ControlDispatcherResult J
  join_answer (err e) = refused (told e.type)
  join_answer (ok joined) =
      granted
        (SuccessResponsePayload.join_room (record {
          room_code = joined.room_code;
          participant = joined.participant;
          participants = joined.room_participants;
        }))
        (ControlDispatcherEvent.joined_room (record {
          room_code = joined.room_code;
          joined_participant = joined.participant;
          event_receivers = joined.room_participants;
        })
          ∷ [])

  abbrev pub leave_answer : ParticipantLeftRoomResult → ControlDispatcherResult J
  leave_answer (err e) = refused (told e.type)
  leave_answer (ok left) = granted (SuccessResponsePayload.leave_room left.room_code) (
      ControlDispatcherEvent.left_room (record {
        room_code = left.room_code;
        left_participant_id = left.participant_id;
        event_receivers = left.remaining_participants;
      })
      ∷ [])

  abbrev pub relay_answer : SignalingCommand J → Bool → ControlDispatcherResult J
  relay_answer command both =
      if both
      then granted (SuccessResponsePayload.signaling command) []
      else refused ErrorResponsePayload.not_in_room

abbrev pub Stored : Type 0
Stored = RoomCode → Option Room

abbrev pub put : RoomCode → Option Room → Stored → Stored
put code o stored j = if code == j then o else stored j

abbrev pub enter : Participant → Room → Room
enter participant room = record room { participants = participant ∷ [] }

module _ {J : Type 0} (meta : RequestMeta) (draw : ℕ → ℕ) where
  -- The creator is the first participant of the room that is made.
  abbrev pub create_answer :
      CreateRoomCommand → CreateRoomResult → Stored → ControlDispatcherResult J × Stored
  create_answer command (err e) stored = (refused meta (told e.type), stored)
  create_answer command (ok room) stored = (
    granted meta
        (SuccessResponsePayload.create_room (record {
          room_code = room.code;
          participant = command.participant;
          participants = command.participant ∷ [];
        }))
        [],
    put room.code (some (enter command.participant room)) stored,
  )

  -- A request of one type that carries the command of another is an internal error.
  unfoldable pub answer :
      ControlMessageType → CommandType J → Stored → ControlDispatcherResult J × Stored
  answer ControlMessageType.create_room (CommandType.create_room command) stored =
      create_answer command (create_spec 100 0 draw command.password_hash stored) stored
  answer ControlMessageType.join_room (CommandType.join_room command) stored =
      let (result, room) =
        join_spec command.room_code command.participant command.password_hash
          (stored command.room_code) in
      (join_answer meta result, put command.room_code room stored)
  answer ControlMessageType.leave_room (CommandType.leave_room command) stored =
      let (result, room) =
        leave_spec command.room_code command.participant_id (stored command.room_code) in
      (leave_answer meta result, put command.room_code room stored)
  answer ControlMessageType.signaling (CommandType.signaling command) stored = (
    relay_answer meta command (
        holds command.from_participant_id (stored command.room_code)
        && holds command.target_participant_id (stored command.room_code)),
    stored,
  )
  answer _ _ stored = (refused meta ErrorResponsePayload.internal_error, stored)
