-- ===== src/App/RoomServiceTypes.antt =====
-- RoomService.hpp and the error builders of RoomService.cpp: the errors and the results of the use
-- cases.
use buzzweb_server.Common.{String, List}
use buzzweb_server.Domain.Participant.{Participant, ParticipantId}
use buzzweb_server.Domain.Room.{Room, RoomCode}
use buzzweb_server.App.Result.{Result}

-- `RoomServiceError::Type`
pub data ErrorType : Type 0 where
  wrong_password room_not_found room_code_generation_failed participant_unavailable : ErrorType
  not_in_room already_joined room_already_exists password_not_provided internal_error : ErrorType

pub record RoomServiceError : Type 0 where
  pub type : ErrorType
  pub msg : String

abbrev pub build_room_already_exists_error : RoomServiceError
build_room_already_exists_error = record {
  type = ErrorType.room_already_exists;
  msg = "Room already exists";
}

abbrev pub build_room_not_found_error : RoomServiceError
build_room_not_found_error = record { type = ErrorType.room_not_found; msg = "Room not found" }

abbrev pub build_already_joined_error : RoomServiceError
build_already_joined_error = record {
  type = ErrorType.already_joined;
  msg = "Participant already in room";
}

abbrev pub build_not_in_room_error : RoomServiceError
build_not_in_room_error = record {
  type = ErrorType.not_in_room;
  msg = "Participant not in the room";
}

abbrev pub build_room_code_generation_failed_error : RoomServiceError
build_room_code_generation_failed_error = record {
  type = ErrorType.room_code_generation_failed;
  msg = "Room code generation failed";
}

abbrev pub build_wrong_password_error : RoomServiceError
build_wrong_password_error = record { type = ErrorType.wrong_password; msg = "Wrong password" }

abbrev pub build_password_not_provided_error : RoomServiceError
build_password_not_provided_error = record {
  type = ErrorType.password_not_provided;
  msg = "Password not provided";
}

abbrev pub build_internal_error : RoomServiceError
build_internal_error = record { type = ErrorType.internal_error; msg = "Internal error" }

pub record ParticipantJoinedRoom : Type 0 where
  pub room_code : RoomCode
  pub participant : Participant
  pub room_participants : List Participant

pub record ParticipantLeftRoom : Type 0 where
  pub room_code : RoomCode
  pub participant_id : ParticipantId
  pub remaining_participants : List Participant

abbrev pub CreateRoomResult : Type 0
CreateRoomResult = Result Room RoomServiceError

abbrev pub ParticipantJoinedRoomResult : Type 0
ParticipantJoinedRoomResult = Result ParticipantJoinedRoom RoomServiceError

abbrev pub ParticipantLeftRoomResult : Type 0
ParticipantLeftRoomResult = Result ParticipantLeftRoom RoomServiceError

abbrev pub GetParticipantsResult : Type 0
GetParticipantsResult = Result (List Participant) RoomServiceError
