-- ===== src/App/Messages.antt =====
-- ControlDispatcher.hpp: the commands, responses and events that the dispatcher takes and gives.
-- `J` is the type of the opaque signaling data, `nlohmann::json` in the source.
use buzzweb_server.Common.{String, Option, List}
use buzzweb_server.Domain.Participant.{Participant, ParticipantId}
use buzzweb_server.Domain.Room.{RoomCode, RoomSecret}

pub data ControlMessageType : Type 0 where
  create_room join_room leave_room signaling : ControlMessageType

pub data SignalingType : Type 0 where
  offer answer ice_candidate : SignalingType

pub record CreateRoomCommand : Type 0 where
  pub participant : Participant
  pub password_hash : Option RoomSecret

pub record JoinRoomCommand : Type 0 where
  pub room_code : RoomCode
  pub participant : Participant
  pub password_hash : Option RoomSecret

pub record LeaveRoomCommand : Type 0 where
  pub room_code : RoomCode
  pub participant_id : ParticipantId

pub record SignalingCommand (J : Type 0) : Type 0 where
  pub type : SignalingType
  pub room_code : RoomCode
  pub from_participant_id : ParticipantId
  pub target_participant_id : ParticipantId
  pub payload : J

pub record RequestMeta : Type 0 where
  pub type : ControlMessageType
  pub request_id : Option String
  pub signaling_type : Option SignalingType

pub data CommandType (J : Type 0) : Type 0 where
  create_room : CreateRoomCommand → CommandType J
  join_room : JoinRoomCommand → CommandType J
  leave_room : LeaveRoomCommand → CommandType J
  signaling : SignalingCommand J → CommandType J

pub record ControlDispatcherRequest (J : Type 0) : Type 0 where
  pub meta : RequestMeta
  pub command : CommandType J

-- `CreateRoomResponse` and `JoinRoomResponse` have the same fields.
pub record RoomResponse : Type 0 where
  pub room_code : RoomCode
  pub participant : Participant
  pub participants : List Participant

pub data SuccessResponsePayload (J : Type 0) : Type 0 where
  create_room : RoomResponse → SuccessResponsePayload J
  join_room : RoomResponse → SuccessResponsePayload J
  leave_room : RoomCode → SuccessResponsePayload J
  signaling : SignalingCommand J → SuccessResponsePayload J

pub data ErrorResponsePayload : Type 0 where
  room_already_exists room_code_generation_failed not_in_room : ErrorResponsePayload
  already_in_room wrong_password password_not_provided : ErrorResponsePayload
  room_not_found participant_unavailable internal_error unexpected_error : ErrorResponsePayload

pub data ControlDispatcherResponse (J : Type 0) : Type 0 where
  success : RequestMeta → SuccessResponsePayload J → ControlDispatcherResponse J
  error : RequestMeta → ErrorResponsePayload → ControlDispatcherResponse J

abbrev pub meta_of : {J : Type 0} → ControlDispatcherResponse J → RequestMeta
meta_of (ControlDispatcherResponse.success meta _) = meta
meta_of (ControlDispatcherResponse.error meta _) = meta

pub record JoinedRoomEvent : Type 0 where
  pub room_code : RoomCode
  pub joined_participant : Participant
  pub event_receivers : List Participant

pub record LeftRoomEvent : Type 0 where
  pub room_code : RoomCode
  pub left_participant_id : ParticipantId
  pub event_receivers : List Participant

pub data ControlDispatcherEvent : Type 0 where
  joined_room : JoinedRoomEvent → ControlDispatcherEvent
  left_room : LeftRoomEvent → ControlDispatcherEvent

pub record ControlDispatcherResult (J : Type 0) : Type 0 where
  pub response : ControlDispatcherResponse J
  pub events : List ControlDispatcherEvent
