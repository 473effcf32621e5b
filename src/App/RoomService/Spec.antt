-- ===== src/App/RoomService/Spec.antt =====
-- What the use cases promise, on the room that is stored under one code: the reply, and the room
-- that is stored afterwards. No repository, transaction or exception is in sight.
use buzzweb_server.Common.{
  Option, none, some, [], ◌∷◌, ◌++◌, ◌==◌, if◌then◌else◌, is_empty, remove_if,
}
use buzzweb_server.Domain.Participant.{Participant, ParticipantId}
use buzzweb_server.Domain.Room.{Room, RoomCode, RoomSecret, has_id, has_participant}
use buzzweb_server.App.Result.{ok, err}
use buzzweb_server.App.RoomServiceTypes.{
  ParticipantJoinedRoomResult, ParticipantLeftRoomResult, RoomServiceError,
  build_room_not_found_error, build_already_joined_error, build_not_in_room_error,
  build_wrong_password_error, build_password_not_provided_error,
}

-- Why a secret is refused, if it is.
abbrev pub refusal : Option RoomSecret → Option RoomSecret → Option RoomServiceError
refusal none given = none
refusal (some secret) none = some build_password_not_provided_error
refusal (some secret) (some given) =
    if secret == given then none else some build_wrong_password_error

abbrev pub join_open :
    RoomCode
    → Participant
    → Room
    → Option RoomServiceError
    → ParticipantJoinedRoomResult × Option Room
join_open code participant room (some e) = (err e, some room)
join_open code participant room none = (
  ok (record {
    room_code = code;
    participant = participant;
    room_participants = room.participants ++ participant ∷ [];
  }),
  some (record room { participants = room.participants ++ participant ∷ [] }),
)

abbrev pub join_spec :
    RoomCode
    → Participant
    → Option RoomSecret
    → Option Room
    → ParticipantJoinedRoomResult × Option Room
join_spec code participant given none = (err build_room_not_found_error, none)
join_spec code participant given (some room) =
    if has_participant participant.id room
    then (err build_already_joined_error, some room)
    else join_open code participant room (refusal room.room_secret given)

-- The room without the participant; an empty one is not kept.
abbrev pub without : ParticipantId → Room → Room
without participant_id room = record room {
  participants = remove_if (has_id participant_id) room.participants;
}

abbrev pub keep_occupied : Room → Option Room
keep_occupied room = if is_empty room.participants then none else some room

abbrev pub leave_spec :
    RoomCode → ParticipantId → Option Room → ParticipantLeftRoomResult × Option Room
leave_spec code participant_id none = (err build_room_not_found_error, none)
leave_spec code participant_id (some room) =
    if has_participant participant_id room
    then (
      ok (record {
        room_code = code;
        participant_id = participant_id;
        remaining_participants = (without participant_id room).participants;
      }),
      keep_occupied (without participant_id room),
    )
    else (err build_not_in_room_error, some room)
