-- ===== src/Domain/Room.antt =====
-- Room.hpp and Room.cpp. `GetCode` and `GetParticipants` are the fields `code` and `participants`.
pub mod Membership
use buzzweb_server.Common.{
  String, Bool, true, false, Option, none, some, List, [], ◌∷◌, ◌++◌, ◌==◌, not, has_value,
  is_empty, any_of, find_if, remove_if, if◌then◌else◌, Outcome, returned, threw,
}
use buzzweb_server.Domain.Participant.{Participant, ParticipantId}

abbrev pub RoomCode : Type 0
RoomCode = String

abbrev pub RoomSecret : Type 0
RoomSecret = String

pub data JoinRoomResult : Type 0 where
  joined invalid_secret secret_not_provided already_in_room : JoinRoomResult

abbrev pub is_joined : JoinRoomResult → Bool
is_joined JoinRoomResult.joined = true
is_joined _ = false

pub data LeaveRoomResult : Type 0 where
  left not_in_room : LeaveRoomResult

pub record Room : Type 0 where
  pub code : RoomCode
  pub room_secret : Option RoomSecret
  pub participants : List Participant

-- the constructor
unfoldable pub new_room : RoomCode → Option RoomSecret → Room
new_room code room_secret = record { code = code; room_secret = room_secret; participants = [] }

unfoldable pub is_secret_protected : Room → Bool
is_secret_protected room = has_value room.room_secret

unfoldable pub room_is_empty : Room → Bool
room_is_empty room = is_empty room.participants

-- the lambda that each search over the participants is given
abbrev pub has_id : ParticipantId → Participant → Bool
has_id participant_id participant = participant.id == participant_id

unfoldable pub has_participant : ParticipantId → Room → Bool
has_participant participant_id room = any_of (has_id participant_id) room.participants

-- the `if (room_secret_)` block: the refusal that it returns, if it returns
unfoldable pub check_secret : Option RoomSecret → Option RoomSecret → Option JoinRoomResult
check_secret none given = none
check_secret (some secret) none = some JoinRoomResult.secret_not_provided
check_secret (some secret) (some given) =
    if not (secret == given) then some JoinRoomResult.invalid_secret else none

abbrev pub admit : Participant → Room → Option JoinRoomResult → JoinRoomResult × Room
admit participant room (some refusal) = (refusal, room)
admit participant room none =
    (JoinRoomResult.joined, record room { participants = room.participants ++ participant ∷ [] })

unfoldable pub try_add_participant : Participant → Option RoomSecret → Room → JoinRoomResult × Room
unfolding has_participant check_secret
try_add_participant participant room_secret room =
    if has_participant participant.id room
    then (JoinRoomResult.already_in_room, room)
    else admit participant room (check_secret room.room_secret room_secret)

unfoldable pub remove_participant : ParticipantId → Room → LeaveRoomResult × Room
unfolding has_participant
remove_participant participant_id room =
    if not (has_participant participant_id room) then (LeaveRoomResult.not_in_room, room) else (
      LeaveRoomResult.left,
      record room { participants = remove_if (has_id participant_id) room.participants },
    )

abbrev found_or_throw : Option Participant → Outcome Participant
found_or_throw none = threw "participant_not_found"
found_or_throw (some participant) = returned participant

-- both overloads: the reference and the copy show the same participant
unfoldable pub find_participant : ParticipantId → Room → Outcome Participant
find_participant participant_id room =
    found_or_throw (find_if (has_id participant_id) room.participants)
