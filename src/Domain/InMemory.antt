-- ===== src/Domain/InMemory.antt =====
-- InMemoryRoomRepository.hpp and .cpp. Each method holds the mutex from its first line to its last,
-- so a method is one step of the state, and calls of several threads are a sequence of such steps.
pub mod Refinement
pub mod Keys
use buzzweb_server.Common.{
  Bool, false, true, Option, none, some, List, [], if◌then◌else◌, Outcome, returned, Exec, Done,
}
use buzzweb_server.Common.UnorderedMap
use buzzweb_server.Common.UnorderedMap.{UnorderedMap}
use buzzweb_server.Domain.Participant.{ParticipantId}
use buzzweb_server.Domain.Room.{Room, RoomCode, has_participant, room_is_empty}
use buzzweb_server.Domain.RoomRepository.{
  RoomRepository, AddRoomResult, UpdateRoomResult, RemoveRoomResult, RemoveEmptyRoomResult,
  TransactionResult, Updater,
}

-- `rooms_`
abbrev pub Rooms : Type 0
Rooms = UnorderedMap Room

unfoldable pub no_rooms : Rooms
no_rooms = []

unfoldable pub add : Room → Exec Rooms AddRoomResult
unfolding UnorderedMap.emplace
add room rooms =
    let (rooms', inserted) = UnorderedMap.emplace room.code room rooms in
    (returned (if inserted then AddRoomResult.added else AddRoomResult.already_exists), rooms')

unfoldable pub find_by_code : RoomCode → Rooms → Outcome (Option Room)
find_by_code room_code rooms = returned (UnorderedMap.find room_code rooms)

abbrev conclude :
    {C : Type 0}
    → RoomCode
    → Rooms
    → TransactionResult × Room × C
    → Outcome UpdateRoomResult × C × Rooms
conclude room_code rooms (TransactionResult.abort, updated_room, c) =
    (returned UpdateRoomResult.aborted, c, rooms)
conclude room_code rooms (TransactionResult.commit, updated_room, c) =
    (returned UpdateRoomResult.updated, c, UnorderedMap.assign room_code updated_room rooms)

abbrev update_found :
    {C : Type 0}
    → RoomCode
    → Updater C
    → C
    → Rooms
    → Option Room
    → Outcome UpdateRoomResult × C × Rooms
update_found room_code updater c rooms none = (returned UpdateRoomResult.not_found, c, rooms)
update_found room_code updater c rooms (some room) = conclude room_code rooms (updater room c)

unfoldable pub update :
    (C : Type 0) → RoomCode → Updater C → C → Rooms → Outcome UpdateRoomResult × C × Rooms
update C room_code updater c rooms =
    update_found room_code updater c rooms (UnorderedMap.find room_code rooms)

-- `erase` by key returns how many elements it took out; the keys of the container are unique.
unfoldable pub remove : RoomCode → Exec Rooms RemoveRoomResult
unfolding UnorderedMap.contains
remove room_code rooms = (
  returned (
      if UnorderedMap.contains room_code rooms
      then RemoveRoomResult.removed
      else RemoveRoomResult.not_found),
  UnorderedMap.erase room_code rooms,
)

abbrev remove_found : RoomCode → Rooms → Option Room → Outcome RemoveEmptyRoomResult × Rooms
remove_found room_code rooms none = (returned RemoveEmptyRoomResult.not_found, rooms)
remove_found room_code rooms (some room) =
    if room_is_empty room
    then (returned RemoveEmptyRoomResult.removed, UnorderedMap.erase room_code rooms)
    else (returned RemoveEmptyRoomResult.not_empty, rooms)

unfoldable pub remove_if_empty : RoomCode → Exec Rooms RemoveEmptyRoomResult
remove_if_empty room_code rooms = remove_found room_code rooms (UnorderedMap.find room_code rooms)

unfoldable pub exists : RoomCode → Rooms → Outcome Bool
unfolding UnorderedMap.contains
exists room_code rooms = returned (UnorderedMap.contains room_code rooms)

abbrev found_with : ParticipantId → Option Room → Bool
found_with participant_id none = false
found_with participant_id (some room) = has_participant participant_id room

unfoldable pub participant_in_room : ParticipantId → RoomCode → Rooms → Outcome Bool
participant_in_room participant_id room_code rooms =
    returned (found_with participant_id (UnorderedMap.find room_code rooms))

unfoldable pub get_room_codes : Rooms → Outcome (List RoomCode)
get_room_codes rooms = returned (UnorderedMap.keys rooms)

-- The class as an implementation of the interface.
abbrev pub in_memory : RoomRepository Rooms
in_memory = record {
  add = add;
  find_by_code = find_by_code;
  update = update;
  remove = remove;
  remove_if_empty = remove_if_empty;
  exists = exists;
  participant_in_room = participant_in_room;
  get_room_codes = get_room_codes;
}
