-- ===== src/App/RoomService/Tests.antt =====
-- The use cases at rooms of the tests, over the in-memory repository and over one that fails.
use buzzweb_server.Common.{
  ◌≢◌, ℕ, ◌≡◌, refl, ◌<◌, true, arith, none, some, List, [], ◌∷◌, ◌==◌, has_value, length,
  if◌then◌else◌, returned, threw,
}
use buzzweb_server.Common.UnorderedMap
use buzzweb_server.Common.Streams
use buzzweb_server.Common.Streams.{read_digits, value_from}
use buzzweb_server.Domain.Room.{
  JoinRoomResult, try_add_participant, check_secret, remove_participant, room_is_empty, Room,
  RoomCode, LeaveRoomResult, new_room,
}
use buzzweb_server.Domain.RoomRepository.{UpdateRoomResult, RoomRepository, RemoveEmptyRoomResult}
use buzzweb_server.Domain.InMemory
use buzzweb_server.Domain.InMemory.{Rooms, in_memory}
use buzzweb_server.Domain.InMemory.Refinement.{view, in_memory-Contract}
use buzzweb_server.Domain.Tests.{alice, bob, two_rooms}
use buzzweb_server.App.Result.{ok, err}
use buzzweb_server.App.RoomServiceTypes.{
  ParticipantJoinedRoom, build_room_code_generation_failed_error,
}
use buzzweb_server.App.RoomService.{
  JoinCapture, no_join, join_updater, LeaveCapture, leave_updater, no_leave, generate_room_code,
  create_room, join_room, leave_room,
}
use buzzweb_server.App.RoomService.Spec.{join_spec, leave_spec}
use buzzweb_server.App.RoomService.Create.{
  create_room-ok, create_room-err, generate_room_code_faithful,
}
use buzzweb_server.App.RoomService.Join.{join_room-refines}
use buzzweb_server.App.RoomService.Leave.{leave_room-refines}
use buzzweb_server.App.RoomService.Faults.{join_room_sound, leave_room_lost_fault}

-- a generator that yields 8 each time, and one whose code is taken
abbrev draw_free : ℕ → ℕ
draw_free attempt = 8

abbrev draw_taken : ℕ → ℕ
draw_taken attempt = 7

abbrev made : Room
made = record { code = "000008"; room_secret = none; participants = [] }

create_free : (create_room in_memory draw_free none two_rooms).0 ≡ ok made
unfolding create_room generate_room_code InMemory.add UnorderedMap.emplace UnorderedMap.contains
    UnorderedMap.find Streams.text Streams.digit_char Streams.set_width Streams.digits new_room
create_free = refl

create_room-ok_example :
    ((i : ℕ) × (i < 100)
      × (made ≡ new_room (generate_room_code (draw_free i)) none)
      × (view two_rooms (generate_room_code (draw_free i)) ≡ none))
    × ((j : RoomCode)
        → view (create_room in_memory draw_free none two_rooms).1 j
          ≡ (if "000008" == j then some made else view two_rooms j))
create_room-ok_example = create_room-ok in_memory-Contract draw_free none two_rooms made create_free

create_taken :
    (create_room in_memory draw_taken none two_rooms).0
    ≡ err build_room_code_generation_failed_error
unfolding create_room generate_room_code InMemory.add UnorderedMap.emplace UnorderedMap.contains
    UnorderedMap.find Streams.text Streams.digit_char Streams.set_width Streams.digits new_room
create_taken = refl

create_room-err_example :
    (build_room_code_generation_failed_error ≡ build_room_code_generation_failed_error)
    × ((i : ℕ) → i < 100 → has_value (view two_rooms (generate_room_code (draw_taken i))) ≡ true)
    × ((j : RoomCode)
        → view (create_room in_memory draw_taken none two_rooms).1 j ≡ view two_rooms j)
create_room-err_example =
    create_room-err in_memory-Contract draw_taken none two_rooms
      build_room_code_generation_failed_error create_taken

generate_room_code_faithful_example :
    (ds : List ℕ) × (read_digits 10 (generate_room_code 8) ≡ some ds)
    × (length ds ≡ 6)
    × (value_from 10 0 ds ≡ 8)
generate_room_code_faithful_example = generate_room_code_faithful 8 (omega arith)

join_room-refines_example :
    ((join_room in_memory "000007" bob (some "pw") two_rooms).0
      ≡ (join_spec "000007" bob (some "pw") (view two_rooms "000007")).0)
    × ((j : RoomCode)
        → view (join_room in_memory "000007" bob (some "pw") two_rooms).1 j ≡ (
            if "000007" == j
            then (join_spec "000007" bob (some "pw") (view two_rooms "000007")).1
            else view two_rooms j))
join_room-refines_example = join_room-refines in_memory-Contract "000007" bob (some "pw") two_rooms

leave_room-refines_example :
    ((leave_room in_memory "000007" "p_a" two_rooms).0
      ≡ (leave_spec "000007" "p_a" (view two_rooms "000007")).0)
    × ((j : RoomCode)
        → view (leave_room in_memory "000007" "p_a" two_rooms).1 j ≡ (
            if "000007" == j
            then (leave_spec "000007" "p_a" (view two_rooms "000007")).1
            else view two_rooms j))
leave_room-refines_example = leave_room-refines in_memory-Contract "000007" "p_a" two_rooms

-- A repository whose disk is full when something is to be stored.
abbrev fragile : RoomRepository Rooms
fragile = record in_memory {
  update = λ C code updater c rooms.
      let (outcome, c', rooms') = in_memory.update C code updater c rooms in
      (threw "disk_full", c', rooms);
}

abbrev bob_joined : ParticipantJoinedRoom
bob_joined = record {
  room_code = "000007";
  participant = bob;
  room_participants = alice ∷ bob ∷ [];
}

bob_enters : (join_room in_memory "000007" bob (some "pw") two_rooms).0 ≡ ok bob_joined
unfolding join_room join_updater InMemory.update UnorderedMap.find UnorderedMap.assign
    try_add_participant check_secret
bob_enters = refl

join_room_sound_example :
    let (outcome, c, s') =
      in_memory.update JoinCapture "000007" (join_updater bob (some "pw")) no_join two_rooms in
    (o : UpdateRoomResult) × (outcome ≡ returned o)
    × (o ≢ UpdateRoomResult.not_found)
    × (c.join_result ≡ some JoinRoomResult.joined)
    × ((alice ∷ bob ∷ []) ≡ c.room_participants)
join_room_sound_example =
    join_room_sound in_memory two_rooms "000007" bob (some "pw") bob_joined bob_enters

abbrev bob_left : LeaveCapture
bob_left = record { leave_result = some LeaveRoomResult.left; remaining_participants = alice ∷ [] }

fragile_update :
    fragile.update LeaveCapture "000042" (leave_updater "p_b") no_leave two_rooms
    ≡ (threw "disk_full", bob_left, two_rooms)
unfolding leave_updater InMemory.update UnorderedMap.find remove_participant
fragile_update = refl

fragile_clean_up :
    fragile.remove_if_empty "000042" two_rooms
    ≡ (returned RemoveEmptyRoomResult.not_empty, two_rooms)
unfolding InMemory.remove_if_empty UnorderedMap.find room_is_empty
fragile_clean_up = refl

leave_room_lost_fault_example : leave_room fragile "000042" "p_b" two_rooms ≡ (
  ok (record { room_code = "000042"; participant_id = "p_b"; remaining_participants = alice ∷ [] }),
  two_rooms,
)
leave_room_lost_fault_example =
    leave_room_lost_fault fragile two_rooms "000042" "p_b" "disk_full" bob_left
      RemoveEmptyRoomResult.not_empty fragile_update refl fragile_clean_up
