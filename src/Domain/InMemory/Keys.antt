-- ===== src/Domain/InMemory/Keys.antt =====
-- The keys of the container in InMemoryRoomRepository.cpp.
use buzzweb_server.Common.{Option, none, some, arith}
use buzzweb_server.Common.UnorderedMap.{
  AreDistinct, keys, find, emplace-AreDistinct, assign-AreDistinct, erase-AreDistinct,
}
use buzzweb_server.Domain.Room.{Room, RoomCode}
use buzzweb_server.Domain.RoomRepository.{Updater, TransactionResult}
use buzzweb_server.Domain.InMemory.{
  Rooms, add, update, conclude, update_found, remove, remove_if_empty, remove_found,
}

abbrev pub HasDistinctKeys : Rooms → Type 0
HasDistinctKeys rooms = AreDistinct (keys rooms)

-- The operations that change the repository.
pub data Operation : Type 1 where
  adds : Room → Operation
  updates : (C : Type 0) → RoomCode → Updater C → C → Operation
  removes removes_if_empty : RoomCode → Operation

abbrev pub perform : Operation → Rooms → Rooms
perform (adds room) rooms = (add room rooms).1
perform (updates C code updater c) rooms = (update C code updater c rooms).2
perform (removes code) rooms = (remove code rooms).1
perform (removes_if_empty code) rooms = (remove_if_empty code rooms).1

concluded-HasDistinctKeys :
    (C : Type 0) (code : RoomCode) (rooms : Rooms) (outcome : TransactionResult × Room × C)
    → HasDistinctKeys rooms
    → HasDistinctKeys (conclude code rooms outcome).2
concluded-HasDistinctKeys C code rooms (TransactionResult.commit, room, c) d =
    assign-AreDistinct code room rooms d
concluded-HasDistinctKeys C code rooms (TransactionResult.abort, room, c) d = d

found-HasDistinctKeys :
    (C : Type 0) (code : RoomCode) (updater : Updater C) (c : C) (rooms : Rooms) (o : Option Room)
    → HasDistinctKeys rooms
    → HasDistinctKeys (update_found code updater c rooms o).2
found-HasDistinctKeys C code updater c rooms none d = d
found-HasDistinctKeys C code updater c rooms (some room) d =
    concluded-HasDistinctKeys C code rooms (updater room c) d

-- Every operation, whatever updater it is given and whether it succeeds or not, keeps the keys of
-- the container distinct, so that `GetRoomCodes` names each room once.
pub perform-HasDistinctKeys :
    (operation : Operation) (rooms : Rooms)
    → HasDistinctKeys rooms
    → HasDistinctKeys (perform operation rooms)
unfolding add update remove remove_if_empty
perform-HasDistinctKeys (adds room) rooms d = emplace-AreDistinct room.code room rooms d
perform-HasDistinctKeys (updates C code updater c) rooms d =
    found-HasDistinctKeys C code updater c rooms (find code rooms) d
perform-HasDistinctKeys (removes code) rooms d = erase-AreDistinct code rooms d
perform-HasDistinctKeys (removes_if_empty code) rooms d = removed (find code rooms)
  where
    removed : (o : Option Room) → HasDistinctKeys (remove_found code rooms o).1
    removed none = d
    removed (some room) = ground (arith, erase-AreDistinct code rooms d)
