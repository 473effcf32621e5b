-- ===== src/Domain/InMemory/Refinement.antt =====
-- InMemoryRoomRepository.cpp and the contract of the interface.
use buzzweb_server.Common.{
  ◌≡◌, refl, returned, Option, none, some, [], ◌∷◌, ◌==◌, eq_iff, arith, any_of, has_value,
  if◌then◌else◌,
}
use buzzweb_server.Common.UnorderedMap
use buzzweb_server.Common.UnorderedMap.{find-emplace, find-assign, find-erase}
use buzzweb_server.Domain.Room.{Room, RoomCode}
use buzzweb_server.Domain.RoomRepository.{Contract, Updater, transact, or_else, drop_empty}
use buzzweb_server.Domain.InMemory.{
  Rooms, in_memory, add, find_by_code, update, update_found, remove, remove_if_empty, remove_found,
  exists, participant_in_room, get_room_codes,
}

abbrev pub view : Rooms → RoomCode → Option Room
view rooms code = UnorderedMap.find code rooms

keys-view :
    (rooms : Rooms) (k : RoomCode)
    → any_of (λ c. c == k) (UnorderedMap.keys rooms) ≡ has_value (view rooms k)
unfolding UnorderedMap.keys UnorderedMap.find
keys-view [] k = refl
keys-view ((j, room) ∷ rooms) k = ground (arith, keys-view rooms k)

add_view :
    (room : Room) (s : Rooms) (c : RoomCode)
    → view (add room s).1 c ≡ (if room.code == c then or_else (view s c) room else view s c)
unfolding add
add_view room s c = ground (arith, eq_iff room.code c, find-emplace room.code c room s)

view-update_found :
    (C : Type 0) (k : RoomCode) (f : Updater C) (c : C) (s : Rooms) (j : RoomCode) (o : Option Room)
    → view s k ≡ o
    → view (update_found k f c s o).2 j ≡ (if k == j then (transact f c o).2 else view s j)
view-update_found C k f c s j none e = ground (arith, eq_iff k j)
view-update_found C k f c s j (some room) e =
    ground (arith, eq_iff k j, find-assign k j (f room c).1 s)

remove_view :
    (k : RoomCode) (s : Rooms) (j : RoomCode)
    → view (remove k s).1 j ≡ (if k == j then none else view s j)
unfolding remove
remove_view k s j = find-erase k j s

view-remove_found :
    (k : RoomCode) (s : Rooms) (j : RoomCode) (o : Option Room)
    → view s k ≡ o
    → view (remove_found k s o).1 j ≡ (if k == j then (drop_empty o).1 else view s j)
view-remove_found k s j none e = ground (arith, eq_iff k j)
view-remove_found k s j (some room) e = ground (arith, eq_iff k j, find-erase k j s)

update_found_outcome :
    (C : Type 0) (k : RoomCode) (f : Updater C) (c : C) (s : Rooms) (o : Option Room)
    → ((update_found k f c s o).0 ≡ returned (transact f c o).0)
      × ((update_found k f c s o).1 ≡ (transact f c o).1)
update_found_outcome C k f c s o = ground arith

-- The in-memory repository never throws, and every method of it changes and reports the finite map
-- from codes to rooms as the interface promises: `Add` inserts only under a free code, `Update`
-- stores the updated copy only on a commit, `RemoveIfEmpty` removes only an empty room, no method
-- changes an entry other than that of its code, and `GetRoomCodes` lists the stored codes.
pub in_memory-Contract : Contract in_memory view
unfolding add find_by_code update remove remove_if_empty exists participant_in_room get_room_codes
in_memory-Contract = record {
  add_outcome = λ room s. ground arith;
  add_view = add_view;
  find_outcome = λ c s. refl;
  update_outcome = λ C k f c s. (update_found_outcome C k f c s (view s k)).0;
  update_captures = λ C k f c s. (update_found_outcome C k f c s (view s k)).1;
  update_view = λ C k f c s j. view-update_found C k f c s j (view s k) refl;
  remove_outcome = λ k s. ground arith;
  remove_view = remove_view;
  remove_if_empty_outcome = λ k s. ground arith;
  remove_if_empty_view = λ k s j. view-remove_found k s j (view s k) refl;
  exists_outcome = λ k s. refl;
  participant_outcome = λ p k s. ground arith;
  codes_outcome = λ s. (UnorderedMap.keys s, refl, keys-view s);
}
