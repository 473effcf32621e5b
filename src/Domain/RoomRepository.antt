-- ===== src/Domain/RoomRepository.antt =====
-- RoomRepository.hpp: the storage that the application layer is written against, and what the layer
-- relies on. `S` is the state of a repository. Every method may throw; a `const` one returns no new
-- state. The callback of `Update` writes to variables that it captures: `C` is their type.
use buzzweb_server.Common.{
  ◌≡◌, Bool, false, Option, none, some, List, ◌==◌, has_value, any_of, if◌then◌else◌, Outcome,
  returned, Exec,
}
use buzzweb_server.Domain.Participant.{ParticipantId}
use buzzweb_server.Domain.Room.{Room, RoomCode, has_participant, room_is_empty}

pub data AddRoomResult : Type 0 where
  added already_exists : AddRoomResult

pub data UpdateRoomResult : Type 0 where
  updated not_found aborted : UpdateRoomResult

pub data RemoveRoomResult : Type 0 where
  removed not_found : RemoveRoomResult

pub data RemoveEmptyRoomResult : Type 0 where
  removed not_empty not_found : RemoveEmptyRoomResult

pub data TransactionResult : Type 0 where
  commit abort : TransactionResult

abbrev pub Updater : Type 0 → Type 0
Updater C = Room → C → TransactionResult × Room × C

pub record RoomRepository (S : Type 0) : Type 1 where
  pub add : Room → Exec S AddRoomResult
  pub find_by_code : RoomCode → S → Outcome (Option Room)
  pub update : (C : Type 0) → RoomCode → Updater C → C → S → Outcome UpdateRoomResult × C × S
  pub remove : RoomCode → Exec S RemoveRoomResult
  pub remove_if_empty : RoomCode → Exec S RemoveEmptyRoomResult
  pub exists : RoomCode → S → Outcome Bool
  pub participant_in_room : ParticipantId → RoomCode → S → Outcome Bool
  pub get_room_codes : S → Outcome (List RoomCode)

-- The contract, on the room that is stored under one code, if there is one.
abbrev pub add_result : Option Room → AddRoomResult
add_result none = AddRoomResult.added
add_result (some _) = AddRoomResult.already_exists

abbrev pub or_else : Option Room → Room → Option Room
or_else none room = some room
or_else (some stored) room = some stored

-- The transaction copies, runs the updater on the copy, and stores it only on a commit.
abbrev pub concluded :
    {C : Type 0} → Room → TransactionResult × Room × C → UpdateRoomResult × C × Option Room
concluded stored (TransactionResult.commit, room, c) = (UpdateRoomResult.updated, c, some room)
concluded stored (TransactionResult.abort, room, c) = (UpdateRoomResult.aborted, c, some stored)

abbrev pub transact :
    {C : Type 0} → Updater C → C → Option Room → UpdateRoomResult × C × Option Room
transact updater c none = (UpdateRoomResult.not_found, c, none)
transact updater c (some stored) = concluded stored (updater stored c)

abbrev pub remove_result : Option Room → RemoveRoomResult
remove_result none = RemoveRoomResult.not_found
remove_result (some _) = RemoveRoomResult.removed

abbrev pub drop_empty : Option Room → RemoveEmptyRoomResult × Option Room
drop_empty none = (RemoveEmptyRoomResult.not_found, none)
drop_empty (some room) =
    if room_is_empty room
    then (RemoveEmptyRoomResult.removed, none)
    else (RemoveEmptyRoomResult.not_empty, some room)

abbrev pub holds : ParticipantId → Option Room → Bool
holds participant_id none = false
holds participant_id (some room) = has_participant participant_id room

-- A repository that never throws and acts on the finite map `view` as RoomRepository.hpp names it:
-- each method changes the entry of its own code at most.
pub record Contract {S : Type 0} (r : RoomRepository S) (view : S → RoomCode → Option Room)
    : Type 1 where
  pub add_outcome :
      (room : Room) (s : S) → (r.add room s).0 ≡ returned (add_result (view s room.code))
  pub add_view :
      (room : Room) (s : S) (c : RoomCode)
      → view (r.add room s).1 c ≡ (if room.code == c then or_else (view s c) room else view s c)
  pub find_outcome : (c : RoomCode) (s : S) → r.find_by_code c s ≡ returned (view s c)
  pub update_outcome :
      (C : Type 0) (k : RoomCode) (f : Updater C) (c : C) (s : S)
      → (r.update C k f c s).0 ≡ returned (transact f c (view s k)).0
  pub update_captures :
      (C : Type 0) (k : RoomCode) (f : Updater C) (c : C) (s : S)
      → (r.update C k f c s).1 ≡ (transact f c (view s k)).1
  pub update_view :
      (C : Type 0) (k : RoomCode) (f : Updater C) (c : C) (s : S) (j : RoomCode)
      → view (r.update C k f c s).2 j ≡ (if k == j then (transact f c (view s k)).2 else view s j)
  pub remove_outcome :
      (k : RoomCode) (s : S) → (r.remove k s).0 ≡ returned (remove_result (view s k))
  pub remove_view :
      (k : RoomCode) (s : S) (j : RoomCode)
      → view (r.remove k s).1 j ≡ (if k == j then none else view s j)
  pub remove_if_empty_outcome :
      (k : RoomCode) (s : S) → (r.remove_if_empty k s).0 ≡ returned (drop_empty (view s k)).0
  pub remove_if_empty_view :
      (k : RoomCode) (s : S) (j : RoomCode)
      → view (r.remove_if_empty k s).1 j ≡ (if k == j then (drop_empty (view s k)).1 else view s j)
  pub exists_outcome : (k : RoomCode) (s : S) → r.exists k s ≡ returned (has_value (view s k))
  pub participant_outcome :
      (p : ParticipantId) (k : RoomCode) (s : S)
      → r.participant_in_room p k s ≡ returned (holds p (view s k))
  pub codes_outcome :
      (s : S)
      → (codes : List RoomCode) × (r.get_room_codes s ≡ returned codes)
        × ((k : RoomCode) → any_of (λ c. c == k) codes ≡ has_value (view s k))
