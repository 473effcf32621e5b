-- ===== src/App/RoomService.antt =====
-- RoomService.hpp and RoomService.cpp, over any repository. The logging is left out.
pub mod Spec
pub mod Create
pub mod Make
pub mod Join
pub mod Leave
pub mod Disconnect
pub mod Faults
pub mod Tests
use buzzweb_server.Common.{
  ℕ, zero, suc, String, Bool, true, false, ◌||◌, Option, none, some, List, [], ◌∷◌, ◌++◌,
  if◌then◌else◌, Outcome, returned, threw, Exec,
}
use buzzweb_server.Common.Streams.{text, set_width, digits}
use buzzweb_server.Domain.Participant.{Participant, ParticipantId}
use buzzweb_server.Domain.Room.{
  Room, RoomCode, RoomSecret, JoinRoomResult, LeaveRoomResult, new_room, try_add_participant,
  remove_participant,
}
use buzzweb_server.Domain.RoomRepository.{
  RoomRepository, AddRoomResult, UpdateRoomResult, RemoveEmptyRoomResult, TransactionResult,
  Updater,
}
use buzzweb_server.App.Result.{ok, err}
use buzzweb_server.App.RoomServiceTypes.{
  ErrorType, RoomServiceError, build_room_already_exists_error, build_room_not_found_error,
  build_already_joined_error, build_not_in_room_error, build_room_code_generation_failed_error,
  build_wrong_password_error, build_password_not_provided_error, build_internal_error,
  ParticipantJoinedRoom, ParticipantLeftRoom, CreateRoomResult, ParticipantJoinedRoomResult,
  ParticipantLeftRoomResult, GetParticipantsResult,
}

-- `GenerateRoomCode` on the number that `distribution(generator)` yields.
unfoldable pub generate_room_code : ℕ → RoomCode
generate_room_code drawn = text (set_width 6 (digits 10 drawn))

-- The variables that the updater of `JoinRoom` captures.
pub record JoinCapture : Type 0 where
  pub join_result : Option JoinRoomResult
  pub room_participants : List Participant

abbrev pub no_join : JoinCapture
no_join = record { join_result = none; room_participants = [] }

abbrev joined_or_abort :
    JoinCapture → JoinRoomResult × Room → TransactionResult × Room × JoinCapture
joined_or_abort c (JoinRoomResult.joined, room) = (
  TransactionResult.commit,
  room,
  record { join_result = some JoinRoomResult.joined; room_participants = room.participants },
)
joined_or_abort c (refusal, room) =
    (TransactionResult.abort, room, record c { join_result = some refusal })

unfoldable pub join_updater : Participant → Option RoomSecret → Updater JoinCapture
join_updater participant password_hash room c =
    joined_or_abort c (try_add_participant participant password_hash room)

-- the tests on `join_result` behind the `try` block
abbrev join_reply :
    RoomCode → Participant → JoinCapture → Option JoinRoomResult → ParticipantJoinedRoomResult
join_reply room_code participant c none = err build_internal_error
join_reply room_code participant c (some JoinRoomResult.already_in_room) =
    err build_already_joined_error
join_reply room_code participant c (some JoinRoomResult.invalid_secret) =
    err build_wrong_password_error
join_reply room_code participant c (some JoinRoomResult.secret_not_provided) =
    err build_password_not_provided_error
join_reply room_code participant c (some JoinRoomResult.joined) = ok (record {
  room_code = room_code;
  participant = participant;
  room_participants = c.room_participants;
})

abbrev join_after :
    RoomCode → Participant → JoinCapture → Outcome UpdateRoomResult → ParticipantJoinedRoomResult
join_after room_code participant c (threw what) = err build_internal_error
join_after room_code participant c (returned UpdateRoomResult.not_found) =
    err build_room_not_found_error
join_after room_code participant c (returned _) = join_reply room_code participant c c.join_result

-- The variables that the updater of `LeaveRoom` captures.
pub record LeaveCapture : Type 0 where
  pub leave_result : Option LeaveRoomResult
  pub remaining_participants : List Participant

abbrev pub no_leave : LeaveCapture
no_leave = record { leave_result = none; remaining_participants = [] }

abbrev left_or_abort :
    LeaveCapture → LeaveRoomResult × Room → TransactionResult × Room × LeaveCapture
left_or_abort c (LeaveRoomResult.left, room) = (
  TransactionResult.commit,
  room,
  record { leave_result = some LeaveRoomResult.left; remaining_participants = room.participants },
)
left_or_abort c (LeaveRoomResult.not_in_room, room) =
    (TransactionResult.abort, room, record c { leave_result = some LeaveRoomResult.not_in_room })

unfoldable pub leave_updater : ParticipantId → Updater LeaveCapture
leave_updater participant_id room c = left_or_abort c (remove_participant participant_id room)

-- what `LeaveAllRooms` records of one room
abbrev pub is_recorded : ParticipantLeftRoomResult → Bool
is_recorded (ok _) = true
is_recorded (err e) = elim e.type [ ErrorType.internal_error ↦ true | _ ↦ false ]

abbrev pub recorded :
    ParticipantLeftRoomResult → List ParticipantLeftRoomResult → List ParticipantLeftRoomResult
recorded result rest = if is_recorded result then result ∷ rest else rest

abbrev or_not_found : Option Room → GetParticipantsResult
or_not_found none = err build_room_not_found_error
or_not_found (some room) = ok room.participants

module _ {S : Type 0} (repository : RoomRepository S) where
  abbrev after_add : Room → CreateRoomResult × S → Outcome AddRoomResult × S → CreateRoomResult × S
  after_add room rest (returned AddRoomResult.added, s) = (ok room, s)
  after_add room rest (returned AddRoomResult.already_exists, s) = rest
  after_add room rest (threw what, s) = (err build_internal_error, s)

  -- The loop over the attempts, on the attempts that are left. `draw i` is what the generator
  -- yields in attempt `i` of this call.
  unfoldable pub create_attempts : ℕ → ℕ → (ℕ → ℕ) → Option RoomSecret → S → CreateRoomResult × S
  create_attempts zero attempt draw password s = (err build_room_code_generation_failed_error, s)
  create_attempts (suc left) attempt draw password s =
      let room = new_room (generate_room_code (draw attempt)) password in
      let added = repository.add room s in
      let rest = create_attempts left (suc attempt) draw password added.1 in
      after_add room rest added

  unfoldable pub create_room : (ℕ → ℕ) → Option RoomSecret → S → CreateRoomResult × S
  unfolding create_attempts
  create_room draw password s = create_attempts 100 0 draw password s

  unfoldable pub join_room :
      RoomCode → Participant → Option RoomSecret → S → ParticipantJoinedRoomResult × S
  join_room room_code participant password_hash s =
      let (outcome, c, s') =
        repository.update JoinCapture room_code (join_updater participant password_hash) no_join
          s in
      (join_after room_code participant c outcome, s')

  abbrev cleaned_up :
      ParticipantLeftRoom → Outcome RemoveEmptyRoomResult × S → ParticipantLeftRoomResult × S
  cleaned_up left (returned _, s) = (ok left, s)
  cleaned_up left (threw what, s) = (err build_internal_error, s)

  -- the tests on `leave_result` behind the first `try` block, and the second `try` block
  abbrev leave_reply :
      RoomCode
      → ParticipantId
      → LeaveCapture
      → Option LeaveRoomResult
      → S
      → ParticipantLeftRoomResult × S
  leave_reply room_code participant_id c none s = (err build_internal_error, s)
  leave_reply room_code participant_id c (some LeaveRoomResult.not_in_room) s =
      (err build_not_in_room_error, s)
  leave_reply room_code participant_id c (some LeaveRoomResult.left) s =
      cleaned_up
        (record {
          room_code = room_code;
          participant_id = participant_id;
          remaining_participants = c.remaining_participants;
        })
        (repository.remove_if_empty room_code s)

  -- The handler of an exception logs and does not return.
  abbrev leave_after :
      RoomCode
      → ParticipantId
      → LeaveCapture
      → S
      → Outcome UpdateRoomResult
      → ParticipantLeftRoomResult × S
  leave_after room_code participant_id c s (returned UpdateRoomResult.not_found) =
      (err build_room_not_found_error, s)
  leave_after room_code participant_id c s (returned _) =
      leave_reply room_code participant_id c c.leave_result s
  leave_after room_code participant_id c s (threw what) =
      leave_reply room_code participant_id c c.leave_result s

  unfoldable pub leave_room : RoomCode → ParticipantId → S → ParticipantLeftRoomResult × S
  leave_room room_code participant_id s =
      let (outcome, c, s') =
        repository.update LeaveCapture room_code (leave_updater participant_id) no_leave s in
      leave_after room_code participant_id c s' outcome

  -- the loop of `LeaveAllRooms` over the codes
  unfoldable pub leave_each : List RoomCode → ParticipantId → S → List ParticipantLeftRoomResult × S
  leave_each [] participant_id s = ([], s)
  leave_each (room_code ∷ codes) participant_id s =
      let (result, s') = leave_room room_code participant_id s in
      let (results, s'') = leave_each codes participant_id s' in (recorded result results, s'')

  abbrev leave_listed :
      ParticipantId → S → Outcome (List RoomCode) → Outcome (List ParticipantLeftRoomResult) × S
  leave_listed participant_id s (threw what) = (threw what, s)
  leave_listed participant_id s (returned codes) =
      let (results, s') = leave_each codes participant_id s in (returned results, s')

  unfoldable pub leave_all_rooms : ParticipantId → Exec S (List ParticipantLeftRoomResult)
  leave_all_rooms participant_id s = leave_listed participant_id s (repository.get_room_codes s)

  abbrev participants_or_throw : Outcome (Option Room) → Outcome GetParticipantsResult
  participants_or_throw (threw what) = threw what
  participants_or_throw (returned room) = returned (or_not_found room)

  unfoldable pub get_room_participants : RoomCode → S → Outcome GetParticipantsResult
  get_room_participants code s = participants_or_throw (repository.find_by_code code s)

  unfoldable pub participant_in_room : ParticipantId → RoomCode → S → Outcome Bool
  participant_in_room participant_id room_code s =
      repository.participant_in_room participant_id room_code s
