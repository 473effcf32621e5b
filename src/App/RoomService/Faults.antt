-- ===== src/App/RoomService/Faults.antt =====
-- The use cases over a repository that may throw: the paths through the exception handlers.
use native.Mathlib.Decide.{dec_lt}
use buzzweb_server.Common.{
  ℕ, zero, suc, ◌+◌, ◌<◌, ◌≤◌, String, ◌≡◌, ◌≢◌, refl, Option, none, some, arith, Outcome, returned,
  threw,
}
use buzzweb_server.Domain.Participant.{Participant, ParticipantId}
use buzzweb_server.Domain.Room.{
  Room, RoomCode, RoomSecret, JoinRoomResult, LeaveRoomResult, new_room,
}
use buzzweb_server.Domain.RoomRepository.{
  RoomRepository, AddRoomResult, UpdateRoomResult, RemoveEmptyRoomResult,
}
use buzzweb_server.App.Result.{ok, err}
use buzzweb_server.App.RoomServiceTypes.{ParticipantJoinedRoom, build_internal_error}
use buzzweb_server.App.RoomService.{
  JoinCapture, no_join, join_updater, join_reply, join_after, join_room, LeaveCapture, no_leave,
  leave_updater, leave_room, create_room, create_attempts, generate_room_code,
}

module _ {S : Type 0} (repository : RoomRepository S) (s : S) where
  module _ (draw : ℕ → ℕ) (password : Option RoomSecret) where
    -- the room of an attempt, and the storage before it when all earlier ones have been refused
    abbrev pub drawn : ℕ → Room
    drawn attempt = new_room (generate_room_code (draw attempt)) password

    abbrev pub before_attempt : ℕ → S
    before_attempt zero = s
    before_attempt (suc attempt) = (repository.add (drawn attempt) (before_attempt attempt)).1

    abbrev pub IsTaken : ℕ → Type 0
    IsTaken attempt =
        (repository.add (drawn attempt) (before_attempt attempt)).0
        ≡ returned AddRoomResult.already_exists

    attempts-fault :
        (left attempt k : ℕ) (what : String)
        → attempt ≤ k
        → k < attempt + left
        → ((i : ℕ) → i < k → IsTaken i)
        → (repository.add (drawn k) (before_attempt k)).0 ≡ threw what
        → create_attempts repository left attempt draw password (before_attempt attempt)
          ≡ (err build_internal_error, before_attempt (suc k))
    unfolding create_attempts
    attempts-fault zero attempt k what low high taken thrown = absurd (omega arith)
    attempts-fault (suc left) attempt k what low high taken thrown = elim (dec_lt attempt k) [
      | yes more ↦
          rw (taken attempt more)
            (attempts-fault left (suc attempt) k what (omega arith) (omega arith) taken thrown)
      | no last ↦ let now : attempt ≡ k = omega arith in rw (now, thrown) refl
    ]

    -- If the storage throws in `Add` within the hundred attempts, after it has refused the codes of
    -- all earlier attempts, the creation ends there with an internal error, and there is no further
    -- attempt.
    pub create_room_fault :
        (k : ℕ) (what : String)
        → k < 100
        → ((i : ℕ) → i < k → IsTaken i)
        → (repository.add (drawn k) (before_attempt k)).0 ≡ threw what
        → create_room repository draw password s
          ≡ (err build_internal_error, (repository.add (drawn k) (before_attempt k)).1)
    unfolding create_room
    create_room_fault k what low taken thrown =
        attempts-fault 100 0 k what (omega arith) (omega arith) taken thrown

  -- Whatever the storage is, a join succeeds only if `Update` returned, found the room, and had the
  -- updater's last run admit the participant; the reply then lists those whom that run saw.
  pub join_room_sound :
      (code : RoomCode) (participant : Participant) (given : Option RoomSecret)
      (joined : ParticipantJoinedRoom)
      → (join_room repository code participant given s).0 ≡ ok joined
      → let (outcome, c, s') =
          repository.update JoinCapture code (join_updater participant given) no_join s in
        (o : UpdateRoomResult) × (outcome ≡ returned o)
        × (o ≢ UpdateRoomResult.not_found)
        × (c.join_result ≡ some JoinRoomResult.joined)
        × (joined.room_participants ≡ c.room_participants)
  unfolding join_room
  join_room_sound code participant given joined e =
      let (outcome, c, s') =
        repository.update JoinCapture code (join_updater participant given) no_join s in
      after code participant joined outcome c e
    where
      replied :
          (code : RoomCode) (participant : Participant) (joined : ParticipantJoinedRoom)
          (c : JoinCapture) (r : Option JoinRoomResult)
          → join_reply code participant c r ≡ ok joined
          → (r ≡ some JoinRoomResult.joined) × (joined.room_participants ≡ c.room_participants)
      replied code participant joined c none e = absurd (ground (arith, e))
      replied code participant joined c (some JoinRoomResult.joined) e = (refl, ground (arith, e))
      replied code participant joined c (some JoinRoomResult.invalid_secret) e =
          absurd (ground (arith, e))
      replied code participant joined c (some JoinRoomResult.secret_not_provided) e =
          absurd (ground (arith, e))
      replied code participant joined c (some JoinRoomResult.already_in_room) e =
          absurd (ground (arith, e))

      after :
          (code : RoomCode) (participant : Participant) (joined : ParticipantJoinedRoom)
          (outcome : Outcome UpdateRoomResult) (c : JoinCapture)
          → join_after code participant c outcome ≡ ok joined
          → (o : UpdateRoomResult) × (outcome ≡ returned o)
            × (o ≢ UpdateRoomResult.not_found)
            × (c.join_result ≡ some JoinRoomResult.joined)
            × (joined.room_participants ≡ c.room_participants)
      after code participant joined (threw what) c e = absurd (ground (arith, e))
      after code participant joined (returned UpdateRoomResult.not_found) c e =
          absurd (ground (arith, e))
      after code participant joined (returned UpdateRoomResult.updated) c e =
          let r = replied code participant joined c c.join_result e in
          (_, refl, λ h. absurd (ground (arith, h)), r.0, r.1)
      after code participant joined (returned UpdateRoomResult.aborted) c e =
          let r = replied code participant joined c c.join_result e in
          (_, refl, λ h. absurd (ground (arith, h)), r.0, r.1)

  -- A leave loses the exception of `Update`: when the storage throws after the updater has found
  -- the participant and rolls back, so that nothing has changed, and the clean-up then finds
  -- nothing to do, the caller is told that the participant has left.
  pub leave_room_lost_fault :
      (code : RoomCode) (p : ParticipantId) (what : String) (c : LeaveCapture)
      (r : RemoveEmptyRoomResult)
      → repository.update LeaveCapture code (leave_updater p) no_leave s ≡ (threw what, c, s)
      → c.leave_result ≡ some LeaveRoomResult.left
      → repository.remove_if_empty code s ≡ (returned r, s)
      → leave_room repository code p s ≡ (
        ok (record {
          room_code = code;
          participant_id = p;
          remaining_participants = c.remaining_participants;
        }),
        s,
      )
  unfolding leave_room
  leave_room_lost_fault code p what c r e left cleaned = ground arith
