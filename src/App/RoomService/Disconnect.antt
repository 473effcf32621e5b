-- ===== src/App/RoomService/Disconnect.antt =====
-- `LeaveAllRooms` over a repository that keeps its contract.
use buzzweb_server.Common.{
  ◌≡◌, refl, Bool, true, false, Option, none, some, List, [], ◌∷◌, ◌==◌, eq_iff, eq_refl, arith, ap,
  ◌∙◌, if◌then◌else◌, returned, any_of, remove_if, Each, has_value, Option-cases, Bool-cases, inl,
  inr, ◌||◌, ◌&&◌,
}
use buzzweb_server.Domain.Participant.{ParticipantId}
use buzzweb_server.Domain.Room.{Room, RoomCode, has_id, has_participant}
use buzzweb_server.Domain.Room.Membership.{has_participant-remove}
use buzzweb_server.Domain.RoomRepository.{RoomRepository, Contract, holds}
use buzzweb_server.App.Result.{ok, err}
use buzzweb_server.App.RoomServiceTypes.{ParticipantLeftRoomResult}
use buzzweb_server.App.RoomService.{leave_room, leave_each, leave_all_rooms, recorded, is_recorded}
use buzzweb_server.App.RoomService.Leave.{leave_room-refines}
use buzzweb_server.App.RoomService.Spec.{leave_spec}

-- The participant is not in what a leave leaves.
pub holds-leave :
    (code : RoomCode) (p q : ParticipantId) (o : Option Room)
    → holds q (leave_spec code p o).1 ≡ (if p == q then false else holds q o)
unfolding has_participant
holds-leave code p q none = ground arith
holds-leave code p q (some room) =
    ground (arith, eq_iff p q, has_participant-remove p q room.participants)

leave_spec_twice :
    (code : RoomCode) (p : ParticipantId) (o : Option Room)
    → (leave_spec code p (leave_spec code p o).1).1 ≡ (leave_spec code p o).1
unfolding has_participant
leave_spec_twice code p none = refl
leave_spec_twice code p (some room) =
    ground (arith, eq_refl p, has_participant-remove p p room.participants)

-- What a leave reports and leaves of a room that held the participant.
leave_spec-holds :
    (code : RoomCode) (p : ParticipantId) (o : Option Room)
    → is_recorded (leave_spec code p o).0 ≡ holds p o
leave_spec-holds code p none = refl
leave_spec-holds code p (some room) = ground arith

-- A report of the participant's leave from a room of `stored`, with those who remain there.
abbrev pub IsReport : ParticipantId → (RoomCode → Option Room) → ParticipantLeftRoomResult → Type 0
IsReport p stored (err e) = ⊥
IsReport p stored (ok left) =
    (room : Room) × (stored left.room_code ≡ some room)
    × (has_participant p room ≡ true)
    × (left.participant_id ≡ p)
    × (left.remaining_participants ≡ remove_if (has_id p) room.participants)

abbrev pub names : RoomCode → ParticipantLeftRoomResult → Bool
names code (ok left) = left.room_code == code
names code (err e) = false

-- A room that holds the participant after a leave held it before, and was not changed.
stays :
    (code j : RoomCode) (p : ParticipantId) (room : Room) (before after : RoomCode → Option Room)
    → (after j ≡ (if code == j then (leave_spec code p (before code)).1 else before j))
    → after j ≡ some room
    → has_participant p room ≡ true
    → before j ≡ some room
stays code j p room before after e f h =
    ground (arith, eq_iff code j, eq_refl p, holds-leave code p p (before code))

weaken :
    (code : RoomCode) (p : ParticipantId) (before after : RoomCode → Option Room)
    → ((j : RoomCode)
        → after j ≡ (if code == j then (leave_spec code p (before code)).1 else before j))
    → (results : List ParticipantLeftRoomResult) → Each (IsReport p after) results
    → Each (IsReport p before) results
weaken code p before after e [] h = tt
weaken code p before after e (err x ∷ results) h = absurd h.0
weaken code p before after e (ok left ∷ results) h =
    let (room, f, old, same, remaining) = h.0 in
    (
      (
        room,
        stays code left.room_code p room before after (e left.room_code) f old,
        old,
        same,
        remaining,
      ),
      weaken code p before after e results h.1,
    )

-- The report that one leave records, if it records one.
report :
    (code : RoomCode) (p : ParticipantId) (stored : RoomCode → Option Room)
    (result : ParticipantLeftRoomResult) (results : List ParticipantLeftRoomResult)
    → result ≡ (leave_spec code p (stored code)).0
    → Each (IsReport p stored) results
    → Each (IsReport p stored) (recorded result results)
report code p stored result results e h = elim (Option-cases (stored code)) [
  | inl gone ↦ ground arith
  | inr (room, here) ↦ elim (Bool-cases (has_participant p room)) [
    | inl inside ↦
        let left : result
            ≡ ok (record {
              room_code = code;
              participant_id = p;
              remaining_participants = remove_if (has_id p) room.participants;
            }) =
          ground arith in
        rw left ((room, here, inside, refl, refl), h)
    | inr outside ↦ ground arith
  ]
]

names-recorded :
    (code j : RoomCode) (p : ParticipantId) (o : Option Room)
    (results : List ParticipantLeftRoomResult)
    → any_of (names j) (recorded (leave_spec code p o).0 results)
      ≡ ((code == j && holds p o) || any_of (names j) results)
names-recorded code j p none results = ground arith
names-recorded code j p (some room) results = ground arith

module _ {S : Type 0} {repository : RoomRepository S} {view : S → RoomCode → Option Room}
    (contract : Contract repository view) where
  leave_each-view :
      (codes : List RoomCode) (p : ParticipantId) (s : S) (j : RoomCode)
      → view (leave_each repository codes p s).1 j
        ≡ (if any_of (λ c. c == j) codes then (leave_spec j p (view s j)).1 else view s j)
  unfolding leave_each
  leave_each-view [] p s j = refl
  leave_each-view (code ∷ codes) p s j = ground (
    arith,
    eq_iff code j,
    (leave_room-refines contract code p s).1 j,
    leave_each-view codes p (leave_room repository code p s).1 j,
    leave_spec_twice j p (view s j),
  )

  leave_each-reports :
      (codes : List RoomCode) (p : ParticipantId) (s : S)
      → Each (IsReport p (view s)) (leave_each repository codes p s).0
  unfolding leave_each
  leave_each-reports [] p s = tt
  leave_each-reports (code ∷ codes) p s =
      report code p (view s) (leave_room repository code p s).0
        (leave_each repository codes p (leave_room repository code p s).1).0
        (leave_room-refines contract code p s).0
        (weaken code p (view s) (view (leave_room repository code p s).1)
          (leave_room-refines contract code p s).1
          (leave_each repository codes p (leave_room repository code p s).1).0
          (leave_each-reports codes p (leave_room repository code p s).1))

  leave_each-names :
      (codes : List RoomCode) (p : ParticipantId) (s : S) (j : RoomCode)
      → any_of (names j) (leave_each repository codes p s).0
        ≡ (any_of (λ c. c == j) codes && holds p (view s j))
  unfolding leave_each
  leave_each-names [] p s j = refl
  leave_each-names (code ∷ codes) p s j = ground (
    arith,
    eq_iff code j,
    (leave_room-refines contract code p s).0,
    (leave_room-refines contract code p s).1 j,
    names-recorded code j p (view s code)
        (leave_each repository codes p (leave_room repository code p s).1).0,
    leave_each-names codes p (leave_room repository code p s).1 j,
    eq_refl p,
    holds-leave code p p (view s code),
  )

  -- After a disconnect every room is as it is when the participant leaves it: those without him
  -- have not changed, and one that is empty without him is gone.
  pub leave_all_rooms-view :
      (p : ParticipantId) (s : S) (j : RoomCode)
      → view (leave_all_rooms repository p s).1 j ≡ (leave_spec j p (view s j)).1
  unfolding leave_all_rooms
  leave_all_rooms-view p s j =
      let (codes, listed, all) = contract.codes_outcome s in
      rw listed (leave_each-view codes p s j ∙ complete codes (all j))
    where
      complete :
          (codes : List RoomCode)
          → any_of (λ c. c == j) codes ≡ has_value (view s j)
          → (if any_of (λ c. c == j) codes then (leave_spec j p (view s j)).1 else view s j)
            ≡ (leave_spec j p (view s j)).1
      complete codes e = ground arith

  -- The participant is in no room, and the membership of all others is unchanged.
  pub leave_all_rooms-holds :
      (p q : ParticipantId) (s : S) (j : RoomCode)
      → holds q (view (leave_all_rooms repository p s).1 j)
        ≡ (if p == q then false else holds q (view s j))
  leave_all_rooms-holds p q s j =
      ap (holds q) (leave_all_rooms-view p s j) ∙ holds-leave j p q (view s j)

  -- A disconnect never throws. Each of its results reports a room that held the participant, with
  -- those who remain there, and every such room is reported.
  pub leave_all_rooms-reports :
      (p : ParticipantId) (s : S)
      → (results : List ParticipantLeftRoomResult) × ((leave_all_rooms repository p s).0
          ≡ returned results)
        × Each (IsReport p (view s)) results
        × ((j : RoomCode) → any_of (names j) results ≡ holds p (view s j))
  unfolding leave_all_rooms
  leave_all_rooms-reports p s =
      let (codes, listed, all) = contract.codes_outcome s in
      (
        (leave_each repository codes p s).0,
        rw listed refl,
        leave_each-reports codes p s,
        λ j. leave_each-names codes p s j ∙ ground (arith, all j),
      )
