-- ===== src/Domain/Room/Membership.antt =====
-- Who is in a room after a join and after a leave, and the identities of its participants.
use buzzweb_server.Common.{
  ◌≢◌, ap, ◌≡◌, refl, ◌↔◌, true, false, ◌||◌, ◌&&◌, find_if_cases, Option, none, some, List, [],
  ◌∷◌, ◌++◌, ◌==◌, eq_iff, arith, any_of, length, remove_if-append, eq_refl, append-nil, ◌+◌,
  any_of-append, remove_if, remove_if_none, if◌then◌else◌, returned, threw,
}
use buzzweb_server.Domain.Participant.{Participant, ParticipantId}
use buzzweb_server.Domain.Room.{
  Room, RoomSecret, JoinRoomResult, LeaveRoomResult, has_id, has_participant, check_secret,
  is_joined, try_add_participant, remove_participant, find_participant, found_or_throw,
}

-- What a join is let in by: there is no secret, or the right one is given.
pub data Opens (room_secret given : Option RoomSecret) : Type 0 where
  open_room : room_secret ≡ none → Opens room_secret given
  right_secret :
      (secret : RoomSecret)
      → room_secret ≡ some secret
      → given ≡ some secret
      → Opens room_secret given

check_secret-Opens :
    (room_secret given : Option RoomSecret)
    → (check_secret room_secret given ≡ none) ↔ Opens room_secret given
unfolding check_secret
check_secret-Opens none given = (λ _. open_room refl, λ _. refl)
check_secret-Opens (some secret) none =
    (λ e. cc, elim [ open_room e ↦ cc | right_secret s e f ↦ cc ])
check_secret-Opens (some secret) (some given) = (
  λ e. right_secret secret refl (ground (arith, eq_iff secret given)),
  elim [ open_room e ↦ cc | right_secret s e f ↦ ground (arith, eq_iff secret given) ],
)

joined_iff_checks :
    (participant : Participant) (given : Option RoomSecret) (room : Room)
    → ((try_add_participant participant given room).0 ≡ JoinRoomResult.joined) ↔ (
        (has_participant participant.id room ≡ false)
        × (check_secret room.room_secret given ≡ none))
unfolding try_add_participant
joined_iff_checks participant given room = ground arith

-- A join succeeds exactly when the participant is new to the room and the room has no secret or is
-- given its own.
pub join_iff :
    (participant : Participant) (given : Option RoomSecret) (room : Room)
    → ((try_add_participant participant given room).0 ≡ JoinRoomResult.joined)
      ↔ ((has_participant participant.id room ≡ false) × Opens room.room_secret given)
join_iff participant given room =
    (λ e. let h = checks.0 e in (h.0, opens.0 h.1), λ h. checks.1 (h.0, opens.1 h.1))
  where
    checks : ((try_add_participant participant given room).0 ≡ JoinRoomResult.joined) ↔ (
        (has_participant participant.id room ≡ false)
        × (check_secret room.room_secret given ≡ none))
    checks = joined_iff_checks participant given room

    opens : (check_secret room.room_secret given ≡ none) ↔ Opens room.room_secret given
    opens = check_secret-Opens room.room_secret given

-- A refused join leaves the room as it was, and a successful one adds the participant at the end.
pub try_add-room :
    (participant : Participant) (given : Option RoomSecret) (room : Room)
    → ((try_add_participant participant given room).0 ≡ JoinRoomResult.joined
        → (try_add_participant participant given room).1
          ≡ record room { participants = room.participants ++ participant ∷ [] })
      × ((try_add_participant participant given room).0 ≢ JoinRoomResult.joined
          → (try_add_participant participant given room).1 ≡ room)
unfolding try_add_participant
try_add-room participant given room = ground arith

pub has_participant-remove :
    (participant_id q : ParticipantId) (participants : List Participant)
    → any_of (has_id q) (remove_if (has_id participant_id) participants)
      ≡ (if participant_id == q then false else any_of (has_id q) participants)
has_participant-remove participant_id q [] = ground arith
has_participant-remove participant_id q (p ∷ ps) = ground (
  arith,
  eq_iff p.id participant_id,
  eq_iff p.id q,
  eq_iff participant_id q,
  has_participant-remove participant_id q ps,
)

-- After a leave the participant is not in the room, and the membership of all others is unchanged.
pub has_participant-leave :
    (participant_id q : ParticipantId) (room : Room)
    → has_participant q (remove_participant participant_id room).1
      ≡ (if participant_id == q then false else has_participant q room)
unfolding remove_participant
has_participant-leave participant_id q room =
    ground
      (arith, eq_iff participant_id q, has_participant-remove participant_id q room.participants)

-- After a successful join the participant is in the room, and the membership of all others is as
-- it was; after a refused one no membership has changed.
pub has_participant-join :
    (participant : Participant) (given : Option RoomSecret) (room : Room) (q : ParticipantId)
    → has_participant q (try_add_participant participant given room).1 ≡ (
        has_participant q room
        || (is_joined (try_add_participant participant given room).0 && participant.id == q))
unfolding try_add_participant
has_participant-join participant given room q =
    ground (arith, any_of-append (has_id q) room.participants (participant ∷ []))

-- A newcomer that joins and leaves gives back the room that was there.
pub leave-join :
    (participant : Participant) (given : Option RoomSecret) (room : Room)
    → (try_add_participant participant given room).0 ≡ JoinRoomResult.joined
    → remove_participant participant.id (try_add_participant participant given room).1
      ≡ (LeaveRoomResult.left, room)
unfolding try_add_participant remove_participant
leave-join participant given room e = ground (
  arith,
  eq_refl participant.id,
  any_of-append (has_id participant.id) room.participants (participant ∷ []),
  remove_if-append (has_id participant.id) room.participants (participant ∷ []),
  remove_if_none (has_id participant.id) room.participants,
  append-nil room.participants,
)

-- No two participants of the list have one id.
abbrev pub HasDistinctIds : List Participant → Type 0
HasDistinctIds [] = Unit {0}
HasDistinctIds (p ∷ ps) = (any_of (has_id p.id) ps ≡ false) × HasDistinctIds ps

pub HasDistinctIds-append :
    (p : Participant) (ps : List Participant)
    → HasDistinctIds ps
    → any_of (has_id p.id) ps ≡ false
    → HasDistinctIds (ps ++ p ∷ [])
HasDistinctIds-append p [] d h = (refl, tt)
HasDistinctIds-append p (q ∷ ps) d h = (
  ground (arith, any_of-append (has_id q.id) ps (p ∷ []), eq_iff p.id q.id, eq_iff q.id p.id),
  HasDistinctIds-append p ps d.1 (ground arith),
)

pub HasDistinctIds-remove :
    (participant_id : ParticipantId) (ps : List Participant)
    → HasDistinctIds ps
    → HasDistinctIds (remove_if (has_id participant_id) ps)
HasDistinctIds-remove participant_id [] d = tt
HasDistinctIds-remove participant_id (q ∷ ps) d = ground (
  arith,
  has_participant-remove participant_id q.id ps,
  HasDistinctIds-remove participant_id ps d.1,
)

-- A join, successful or refused, keeps the ids in a room distinct.
pub join-HasDistinctIds :
    (participant : Participant) (given : Option RoomSecret) (room : Room)
    → HasDistinctIds room.participants
    → HasDistinctIds (try_add_participant participant given room).1.participants
unfolding try_add_participant
join-HasDistinctIds participant given room d =
    ground (arith, HasDistinctIds-append participant room.participants d)

-- A leave keeps the ids in a room distinct.
pub leave-HasDistinctIds :
    (participant_id : ParticipantId) (room : Room)
    → HasDistinctIds room.participants
    → HasDistinctIds (remove_participant participant_id room).1.participants
unfolding remove_participant
leave-HasDistinctIds participant_id room d =
    ground (arith, HasDistinctIds-remove participant_id room.participants d)

length-remove_distinct :
    (participant_id : ParticipantId) (ps : List Participant)
    → HasDistinctIds ps
    → any_of (has_id participant_id) ps ≡ true
    → length (remove_if (has_id participant_id) ps) + 1 ≡ length ps
length-remove_distinct participant_id [] d h = cc
length-remove_distinct participant_id (q ∷ ps) d h = ground (
  arith,
  length-remove_distinct participant_id ps d.1,
  eq_iff q.id participant_id,
  remove_if_none (has_id participant_id) ps,
)

-- With distinct ids a successful leave takes out one participant and no other.
pub length-leave :
    (participant_id : ParticipantId) (room : Room)
    → HasDistinctIds room.participants
    → (remove_participant participant_id room).0 ≡ LeaveRoomResult.left
    → length (remove_participant participant_id room).1.participants + 1 ≡ length room.participants
unfolding remove_participant
length-leave participant_id room d e =
    ground (arith, length-remove_distinct participant_id room.participants d)

-- `FindParticipant` returns a participant of the id that was asked for when there is one, and
-- throws `out_of_range` otherwise.
pub find_participant_cases :
    (participant_id : ParticipantId) (room : Room)
    → (has_participant participant_id room ≡ true
        → (p : Participant) × (find_participant participant_id room ≡ returned p)
          × (p.id ≡ participant_id))
      × (has_participant participant_id room ≡ false
          → find_participant participant_id room ≡ threw "participant_not_found")
unfolding find_participant has_participant
find_participant_cases participant_id room = (
  λ h.
      let (p, found, same) = (find_if_cases (has_id participant_id) room.participants).0 h in
      (p, rw found, (eq_iff p.id participant_id).0 same),
  λ h. ap found_or_throw ((find_if_cases (has_id participant_id) room.participants).1 h),
)
