-- ===== src/Net/Session/Members.antt =====
-- The participants that the answer to a join or a leave names.
use buzzweb_server.Common.{
  ◌≡◌, inl, inr, refl, sym, ◌∙◌, ap, true, Option, none, some, List, [], ◌∷◌, ◌++◌, eq_refl, arith,
  any_of, any_of-append, Bool-cases, Option-cases,
}
use buzzweb_server.Domain.Participant.{Participant, ParticipantId}
use buzzweb_server.Domain.Room.{Room, RoomCode, RoomSecret, has_id, has_participant}
use buzzweb_server.Domain.RoomRepository.{holds}
use buzzweb_server.App.Result.{ok}
use buzzweb_server.App.RoomServiceTypes.{ParticipantJoinedRoom, ParticipantLeftRoom}
use buzzweb_server.App.RoomService.Spec.{join_spec, leave_spec, refusal, without, keep_occupied}

joined_members :
    (participant : Participant) (room : Room) (members : List Participant)
    → members ≡ room.participants ++ participant ∷ []
    → (any_of (has_id participant.id) members ≡ true)
      × ((q : ParticipantId)
          → any_of (has_id q) members
            ≡ holds q (some (record room { participants = room.participants ++ participant ∷ [] })))
unfolding has_participant
joined_members participant room members e = (
  ground (
    arith,
    e,
    eq_refl participant.id,
    any_of-append (has_id participant.id) room.participants (participant ∷ []),
  ),
  λ q. rw e refl,
)

pub join_spec-ok :
    (code : RoomCode) (participant : Participant) (given : Option RoomSecret) (o : Option Room)
    (joined : ParticipantJoinedRoom)
    → (join_spec code participant given o).0 ≡ ok joined
    → (joined.room_code ≡ code)
      × (any_of (has_id participant.id) joined.room_participants ≡ true)
      × ((q : ParticipantId)
          → any_of (has_id q) joined.room_participants
            ≡ holds q (join_spec code participant given o).1)
join_spec-ok code participant given none joined e = absurd (ground (arith, e))
join_spec-ok code participant given (some room) joined e =
    elim (Bool-cases (has_participant participant.id room)) [
      | inl inside ↦ absurd (ground (arith, e, inside))
      | inr outside ↦ elim (Option-cases (refusal room.room_secret given)) [
        | inl free ↦
            let members =
              joined_members participant room joined.room_participants
                (ground (arith, e, outside, free)) in
            (ground (arith, e, outside, free), members.0, λ q. rw (outside, free) (members.1 q))
        | inr (why, refuses) ↦ absurd (ground (arith, e, outside, refuses))
      ]
    ]

holds-keep_occupied :
    (q : ParticipantId) (room : Room) (participants : List Participant)
    → room.participants ≡ participants
    → holds q (keep_occupied room) ≡ any_of (has_id q) participants
unfolding has_participant
holds-keep_occupied q room [] e = rw e refl
holds-keep_occupied q room (p ∷ participants) e = rw e refl

pub leave_spec-ok :
    (code : RoomCode) (p : ParticipantId) (o : Option Room) (left : ParticipantLeftRoom)
    → (leave_spec code p o).0 ≡ ok left
    → (holds p o ≡ true)
      × (left.room_code ≡ code)
      × ((q : ParticipantId)
          → any_of (has_id q) left.remaining_participants ≡ holds q (leave_spec code p o).1)
leave_spec-ok code p none left e = absurd (ground (arith, e))
leave_spec-ok code p (some room) left e = elim (Bool-cases (has_participant p room)) [
  | inl inside ↦ (
    inside,
    ground (arith, e, inside),
    λ q. rw inside (
        ap (any_of (has_id q)) (ground (arith, e, inside))
        ∙ sym (holds-keep_occupied q (without p room) (without p room).participants refl)),
  )
  | inr outside ↦ absurd (ground (arith, e, outside))
]
