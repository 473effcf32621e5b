-- ===== src/App/RoomService/Join.antt =====
-- `JoinRoom` over a repository that keeps its contract.
use buzzweb_server.Common.{◌≡◌, Option, ◌==◌, arith, ap, ◌∙◌, if◌then◌else◌, returned}
use buzzweb_server.Domain.Participant.{Participant}
use buzzweb_server.Domain.Room.{Room, RoomCode, RoomSecret, check_secret, try_add_participant}
use buzzweb_server.Domain.RoomRepository.{RoomRepository, Contract, Updater, transact}
use buzzweb_server.App.RoomService.{JoinCapture, no_join, join_updater, join_after, join_room}
use buzzweb_server.App.RoomService.Spec.{join_spec}

-- The transaction on the stored room, and the reply that is made from it.
join_transaction :
    (code : RoomCode) (participant : Participant) (given : Option RoomSecret) (o : Option Room)
    → (join_after code participant
          (transact (join_updater participant given) no_join o).1
          (returned (transact (join_updater participant given) no_join o).0)
        ≡ (join_spec code participant given o).0)
      × ((transact (join_updater participant given) no_join o).2
          ≡ (join_spec code participant given o).1)
unfolding join_updater try_add_participant check_secret
join_transaction code participant given o = ground (arith)

module _ {S : Type 0} {repository : RoomRepository S} {view : S → RoomCode → Option Room}
    (contract : Contract repository view) where
  -- The reply of a join is the specified one, the room of the code becomes the specified one, and
  -- every other room stays as it is.
  pub join_room-refines :
      (code : RoomCode) (participant : Participant) (given : Option RoomSecret) (s : S)
      → ((join_room repository code participant given s).0
          ≡ (join_spec code participant given (view s code)).0)
        × ((j : RoomCode)
            → view (join_room repository code participant given s).1 j ≡ (
                if code == j then (join_spec code participant given (view s code)).1 else view s j))
  unfolding join_room
  join_room-refines code participant given s = (
    rw
        (
          contract.update_captures JoinCapture code updater no_join s,
          contract.update_outcome JoinCapture code updater no_join s,
        )
        (join_transaction code participant given (view s code)).0,
    λ j.
        contract.update_view JoinCapture code updater no_join s j
        ∙ ap (λ o. if code == j then o else view s j)
            (join_transaction code participant given (view s code)).1,
  )
    where
      updater : Updater JoinCapture
      updater = join_updater participant given
