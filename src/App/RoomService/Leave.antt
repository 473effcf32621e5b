-- ===== src/App/RoomService/Leave.antt =====
-- `LeaveRoom` over a repository that keeps its contract.
use buzzweb_server.Common.{
  ◌≡◌, refl, Option, none, some, ◌==◌, eq_iff, eq_refl, arith, if◌then◌else◌, returned,
}
use buzzweb_server.Domain.Participant.{ParticipantId}
use buzzweb_server.Domain.Room.{Room, RoomCode, remove_participant, room_is_empty}
use buzzweb_server.Domain.RoomRepository.{RoomRepository, Contract, Updater, transact}
use buzzweb_server.App.RoomService.{LeaveCapture, no_leave, leave_updater, leave_after, leave_room}
use buzzweb_server.App.RoomService.Spec.{leave_spec}

module _ {S : Type 0} {repository : RoomRepository S} {view : S → RoomCode → Option Room}
    (contract : Contract repository view) where
  -- What follows the transaction, from the entry `o` that it found and the entry that it left.
  leave_concluded :
      (code : RoomCode) (participant_id : ParticipantId) (o : Option Room) (s : S)
      → view s code ≡ (transact (leave_updater participant_id) no_leave o).2
      → let after =
          leave_after repository code participant_id
            (transact (leave_updater participant_id) no_leave o).1
            s
            (returned (transact (leave_updater participant_id) no_leave o).0) in
        (after.0 ≡ (leave_spec code participant_id o).0)
        × ((j : RoomCode)
            → view after.1 j
              ≡ (if code == j then (leave_spec code participant_id o).1 else view s j))
  unfolding leave_updater remove_participant room_is_empty
  leave_concluded code participant_id none s e = (refl, λ j. ground (arith, eq_iff code j))
  leave_concluded code participant_id (some room) s e = (
    ground (arith, contract.remove_if_empty_outcome code s),
    λ j. ground (
      arith,
      eq_iff code j,
      contract.remove_if_empty_outcome code s,
      contract.remove_if_empty_view code s j,
    ),
  )

  -- The reply of a leave is the specified one, the room of the code becomes the specified one, gone
  -- if it is empty, and every other room stays as it is.
  pub leave_room-refines :
      (code : RoomCode) (participant_id : ParticipantId) (s : S)
      → ((leave_room repository code participant_id s).0
          ≡ (leave_spec code participant_id (view s code)).0)
        × ((j : RoomCode)
            → view (leave_room repository code participant_id s).1 j
              ≡ (if code == j then (leave_spec code participant_id (view s code)).1 else view s j))
  unfolding leave_room
  leave_room-refines code participant_id s =
      rw
        (
          contract.update_captures LeaveCapture code updater no_leave s,
          contract.update_outcome LeaveCapture code updater no_leave s,
        )
        (
          concluded.0,
          λ j. ground (
            arith,
            eq_iff code j,
            contract.update_view LeaveCapture code updater no_leave s j,
            concluded.1 j,
          ),
        )
    where
      updater : Updater LeaveCapture
      updater = leave_updater participant_id

      s' : S
      s' = (repository.update LeaveCapture code updater no_leave s).2

      there : view s' code ≡ (transact updater no_leave (view s code)).2
      there =
          ground
            (arith, eq_refl code, contract.update_view LeaveCapture code updater no_leave s code)

      concluded :
          let after =
            leave_after repository code participant_id
              (transact updater no_leave (view s code)).1
              s'
              (returned (transact updater no_leave (view s code)).0) in
          (after.0 ≡ (leave_spec code participant_id (view s code)).0)
          × ((j : RoomCode)
              → view after.1 j ≡ (
                  if code == j
                  then (leave_spec code participant_id (view s code)).1
                  else view s' j))
      concluded = leave_concluded code participant_id (view s code) s' there
