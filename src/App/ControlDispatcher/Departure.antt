-- ===== src/App/ControlDispatcher/Departure.antt =====
-- `HandleParticipantDisconnected`: what is announced when a session ends.
use buzzweb_server.Common.{
  ◌≡◌, refl, Bool, true, false, Option, some, List, [], ◌∷◌, ◌==◌, arith, returned, any_of,
  remove_if, Each, if◌then◌else◌, ◌∙◌,
}
use buzzweb_server.Domain.Participant.{ParticipantId}
use buzzweb_server.Domain.Room.{Room, RoomCode, has_id, has_participant}
use buzzweb_server.Domain.RoomRepository.{RoomRepository, Contract, holds}
use buzzweb_server.App.Result.{ok, err}
use buzzweb_server.App.RoomServiceTypes.{ParticipantLeftRoomResult}
use buzzweb_server.App.RoomService.Disconnect.{
  IsReport, names, leave_all_rooms-reports, leave_all_rooms-holds,
}
use buzzweb_server.App.Messages.{ControlDispatcherEvent}
use buzzweb_server.App.ControlDispatcher.{left_events, handle_participant_disconnected}

-- The event tells those who stay in a room of `stored` that the participant left it.
abbrev pub Announces : ParticipantId → (RoomCode → Option Room) → ControlDispatcherEvent → Type 0
Announces p stored (ControlDispatcherEvent.joined_room event) = ⊥
Announces p stored (ControlDispatcherEvent.left_room event) =
    (room : Room) × (stored event.room_code ≡ some room)
    × (has_participant p room ≡ true)
    × (event.left_participant_id ≡ p)
    × (event.event_receivers ≡ remove_if (has_id p) room.participants)

abbrev pub is_about : RoomCode → ControlDispatcherEvent → Bool
is_about code (ControlDispatcherEvent.joined_room event) = event.room_code == code
is_about code (ControlDispatcherEvent.left_room event) = event.room_code == code

left_events-Announces :
    (p : ParticipantId) (stored : RoomCode → Option Room) (results : List ParticipantLeftRoomResult)
    → Each (IsReport p stored) results
    → Each (Announces p stored) (left_events results)
unfolding left_events
left_events-Announces p stored [] h = tt
left_events-Announces p stored (err e ∷ results) h = absurd h.0
left_events-Announces p stored (ok left ∷ results) h =
    (h.0, left_events-Announces p stored results h.1)

left_events-is_about :
    (code : RoomCode) (results : List ParticipantLeftRoomResult)
    → any_of (is_about code) (left_events results) ≡ any_of (names code) results
unfolding left_events
left_events-is_about code [] = refl
left_events-is_about code (err e ∷ results) = left_events-is_about code results
left_events-is_about code (ok left ∷ results) = ground (arith, left_events-is_about code results)

module _ {S : Type 0} {repository : RoomRepository S} {view : S → RoomCode → Option Room}
    (contract : Contract repository view) (p : ParticipantId) (s : S) where
  -- The clean-up of an ended session never throws. It takes the participant out of every room and
  -- changes no other membership; it announces the leave in each room that held the participant,
  -- with exactly those who stay there as receivers, and announces nothing else.
  pub disconnected_announced :
      (events : List ControlDispatcherEvent) × ((handle_participant_disconnected repository p s).0
        ≡ returned events)
      × Each (Announces p (view s)) events
      × ((code : RoomCode) → any_of (is_about code) events ≡ holds p (view s code))
      × ((q : ParticipantId) (code : RoomCode)
          → holds q (view (handle_participant_disconnected repository p s).1 code)
            ≡ (if p == q then false else holds q (view s code)))
  unfolding handle_participant_disconnected
  disconnected_announced =
      let (results, e, reports, all) = leave_all_rooms-reports contract p s in
      (
        left_events results,
        rw e refl,
        left_events-Announces p (view s) results reports,
        λ code. left_events-is_about code results ∙ all code,
        λ q code. rw e (leave_all_rooms-holds contract p q s code),
      )
