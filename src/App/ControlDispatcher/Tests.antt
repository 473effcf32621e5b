-- ===== src/App/ControlDispatcher/Tests.antt =====
-- The dispatcher at requests on the rooms of the tests.
use buzzweb_server.Common.{
  ℕ, String, ◌≡◌, ◌≢◌, refl, arith, eq_iff, false, none, some, List, [], ◌∷◌, ◌++◌, ◌==◌, Each,
  any_of, if◌then◌else◌, returned, threw,
}
use buzzweb_server.Common.UnorderedMap
use buzzweb_server.Domain.Participant.{ParticipantId}
use buzzweb_server.Domain.Room.{RoomCode, remove_participant, room_is_empty}
use buzzweb_server.Domain.RoomRepository.{holds}
use buzzweb_server.Domain.InMemory
use buzzweb_server.Domain.InMemory.{in_memory, no_rooms}
use buzzweb_server.Domain.InMemory.Refinement.{view, in_memory-Contract}
use buzzweb_server.Domain.Tests.{alice, bob, two_rooms}
use buzzweb_server.App.Result.{ok}
use buzzweb_server.App.RoomServiceTypes.{ParticipantLeftRoom}
use buzzweb_server.App.RoomService.{leave_room, leave_updater}
use buzzweb_server.App.Messages.{
  ControlMessageType, CommandType, ControlDispatcherRequest, ControlDispatcherResponse,
  ControlDispatcherResult, ControlDispatcherEvent, ErrorResponsePayload, SuccessResponsePayload,
  LeaveRoomCommand, RequestMeta, meta_of,
}
use buzzweb_server.App.ControlDispatcher.{Handler, dispatch, handle_participant_disconnected}
use buzzweb_server.App.ControlDispatcher.Spec.{answer}
use buzzweb_server.App.ControlDispatcher.Answers.{dispatch_once, dispatch_twice}
use buzzweb_server.App.ControlDispatcher.Outcomes.{Answers}
use buzzweb_server.App.ControlDispatcher.Commuting.{served, after, dispatch_commutes}
use mathlib.Core.Quot
use buzzweb_server.App.ControlDispatcher.Refinement.{dispatch-refines}
use buzzweb_server.App.ControlDispatcher.Invariant.{IsSound, Happening, run, history-IsSound}
use buzzweb_server.App.ControlDispatcher.Departure.{Announces, is_about, disconnected_announced}

abbrev draw : ℕ → ℕ
draw attempt = 8

abbrev meta_with : ControlMessageType → RequestMeta
meta_with type = record { type = type; request_id = some "r1"; signaling_type = none }

abbrev join_request : ControlDispatcherRequest String
join_request = record {
  meta = meta_with ControlMessageType.join_room;
  command =
      CommandType.join_room
        (record { room_code = "000007"; participant = bob; password_hash = some "pw" });
}

abbrev leave_command : LeaveRoomCommand
leave_command = record { room_code = "000042"; participant_id = "p_b" }

abbrev leave_request : ControlDispatcherRequest String
leave_request = record {
  meta = meta_with ControlMessageType.leave_room;
  command = CommandType.leave_room leave_command;
}

abbrev Log : Type 0
Log = List (ControlDispatcherResult String)

abbrev logging : Handler String Log
logging result log = (returned tt, log ++ result ∷ [])

abbrev failing : Handler String Log
failing result log = (threw "not_sent", log ++ result ∷ [])

dispatch-refines_example :
    Answers view logging []
      (answer join_request.meta draw ControlMessageType.join_room join_request.command
        (view two_rooms)).0
      (answer join_request.meta draw ControlMessageType.join_room join_request.command
        (view two_rooms)).1
      (dispatch in_memory draw join_request (some logging) (two_rooms, []))
dispatch-refines_example =
    dispatch-refines in_memory-Contract draw join_request logging (λ result log. refl) [] two_rooms

history-IsSound_example : IsSound (
    view
      (run logging
        (Happening.requested join_request draw ∷ Happening.disconnected "p_b" ∷ [])
        (no_rooms, [])).0)
history-IsSound_example =
    history-IsSound logging (λ result log. refl)
      (Happening.requested join_request draw ∷ Happening.disconnected "p_b" ∷ []) []

disconnected_announced_example :
    (events : List ControlDispatcherEvent) × ((handle_participant_disconnected in_memory "p_a"
        two_rooms).0
      ≡ returned events)
    × Each (Announces "p_a" (view two_rooms)) events
    × ((code : RoomCode) → any_of (is_about code) events ≡ holds "p_a" (view two_rooms code))
    × ((q : ParticipantId) (code : RoomCode)
        → holds q (view (handle_participant_disconnected in_memory "p_a" two_rooms).1 code)
          ≡ (if "p_a" == q then false else holds q (view two_rooms code)))
disconnected_announced_example = disconnected_announced in_memory-Contract "p_a" two_rooms

dispatch_once_example :
    (result : ControlDispatcherResult String) × ((dispatch in_memory draw leave_request
        (some logging)
        (two_rooms, [])).0
      ≡ returned tt)
    × ((dispatch in_memory draw leave_request (some logging) (two_rooms, [])).1.1 ≡ result ∷ [])
    × (meta_of result.response ≡ leave_request.meta)
dispatch_once_example =
    dispatch_once in_memory draw leave_request logging (λ result log. refl) two_rooms []

abbrev bob_gone : ParticipantLeftRoom
bob_gone = record {
  room_code = "000042";
  participant_id = "p_b";
  remaining_participants = alice ∷ [];
}

bob_leaves : (leave_room in_memory "000042" "p_b" two_rooms).0 ≡ ok bob_gone
unfolding leave_room leave_updater InMemory.update InMemory.remove_if_empty UnorderedMap.find
    UnorderedMap.assign remove_participant room_is_empty
bob_leaves = refl

dispatch_twice_example :
    (dispatch in_memory draw leave_request (some failing) (two_rooms, [])).1.1
    ≡ record {
      response =
          ControlDispatcherResponse.success leave_request.meta
            (SuccessResponsePayload.leave_room "000042");
      events =
          ControlDispatcherEvent.left_room (record {
            room_code = "000042";
            left_participant_id = "p_b";
            event_receivers = alice ∷ [];
          })
          ∷ [];
    }
      ∷ record {
        response =
            ControlDispatcherResponse.error leave_request.meta ErrorResponsePayload.internal_error;
        events = [];
      }
      ∷ []
dispatch_twice_example =
    dispatch_twice in_memory draw leave_request failing leave_command bob_gone "not_sent" two_rooms
      [] refl refl bob_leaves refl

other_room : ◌≢◌ {A = RoomCode} "000007" "000042"
other_room = λ same. ground (arith, (eq_iff "000007" "000042").1 same)

dispatch_commutes_example :
    ((served in_memory draw join_request (served in_memory draw leave_request two_rooms).0).1
      ≡ (served in_memory draw join_request two_rooms).1)
    × ((served in_memory draw leave_request (served in_memory draw join_request two_rooms).0).1
        ≡ (served in_memory draw leave_request two_rooms).1)
    × (after in_memory-Contract draw leave_request
          (after in_memory-Contract draw join_request (Quot.mk two_rooms))
        ≡ after in_memory-Contract draw join_request
            (after in_memory-Contract draw leave_request (Quot.mk two_rooms)))
dispatch_commutes_example =
    dispatch_commutes in_memory-Contract draw join_request leave_request "000007" "000042" two_rooms
      refl refl other_room
