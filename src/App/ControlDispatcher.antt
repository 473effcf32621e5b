-- ===== src/App/ControlDispatcher.antt =====
-- ControlDispatcher.cpp. The handler of a request is a function of the caller with a state of its
-- own, `H`, and it may throw; a call of the dispatcher acts on that state and on the repository's.
pub mod Answers
pub mod Spec
pub mod Outcomes
pub mod Refinement
pub mod Invariant
pub mod Departure
pub mod Locality
pub mod Commuting
pub mod Tests
use buzzweb_server.Common.{
  ℕ, String, Bool, true, false, not, ◌||◌, Option, none, some, List, [], ◌∷◌, if◌then◌else◌,
  Outcome, returned, threw, Exec, Done, pure, throw, continue, catch, recover, ◌>>=◌,
}
use buzzweb_server.Domain.Participant.{Participant, ParticipantId}
use buzzweb_server.Domain.Room.{Room}
use buzzweb_server.Domain.RoomRepository.{RoomRepository}
use buzzweb_server.App.Result.{Result, ok, err}
use buzzweb_server.App.RoomServiceTypes.{
  ErrorType, RoomServiceError, CreateRoomResult, ParticipantJoinedRoom, ParticipantLeftRoom,
  ParticipantJoinedRoomResult, ParticipantLeftRoomResult,
}
use buzzweb_server.App.RoomService
use buzzweb_server.App.Messages.{
  ControlMessageType, CommandType, CreateRoomCommand, JoinRoomCommand, LeaveRoomCommand,
  SignalingCommand, ControlDispatcherRequest, ControlDispatcherResponse, ControlDispatcherResult,
  ControlDispatcherEvent, SuccessResponsePayload, ErrorResponsePayload,
}

unfoldable pub map_service_error : RoomServiceError → ErrorResponsePayload
map_service_error e = elim e.type [
  | ErrorType.wrong_password ↦ ErrorResponsePayload.wrong_password
  | ErrorType.room_not_found ↦ ErrorResponsePayload.room_not_found
  | ErrorType.room_code_generation_failed ↦ ErrorResponsePayload.room_code_generation_failed
  | ErrorType.participant_unavailable ↦ ErrorResponsePayload.participant_unavailable
  | ErrorType.not_in_room ↦ ErrorResponsePayload.not_in_room
  | ErrorType.already_joined ↦ ErrorResponsePayload.already_in_room
  | ErrorType.room_already_exists ↦ ErrorResponsePayload.room_already_exists
  | ErrorType.password_not_provided ↦ ErrorResponsePayload.password_not_provided
  | ErrorType.internal_error ↦ ErrorResponsePayload.internal_error
]

abbrev pub Handler : Type 0 → Type 0 → Type 0
Handler J H = ControlDispatcherResult J → Exec H Done

-- `std::get<T>(request.command)`
module _ {J W : Type 0} where
  abbrev get_create_room : CommandType J → Exec W CreateRoomCommand
  get_create_room (CommandType.create_room command) = pure command
  get_create_room _ = throw "bad_variant_access"

  abbrev get_join_room : CommandType J → Exec W JoinRoomCommand
  get_join_room (CommandType.join_room command) = pure command
  get_join_room _ = throw "bad_variant_access"

  abbrev get_leave_room : CommandType J → Exec W LeaveRoomCommand
  get_leave_room (CommandType.leave_room command) = pure command
  get_leave_room _ = throw "bad_variant_access"

  abbrev get_signaling : CommandType J → Exec W (SignalingCommand J)
  get_signaling (CommandType.signaling command) = pure command
  get_signaling _ = throw "bad_variant_access"

module _ {S H A : Type 0} where
  -- a use case, which changes the repository and catches what that throws
  abbrev service : (S → A × S) → Exec (S × H) A
  service f (s, h) = let (a, s') = f s in (returned a, (s', h))

  -- a question to the repository, which may throw
  abbrev ask : (S → Outcome A) → Exec (S × H) A
  ask f (s, h) = (f s, (s, h))

module _ {J S H : Type 0} (handler : Handler J H) where
  abbrev invoke : ControlDispatcherResult J → Exec (S × H) Done
  invoke result (s, h) = let (outcome, h') = handler result h in (outcome, (s, h'))

module _ {J S H : Type 0} (repository : RoomRepository S) (draw : ℕ → ℕ)
    (request : ControlDispatcherRequest J) (handler : Handler J H) where
  abbrev send_error : ErrorResponsePayload → Exec (S × H) Done
  send_error payload =
      invoke handler
        (record { response = ControlDispatcherResponse.error request.meta payload; events = [] })

  abbrev send_success : SuccessResponsePayload J → List ControlDispatcherEvent → Exec (S × H) Done
  send_success payload events = invoke handler (record {
    response = ControlDispatcherResponse.success request.meta payload;
    events = events;
  })

  abbrev created : ParticipantJoinedRoomResult → Exec (S × H) Done
  created (err e) = send_error (map_service_error e)
  created (ok joined) =
      send_success
        (SuccessResponsePayload.create_room (record {
          room_code = joined.room_code;
          participant = joined.participant;
          participants = joined.room_participants;
        }))
        []

  abbrev enter_created : CreateRoomCommand → CreateRoomResult → Exec (S × H) Done
  enter_created command (err e) = send_error (map_service_error e)
  enter_created command (ok room) = do
    join_result ←
        service
          (RoomService.join_room repository room.code command.participant command.password_hash)
    created join_result

  abbrev joined : ParticipantJoinedRoomResult → Exec (S × H) Done
  joined (err e) = send_error (map_service_error e)
  joined (ok result) =
      send_success
        (SuccessResponsePayload.join_room (record {
          room_code = result.room_code;
          participant = result.participant;
          participants = result.room_participants;
        }))
        (ControlDispatcherEvent.joined_room (record {
          room_code = result.room_code;
          joined_participant = result.participant;
          event_receivers = result.room_participants;
        })
          ∷ [])

  abbrev left : ParticipantLeftRoomResult → Exec (S × H) Done
  left (err e) = send_error (map_service_error e)
  left (ok result) = send_success (SuccessResponsePayload.leave_room result.room_code) (
      ControlDispatcherEvent.left_room (record {
        room_code = result.room_code;
        left_participant_id = result.participant_id;
        event_receivers = result.remaining_participants;
      })
      ∷ [])

  -- `||` asks for the target only if the sender is in the room.
  abbrev target_in_room : SignalingCommand J → Bool → Exec (S × H) Bool
  target_in_room command false = pure false
  target_in_room command true =
      ask
        (RoomService.participant_in_room repository command.target_participant_id command.room_code)

  abbrev relayed : SignalingCommand J → Bool → Exec (S × H) Done
  relayed command false = send_error ErrorResponsePayload.not_in_room
  relayed command true = send_success (SuccessResponsePayload.signaling command) []

  -- the body of the `try` block
  unfoldable pub route : ControlMessageType → Exec (S × H) Done
  unfolding map_service_error
  route ControlMessageType.create_room = do
    command ← get_create_room request.command
    create_result ← service (RoomService.create_room repository draw command.password_hash)
    enter_created command create_result
  route ControlMessageType.join_room = do
    command ← get_join_room request.command
    result ← service (
        RoomService.join_room repository command.room_code command.participant
          command.password_hash)
    joined result
  route ControlMessageType.leave_room = do
    command ← get_leave_room request.command
    result ← service (RoomService.leave_room repository command.room_code command.participant_id)
    left result
  route ControlMessageType.signaling = do
    command ← get_signaling request.command
    from_inside ←
        ask
          (RoomService.participant_in_room repository command.from_participant_id command.room_code)
    both_inside ← target_in_room command from_inside
    relayed command both_inside

  unfoldable pub dispatch_to : Exec (S × H) Done
  unfolding route
  dispatch_to =
      catch (route request.meta.type) (λ what. send_error ErrorResponsePayload.internal_error)

module _ {J S H : Type 0} (repository : RoomRepository S) (draw : ℕ → ℕ)
    (request : ControlDispatcherRequest J) where
  -- An empty `std::function` is not called.
  unfoldable pub dispatch : Option (Handler J H) → Exec (S × H) Done
  unfolding dispatch_to
  dispatch none = pure tt
  dispatch (some handler) = dispatch_to repository draw request handler

-- the loop of `HandleParticipantDisconnected`; a failed clean-up is logged and passed over
unfoldable pub left_events : List ParticipantLeftRoomResult → List ControlDispatcherEvent
left_events [] = []
left_events (err e ∷ results) = left_events results
left_events (ok result ∷ results) =
    ControlDispatcherEvent.left_room (record {
      room_code = result.room_code;
      left_participant_id = result.participant_id;
      event_receivers = result.remaining_participants;
    })
    ∷ left_events results

module _ {S : Type 0} (repository : RoomRepository S) where
  unfoldable pub handle_participant_disconnected :
      ParticipantId → Exec S (List ControlDispatcherEvent)
  unfolding left_events
  handle_participant_disconnected participant_id = do
    results ← RoomService.leave_all_rooms repository participant_id
    pure (left_events results)
