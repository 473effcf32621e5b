-- ===== src/App/ControlDispatcher/Answers.antt =====
-- How often the handler of a request is called. No contract of the repository is needed: it may
-- throw wherever it likes.
use buzzweb_server.Common.{
  ℕ, String, ◌≡◌, refl, ◌⊎◌, inl, inr, Bool, true, false, some, [], ◌∷◌, arith, Outcome, returned,
  threw, Done, continue, recover, ◌>>=◌,
}
use buzzweb_server.Domain.RoomRepository.{RoomRepository}
use buzzweb_server.App.Result.{ok, err}
use buzzweb_server.App.RoomServiceTypes.{
  CreateRoomResult, ParticipantLeftRoom, ParticipantJoinedRoomResult, ParticipantLeftRoomResult,
}
use buzzweb_server.App.RoomService
use buzzweb_server.App.Messages.{
  ControlMessageType, CommandType, ControlDispatcherRequest, ControlDispatcherResponse,
  ControlDispatcherResult, ErrorResponsePayload, CreateRoomCommand, LeaveRoomCommand,
  SuccessResponsePayload, ControlDispatcherEvent, SignalingCommand, meta_of,
}
use buzzweb_server.App.ControlDispatcher.{
  Handler, send_error, created, enter_created, joined, left, relayed, target_in_room, route,
  dispatch, map_service_error,
}

-- The answer to a leave that succeeded.
abbrev left_result :
    {J : Type 0} → ControlDispatcherRequest J → ParticipantLeftRoom → ControlDispatcherResult J
left_result request result = record {
  response =
      ControlDispatcherResponse.success request.meta
        (SuccessResponsePayload.leave_room result.room_code);
  events =
      ControlDispatcherEvent.left_room (record {
        room_code = result.room_code;
        left_participant_id = result.participant_id;
        event_receivers = result.remaining_participants;
      })
      ∷ [];
}

module _ {J S H : Type 0} (repository : RoomRepository S) (draw : ℕ → ℕ)
    (request : ControlDispatcherRequest J) (handler : Handler J H)
    (quiet : (result : ControlDispatcherResult J) (h : H)
      → (handler result h).0 ≡ returned tt) where
  -- The handler was called on one result, which answers the request, and on nothing else.
  abbrev Answered : H → Outcome Done × (S × H) → Type 0
  Answered h o =
      (result : ControlDispatcherResult J) × (o.0 ≡ returned tt)
      × (o.1.1 ≡ (handler result h).1)
      × (meta_of result.response ≡ request.meta)

  abbrev Handled : H → Outcome Done × (S × H) → Type 0
  Handled h o = Answered h o ⊎ ((what : String) × (o.0 ≡ threw what) × (o.1.1 ≡ h))

  error-Answered :
      (payload : ErrorResponsePayload) (s : S) (h : H)
      → Answered h (send_error repository draw request handler payload (s, h))
  error-Answered payload s h = (
    record { response = ControlDispatcherResponse.error request.meta payload; events = [] },
    quiet _ h,
    refl,
    refl,
  )

  created-Answered :
      (result : ParticipantJoinedRoomResult) (s : S) (h : H)
      → Answered h (created repository draw request handler result (s, h))
  created-Answered (err e) s h = error-Answered (map_service_error e) s h
  created-Answered (ok result) s h = (_, quiet _ h, refl, refl)

  joined-Answered :
      (result : ParticipantJoinedRoomResult) (s : S) (h : H)
      → Answered h (joined repository draw request handler result (s, h))
  joined-Answered (err e) s h = error-Answered (map_service_error e) s h
  joined-Answered (ok result) s h = (_, quiet _ h, refl, refl)

  left-Answered :
      (result : ParticipantLeftRoomResult) (s : S) (h : H)
      → Answered h (left repository draw request handler result (s, h))
  left-Answered (err e) s h = error-Answered (map_service_error e) s h
  left-Answered (ok result) s h = (_, quiet _ h, refl, refl)

  enter_created-Answered :
      (command : CreateRoomCommand) (result : CreateRoomResult) (s : S) (h : H)
      → Answered h (enter_created repository draw request handler command result (s, h))
  enter_created-Answered command (err e) s h = error-Answered (map_service_error e) s h
  enter_created-Answered command (ok room) s h =
      let (result, s') =
        RoomService.join_room repository room.code command.participant command.password_hash s in
      created-Answered result s' h

  relayed-Answered :
      (command : SignalingCommand J) (both : Bool) (s : S) (h : H)
      → Answered h (relayed repository draw request handler command both (s, h))
  relayed-Answered command false s h = error-Answered ErrorResponsePayload.not_in_room s h
  relayed-Answered command true s h = (_, quiet _ h, refl, refl)

  target-Handled :
      (command : SignalingCommand J) (target : Outcome Bool) (s : S) (h : H)
      → Handled h (continue target (relayed repository draw request handler command) (s, h))
  target-Handled command (threw what) s h = inr (what, refl, refl)
  target-Handled command (returned both) s h = inl (relayed-Answered command both s h)

  sender-Handled :
      (command : SignalingCommand J) (sender : Outcome Bool) (s : S) (h : H)
      → Handled h (
          continue sender
            (λ inside.
              target_in_room repository draw request handler command inside
              >>= relayed repository draw request handler command)
            (s, h))
  sender-Handled command (threw what) s h = inr (what, refl, refl)
  sender-Handled command (returned false) s h = inl (relayed-Answered command false s h)
  sender-Handled command (returned true) s h =
      target-Handled command
        (RoomService.participant_in_room repository command.target_participant_id command.room_code
          s)
        s h

  route-Handled :
      (type : ControlMessageType) (command : CommandType J) (s : S) (h : H)
      → request.command ≡ command
      → Handled h (route repository draw request handler type (s, h))
  unfolding route
  route-Handled ControlMessageType.create_room (CommandType.create_room command) s h e =
      let (result, s') = RoomService.create_room repository draw command.password_hash s in
      rw e (inl (enter_created-Answered command result s' h))
  route-Handled ControlMessageType.create_room _ s h e = rw e (inr (_, refl, refl))
  route-Handled ControlMessageType.join_room (CommandType.join_room command) s h e =
      let (result, s') =
        RoomService.join_room repository command.room_code command.participant command.password_hash
          s in
      rw e (inl (joined-Answered result s' h))
  route-Handled ControlMessageType.join_room _ s h e = rw e (inr (_, refl, refl))
  route-Handled ControlMessageType.leave_room (CommandType.leave_room command) s h e =
      let (result, s') =
        RoomService.leave_room repository command.room_code command.participant_id s in
      rw e (inl (left-Answered result s' h))
  route-Handled ControlMessageType.leave_room _ s h e = rw e (inr (_, refl, refl))
  route-Handled ControlMessageType.signaling (CommandType.signaling command) s h e = rw e (
      sender-Handled command
        (RoomService.participant_in_room repository command.from_participant_id command.room_code s)
        s h)
  route-Handled ControlMessageType.signaling _ s h e = rw e (inr (_, refl, refl))

  recover-Answered :
      (o : Outcome Done × (S × H)) (h : H)
      → Handled h o
      → Answered h (
          recover
            (λ what. send_error repository draw request handler ErrorResponsePayload.internal_error)
            o)
  recover-Answered (returned tt, (s, h')) h (inl a) = a
  recover-Answered (returned tt, (s, h')) h (inr (what, e, same)) = cc
  recover-Answered (threw what, (s, h')) h (inl (result, e, done, answers)) = cc
  recover-Answered (threw what, (s, h')) h (inr (_, e, same)) =
      rw same (error-Answered ErrorResponsePayload.internal_error s h)

  -- A handler that does not throw is called once on every request, whatever command it carries and
  -- wherever the storage throws, with a response of the request's type and id; the dispatcher then
  -- returns and does not throw.
  pub dispatch_once :
      (s : S) (h : H)
      → (result : ControlDispatcherResult J) × ((dispatch repository draw request
            (some handler)
            (s, h)).0
          ≡ returned tt)
        × ((dispatch repository draw request (some handler) (s, h)).1.1 ≡ (handler result h).1)
        × (meta_of result.response ≡ request.meta)
  unfolding dispatch
  dispatch_once s h =
      recover-Answered (route repository draw request handler request.meta.type (s, h)) h
        (route-Handled request.meta.type request.command s h refl)

module _ {J S H : Type 0} (repository : RoomRepository S) (draw : ℕ → ℕ)
    (request : ControlDispatcherRequest J) (handler : Handler J H) where
  -- When the call of the handler on an answer throws, the dispatcher calls it a second time, with
  -- an internal error for the same request. Here for a request that leaves a room.
  pub dispatch_twice :
      (command : LeaveRoomCommand) (result : ParticipantLeftRoom) (what : String) (s : S) (h : H)
      → request.meta.type ≡ ControlMessageType.leave_room
      → request.command ≡ CommandType.leave_room command
      → (RoomService.leave_room repository command.room_code command.participant_id s).0 ≡ ok result
      → (handler (left_result request result) h).0 ≡ threw what
      → (dispatch repository draw request (some handler) (s, h)).1.1
        ≡ (handler
            (record {
              response =
                  ControlDispatcherResponse.error request.meta ErrorResponsePayload.internal_error;
              events = [];
            })
            (handler (left_result request result) h).1).1
  unfolding dispatch
  dispatch_twice command result what s h type e ok_left thrown = rw (type, route, e) (ground arith)
