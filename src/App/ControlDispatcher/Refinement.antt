-- ===== src/App/ControlDispatcher/Refinement.antt =====
-- `Dispatch` and its specification, over a repository that keeps its contract and with a handler
-- that does not throw.
use buzzweb_server.Common.{
  ℕ, ◌≡◌, refl, ◌∙◌, ap, Option, none, some, [], ◌∷◌, ◌==◌, eq_refl, arith, returned, if◌then◌else◌,
}
use buzzweb_server.Domain.Room.{RoomCode, RoomSecret, new_room, has_participant}
use buzzweb_server.Domain.RoomRepository.{RoomRepository, Contract}
use buzzweb_server.App.Result.{ok, err}
use buzzweb_server.App.RoomServiceTypes.{CreateRoomResult}
use buzzweb_server.App.RoomService
use buzzweb_server.App.RoomService.Spec.{join_spec, join_open, refusal, leave_spec}
use buzzweb_server.App.RoomService.Create.{
  create_spec, create_spec-ok, create_room-refines, stored_after,
}
use buzzweb_server.App.RoomService.Join.{join_room-refines}
use buzzweb_server.App.RoomService.Leave.{leave_room-refines}
use buzzweb_server.App.Messages.{
  ControlMessageType, CommandType, ControlDispatcherRequest, ControlDispatcherResult,
  ErrorResponsePayload, CreateRoomCommand,
}
use buzzweb_server.App.ControlDispatcher.{Handler, dispatch, route, send_error, enter_created}
use buzzweb_server.App.ControlDispatcher.Spec.{enter, Stored, answer, put, refused, create_answer}
use buzzweb_server.App.ControlDispatcher.Outcomes.{
  Answers, caught, settled, refused-Answers, joined-Answers, left-Answers, asked-Answers,
}

module _ {J S H : Type 0} {repository : RoomRepository S} {view : S → Stored}
    (contract : Contract repository view) (draw : ℕ → ℕ) (request : ControlDispatcherRequest J)
    (handler : Handler J H)
    (quiet : (result : ControlDispatcherResult J) (h : H) → (handler result h).0 ≡ returned tt)
    (h : H) where
  -- The join that follows a creation cannot fail.
  first_join :
      (command : CreateRoomCommand) (code : RoomCode) (s : S)
      → view s code ≡ some (new_room code command.password_hash)
      → join_spec code command.participant command.password_hash (view s code) ≡ (
        ok (record {
          room_code = code;
          participant = command.participant;
          room_participants = command.participant ∷ [];
        }),
        some (enter command.participant (new_room code command.password_hash)),
      )
  unfolding new_room has_participant
  first_join command code s here = rw here (opened command.password_hash)
    where
      opened :
          (password : Option RoomSecret)
          → join_open code command.participant
              (new_room code command.password_hash)
              (refusal password password)
            ≡ join_open code command.participant (new_room code command.password_hash) none
      opened none = refl
      opened (some secret) = rw (eq_refl secret)

  enter_created-Answers :
      (command : CreateRoomCommand) (code : RoomCode) (s : S) (stored : Stored)
      → let room = new_room code command.password_hash in
        ((j : RoomCode) → view s j ≡ stored_after (ok room) stored j)
        → Answers view handler h
            (create_answer {J = J} request.meta draw command (ok room) stored).0
            (create_answer {J = J} request.meta draw command (ok room) stored).1
            (caught contract draw request handler quiet h
              (enter_created repository draw request handler command (ok room) (s, h)))
  unfolding new_room
  enter_created-Answers command code s stored same = rw (refines.0 ∙ ap (λ x. x.0) first) (
      settled contract draw request handler quiet h _
        (RoomService.join_room repository code command.participant command.password_hash s).1
        (put code (some (enter command.participant (new_room code command.password_hash))) stored)
        views)
    where
      here : view s code ≡ some (new_room code command.password_hash)
      here = ground (arith, same code, eq_refl code)

      refines :
          ((RoomService.join_room repository code command.participant command.password_hash s).0
            ≡ (join_spec code command.participant command.password_hash (view s code)).0)
          × ((j : RoomCode)
              → view
                  (RoomService.join_room repository code command.participant command.password_hash
                    s).1
                  j
                ≡ (if code == j
                    then (join_spec code command.participant command.password_hash (view s code)).1
                    else view s j))
      refines = join_room-refines contract code command.participant command.password_hash s

      first : join_spec code command.participant command.password_hash (view s code) ≡ (
        ok (record {
          room_code = code;
          participant = command.participant;
          room_participants = command.participant ∷ [];
        }),
        some (enter command.participant (new_room code command.password_hash)),
      )
      first = first_join command code s here

      views :
          (j : RoomCode)
          → view
              (RoomService.join_room repository code command.participant command.password_hash s).1
              j
            ≡ put code
                (some (enter command.participant (new_room code command.password_hash)))
                stored
                j
      views j = refines.1 j ∙ ground (arith, same j, first)

  unsuited :
      (s : S)
      → Answers view handler h
          (refused request.meta ErrorResponsePayload.internal_error)
          (view s)
          (send_error repository draw request handler ErrorResponsePayload.internal_error (s, h))
  unsuited s = record {
    returns = quiet (refused request.meta ErrorResponsePayload.internal_error) h;
    called = refl;
    stores = λ j. refl;
  }

  created-Answers :
      (command : CreateRoomCommand) (s : S) (result : CreateRoomResult)
      → create_spec 100 0 draw command.password_hash (view s) ≡ result
      → Answers view handler h
          (create_answer {J = J} request.meta draw command result (view s)).0
          (create_answer {J = J} request.meta draw command result (view s)).1
          (caught contract draw request handler quiet h (
            enter_created repository draw request handler command
              (RoomService.create_room repository draw command.password_hash s).0
              ((RoomService.create_room repository draw command.password_hash s).1, h)))
  created-Answers command s (err e) spec =
      let refines = create_room-refines contract draw command.password_hash s in
      rw (refines.0 ∙ spec) (
        refused-Answers contract draw request handler quiet h e
          (RoomService.create_room repository draw command.password_hash s).1 (view s)
          (λ j. refines.1 j ∙ ap (λ result. stored_after result (view s) j) spec))
  created-Answers command s (ok room) spec =
      let refines = create_room-refines contract draw command.password_hash s in
      let (i, low, high, is_new, free) =
        create_spec-ok draw command.password_hash (view s) 100 0 room spec in
      let code = RoomService.generate_room_code (draw i) in
      let made = spec ∙ ap ok is_new in
      rw (refines.0 ∙ made, is_new)
        (enter_created-Answers command code
          (RoomService.create_room repository draw command.password_hash s).1 (view s)
          (λ j. refines.1 j ∙ ap (λ result. stored_after result (view s) j) made))

  route-Answers :
      (type : ControlMessageType) (command : CommandType J) (s : S)
      → request.command ≡ command
      → Answers view handler h
          (answer request.meta draw type command (view s)).0
          (answer request.meta draw type command (view s)).1
          (caught contract draw request handler quiet h
            (route repository draw request handler type (s, h)))
  unfolding route answer
  route-Answers ControlMessageType.create_room (CommandType.create_room command) s e =
      rw e (created-Answers command s (create_spec 100 0 draw command.password_hash (view s)) refl)
  route-Answers ControlMessageType.create_room _ s e = rw e (unsuited s)
  route-Answers ControlMessageType.join_room (CommandType.join_room command) s e =
      let code = command.room_code in
      let refines = join_room-refines contract code command.participant command.password_hash s in
      rw (e, refines.0)
        (joined-Answers contract draw request handler quiet h
          (join_spec code command.participant command.password_hash (view s code)).0
          (RoomService.join_room repository code command.participant command.password_hash s).1 _
          refines.1)
  route-Answers ControlMessageType.join_room _ s e = rw e (unsuited s)
  route-Answers ControlMessageType.leave_room (CommandType.leave_room command) s e =
      let refines = leave_room-refines contract command.room_code command.participant_id s in
      rw (e, refines.0)
        (left-Answers contract draw request handler quiet h
          (leave_spec command.room_code command.participant_id (view s command.room_code)).0
          (RoomService.leave_room repository command.room_code command.participant_id s).1 _
          refines.1)
  route-Answers ControlMessageType.leave_room _ s e = rw e (unsuited s)
  route-Answers ControlMessageType.signaling (CommandType.signaling command) s e =
      rw e (asked-Answers contract draw request handler quiet h command s)
  route-Answers ControlMessageType.signaling _ s e = rw e (unsuited s)

  -- Over a repository that keeps its contract, and with a handler that does not throw, a request has
  -- the specified answer, on which the handler is called once, and leaves the specified rooms: for
  -- every type of request, every command, every outcome of the use case, and every error.
  pub dispatch-refines :
      (s : S)
      → Answers view handler h
          (answer request.meta draw request.meta.type request.command (view s)).0
          (answer request.meta draw request.meta.type request.command (view s)).1
          (dispatch repository draw request (some handler) (s, h))
  unfolding dispatch
  dispatch-refines s = route-Answers request.meta.type request.command s refl
