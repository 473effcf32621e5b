-- ===== src/App/ControlDispatcher/Invariant.antt =====
-- The stored rooms through the requests and disconnects of ControlDispatcher.cpp.
use buzzweb_server.Common.{
  ℕ, ◌≡◌, refl, subst, inl, inr, false, Option, none, some, List, [], ◌∷◌, ◌++◌, ◌==◌, eq_iff,
  arith, returned, is_empty, Bool-cases,
}
use buzzweb_server.Common.UnorderedMap
use buzzweb_server.Domain.Participant.{Participant, ParticipantId}
use buzzweb_server.Domain.Room.{Room, RoomCode, RoomSecret, has_participant}
use buzzweb_server.Domain.Room.Membership.{
  HasDistinctIds, HasDistinctIds-append, HasDistinctIds-remove,
}
use buzzweb_server.Domain.RoomRepository.{RoomRepository, Contract}
use buzzweb_server.Domain.InMemory.{Rooms, in_memory, no_rooms}
use buzzweb_server.Domain.InMemory.Refinement.{view, in_memory-Contract}
use buzzweb_server.App.Result.{ok, err}
use buzzweb_server.App.RoomServiceTypes.{CreateRoomResult}
use buzzweb_server.App.RoomService.Spec.{join_spec, leave_spec}
use buzzweb_server.App.RoomService.Create.{create_spec}
use buzzweb_server.App.RoomService.Disconnect.{leave_all_rooms-view, leave_all_rooms-reports}
use buzzweb_server.App.Messages.{
  ControlMessageType, CommandType, ControlDispatcherRequest, ControlDispatcherResult,
  CreateRoomCommand, RequestMeta,
}
use buzzweb_server.App.ControlDispatcher.{Handler, dispatch, handle_participant_disconnected}
use buzzweb_server.App.ControlDispatcher.Spec.{enter, Stored, answer, put, create_answer}
use buzzweb_server.App.ControlDispatcher.Refinement.{dispatch-refines}

-- A room is stored under its own code, its participants have distinct ids, and it is not empty.
pub record IsSoundRoom (code : RoomCode) (room : Room) : Type 0 where
  pub own_code : room.code ≡ code
  pub distinct : HasDistinctIds room.participants
  pub occupied : is_empty room.participants ≡ false

abbrev pub IsSoundEntry : RoomCode → Option Room → Type 0
IsSoundEntry code none = Unit {0}
IsSoundEntry code (some room) = IsSoundRoom code room

pub record IsSound (stored : Stored) : Type 0 where
  pub at : (code : RoomCode) → IsSoundEntry code (stored code)

occupied-append : (ps : List Participant) (p : Participant) → is_empty (ps ++ p ∷ []) ≡ false
occupied-append [] p = refl
occupied-append (q ∷ ps) p = refl

join-IsSoundEntry :
    (code : RoomCode) (participant : Participant) (given : Option RoomSecret) (o : Option Room)
    → IsSoundEntry code o
    → IsSoundEntry code (join_spec code participant given o).1
unfolding has_participant
join-IsSoundEntry code participant given none h = tt
join-IsSoundEntry code participant given (some room) h = ground (
  arith,
  HasDistinctIds-append participant room.participants h.distinct,
  occupied-append room.participants participant,
)

leave-IsSoundEntry :
    (code j : RoomCode) (p : ParticipantId) (o : Option Room)
    → IsSoundEntry j o
    → IsSoundEntry j (leave_spec code p o).1
leave-IsSoundEntry code j p none h = tt
leave-IsSoundEntry code j p (some room) h =
    ground (arith, HasDistinctIds-remove p room.participants h.distinct)

put-IsSound :
    (code : RoomCode) (o : Option Room) (stored : Stored)
    → IsSound stored
    → IsSoundEntry code o
    → IsSound (put code o stored)
put-IsSound code o stored h entry = record {
  at = λ j. elim (Bool-cases (code == j)) [
    | inl here ↦ rw here (subst (λ k. IsSoundEntry k o) ((eq_iff code j).0 here) entry)
    | inr other ↦ rw other (h.at j)
  ];
}

create-IsSound :
    (J : Type 0) (meta : RequestMeta) (draw : ℕ → ℕ) (command : CreateRoomCommand) (stored : Stored)
    (result : CreateRoomResult)
    → create_spec 100 0 draw command.password_hash stored ≡ result
    → IsSound stored
    → IsSound (create_answer {J = J} meta draw command result stored).1
create-IsSound J meta draw command stored (err e) spec h = h
create-IsSound J meta draw command stored (ok room) spec h =
    put-IsSound room.code (some (enter command.participant room)) stored h
      (record { own_code = refl; distinct = (refl, tt); occupied = refl })

answer-IsSound :
    {J : Type 0} (meta : RequestMeta) (draw : ℕ → ℕ) (type : ControlMessageType)
    (command : CommandType J) (stored : Stored)
    → IsSound stored
    → IsSound (answer meta draw type command stored).1
unfolding answer
answer-IsSound {J} meta draw ControlMessageType.create_room (CommandType.create_room command) stored
      h =
    create-IsSound J meta draw command stored (create_spec 100 0 draw command.password_hash stored)
      refl h
answer-IsSound {J} meta draw ControlMessageType.join_room (CommandType.join_room command) stored h =
    put-IsSound command.room_code _ stored h (
      join-IsSoundEntry command.room_code command.participant command.password_hash
        (stored command.room_code) (h.at command.room_code))
answer-IsSound {J} meta draw ControlMessageType.leave_room (CommandType.leave_room command) stored
      h =
    put-IsSound command.room_code _ stored h (
      leave-IsSoundEntry command.room_code command.room_code command.participant_id
        (stored command.room_code) (h.at command.room_code))
answer-IsSound {J} meta draw ControlMessageType.signaling (CommandType.signaling command) stored h =
    h
answer-IsSound {J} meta draw _ _ stored h = h

IsSound-same :
    (before after : Stored) → ((j : RoomCode) → after j ≡ before j) → IsSound before → IsSound after
IsSound-same before after e h = record { at = λ j. rw (e j) (h.at j) }

module _ {J S H : Type 0} {repository : RoomRepository S} {view : S → Stored}
    (contract : Contract repository view) (handler : Handler J H)
    (quiet : (result : ControlDispatcherResult J) (h : H)
      → (handler result h).0 ≡ returned tt) where
  -- No request, whatever it carries and however it is answered, leaves a room that is empty, has
  -- two participants of one id, or is stored under another room's code.
  pub dispatch-IsSound :
      (draw : ℕ → ℕ) (request : ControlDispatcherRequest J) (s : S) (h : H)
      → IsSound (view s)
      → IsSound (view (dispatch repository draw request (some handler) (s, h)).1.0)
  dispatch-IsSound draw request s h sound =
      IsSound-same (answer request.meta draw request.meta.type request.command (view s)).1 _
        (dispatch-refines contract draw request handler quiet h s).stores
        (answer-IsSound request.meta draw request.meta.type request.command (view s) sound)

module _ {S : Type 0} {repository : RoomRepository S} {view : S → Stored}
    (contract : Contract repository view) where
  pub disconnected-IsSound :
      (p : ParticipantId) (s : S)
      → IsSound (view s)
      → IsSound (view (handle_participant_disconnected repository p s).1)
  unfolding handle_participant_disconnected
  disconnected-IsSound p s sound =
      let (results, e, reports, all) = leave_all_rooms-reports contract p s in
      rw e (
        IsSound-same (λ j. (leave_spec j p (view s j)).1) _ (leave_all_rooms-view contract p s)
          (record { at = λ j. leave-IsSoundEntry j j p (view s j) (sound.at j) }))

-- What the server's clients can do to the rooms.
pub data Happening (J : Type 0) : Type 0 where
  requested : ControlDispatcherRequest J → (ℕ → ℕ) → Happening J
  disconnected : ParticipantId → Happening J

abbrev pub happen : {J H : Type 0} → Handler J H → Happening J → Rooms × H → Rooms × H
happen handler (requested request draw) (rooms, h) =
    (dispatch in_memory draw request (some handler) (rooms, h)).1
happen handler (disconnected p) (rooms, h) =
    ((handle_participant_disconnected in_memory p rooms).1, h)

unfoldable pub run : {J H : Type 0} → Handler J H → List (Happening J) → Rooms × H → Rooms × H
run handler [] state = state
run handler (happening ∷ rest) state = run handler rest (happen handler happening state)

module _ {J H : Type 0} (handler : Handler J H)
    (quiet : (result : ControlDispatcherResult J) (h : H)
      → (handler result h).0 ≡ returned tt) where
  happen-IsSound :
      (happening : Happening J) (state : Rooms × H)
      → IsSound (view state.0)
      → IsSound (view (happen handler happening state).0)
  happen-IsSound (requested request draw) (rooms, h) sound =
      dispatch-IsSound in_memory-Contract handler quiet draw request rooms h sound
  happen-IsSound (disconnected p) (rooms, h) sound =
      disconnected-IsSound in_memory-Contract p rooms sound

  run-IsSound :
      (happenings : List (Happening J)) (state : Rooms × H)
      → IsSound (view state.0)
      → IsSound (view (run handler happenings state).0)
  unfolding run
  run-IsSound [] state sound = sound
  run-IsSound (happening ∷ rest) state sound =
      run-IsSound rest (happen handler happening state) (happen-IsSound happening state sound)

  -- In the server's repository, after any requests and disconnects from its start, with a handler
  -- that does not throw, every stored room is under its own code, has participants of distinct ids,
  -- and is not empty.
  pub history-IsSound :
      (happenings : List (Happening J)) (h : H)
      → IsSound (view (run handler happenings (no_rooms, h)).0)
  unfolding no_rooms UnorderedMap.find
  history-IsSound happenings h = run-IsSound happenings (no_rooms, h) (record { at = λ j. tt })
