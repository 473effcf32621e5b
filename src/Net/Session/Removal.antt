-- ===== src/Net/Session/Removal.antt =====
-- `RemoveFromRegistry`: what is left of a session that ends, and what a session still does after it.
use buzzweb_server.Common.{
  ℕ, String, ◌≡◌, ◌≢◌, refl, sym, ◌∙◌, ap, true, false, Option, none, some, List, [], ◌∷◌, ◌++◌,
  ◌==◌, eq_iff, eq_refl, arith, Each, Each-map, any_of, remove_if, if◌then◌else◌, Outcome, returned,
  threw, Done, continue, pure, subst, any_of-append,
}
use buzzweb_server.Domain.Participant.{ParticipantId}
use buzzweb_server.Domain.Room.{Room, RoomCode, has_id, has_participant}
use buzzweb_server.Domain.Room.Membership.{has_participant-remove}
use buzzweb_server.Domain.RoomRepository.{RoomRepository, Contract, holds}
use buzzweb_server.App.Messages.{
  ControlDispatcherEvent, ControlDispatcherRequest, ControlMessageType, CommandType,
  JoinRoomCommand, RequestMeta,
}
use buzzweb_server.App.ControlDispatcher.{dispatch}
use buzzweb_server.App.ControlDispatcher.Departure.{Announces, disconnected_announced}
use buzzweb_server.App.ControlDispatcher.Spec.{answer}
use buzzweb_server.App.ControlDispatcher.Refinement.{dispatch-refines}
use buzzweb_server.App.Json.{Json}
use buzzweb_server.App.ProtocolCodec.Decode.{decode_request}
use buzzweb_server.App.ProtocolCodec.Requests.{IsFrom, decode_request-IsFrom}
use buzzweb_server.Common.Attempt.{gave}
use buzzweb_server.App.ProtocolCodec.Encode.{encode_event}
use buzzweb_server.Net.SessionRegistry
use buzzweb_server.Net.SessionRegistry.{SessionPtr, Registry, IsKeyed, remove-IsKeyed, find-remove}
use buzzweb_server.Net.Session.{
  Hub, Session, ReadResult, remove_from_registry, handle_message, on_read, session_handler,
}
use buzzweb_server.Net.Session.Delivery.{AllowsEvent, Each-of_ids, deliver_events-Adds}

module _ (json : Json) where
  -- The message tells another member of a room of `stored` that the participant has left it.
  abbrev pub IsLeaveNews : ParticipantId → (RoomCode → Option Room) → SessionPtr × String → Type 0
  IsLeaveNews p stored (session, message) =
      (code : RoomCode) × (room : Room) × (stored code ≡ some room)
      × (has_participant p room ≡ true)
      × (has_participant session.participant_id room ≡ true)
      × (session.participant_id ≢ p)
      × (message
          ≡ encode_event json (
              ControlDispatcherEvent.left_room (record {
                room_code = code;
                left_participant_id = p;
                event_receivers = remove_if (has_id p) room.participants;
              })))

  news-Allows :
      (p : ParticipantId) (stored : RoomCode → Option Room) (registry : Registry)
      → IsKeyed registry
      → (event : ControlDispatcherEvent) → Announces p stored event
      → AllowsEvent (IsLeaveNews p stored) json registry event
  unfolding has_participant
  news-Allows p stored registry keyed (ControlDispatcherEvent.joined_room event) impossible =
      absurd impossible
  news-Allows p stored registry keyed (ControlDispatcherEvent.left_room event)
        (room, here, inside, who, receivers) =
      Each-of_ids event.event_receivers (λ q among told session found.
        let same = keyed q.id session found in
        let stays =
          sym (has_participant-remove p q.id room.participants)
          ∙ ap (any_of (has_id q.id)) (sym receivers)
          ∙ among in
        (
          event.room_code,
          room,
          here,
          inside,
          ground (arith, same, stays),
          λ e. absurd (ground (arith, same, stays, e, eq_iff p q.id)),
          rw (← receivers, sym who) refl,
        ))

join_enters :
    (J : Type 0) (meta : RequestMeta) (draw : ℕ → ℕ) (command : JoinRoomCommand) (room : Room)
    (stored : RoomCode → Option Room)
    → stored command.room_code ≡ some room
    → room.room_secret ≡ none
    → holds command.participant.id (
        (answer {J = J} meta draw ControlMessageType.join_room
            (CommandType.join_room command)
            stored).1
          command.room_code)
      ≡ true
unfolding answer has_participant
join_enters J meta draw command room stored here open_room =
    rw (here, open_room, eq_refl command.room_code)
      (ground (
        arith,
        eq_refl command.participant.id,
        any_of-append (has_id command.participant.id) room.participants (command.participant ∷ []),
      ))

module _ (json : Json) {S : Type 0} {repository : RoomRepository S}
    {view : S → RoomCode → Option Room} (contract : Contract repository view) (draw : ℕ → ℕ)
    (session : Session) (s : S) (hub : Hub) where
  abbrev pid : ParticipantId
  pid = session.self.participant_id

  abbrev ended : Session × (S × Hub)
  ended = remove_from_registry json repository draw session (s, hub)

  -- When a registered session ends, it is taken out of the registry, and its participant out of
  -- every room, while no other session and no other membership changes. The only messages sent are
  -- the news of the leave, to sessions of those who stay in a room that the participant was in.
  -- The session is then unregistered, and ending it again does nothing.
  pub remove_from_registry-removes :
      session.registered ≡ true
      → IsKeyed hub.registry
      → (ended.0.registered ≡ false)
        × ((q : ParticipantId)
            → SessionRegistry.find q ended.1.1.registry
              ≡ (if pid == q then none else SessionRegistry.find q hub.registry))
        × ((q : ParticipantId) (code : RoomCode)
            → holds q (view ended.1.0 code) ≡ (if pid == q then false else holds q (view s code)))
        × ((more : List (SessionPtr × String)) × (ended.1.1.sent ≡ hub.sent ++ more)
            × Each (IsLeaveNews json pid (view s)) more)
        × (remove_from_registry json repository draw ended.0 ended.1 ≡ ended)
  unfolding remove_from_registry
  remove_from_registry-removes registered keyed =
      let left_hub = record hub { registry = SessionRegistry.remove pid hub.registry } in
      let left_keyed = remove-IsKeyed pid hub.registry keyed in
      let (events, e, announced, all, holding) = disconnected_announced contract pid s in
      let (more, delivered, news) =
        deliver_events-Adds (IsLeaveNews json pid (view s)) json events left_hub (
          Each-map (news-Allows json pid (view s) left_hub.registry left_keyed) events announced) in
      rw (registered, e, delivered)
        (refl, λ q. find-remove pid q hub.registry, holding, (more, refl, news), refl)

  served-state :
      (session' : Session) (o : Outcome Done) (world : S × Hub)
      → (continue o (λ done. pure session') world).1 ≡ world
  served-state session' (returned done) world = refl
  served-state session' (threw what) world = refl

  read_late :
      (message : String)
      → session.registered ≡ false
      → (on_read json repository draw ReadResult.closed session
          (on_read json repository draw (ReadResult.text_message message) session (s, hub)).1).1
        ≡ (handle_message json repository draw session.self message (s, hub)).1
  unfolding on_read remove_from_registry
  read_late message gone =
      let (o, world) = handle_message json repository draw session.self message (s, hub) in
      simp (gone) (served-state session o world)

  decoded_state :
      (message : String) (request : ControlDispatcherRequest json.Value)
      → decode_request json pid message ≡ gave request
      → (handle_message json repository draw session.self message (s, hub)).1
        ≡ (dispatch repository draw request (some (session_handler json session.self)) (s, hub)).1
  unfolding handle_message
  decoded_state message request decoded = rw decoded refl

  -- A message that is read after the session's end is still carried out: if it joins an open room,
  -- the participant is in that room, without a registered session, and the end of the reads does
  -- not take it out again.
  pub unregistered_joins :
      (message : String) (request : ControlDispatcherRequest json.Value) (command : JoinRoomCommand)
      (room : Room)
      → session.registered ≡ false
      → decode_request json pid message ≡ gave request
      → request.meta.type ≡ ControlMessageType.join_room
      → request.command ≡ CommandType.join_room command
      → view s command.room_code ≡ some room
      → room.room_secret ≡ none
      → holds pid (
          view
            (on_read json repository draw ReadResult.closed session
              (on_read json repository draw
                (ReadResult.text_message message)
                session
                (s, hub)).1).1.0
            command.room_code)
        ≡ true
  unfolding session_handler
  unregistered_joins message request command room gone decoded type is_join stored open_room =
      let own = decode_request-IsFrom json pid message request decoded in
      let r =
        dispatch-refines contract draw request (session_handler json session.self)
          (λ result h. refl) hub s in
      ap (λ world. holds pid (view world.0 command.room_code))
        (read_late message gone ∙ decoded_state message request decoded)
      ∙ ap (holds pid) (r.stores command.room_code)
      ∙ simp (type, is_join, sym (subst (IsFrom pid request.meta) is_join own).1)
          (join_enters json.Value request.meta draw command room (view s) stored open_room)
