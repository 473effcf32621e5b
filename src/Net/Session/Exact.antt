-- ===== src/Net/Session/Exact.antt =====
-- Exactly what `HandleMessage` posts, to whom, and in which order.
use buzzweb_server.Common.{
  ℕ, String, ◌≡◌, refl, sym, ap, ◌∙◌, Bool, false, List, [], ◌∷◌, ◌++◌, ◌==◌, append-nil, inl, inr,
  Bool-cases, Option-cases, remove_if, returned, Exec, Done, pure, ◌>>=◌,
}
use buzzweb_server.Common.Attempt.{Attempt, gave, raised}
use mathlib.Core.List.{append_assoc}
use mathlib.Core.Path.{fun_ext}
use buzzweb_server.Domain.Participant.{Participant}
use buzzweb_server.Domain.Room.{RoomCode}
use buzzweb_server.Domain.RoomRepository.{RoomRepository, Contract}
use buzzweb_server.App.Messages.{
  ControlDispatcherEvent, ControlDispatcherRequest, ControlDispatcherResponse,
  ControlDispatcherResult, SuccessResponsePayload,
}
use buzzweb_server.App.ControlDispatcher.Spec.{Stored, answer}
use buzzweb_server.App.ControlDispatcher.Refinement.{dispatch-refines}
use buzzweb_server.App.Json.{Json}
use buzzweb_server.App.ProtocolCodec.Decode.{DecodeException, decode_request}
use buzzweb_server.App.ProtocolCodec.Encode.{encode_event, encode_response, encode_signaling_event}
use buzzweb_server.Net.SessionRegistry
use buzzweb_server.Net.SessionRegistry.{SessionPtr, Registry}
use buzzweb_server.Net.Session.{
  Hub, hand, deliver_to, deliver_event, deliver_events, respond, reply_to, session_handler,
  handle_decoded, handle_message,
}
use buzzweb_server.Net.Session.Spec.{
  Posts, Reading, sessions_of, to_all, audience, posts_of_events, posts_of_response, decoded_spec,
  all_spec,
}

-- the texts one after another
unfoldable pub handle_all :
    (json : Json) {S : Type 0} → RoomRepository S → List Reading → Exec (S × Hub) Done
handle_all json repository [] = pure tt
handle_all json repository ((self, (message, draw)) ∷ rest) =
    handle_message json repository draw self message >>= (λ done. handle_all json repository rest)

-- `hub` with these posts
abbrev pub posted : Posts → Hub → Hub
posted posts hub = record hub { sent = hub.sent ++ posts }

-- the loop with its test against the filtered list
deliver_to-posted :
    (skip : Participant → Bool) (message : String) (receivers : List Participant) (hub : Hub)
    → deliver_to skip message receivers hub
      ≡ posted (to_all message (sessions_of hub.registry (remove_if skip receivers))) hub
unfolding deliver_to sessions_of
deliver_to-posted skip message [] hub =
    ap (λ l. record hub { sent = l }) (sym (append-nil hub.sent))
deliver_to-posted skip message (x ∷ receivers) hub = elim (Bool-cases (skip x)) [
  | inl hit ↦ rw (hit, deliver_to) (deliver_to-posted skip message receivers hub)
  | inr miss ↦ elim (Option-cases (SessionRegistry.find x.id hub.registry)) [
    | inl gone ↦
        rw (miss, gone, deliver_to, sessions_of) (deliver_to-posted skip message receivers hub)
    | inr (session, found) ↦
        rw (miss, found, deliver_to, sessions_of)
          (deliver_to-posted skip message receivers (hand session message hub)
            ∙ ap (λ l. record hub { sent = l })
                (append_assoc hub.sent ((session, message) ∷ [])
                  (to_all message (sessions_of hub.registry (remove_if skip receivers)))))
  ]
]

remove_if-never : {A : Type 0} (xs : List A) → remove_if (λ x. false) xs ≡ xs
remove_if-never [] = refl
remove_if-never (x ∷ xs) = ap (λ l. x ∷ l) (remove_if-never xs)

posted-posted :
    (first second : Posts) (hub : Hub)
    → posted second (posted first hub) ≡ posted (first ++ second) hub
posted-posted first second hub =
    ap (λ l. record hub { sent = l }) (append_assoc hub.sent first second)

module _ (json : Json) where
  open json use {Value}

  deliver_event-posted :
      (event : ControlDispatcherEvent) (hub : Hub)
      → deliver_event json event hub
        ≡ posted (to_all (encode_event json event) (sessions_of hub.registry (audience event))) hub
  unfolding deliver_event
  deliver_event-posted (ControlDispatcherEvent.joined_room event) hub =
      deliver_to-posted (λ participant. participant.id == event.joined_participant.id)
        (encode_event json (ControlDispatcherEvent.joined_room event)) event.event_receivers hub
  deliver_event-posted (ControlDispatcherEvent.left_room event) hub =
      let message = encode_event json (ControlDispatcherEvent.left_room event) in
      deliver_to-posted (λ participant. false) message event.event_receivers hub
      ∙ ap (λ receivers. posted (to_all message (sessions_of hub.registry receivers)) hub)
          (remove_if-never event.event_receivers)

  deliver_events-posted :
      (events : List ControlDispatcherEvent) (hub : Hub)
      → deliver_events json events hub ≡ posted (posts_of_events json hub.registry events) hub
  unfolding deliver_events posts_of_events
  deliver_events-posted [] hub = ap (λ l. record hub { sent = l }) (sym (append-nil hub.sent))
  deliver_events-posted (event ∷ events) hub =
      let first = to_all (encode_event json event) (sessions_of hub.registry (audience event)) in
      ap (deliver_events json events) (deliver_event-posted event hub)
      ∙ deliver_events-posted events (posted first hub)
      ∙ posted-posted first (posts_of_events json hub.registry events) hub

  respond-posted :
      (self : SessionPtr) (result : ControlDispatcherResult Value) (hub : Hub)
      → respond json self result hub
        ≡ posted
            ((self, encode_response json result.response)
              ∷ posts_of_events json hub.registry result.events)
            hub
  respond-posted self result hub =
      let reply = (self, encode_response json result.response) ∷ [] in
      deliver_events-posted result.events (posted reply hub)
      ∙ posted-posted reply (posts_of_events json hub.registry result.events) hub

  reply_to-posted :
      (self : SessionPtr) (response : ControlDispatcherResponse Value)
      (events : List ControlDispatcherEvent) (hub : Hub)
      → reply_to json self (record { response = response; events = events }) response hub
        ≡ posted (posts_of_response json self hub.registry response events) hub
  reply_to-posted self
        (ControlDispatcherResponse.success meta (SuccessResponsePayload.signaling signaling)) events
        hub =
      elim (Option-cases (SessionRegistry.find signaling.target_participant_id hub.registry)) [
        | inl gone ↦ rw gone refl
        | inr (target, found) ↦
            let message = (target, encode_signaling_event json signaling) ∷ [] in
            let response =
              ControlDispatcherResponse.success meta (SuccessResponsePayload.signaling signaling) in
            rw found (
              respond-posted self (record { response = response; events = events })
                (posted message hub)
              ∙ posted-posted message
                  ((self, encode_response json response) ∷ posts_of_events json hub.registry events)
                  hub)
      ]
  reply_to-posted self
        (ControlDispatcherResponse.success meta (SuccessResponsePayload.create_room payload)) events
        hub =
      respond-posted self _ hub
  reply_to-posted self
        (ControlDispatcherResponse.success meta (SuccessResponsePayload.join_room payload)) events
        hub =
      respond-posted self _ hub
  reply_to-posted self
        (ControlDispatcherResponse.success meta (SuccessResponsePayload.leave_room code)) events
        hub =
      respond-posted self _ hub
  reply_to-posted self (ControlDispatcherResponse.error meta payload) events hub =
      respond-posted self _ hub

  module _ {S : Type 0} {repository : RoomRepository S} {view : S → Stored}
      (contract : Contract repository view) where
    decoded-posted :
        (self : SessionPtr) (draw : ℕ → ℕ)
        (decoded : Attempt DecodeException (ControlDispatcherRequest Value)) (s : S) (hub : Hub)
        → let o = handle_decoded json repository draw self decoded (s, hub) in
          let (posts, stored) = decoded_spec json self draw hub.registry (view s) decoded in
          (o.0 ≡ returned tt)
          × (o.1.1 ≡ posted posts hub)
          × ((code : RoomCode) → view o.1.0 code ≡ stored code)
    unfolding session_handler
    decoded-posted self draw (raised e) s hub = (refl, refl, λ code. refl)
    decoded-posted self draw (gave request) s hub =
        let refines =
          dispatch-refines contract draw request (session_handler json self) (λ result h. refl) hub
            s in
        let result = (answer request.meta draw request.meta.type request.command (view s)).0 in
        (
          refines.returns,
          refines.called ∙ reply_to-posted self result.response result.events hub,
          refines.stores,
        )

    -- Over any repository that keeps its contract, any texts that any sessions read, one after
    -- another, are handled without an exception. They leave the registry as it is and the rooms as
    -- specified, and post exactly the specified messages in the specified order: for a refused text
    -- its protocol error; for a signaling message that may be relayed the message to its target and
    -- then the response to the sender, or the one error if the target is not connected; and for any
    -- other request the response to the sender, and then each event to each of its receivers who is
    -- connected, without the one who has joined.
    pub handle_all-refines :
        (readings : List Reading) (s : S) (hub : Hub)
        → let o = handle_all json repository readings (s, hub) in
          let (posts, stored) = all_spec json hub.registry readings (view s) in
          (o.0 ≡ returned tt)
          × (o.1.1 ≡ posted posts hub)
          × ((code : RoomCode) → view o.1.0 code ≡ stored code)
    unfolding handle_all all_spec handle_message
    handle_all-refines [] s hub =
        (refl, ap (λ l. record hub { sent = l }) (sym (append-nil hub.sent)), λ code. refl)
    handle_all-refines ((self, (message, draw)) ∷ rest) s hub =
        let decoded = decode_request json self.participant_id message in
        let (outcome, (s', hub')) = handle_decoded json repository draw self decoded (s, hub) in
        let (posts, stored) = decoded_spec json self draw hub.registry (view s) decoded in
        let (quiet, sent, kept) = decoded-posted self draw decoded s hub in
        let (quiet', sent', kept') = handle_all-refines rest s' hub' in
        let same = fun_ext kept in
        (
          rw quiet quiet',
          rw quiet (
              sent'
              ∙ ap (λ (h : Hub). posted (all_spec json h.registry rest (view s')).0 h) sent
              ∙ ap (λ st. posted (all_spec json hub.registry rest st).0 (posted posts hub)) same
              ∙ posted-posted posts (all_spec json hub.registry rest stored).0 hub),
          λ code. rw quiet (
              kept' code
              ∙ ap (λ (h : Hub). (all_spec json h.registry rest (view s')).1 code) sent
              ∙ ap (λ st. (all_spec json hub.registry rest st).1 code) same),
        )
