-- ===== src/Net/Session/Posting.antt =====
-- What the handlers of a session post, and to whom, whatever the storage does: the receivers are the
-- session itself and sessions of the registry.
use buzzweb_server.Common.{
  ℕ, String, ◌≡◌, inl, inr, refl, sym, subst, false, Option, none, some, List, [], ◌∷◌, ◌++◌, arith,
  Each, append-nil, Bool-cases, Outcome, returned, threw,
}
use buzzweb_server.Domain.Participant.{ParticipantId}
use buzzweb_server.Domain.RoomRepository.{RoomRepository}
use buzzweb_server.App.Messages.{
  ControlDispatcherEvent, ControlDispatcherResult, ControlDispatcherResponse,
  SuccessResponsePayload, SignalingCommand, RequestMeta,
}
use buzzweb_server.App.ControlDispatcher.{handle_participant_disconnected}
use buzzweb_server.App.ControlDispatcher.Answers.{dispatch_once}
use buzzweb_server.App.Json.{Json}
use buzzweb_server.App.ProtocolCodec.Decode.{decode_request}
use buzzweb_server.App.ProtocolCodec.Encode.{encode_response, encode_signaling_event}
use buzzweb_server.App.ProtocolCodec.Requests.{Attempt-cases}
use buzzweb_server.Net.SessionRegistry
use buzzweb_server.Net.SessionRegistry.{SessionPtr, Registry, find-add, find-remove}
use buzzweb_server.Net.Session.{
  Hub, Session, hand, respond, relay_to, reply_to, session_handler, handle_message,
  remove_from_registry, announce_left,
}
use buzzweb_server.Net.Session.Delivery.{
  Adds, Adds-one, Adds-trans, AllowsEvent, Each-of_ids, deliver_events-Adds,
}

-- `K` holds of every session of the registry.
abbrev pub AllKnown : (SessionPtr → Type 0) → Registry → Type 0
AllKnown K registry =
    (p : ParticipantId) (session : SessionPtr)
    → SessionRegistry.find p registry ≡ some session
    → K session

-- `K` holds of the sessions of the registry still, and of the receivers of what was posted.
abbrev pub Extends : (SessionPtr → Type 0) → Hub → Hub → Type 0
Extends K before after =
    AllKnown K after.registry
    × ((more : List (SessionPtr × String)) × (after.sent ≡ before.sent ++ more)
        × Each (λ delivery. K delivery.0) more)

module _ (K : SessionPtr → Type 0) where
  abbrev IsToKnown : SessionPtr × String → Type 0
  IsToKnown delivery = K delivery.0

  Adds-Extends :
      (before after : Hub)
      → AllKnown K before.registry
      → Adds IsToKnown before after
      → Extends K before after
  Adds-Extends before after known (more, e, q) = rw e (known, (more, refl, q))

  pub Extends-none : (hub : Hub) → AllKnown K hub.registry → Extends K hub hub
  Extends-none hub known = (known, ([], sym (append-nil hub.sent), tt))

  module _ (json : Json) where
    known_event :
        (registry : Registry)
        → AllKnown K registry
        → (event : ControlDispatcherEvent) → AllowsEvent IsToKnown json registry event
    known_event registry known (ControlDispatcherEvent.joined_room event) =
        Each-of_ids event.event_receivers (λ q among told session found. known q.id session found)
    known_event registry known (ControlDispatcherEvent.left_room event) =
        Each-of_ids event.event_receivers (λ q among told session found. known q.id session found)

    known_events :
        (registry : Registry)
        → AllKnown K registry
        → (events : List ControlDispatcherEvent) → Each (AllowsEvent IsToKnown json registry) events
    known_events registry known [] = tt
    known_events registry known (event ∷ events) =
        (known_event registry known event, known_events registry known events)

    module _ (self : SessionPtr) (own : K self) where
      respond-Adds :
          (result : ControlDispatcherResult json.Value) (hub : Hub)
          → AllKnown K hub.registry
          → Adds IsToKnown hub (respond json self result hub)
      respond-Adds result hub known =
          let next = hand self (encode_response json result.response) hub in
          Adds-trans IsToKnown hub next (respond json self result hub)
            (Adds-one IsToKnown hub self _ own)
            (deliver_events-Adds IsToKnown json result.events next
              (known_events hub.registry known result.events))

      relay_to-Adds :
          (result : ControlDispatcherResult json.Value) (meta : RequestMeta)
          (signaling : SignalingCommand json.Value) (target : Option SessionPtr) (hub : Hub)
          → AllKnown K hub.registry
          → ((session : SessionPtr) → target ≡ some session → K session)
          → Adds IsToKnown hub (relay_to json self result meta signaling target hub)
      relay_to-Adds result meta signaling none hub known found = Adds-one IsToKnown hub self _ own
      relay_to-Adds result meta signaling (some target) hub known found =
          let message = encode_signaling_event json signaling in
          let next = hand target message hub in
          Adds-trans IsToKnown hub next (respond json self result next)
            (Adds-one IsToKnown hub target message (found target refl))
            (respond-Adds result next known)

      reply_to-Adds :
          (result : ControlDispatcherResult json.Value)
          (response : ControlDispatcherResponse json.Value) (hub : Hub)
          → AllKnown K hub.registry
          → Adds IsToKnown hub (reply_to json self result response hub)
      reply_to-Adds result
            (ControlDispatcherResponse.success meta (SuccessResponsePayload.signaling signaling))
            hub known =
          relay_to-Adds result meta signaling
            (SessionRegistry.find signaling.target_participant_id hub.registry) hub known
            (λ session found. known signaling.target_participant_id session found)
      reply_to-Adds result _ hub known = respond-Adds result hub known

  module _ (json : Json) {S : Type 0} (repository : RoomRepository S) (draw : ℕ → ℕ) where
    pub handle_message-Extends :
        (self : SessionPtr) (message : String) (s : S) (hub : Hub)
        → K self
        → AllKnown K hub.registry
        → ((handle_message json repository draw self message (s, hub)).0 ≡ returned tt)
          × Extends K hub (handle_message json repository draw self message (s, hub)).1.1
    unfolding handle_message session_handler
    handle_message-Extends self message s hub own known =
        elim (Attempt-cases (decode_request json self.participant_id message)) [
          | inl (request, decoded) ↦ rw decoded (
              let (result, returns, called, meta) =
                dispatch_once repository draw request (session_handler json self) (λ result h. refl)
                  s hub in
              (
                returns,
                subst (λ hub'. Extends K hub hub') (sym called)
                    (Adds-Extends hub _ known
                      (reply_to-Adds json self own result result.response hub known)),
              ))
          | inr (e, failed) ↦
              rw failed (refl, Adds-Extends hub _ known (Adds-one IsToKnown hub self _ own))
        ]

    announce_left-Extends :
        (o : Outcome (List ControlDispatcherEvent) × S) (hub : Hub)
        → AllKnown K hub.registry
        → Extends K hub (announce_left json repository draw o hub).1
    announce_left-Extends (returned events, s) hub known = Adds-Extends hub _ known (
        deliver_events-Adds IsToKnown json events hub (known_events json hub.registry known events))
    announce_left-Extends (threw what, s) hub known = Extends-none hub known

    -- The flag is off afterwards, and nothing else of the session changes.
    pub remove_from_registry-Extends :
        (session : Session) (s : S) (hub : Hub)
        → AllKnown K hub.registry
        → ((remove_from_registry json repository draw session (s, hub)).0
            ≡ record session { registered = false })
          × Extends K hub (remove_from_registry json repository draw session (s, hub)).1.1
    unfolding remove_from_registry
    remove_from_registry-Extends session s hub known = elim (Bool-cases session.registered) [
      | inl on ↦ simp (on) (
        refl,
        announce_left-Extends
            (handle_participant_disconnected repository session.self.participant_id s)
            (record hub {
              registry = SessionRegistry.remove session.self.participant_id hub.registry;
            })
            (λ p other found.
              known p other
                (ground (arith, found, find-remove session.self.participant_id p hub.registry))),
      )
      | inr off ↦ simp (off) (ground (arith, off), Extends-none hub known)
    ]
