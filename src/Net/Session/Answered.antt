-- ===== src/Net/Session/Answered.antt =====
-- `HandleMessage`: the answer to the sender of a message.
use buzzweb_server.Common.{
  ℕ, String, ◌≡◌, ◌⊎◌, inl, inr, refl, sym, subst, ap, Option, none, some, List, [], ◌∷◌, ◌++◌,
  Each, append-nil, returned,
}
use buzzweb_server.Common.Attempt.{gave, raised}
use buzzweb_server.Domain.RoomRepository.{RoomRepository}
use buzzweb_server.App.Messages.{
  ControlDispatcherEvent, ControlDispatcherRequest, ControlDispatcherResult,
  ControlDispatcherResponse, ErrorResponsePayload, SuccessResponsePayload, SignalingCommand,
  RequestMeta, meta_of,
}
use buzzweb_server.App.ControlDispatcher.{dispatch}
use buzzweb_server.App.ControlDispatcher.Answers.{dispatch_once}
use buzzweb_server.App.Json.{Json}
use buzzweb_server.App.ProtocolCodec.Decode.{DecodeException, decode_request}
use buzzweb_server.App.ProtocolCodec.Encode.{encode_response, encode_signaling_event}
use buzzweb_server.App.ProtocolCodec.Requests.{Attempt-cases}
use buzzweb_server.Net.SessionRegistry
use buzzweb_server.Net.SessionRegistry.{SessionPtr}
use buzzweb_server.Net.Session.{
  Hub, hand, respond, relay_to, session_handler, decode_failed, handle_message,
}
use buzzweb_server.Net.Session.Delivery.{AllowsEvent, Each-of_ids, deliver_events-Adds}

module _ (json : Json) (self : SessionPtr) where
  any_event :
      (hub : Hub) (event : ControlDispatcherEvent)
      → AllowsEvent (λ delivery. Unit {0}) json hub.registry event
  any_event hub (ControlDispatcherEvent.joined_room event) =
      Each-of_ids event.event_receivers (λ q among told session found. tt)
  any_event hub (ControlDispatcherEvent.left_room event) =
      Each-of_ids event.event_receivers (λ q among told session found. tt)

  any_events :
      (hub : Hub) (events : List ControlDispatcherEvent)
      → Each (AllowsEvent (λ delivery. Unit {0}) json hub.registry) events
  any_events hub [] = tt
  any_events hub (event ∷ events) = (any_event hub event, any_events hub events)

  -- `relays`, the reply, and `more` are what was sent, in this order.
  abbrev pub IsReplied : RequestMeta → Hub → Hub → Type 0
  IsReplied meta before after =
      (relays : List (SessionPtr × String)) × (response : ControlDispatcherResponse json.Value)
      × (more : List (SessionPtr × String)) × (after.sent
          ≡ before.sent ++ relays ++ (self, encode_response json response) ∷ [] ++ more)
      × (meta_of response ≡ meta)

  respond-IsReplied :
      (result : ControlDispatcherResult json.Value) (hub : Hub)
      (relays : List (SessionPtr × String))
      → IsReplied
          (meta_of result.response)
          hub
          (respond json self result (record hub { sent = hub.sent ++ relays }))
  respond-IsReplied result hub relays =
      let told =
        hand self (encode_response json result.response)
          (record hub { sent = hub.sent ++ relays }) in
      let (more, e, unit) =
        deliver_events-Adds (λ delivery. Unit {0}) json result.events told
          (any_events told result.events) in
      (relays, result.response, more, ap (λ (h : Hub). h.sent) e, refl)

  plainly-IsReplied :
      (result : ControlDispatcherResult json.Value) (hub : Hub)
      → IsReplied (meta_of result.response) hub (respond json self result hub)
  plainly-IsReplied result hub =
      subst
        (λ (sent : List (SessionPtr × String)).
          IsReplied (meta_of result.response) hub
            (respond json self result (record hub { sent = sent })))
        (append-nil hub.sent) (respond-IsReplied result hub [])

  relay_to-IsReplied :
      (meta : RequestMeta) (signaling : SignalingCommand json.Value)
      (events : List ControlDispatcherEvent) (target : Option SessionPtr) (hub : Hub)
      → IsReplied meta hub (
          relay_to json self
            (record {
              response =
                  ControlDispatcherResponse.success meta
                    (SuccessResponsePayload.signaling signaling);
              events = events;
            })
            meta
            signaling
            target
            hub)
  relay_to-IsReplied meta signaling events none hub = (
    [],
    ControlDispatcherResponse.error meta ErrorResponsePayload.participant_unavailable,
    [],
    rw (append-nil hub.sent) (sym (append-nil _)),
    refl,
  )
  relay_to-IsReplied meta signaling events (some target) hub =
      respond-IsReplied _ hub ((target, encode_signaling_event json signaling) ∷ [])

  session_handler-IsReplied :
      (response : ControlDispatcherResponse json.Value) (events : List ControlDispatcherEvent)
      (hub : Hub)
      → IsReplied
          (meta_of response)
          hub
          (session_handler json self (record { response = response; events = events }) hub).1
  unfolding session_handler
  session_handler-IsReplied
        (ControlDispatcherResponse.success meta (SuccessResponsePayload.signaling signaling)) events
        hub =
      relay_to-IsReplied meta signaling events
        (SessionRegistry.find signaling.target_participant_id hub.registry) hub
  session_handler-IsReplied _ events hub = plainly-IsReplied _ hub

module _ (json : Json) {S : Type 0} (repository : RoomRepository S) (draw : ℕ → ℕ)
    (self : SessionPtr) (message : String) (s : S) (hub : Hub) where
  -- Every message of a client is answered, even where the storage throws: one that is not decoded
  -- with the protocol error for it and nothing more; one that is decoded, with a response of the
  -- request's own type and id, behind the messages that are relayed and before the news to others.
  -- The exception of no storage leaves the handler.
  pub handle_message-answered :
      ((handle_message json repository draw self message (s, hub)).0 ≡ returned tt)
      × (((e : DecodeException) × (decode_request json self.participant_id message ≡ raised e)
            × ((handle_message json repository draw self message (s, hub)).1
                ≡ (s, record hub { sent = hub.sent ++ (self, decode_failed json e) ∷ [] })))
          ⊎ ((request : ControlDispatcherRequest json.Value) × (decode_request json
                  self.participant_id message
                ≡ gave request)
              × IsReplied json self request.meta hub
                  (handle_message json repository draw self message (s, hub)).1.1))
  unfolding handle_message session_handler
  handle_message-answered = elim (Attempt-cases (decode_request json self.participant_id message)) [
    | inl (request, decoded) ↦ rw decoded (
        let (result, returns, called, meta) =
          dispatch_once repository draw request (session_handler json self) (λ result h. refl) s
            hub in
        (
          returns,
          inr (
            request,
            refl,
            subst
                (λ m.
                  IsReplied json self m hub
                    (dispatch repository draw request (some (session_handler json self))
                      (s, hub)).1.1)
                meta
                (subst (λ hub'. IsReplied json self (meta_of result.response) hub hub') (sym called)
                  (session_handler-IsReplied json self result.response result.events hub)),
          ),
        ))
    | inr (e, failed) ↦ rw failed (refl, inl (e, refl, refl))
  ]
