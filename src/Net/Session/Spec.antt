-- ===== src/Net/Session/Spec.antt =====
-- What is to be posted for a text, to whom, and in which order: the specification of
-- `HandleMessage` and `DeliverEvents`, Session.cpp.
use buzzweb_server.Common.{ℕ, String, Option, none, some, List, [], ◌∷◌, ◌++◌, map, remove_if}
use buzzweb_server.Common.Attempt.{Attempt, gave, raised}
use buzzweb_server.Domain.Participant.{Participant}
use buzzweb_server.Domain.Room.{has_id}
use buzzweb_server.App.Messages.{
  ControlDispatcherEvent, ControlDispatcherRequest, ControlDispatcherResponse, ErrorResponsePayload,
  SuccessResponsePayload, SignalingCommand, RequestMeta,
}
use buzzweb_server.App.ControlDispatcher.Spec.{Stored, answer}
use buzzweb_server.App.Json.{Json}
use buzzweb_server.App.ProtocolCodec.Decode.{DecodeException, decode_request}
use buzzweb_server.App.ProtocolCodec.Encode.{encode_event, encode_response, encode_signaling_event}
use buzzweb_server.Net.SessionRegistry
use buzzweb_server.Net.SessionRegistry.{SessionPtr, Registry}
use buzzweb_server.Net.Session.{decode_failed}

abbrev pub Posts : Type 0
Posts = List (SessionPtr × String)

-- a text, the session that reads it, and what the generator would draw
abbrev pub Reading : Type 0
Reading = SessionPtr × (String × (ℕ → ℕ))

-- the sessions of those who are connected, in their order
unfoldable pub sessions_of : Registry → List Participant → List SessionPtr
sessions_of registry [] = []
sessions_of registry (x ∷ participants) =
    let rest = sessions_of registry participants in
    elim (SessionRegistry.find x.id registry) [ none ↦ rest | some session ↦ session ∷ rest ]

abbrev pub to_all : String → List SessionPtr → Posts
to_all message sessions = map (λ session. (session, message)) sessions

-- Those whom an event is meant for: one who joins is not told of it.
abbrev pub audience : ControlDispatcherEvent → List Participant
audience (ControlDispatcherEvent.joined_room event) =
    remove_if (has_id event.joined_participant.id) event.event_receivers
audience (ControlDispatcherEvent.left_room event) = event.event_receivers

module _ (json : Json) where
  open json use {Value}

  unfoldable pub posts_of_events : Registry → List ControlDispatcherEvent → Posts
  unfolding sessions_of
  posts_of_events registry [] = []
  posts_of_events registry (event ∷ events) =
      to_all (encode_event json event) (sessions_of registry (audience event))
      ++ posts_of_events registry events

  -- A relayed message goes out before its reply; where the target is gone, there is the error alone.
  abbrev pub posts_of_relay :
      SessionPtr
      → Registry
      → RequestMeta
      → SignalingCommand Value
      → List ControlDispatcherEvent
      → Option SessionPtr
      → Posts
  posts_of_relay self registry meta signaling events none =
      (
        self,
        encode_response json
            (ControlDispatcherResponse.error meta ErrorResponsePayload.participant_unavailable),
      )
      ∷ []
  posts_of_relay self registry meta signaling events (some target) =
      (target, encode_signaling_event json signaling)
      ∷ (
        self,
        encode_response json
            (ControlDispatcherResponse.success meta (SuccessResponsePayload.signaling signaling)),
      )
      ∷ posts_of_events registry events

  -- The response goes to the sender, and then the events to the others.
  abbrev pub posts_of_response :
      SessionPtr → Registry → ControlDispatcherResponse Value → List ControlDispatcherEvent → Posts
  posts_of_response self registry
        (ControlDispatcherResponse.success meta (SuccessResponsePayload.signaling signaling))
        events =
      posts_of_relay self registry meta signaling events
        (SessionRegistry.find signaling.target_participant_id registry)
  posts_of_response self registry response events =
      (self, encode_response json response) ∷ posts_of_events registry events

  -- What is posted for a message, and the rooms afterwards.
  abbrev pub decoded_spec :
      SessionPtr
      → (ℕ → ℕ)
      → Registry
      → Stored
      → Attempt DecodeException (ControlDispatcherRequest Value)
      → Posts × Stored
  decoded_spec self draw registry stored (raised e) = ((self, decode_failed json e) ∷ [], stored)
  decoded_spec self draw registry stored (gave request) =
      let (result, stored') = answer request.meta draw request.meta.type request.command stored in
      (posts_of_response self registry result.response result.events, stored')

  abbrev pub message_spec : SessionPtr → String → (ℕ → ℕ) → Registry → Stored → Posts × Stored
  message_spec self message draw registry stored =
      decoded_spec self draw registry stored (decode_request json self.participant_id message)

  -- what the texts are answered one after another
  unfoldable pub all_spec : Registry → List Reading → Stored → Posts × Stored
  all_spec registry [] stored = ([], stored)
  all_spec registry ((self, (message, draw)) ∷ rest) stored =
      let (posts, stored') = message_spec self message draw registry stored in
      let (more, last) = all_spec registry rest stored' in (posts ++ more, last)
