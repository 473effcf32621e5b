-- ===== src/Net/Session.antt =====
-- `SessionBase` and `Session<WebSocketStream>`, Session.hpp and Session.cpp. A handler runs to its
-- end before the next on the same session. `Send` posts the message to the receiver's queue
-- (WriteQueue); here it is listed with its receiver, in the order of the posts. `nlohmann::json`
-- is a parameter, and `dump` gives a text for what the codec builds of parsed values.
pub mod Delivery
pub mod Removal
pub mod Members
pub mod Receivers
pub mod Replies
pub mod Answered
pub mod Entering
pub mod Posting
pub mod Spec
pub mod Exact
pub mod Refusals
pub mod Ids
pub mod News
pub mod Arrival
pub mod Tests
use buzzweb_server.Common.{
  ℕ, String, Bool, true, false, not, Option, none, some, List, [], ◌∷◌, ◌++◌, ◌==◌, ◌%◌, ◌^◌,
  Outcome, returned, threw, Exec, Done, pure, ◌>>=◌, if◌then◌else◌,
}
use buzzweb_server.Common.Attempt.{Attempt, gave, raised}
use buzzweb_server.Common.Streams.{digits, set_width, text}
use buzzweb_server.Domain.Participant.{Participant, ParticipantId}
use buzzweb_server.Domain.RoomRepository.{RoomRepository}
use buzzweb_server.App.Messages.{
  ControlDispatcherRequest, ControlDispatcherResponse, ControlDispatcherResult,
  ControlDispatcherEvent, SuccessResponsePayload, ErrorResponsePayload, SignalingCommand,
  RequestMeta,
}
use buzzweb_server.App.ControlDispatcher.{Handler, dispatch, handle_participant_disconnected}
use buzzweb_server.App.Json.{Json}
use buzzweb_server.App.ProtocolCodec.Decode.{DecodeException, decode_request}
use buzzweb_server.App.ProtocolCodec.Encode.{
  encode_response, encode_event, encode_signaling_event, encode_protocol_error,
}
use buzzweb_server.Net.SessionRegistry
use buzzweb_server.Net.SessionRegistry.{SessionPtr, Registry}

-- `draw` is the number that the generator gives.
unfoldable pub generate_participant_id : ℕ → ParticipantId
generate_participant_id draw =
    String.◌∷◌ "p" (String.◌∷◌ "_" (text (set_width 16 (digits 16 (draw % 2 ^ 64)))))

-- the registry, and the messages sent so far, the oldest first
pub record Hub : Type 0 where
  pub registry : Registry
  pub sent : List (SessionPtr × String)

pub record Session : Type 0 where
  pub self : SessionPtr
  pub registered : Bool
  pub closing : Bool

-- the members that the constructor of `SessionBase` sets
abbrev pub new_session : SessionPtr → Session
new_session self = record { self = self; registered = false; closing = false }

abbrev pub hand : SessionPtr → String → Hub → Hub
hand session message hub = record hub { sent = hub.sent ++ (session, message) ∷ [] }

abbrev pub hand_if : Option SessionPtr → String → Hub → Hub
hand_if none message hub = hub
hand_if (some session) message hub = hand session message hub

-- The loop over the receivers of one event, without those that `skip` says.
unfoldable pub deliver_to : (Participant → Bool) → String → List Participant → Hub → Hub
deliver_to skip encoded [] hub = hub
deliver_to skip encoded (participant ∷ receivers) hub = deliver_to skip encoded receivers (
    if skip participant
    then hub
    else hand_if (SessionRegistry.find participant.id hub.registry) encoded hub)

module _ (json : Json) where
  open json use {Value}

  unfoldable pub deliver_event : ControlDispatcherEvent → Hub → Hub
  unfolding deliver_to
  deliver_event (ControlDispatcherEvent.joined_room event) hub =
      deliver_to (λ participant. participant.id == event.joined_participant.id)
        (encode_event json (ControlDispatcherEvent.joined_room event)) event.event_receivers hub
  deliver_event (ControlDispatcherEvent.left_room event) hub =
      deliver_to (λ participant. false) (encode_event json (ControlDispatcherEvent.left_room event))
        event.event_receivers hub

  unfoldable pub deliver_events : List ControlDispatcherEvent → Hub → Hub
  unfolding deliver_event
  deliver_events [] hub = hub
  deliver_events (event ∷ events) hub = deliver_events events (deliver_event event hub)

  abbrev pub respond : SessionPtr → ControlDispatcherResult Value → Hub → Hub
  respond self result hub =
      deliver_events result.events (hand self (encode_response json result.response) hub)

  abbrev pub relay_to :
      SessionPtr
      → ControlDispatcherResult Value
      → RequestMeta
      → SignalingCommand Value
      → Option SessionPtr
      → Hub
      → Hub
  relay_to self result meta signaling none hub =
      hand self
        (encode_response json
          (ControlDispatcherResponse.error meta ErrorResponsePayload.participant_unavailable))
        hub
  relay_to self result meta signaling (some target) hub =
      respond self result (hand target (encode_signaling_event json signaling) hub)

  abbrev pub reply_to :
      SessionPtr → ControlDispatcherResult Value → ControlDispatcherResponse Value → Hub → Hub
  reply_to self result
        (ControlDispatcherResponse.success meta (SuccessResponsePayload.signaling signaling)) hub =
      relay_to self result meta signaling
        (SessionRegistry.find signaling.target_participant_id hub.registry) hub
  reply_to self result _ hub = respond self result hub

  -- the function that `HandleMessage` gives to `Dispatch`
  unfoldable pub session_handler : SessionPtr → Handler Value Hub
  session_handler self result hub = (returned tt, reply_to self result result.response hub)

  abbrev pub decode_failed : DecodeException → String
  decode_failed DecodeException.parse_error = encode_protocol_error json none "invalid_json" none
  decode_failed (DecodeException.protocol_error e) =
      encode_protocol_error json e.meta e.code e.request_id
  decode_failed (DecodeException.other what) =
      encode_protocol_error json none "invalid_message" none

  unfoldable pub invalid_message_error : String
  invalid_message_error = encode_protocol_error json none "invalid_message" none

  module _ {S : Type 0} (repository : RoomRepository S) (draw : ℕ → ℕ) where
    abbrev pub handle_decoded :
        SessionPtr → Attempt DecodeException (ControlDispatcherRequest Value) → Exec (S × Hub) Done
    handle_decoded self (raised e) (s, hub) = (returned tt, (s, hand self (decode_failed e) hub))
    handle_decoded self (gave request) (s, hub) =
        dispatch repository draw request (some (session_handler self)) (s, hub)

    unfoldable pub handle_message : SessionPtr → String → Exec (S × Hub) Done
    handle_message self message =
        handle_decoded self (decode_request json self.participant_id message)

    -- A failed clean-up is logged and passed over.
    abbrev pub announce_left : Outcome (List ControlDispatcherEvent) × S → Hub → S × Hub
    announce_left (returned events, s) hub = (s, deliver_events events hub)
    announce_left (threw what, s) hub = (s, hub)

    unfoldable pub remove_from_registry : Session → S × Hub → Session × (S × Hub)
    remove_from_registry session (s, hub) =
        if not session.registered then (session, (s, hub)) else (
          record session { registered = false },
          announce_left (handle_participant_disconnected repository session.self.participant_id s)
              (record hub {
                registry = SessionRegistry.remove session.self.participant_id hub.registry;
              }),
        )

    unfoldable pub fail : Session → S × Hub → Session × (S × Hub)
    unfolding remove_from_registry
    fail session world = remove_from_registry (record session { closing = true }) world

    -- the function that `Close` posts; what it does to the stream is not kept
    unfoldable pub close : Session → S × Hub → Session × (S × Hub)
    unfolding remove_from_registry
    close session world =
        if session.closing
        then (session, world)
        else remove_from_registry (record session { closing = true }) world

    unfoldable pub on_web_socket_accept : Bool → Session → S × Hub → Session × (S × Hub)
    unfolding fail
    on_web_socket_accept true session world = fail session world
    on_web_socket_accept false session (s, hub) = (
      record session { registered = true },
      (s, record hub { registry = SessionRegistry.add (some session.self) hub.registry }),
    )

    unfoldable pub on_tls_handshake : Bool → Session → S × Hub → Session × (S × Hub)
    unfolding fail
    on_tls_handshake true session world = fail session world
    on_tls_handshake false session world = (session, world)

-- How an `async_read` completes: `error::closed`, another error, a binary or a text message.
pub data ReadResult : Type 0 where
  closed failed binary : ReadResult
  text_message : String → ReadResult

-- What `OnRead` does; the exception of a handler leaves it, and would leave the event loop.
module _ (json : Json) {S : Type 0} (repository : RoomRepository S) (draw : ℕ → ℕ) where
  unfoldable pub on_read : ReadResult → Session → Exec (S × Hub) Session
  unfolding remove_from_registry fail handle_message invalid_message_error
  on_read ReadResult.closed session world =
      let (session', world') = remove_from_registry json repository draw session world in
      (returned session', world')
  on_read ReadResult.failed session world =
      let (session', world') = fail json repository draw session world in
      (returned session', world')
  on_read ReadResult.binary session (s, hub) =
      (returned session, (s, hand session.self (invalid_message_error json) hub))
  on_read (ReadResult.text_message message) session world =
      (handle_message json repository draw session.self message >>= (λ done. pure session)) world
