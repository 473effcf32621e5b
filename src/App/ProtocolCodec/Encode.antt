-- ===== src/App/ProtocolCodec/Encode.antt =====
-- The encoders of ProtocolCodec.cpp.
use Prim.Native.String
use buzzweb_server.Common.{
  String, Bool, true, false, Option, none, some, List, [], ◌∷◌, map, ◌==◌, if◌then◌else◌,
}
use buzzweb_server.Domain.Participant.{Participant}
use buzzweb_server.App.Json.{Json}
use buzzweb_server.App.Messages.{
  ControlMessageType, SignalingType, SignalingCommand, RequestMeta, SuccessResponsePayload,
  RoomResponse, ErrorResponsePayload, ControlDispatcherResponse, ControlDispatcherEvent,
}

-- The `throw` behind the `switch` is for a value that no enumerator has.
unfoldable pub signaling_type_to_string : SignalingType → String
signaling_type_to_string SignalingType.offer = "offer"
signaling_type_to_string SignalingType.answer = "answer"
signaling_type_to_string SignalingType.ice_candidate = "ice_candidate"

abbrev signaling_result : Option SignalingType → String
signaling_result (some type) = String.◌++◌ (signaling_type_to_string type) "_result"
signaling_result none = "error"

unfoldable pub result_type : RequestMeta → String
unfolding signaling_type_to_string
result_type meta = elim meta.type [
  | ControlMessageType.create_room ↦ "create_room_result"
  | ControlMessageType.join_room ↦ "join_room_result"
  | ControlMessageType.leave_room ↦ "leave_room_result"
  | ControlMessageType.signaling ↦ signaling_result meta.signaling_type
]

unfoldable pub error_message : String → String
error_message code =
    if code == "invalid_json"
    then "Message must be valid JSON."
    else if code == "invalid_message"
    then "Message type or payload is invalid."
    else if code == "missing_field"
    then "Required field is missing."
    else if code == "invalid_field"
    then "Field has an invalid value."
    else if code == "room_not_found"
    then "Room was not found."
    else if code == "wrong_password"
    then "Room password is incorrect."
    else if code == "already_joined"
    then "Participant is already in the room."
    else if code == "not_in_room"
    then "Participant is not in the room."
    else if code == "participant_unavailable"
    then "Participant is not connected."
    else if code == "password_not_provided"
    then "Room password is required."
    else if code == "room_code_generation_failed"
    then "Room code could not be generated."
    else if code == "room_already_exists"
    then "Room already exists."
    else "Internal server error."

unfoldable pub error_code : ErrorResponsePayload → String
error_code ErrorResponsePayload.room_already_exists = "room_already_exists"
error_code ErrorResponsePayload.room_code_generation_failed = "room_code_generation_failed"
error_code ErrorResponsePayload.not_in_room = "not_in_room"
error_code ErrorResponsePayload.already_in_room = "already_joined"
error_code ErrorResponsePayload.wrong_password = "wrong_password"
error_code ErrorResponsePayload.password_not_provided = "password_not_provided"
error_code ErrorResponsePayload.room_not_found = "room_not_found"
error_code ErrorResponsePayload.participant_unavailable = "participant_unavailable"
error_code _ = "internal_error"

module _ (json : Json) where
  open json use {Value, dump, string, boolean, object, array, assign}

  unfoldable pub participant_to_json : Participant → Value
  participant_to_json participant =
      object
        (("participant_id", string participant.id) ∷ ("display_name", string participant.name) ∷ [])

  unfoldable pub participants_to_json : List Participant → Value
  unfolding participant_to_json
  participants_to_json participants = array (map participant_to_json participants)

  -- `if (id) v["request_id"] = *id;`
  abbrev pub with_request_id : Option String → Value → Value
  with_request_id none v = v
  with_request_id (some id) v = assign v "request_id" (string id)

  -- `{{"code", code}, {"message", ErrorMessage(code)}}`
  abbrev pub error_to_json : String → Value
  error_to_json code =
      object (("code", string code) ∷ ("message", string (error_message code)) ∷ [])

  abbrev pub room_to_json : RoomResponse → Value
  room_to_json payload = object (
      ("room_code", string payload.room_code)
      ∷ ("participant", participant_to_json payload.participant)
      ∷ ("participants", participants_to_json payload.participants)
      ∷ [])

  abbrev pub payload_to_json : SuccessResponsePayload Value → Value
  payload_to_json (SuccessResponsePayload.create_room payload) = room_to_json payload
  payload_to_json (SuccessResponsePayload.join_room payload) = room_to_json payload
  payload_to_json (SuccessResponsePayload.leave_room room_code) =
      object (("room_code", string room_code) ∷ [])
  payload_to_json (SuccessResponsePayload.signaling command) =
      object (("room_code", string command.room_code) ∷ [])

  abbrev pub head_to_json : RequestMeta → Bool → Value
  head_to_json meta ok =
      with_request_id meta.request_id
        (object (("type", string (result_type meta)) ∷ ("ok", boolean ok) ∷ []))

  unfoldable pub response_to_json : ControlDispatcherResponse Value → Value
  response_to_json (ControlDispatcherResponse.error meta payload) =
      assign (head_to_json meta false) "error" (error_to_json (error_code payload))
  response_to_json (ControlDispatcherResponse.success meta payload) =
      assign (head_to_json meta true) "payload" (payload_to_json payload)

  unfoldable pub encode_response : ControlDispatcherResponse Value → String
  encode_response response = dump (response_to_json response)

  abbrev pub event_payload : String → List Participant → Value
  event_payload room_code receivers =
      object
        (("room_code", string room_code) ∷ ("participants", participants_to_json receivers) ∷ [])

  unfoldable pub event_to_json : ControlDispatcherEvent → Value
  event_to_json (ControlDispatcherEvent.joined_room event) = object (
      ("type", string "participant_joined")
      ∷ (
        "payload",
        assign (event_payload event.room_code event.event_receivers) "participant"
            (participant_to_json event.joined_participant),
      )
      ∷ [])
  event_to_json (ControlDispatcherEvent.left_room event) = object (
      ("type", string "participant_left")
      ∷ (
        "payload",
        assign (event_payload event.room_code event.event_receivers) "participant_id"
            (string event.left_participant_id),
      )
      ∷ [])

  unfoldable pub encode_event : ControlDispatcherEvent → String
  encode_event event = dump (event_to_json event)

  -- The three members are written over what the sender put there.
  unfoldable pub signaling_payload : SignalingCommand Value → Value
  signaling_payload response =
      let p₁ = assign response.payload "room_code" (string response.room_code) in
      let p₂ = assign p₁ "target_participant_id" (string response.target_participant_id) in
      assign p₂ "from_participant_id" (string response.from_participant_id)

  unfoldable pub encode_signaling_event : SignalingCommand Value → String
  unfolding signaling_payload
  encode_signaling_event response = dump (
      object (
        ("type", string (signaling_type_to_string response.type))
        ∷ ("payload", signaling_payload response)
        ∷ []))

  abbrev type_of : Option RequestMeta → String
  type_of none = "error"
  type_of (some meta) = result_type meta

  abbrev id_or : Option RequestMeta → Option String → Option String
  id_or none request_id = request_id
  id_or (some meta) request_id = elim meta.request_id [ none ↦ request_id | some id ↦ some id ]

  unfoldable pub protocol_error_to_json : Option RequestMeta → String → Option String → Value
  protocol_error_to_json meta code request_id = with_request_id (id_or meta request_id) (
      object (
        ("type", string (type_of meta))
        ∷ ("ok", boolean false)
        ∷ ("error", error_to_json code)
        ∷ []))

  unfoldable pub encode_protocol_error : Option RequestMeta → String → Option String → String
  encode_protocol_error meta code request_id = dump (protocol_error_to_json meta code request_id)
