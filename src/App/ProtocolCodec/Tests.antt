-- ===== src/App/ProtocolCodec/Tests.antt =====
-- The codec at messages of the sample JSON library.
use buzzweb_server.Common.{String, ◌≡◌, refl, none, some, List, [], ◌∷◌}
use buzzweb_server.Common.UnorderedMap
use buzzweb_server.Common.Attempt.{gave, raised}
use buzzweb_server.App.Messages.{
  JoinedRoomEvent, LeftRoomEvent, ControlDispatcherEvent, ControlMessageType, SignalingType,
  CommandType, ControlDispatcherRequest, ControlDispatcherResponse, ErrorResponsePayload,
  RequestMeta, SignalingCommand,
}
use buzzweb_server.App.Json.Sample.{sample, sample-JsonLaws}
use buzzweb_server.App.ProtocolCodec.Decode
use buzzweb_server.App.ProtocolCodec.Decode.{DecodeException, ProtocolDecodeError, decode_request}
use buzzweb_server.App.ProtocolCodec.Encode.{encode_event}
use buzzweb_server.App.ProtocolCodec.Requests.{IsFrom, decode_request-IsFrom}
use buzzweb_server.App.ProtocolCodec.Failures.{Echoes, decode_request-Echoes}
use buzzweb_server.App.ProtocolCodec.Events.{IsParticipant, AreParticipants, encoded_event}
open sample use {Value, parse, dump, at, string, object, boolean, array}

abbrev pub message_with : String → List (String × String) → String
message_with type payload = dump (
    object (("type", string type) ∷ ("request_id", string "r1") ∷ ("payload", object payload) ∷ []))

-- The payload claims to come from another.
abbrev pub join_message : String
join_message = message_with "join_room" (
    ("room_code", string "000042")
    ∷ ("display_name", string "Carol")
    ∷ ("participant_id", string "p_a")
    ∷ [])

abbrev join_meta : RequestMeta
join_meta = record {
  type = ControlMessageType.join_room;
  request_id = some "r1";
  signaling_type = none;
}

abbrev pub join_request : ControlDispatcherRequest Value
join_request = record {
  meta = join_meta;
  command = CommandType.join_room (record {
    room_code = "000042";
    participant = record { id = "p_c"; name = "Carol" };
    password_hash = none;
  });
}

pub join_decoded : decode_request sample "p_c" join_message ≡ gave join_request
unfolding decode_request Decode.decode_value Decode.decode_typed Decode.read_command
    Decode.meta_of_type Decode.required_string Decode.optional_string UnorderedMap.find
join_decoded = refl

decode_request-IsFrom_example : IsFrom "p_c" join_request.meta join_request.command
decode_request-IsFrom_example =
    decode_request-IsFrom sample "p_c" join_message join_request join_decoded

abbrev bad_message : String
bad_message = message_with "join_room" (("room_code", string "000042") ∷ [])

abbrev missing_field : DecodeException
missing_field =
    DecodeException.protocol_error
      (record { meta = some join_meta; code = "missing_field"; request_id = some "r1" })

bad_refused : decode_request sample "p_c" bad_message ≡ raised missing_field
unfolding decode_request Decode.decode_value Decode.decode_typed Decode.read_command
    Decode.meta_of_type Decode.required_string Decode.protocol_decode_error UnorderedMap.find
bad_refused = refl

type_is_text : at bad_message "type" ≡ some (string "join_room")
unfolding UnorderedMap.find
type_is_text = refl

id_is_text : at bad_message "request_id" ≡ some (string "r1")
unfolding UnorderedMap.find
id_is_text = refl

decode_request-Echoes_example : Echoes sample sample-JsonLaws "r1" missing_field
decode_request-Echoes_example =
    decode_request-Echoes sample sample-JsonLaws "p_c" bad_message bad_message "join_room" "r1"
      missing_field refl refl (string "join_room", type_is_text, refl)
      (string "r1", id_is_text, refl) bad_refused

-- The sender writes another's id into the payload.
abbrev offer : SignalingCommand Value
offer = record {
  type = SignalingType.offer;
  room_code = "000042";
  from_participant_id = "p_a";
  target_participant_id = "p_b";
  payload = object (("from_participant_id", string "p_b") ∷ ("sdp", string "v=0") ∷ []);
}

abbrev refusal : ControlDispatcherResponse Value
refusal = ControlDispatcherResponse.error join_meta ErrorResponsePayload.wrong_password

encoded_event_example :
    ((event : JoinedRoomEvent)
      → (v payload participant : Value) × (values : List Value) × (parse
            (encode_event sample (ControlDispatcherEvent.joined_room event))
          ≡ some v)
        × (at v "type" ≡ some (string "participant_joined"))
        × (at v "payload" ≡ some payload)
        × (at payload "room_code" ≡ some (string event.room_code))
        × (at payload "participants" ≡ some (array values))
        × AreParticipants sample values event.event_receivers
        × (at payload "participant" ≡ some participant)
        × IsParticipant sample participant event.joined_participant)
    × ((event : LeftRoomEvent)
        → (v payload : Value) × (values : List Value) × (parse
              (encode_event sample (ControlDispatcherEvent.left_room event))
            ≡ some v)
          × (at v "type" ≡ some (string "participant_left"))
          × (at v "payload" ≡ some payload)
          × (at payload "room_code" ≡ some (string event.room_code))
          × (at payload "participants" ≡ some (array values))
          × AreParticipants sample values event.event_receivers
          × (at payload "participant_id" ≡ some (string event.left_participant_id)))
encoded_event_example = encoded_event sample sample-JsonLaws
