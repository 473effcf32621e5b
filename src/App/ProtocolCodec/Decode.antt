-- ===== src/App/ProtocolCodec/Decode.antt =====
-- `DecodeRequest` of ProtocolCodec.cpp, and the exceptions that it throws.
use buzzweb_server.Common.{
  String, Bool, false, not, ◌||◌, ◌&&◌, Option, none, some, ◌==◌, if◌then◌else◌,
}
use buzzweb_server.Common.Attempt.{Attempt, gave, ◌>>=◌, ◌>>◌, throw_if, or_raise, rethrow}
use buzzweb_server.Domain.Participant.{ParticipantId}
use buzzweb_server.App.Json.{Json}
use buzzweb_server.App.Messages.{
  ControlMessageType, SignalingType, CommandType, RequestMeta, ControlDispatcherRequest,
}

-- `ProtocolDecodeError`: `code` is its `what()`.
pub record ProtocolDecodeError : Type 0 where
  pub meta : Option RequestMeta
  pub code : String
  pub request_id : Option String

abbrev id_of : Option RequestMeta → Option String
id_of none = none
id_of (some meta) = meta.request_id

abbrev first_of_two : Option String → Option String → Option String
first_of_two (some a) b = some a
first_of_two none b = b

-- the constructor
unfoldable pub protocol_decode_error :
    Option RequestMeta → String → Option String → ProtocolDecodeError
protocol_decode_error meta code request_id = record {
  meta = meta;
  code = code;
  request_id = first_of_two (id_of meta) request_id;
}

-- `other` is an exception of the JSON library that is no parse error.
pub data DecodeException : Type 0 where
  parse_error : DecodeException
  protocol_error : ProtocolDecodeError → DecodeException
  other : String → DecodeException

-- What the reading of the fields throws: `std::invalid_argument`, or an exception of the library.
pub data FieldException : Type 0 where
  invalid_argument : String → FieldException
  library_error : String → FieldException

abbrev plain_meta : ControlMessageType → Option SignalingType → RequestMeta
plain_meta type signaling_type = record {
  type = type;
  request_id = none;
  signaling_type = signaling_type;
}

-- the chain of tests on `type`
unfoldable pub meta_of_type : String → Option RequestMeta
meta_of_type type =
    if type == "create_room"
    then some (plain_meta ControlMessageType.create_room none)
    else if type == "join_room"
    then some (plain_meta ControlMessageType.join_room none)
    else if type == "leave_room"
    then some (plain_meta ControlMessageType.leave_room none)
    else if type == "offer"
    then some (plain_meta ControlMessageType.signaling (some SignalingType.offer))
    else if type == "answer"
    then some (plain_meta ControlMessageType.signaling (some SignalingType.answer))
    else if type == "ice_candidate"
    then some (plain_meta ControlMessageType.signaling (some SignalingType.ice_candidate))
    else none

module _ (json : Json) where
  open json use {
    Value, parse, is_parse_error, is_object, is_string, is_null, contains, at, get_string,
  }

  abbrev pub test_at : (Value → Bool) → Value → String → Bool
  test_at test v field = elim (at v field) [ none ↦ false | some w ↦ test w ]

  -- `v.contains(field) && v.at(field).is_string()`
  abbrev pub has_string : Value → String → Bool
  has_string v field = contains v field && test_at is_string v field

  abbrev pub has_object : Value → String → Bool
  has_object v field = contains v field && test_at is_object v field

  abbrev pub has_null : Value → String → Bool
  has_null v field = contains v field && test_at is_null v field

  -- `v.at(field)` and `v.at(field).get<std::string>()`
  abbrev pub string_at : {E : Type 0} → E → Value → String → Attempt E String
  string_at e v field = do w ← or_raise e (at v field); or_raise e (get_string w)

  unfoldable pub required_string : Value → String → Attempt FieldException String
  required_string payload field = do
    throw_if (not (contains payload field)) (FieldException.invalid_argument "missing_field")
    throw_if (not (test_at is_string payload field))
        (FieldException.invalid_argument "invalid_field")
    string_at (FieldException.library_error "json") payload field

  abbrev present_string : Value → String → Attempt FieldException (Option String)
  present_string payload field = do
    throw_if (not (test_at is_string payload field))
        (FieldException.invalid_argument "invalid_field")
    s ← string_at (FieldException.library_error "json") payload field
    gave (some s)

  unfoldable pub optional_string : Value → String → Attempt FieldException (Option String)
  optional_string payload field =
      if not (contains payload field) || test_at is_null payload field
      then gave none
      else present_string payload field

  abbrev pub create_room_command :
      ParticipantId → Value → Attempt FieldException (CommandType Value)
  create_room_command participant_id payload = do
    name ← required_string payload "display_name"
    password ← optional_string payload "password"
    gave (
        CommandType.create_room (record {
          participant = record { id = participant_id; name = name };
          password_hash = password;
        }))

  abbrev pub join_room_command : ParticipantId → Value → Attempt FieldException (CommandType Value)
  join_room_command participant_id payload = do
    room_code ← required_string payload "room_code"
    name ← required_string payload "display_name"
    password ← optional_string payload "password"
    gave (
        CommandType.join_room (record {
          room_code = room_code;
          participant = record { id = participant_id; name = name };
          password_hash = password;
        }))

  abbrev pub leave_room_command : ParticipantId → Value → Attempt FieldException (CommandType Value)
  leave_room_command participant_id payload = do
    room_code ← required_string payload "room_code"
    gave
        (CommandType.leave_room (record { room_code = room_code; participant_id = participant_id }))

  -- `*meta->signaling_type` is given for the three signaling messages only.
  abbrev pub signaling_command :
      ParticipantId → Option SignalingType → Value → Attempt FieldException (CommandType Value)
  signaling_command participant_id signaling_type payload = do
    type ← or_raise (FieldException.library_error "bad_optional_access") signaling_type
    room_code ← required_string payload "room_code"
    target ← required_string payload "target_participant_id"
    gave (
        CommandType.signaling (record {
          type = type;
          room_code = room_code;
          from_participant_id = participant_id;
          target_participant_id = target;
          payload = payload;
        }))

  -- The `try` block: the three `if`s on `type` and what follows them.
  unfoldable pub read_command :
      ParticipantId → String → RequestMeta → Value → Attempt FieldException (CommandType Value)
  read_command participant_id type meta payload =
      if type == "create_room"
      then create_room_command participant_id payload
      else if type == "join_room"
      then join_room_command participant_id payload
      else if type == "leave_room"
      then leave_room_command participant_id payload
      else signaling_command participant_id meta.signaling_type payload

  -- The handler of `std::invalid_argument`; what it does not catch goes on.
  abbrev pub field_failure : RequestMeta → FieldException → DecodeException
  field_failure meta (FieldException.invalid_argument what) =
      DecodeException.protocol_error (protocol_decode_error (some meta) what none)
  field_failure meta (FieldException.library_error what) = DecodeException.other what

  abbrev pub invalid_message : Option RequestMeta → Option String → DecodeException
  invalid_message meta request_id =
      DecodeException.protocol_error (protocol_decode_error meta "invalid_message" request_id)

  abbrev pub request_id_of : Value → Attempt DecodeException (Option String)
  request_id_of message =
      let read = do s ← string_at (DecodeException.other "json") message "request_id"; gave (some s)
      in if has_string message "request_id" then read else gave none

  abbrev pub with_id : Value → Option String → RequestMeta → RequestMeta
  with_id message request_id meta =
      if has_string message "request_id" then record meta { request_id = request_id } else meta

  -- From the known type on.
  unfoldable pub decode_typed :
      ParticipantId
      → Value
      → String
      → Option String
      → RequestMeta
      → Attempt DecodeException (ControlDispatcherRequest Value)
  unfolding protocol_decode_error
  decode_typed participant_id message type request_id plain = do
    throw_if
        (contains message "request_id"
          && not (test_at is_null message "request_id")
          && not (test_at is_string message "request_id"))
        (invalid_message (some plain) none)
    let meta = with_id message request_id plain
    throw_if (not (has_object message "payload")) (invalid_message (some meta) none)
    payload ← or_raise (DecodeException.other "json") (at message "payload")
    command ← rethrow (field_failure meta) (read_command participant_id type meta payload)
    gave (record { meta = meta; command = command })

  unfoldable pub decode_value :
      ParticipantId → Value → Attempt DecodeException (ControlDispatcherRequest Value)
  unfolding protocol_decode_error
  decode_value participant_id message = do
    throw_if
        (not (is_object message)
          || not (contains message "type")
          || not (test_at is_string message "type"))
        (invalid_message none none)
    type ← string_at (DecodeException.other "json") message "type"
    request_id ← request_id_of message
    plain ← or_raise (invalid_message none request_id) (meta_of_type type)
    decode_typed participant_id message type request_id plain

  abbrev pub parse_failure : String → DecodeException
  parse_failure message =
      if is_parse_error message
      then DecodeException.parse_error
      else DecodeException.other "out_of_range"

  unfoldable pub decode_request :
      ParticipantId → String → Attempt DecodeException (ControlDispatcherRequest Value)
  decode_request participant_id message = do
    v ← or_raise (parse_failure message) (parse message)
    decode_value participant_id v
