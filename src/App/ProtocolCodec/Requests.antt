-- ===== src/App/ProtocolCodec/Requests.antt =====
-- What a decoded request is, whatever the JSON library does.
use buzzweb_server.Common.{String, ◌≡◌, ◌⊎◌, refl, Option, some, arith, inl, inr, Option-cases}
use buzzweb_server.Common.Attempt.{Attempt, gave, raised}
use buzzweb_server.Domain.Participant.{ParticipantId}
use buzzweb_server.App.Json.{Json}
use buzzweb_server.App.Messages.{
  ControlMessageType, CommandType, RequestMeta, ControlDispatcherRequest,
}
use buzzweb_server.App.ProtocolCodec.Decode.{
  DecodeException, meta_of_type, read_command, decode_typed, decode_value, decode_request, with_id,
  string_at, request_id_of,
}

-- The command is of the request's type and is made in the name of the participant.
abbrev pub IsFrom : {J : Type 0} → ParticipantId → RequestMeta → CommandType J → Type 0
IsFrom p meta (CommandType.create_room command) =
    (meta.type ≡ ControlMessageType.create_room) × (command.participant.id ≡ p)
IsFrom p meta (CommandType.join_room command) =
    (meta.type ≡ ControlMessageType.join_room) × (command.participant.id ≡ p)
IsFrom p meta (CommandType.leave_room command) =
    (meta.type ≡ ControlMessageType.leave_room) × (command.participant_id ≡ p)
IsFrom p meta (CommandType.signaling command) =
    (meta.type ≡ ControlMessageType.signaling)
    × (command.from_participant_id ≡ p)
    × (meta.signaling_type ≡ some command.type)

pub Attempt-cases :
    {E A : Type 0} (m : Attempt E A) → ((a : A) × (m ≡ gave a)) ⊎ ((e : E) × (m ≡ raised e))
Attempt-cases (gave a) = inl (a, refl)
Attempt-cases (raised e) = inr (e, refl)

module _ (json : Json) where
  open json use {Value}

  read_command-IsFrom :
      (p : ParticipantId) (type : String) (plain meta : RequestMeta) (payload : Value)
      (command : CommandType Value)
      → meta_of_type type ≡ some plain
      → meta.type ≡ plain.type
      → meta.signaling_type ≡ plain.signaling_type
      → read_command json p type meta payload ≡ gave command
      → IsFrom p meta command
  unfolding meta_of_type read_command
  read_command-IsFrom p type plain meta payload command known same_type same_signaling e =
      ground arith

  with_id_type :
      (message : Value) (request_id : Option String) (plain : RequestMeta)
      → ((with_id json message request_id plain).type ≡ plain.type)
        × ((with_id json message request_id plain).signaling_type ≡ plain.signaling_type)
  with_id_type message request_id plain = ground arith

  decode_typed-IsFrom :
      (p : ParticipantId) (message : Value) (type : String) (request_id : Option String)
      (plain : RequestMeta) (request : ControlDispatcherRequest Value)
      → meta_of_type type ≡ some plain
      → decode_typed json p message type request_id plain ≡ gave request
      → IsFrom p request.meta request.command
  unfolding decode_typed
  decode_typed-IsFrom p message type request_id plain request known e =
      elim (Option-cases (json.at message "payload")) [
        | inl gone ↦ absurd (ground arith)
        | inr (payload, here) ↦
            elim (Attempt-cases
              (read_command json p type (with_id json message request_id plain) payload)) [
                | inl (command, read) ↦
                    let made : request ≡ record {
                      meta = with_id json message request_id plain;
                      command = command;
                    } =
                      ground arith in
                    let (same_type, same_signaling) = with_id_type message request_id plain in
                    rw made (
                      read_command-IsFrom p type plain (with_id json message request_id plain)
                        payload command known same_type same_signaling read)
                | inr (x, failed) ↦ absurd (ground arith)
              ]
      ]

  decode_value-IsFrom :
      (p : ParticipantId) (v : Value) (request : ControlDispatcherRequest Value)
      → decode_value json p v ≡ gave request
      → IsFrom p request.meta request.command
  unfolding decode_value
  decode_value-IsFrom p v request e =
      elim (Attempt-cases (string_at json (DecodeException.other "json") v "type")) [
        | inr (x, failed) ↦ absurd (ground arith)
        | inl (type, here) ↦ elim (Attempt-cases (request_id_of json v)) [
          | inr (x, failed) ↦ absurd (ground arith)
          | inl (request_id, read) ↦ elim (Option-cases (meta_of_type type)) [
            | inl unknown ↦ absurd (ground arith)
            | inr (plain, known) ↦
                decode_typed-IsFrom p v type request_id plain request known (ground arith)
          ]
        ]
      ]

  -- A decoded request carries the command of its own type, so that the dispatcher never meets a
  -- command of another; it acts for the participant of the session that sent it, whatever the
  -- message says; and a signaling request has the signaling type of its command.
  pub decode_request-IsFrom :
      (p : ParticipantId) (message : String) (request : ControlDispatcherRequest Value)
      → decode_request json p message ≡ gave request
      → IsFrom p request.meta request.command
  unfolding decode_request
  decode_request-IsFrom p message request e = elim (Option-cases (json.parse message)) [
    | inl gone ↦ absurd (ground arith)
    | inr (v, here) ↦ decode_value-IsFrom p v request (ground arith)
  ]
