-- ===== src/App/ProtocolCodec/Failures.antt =====
-- What a refused message is answered, with a JSON library that keeps its laws.
use buzzweb_server.Common.{
  String, ◌≡◌, ◌⊎◌, refl, true, none, some, arith, Bool-cases, inl, inr, Option-cases,
}
use buzzweb_server.Common.Attempt.{Attempt, gave, raised, ◌>>=◌}
use buzzweb_server.Domain.Participant.{ParticipantId}
use buzzweb_server.App.Json.{Json, JsonLaws}
use buzzweb_server.App.Messages.{SignalingType, RequestMeta}
use buzzweb_server.App.ProtocolCodec.Requests.{Attempt-cases}
use buzzweb_server.App.ProtocolCodec.Decode.{
  DecodeException, FieldException, meta_of_type, required_string, optional_string, read_command,
  decode_typed, decode_value, decode_request, has_string, has_object, test_at, string_at,
  create_room_command, join_room_command, leave_room_command, signaling_command,
}

-- A field is missing, or is of the wrong type; nothing else goes wrong in a payload.
abbrev pub IsFieldFailure : FieldException → Type 0
IsFieldFailure x =
    (x ≡ FieldException.invalid_argument "missing_field")
    ⊎ (x ≡ FieldException.invalid_argument "invalid_field")

record FailsByField {A : Type 0} (m : Attempt FieldException A) : Type 0 where
  of : (x : FieldException) → m ≡ raised x → IsFieldFailure x

module _ {A B : Type 0} where
  fails_bind :
      (m : Attempt FieldException A) (f : A → Attempt FieldException B)
      → FailsByField m
      → ((a : A) → FailsByField (f a))
      → FailsByField (m >>= f)
  fails_bind (gave a) f hm hf = hf a
  fails_bind (raised e) f hm hf = record { of = λ x e'. hm.of x (ground arith) }

module _ {A : Type 0} where
  fails_gave : (a : A) → FailsByField (gave a)
  fails_gave a = record { of = λ x e. cc }

module _ (json : Json) (laws : JsonLaws json) where
  open json use {Value}

  fails_required :
      (payload : Value) (field : String) → FailsByField (required_string json payload field)
  unfolding required_string
  fails_required payload field = elim (Option-cases (json.at payload field)) [
    | inl gone ↦ record { of = λ x e. ground (arith, laws.contains_lem payload field) }
    | inr (w, here) ↦ record {
      of = λ x e. ground (arith, laws.contains_lem payload field, laws.is_string_lem w);
    }
  ]

  fails_optional :
      (payload : Value) (field : String) → FailsByField (optional_string json payload field)
  unfolding optional_string
  fails_optional payload field = elim (Option-cases (json.at payload field)) [
    | inl gone ↦ record { of = λ x e. ground (arith, laws.contains_lem payload field) }
    | inr (w, here) ↦ record {
      of = λ x e. ground (arith, laws.contains_lem payload field, laws.is_string_lem w);
    }
  ]

  ruleset field_rules = (fails_bind, fails_gave, fails_required, fails_optional)

  fails_create :
      (p : ParticipantId) (payload : Value) → FailsByField (create_room_command json p payload)
  fails_create p payload = search field_rules

  fails_join :
      (p : ParticipantId) (payload : Value) → FailsByField (join_room_command json p payload)
  fails_join p payload = search field_rules

  fails_leave :
      (p : ParticipantId) (payload : Value) → FailsByField (leave_room_command json p payload)
  fails_leave p payload = search field_rules

  fails_signaling :
      (p : ParticipantId) (type : SignalingType) (payload : Value)
      → FailsByField (signaling_command json p (some type) payload)
  fails_signaling p type payload = search field_rules

  fails_read :
      (p : ParticipantId) (type : String) (plain meta : RequestMeta) (payload : Value)
      → meta_of_type type ≡ some plain
      → meta.signaling_type ≡ plain.signaling_type
      → FailsByField (read_command json p type meta payload)
  unfolding meta_of_type read_command
  fails_read p type plain meta payload known same = ground (
    arith,
    same,
    fails_create p payload,
    fails_join p payload,
    fails_leave p payload,
    fails_signaling p SignalingType.offer payload,
    fails_signaling p SignalingType.answer payload,
    fails_signaling p SignalingType.ice_candidate payload,
  )

  -- The codes that a refused message is answered with.
  abbrev pub IsProtocolCode : String → Type 0
  IsProtocolCode code =
      (code ≡ "invalid_message") ⊎ (code ≡ "missing_field") ⊎ (code ≡ "invalid_field")

  -- A refusal that names the request, with one of the codes.
  abbrev pub Echoes : String → DecodeException → Type 0
  Echoes r DecodeException.parse_error = ⊥
  Echoes r (DecodeException.other what) = ⊥
  Echoes r (DecodeException.protocol_error error) =
      (error.request_id ≡ some r) × IsProtocolCode error.code

  -- The member of an object is a text.
  abbrev pub HasText : Value → String → String → Type 0
  HasText v field s = (w : Value) × (json.at v field ≡ some w) × (json.get_string w ≡ some s)

  abbrev refusal_with : String → RequestMeta → String → DecodeException
  refusal_with r plain code = DecodeException.protocol_error (record {
    meta = some (record plain { request_id = some r });
    code = code;
    request_id = some r;
  })

  payload-Echoes :
      (p : ParticipantId) (v payload : Value) (type r : String) (plain : RequestMeta)
      (x : DecodeException) (y : FieldException)
      → has_string json v "request_id" ≡ true
      → json.at v "payload" ≡ some payload
      → has_object json v "payload" ≡ true
      → read_command json p type (record plain { request_id = some r }) payload ≡ raised y
      → IsFieldFailure y
      → decode_typed json p v type (some r) plain ≡ raised x
      → Echoes r x
  unfolding decode_typed
  payload-Echoes p v payload type r plain x y id here object failed (inl missing) e =
      let x_is : x ≡ refusal_with r plain "missing_field" = ground arith in
      rw x_is (refl, inr (inl refl))
  payload-Echoes p v payload type r plain x y id here object failed (inr invalid) e =
      let x_is : x ≡ refusal_with r plain "invalid_field" = ground arith in
      rw x_is (refl, inr (inr refl))

  decode_typed-Echoes :
      (p : ParticipantId) (v : Value) (type r : String) (plain : RequestMeta) (x : DecodeException)
      → has_string json v "request_id" ≡ true
      → meta_of_type type ≡ some plain
      → decode_typed json p v type (some r) plain ≡ raised x
      → Echoes r x
  unfolding decode_typed
  decode_typed-Echoes p v type r plain x id known e =
      elim (Bool-cases (has_object json v "payload")) [
        | inr bad ↦
            let x_is : x ≡ refusal_with r plain "invalid_message" = ground arith in
            rw x_is (refl, inl refl)
        | inl object ↦ elim (Option-cases (json.at v "payload")) [
          | inl gone ↦ absurd (ground arith)
          | inr (payload, here) ↦
              elim (Attempt-cases
                (read_command json p type (record plain { request_id = some r }) payload)) [
                  | inl (command, read) ↦ absurd (ground arith)
                  | inr (y, failed) ↦
                      payload-Echoes p v payload type r plain x y id here object failed
                        ((fails_read p type plain (record plain { request_id = some r }) payload
                            known refl).of
                          y failed)
                        e
                ]
        ]
      ]

  has_text_lem :
      (v : Value) (field s : String)
      → HasText v field s
      → (json.contains v field ≡ true)
        × (test_at json json.is_string v field ≡ true)
        × (string_at json (DecodeException.other "json") v field ≡ gave s)
  has_text_lem v field s (w, here, is) =
      ground (arith, laws.contains_lem v field, laws.is_string_lem w)

  decode_value-Echoes :
      (p : ParticipantId) (v : Value) (type r : String) (x : DecodeException)
      → json.is_object v ≡ true
      → HasText v "type" type
      → HasText v "request_id" r
      → decode_value json p v ≡ raised x
      → Echoes r x
  unfolding decode_value
  decode_value-Echoes p v type r x object is_type is_id e =
      let (t₁, t₂, t₃) = has_text_lem v "type" type is_type in
      let (r₁, r₂, r₃) = has_text_lem v "request_id" r is_id in
      elim (Option-cases (meta_of_type type)) [
        | inl unknown ↦
            let x_is : x
                ≡ DecodeException.protocol_error
                    (record { meta = none; code = "invalid_message"; request_id = some r }) =
              ground arith in
            rw x_is (refl, inl refl)
        | inr (plain, known) ↦
            decode_typed-Echoes p v type r plain x (ground arith) known (ground arith)
      ]

  -- Whatever is wrong with a message that is a JSON object with a text `type` and a text
  -- `request_id`, its refusal is a protocol error that carries that `request_id` and one of the
  -- codes `invalid_message`, `missing_field` and `invalid_field`.
  pub decode_request-Echoes :
      (p : ParticipantId) (message : String) (v : Value) (type r : String) (x : DecodeException)
      → json.parse message ≡ some v
      → json.is_object v ≡ true
      → HasText v "type" type
      → HasText v "request_id" r
      → decode_request json p message ≡ raised x
      → Echoes r x
  unfolding decode_request
  decode_request-Echoes p message v type r x parsed object is_type is_id e =
      decode_value-Echoes p v type r x object is_type is_id (ground arith)
