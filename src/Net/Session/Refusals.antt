-- ===== src/Net/Session/Refusals.antt =====
-- What a client reads when the codec refuses his text: the `catch` blocks of `HandleMessage`.
use buzzweb_server.Common.{String, ◌≡◌, refl, false, Option, none, some, [], ◌∷◌, arith}
use mathlib.Core.Option
use buzzweb_server.Common.UnorderedMap.{find}
use buzzweb_server.App.Messages.{RequestMeta}
use buzzweb_server.App.Json.{Json, JsonLaws}
use buzzweb_server.App.ProtocolCodec.Decode.{DecodeException}
use buzzweb_server.App.ProtocolCodec.Encode.{
  result_type, error_message, error_to_json, protocol_error_to_json, encode_protocol_error,
}
use buzzweb_server.App.ProtocolCodec.Messages.{at-with_request_id}
use buzzweb_server.Net.Session.{decode_failed}

-- The code for the refusal, the request that the refused text is, and its id, as far as the codec
-- knows them.
abbrev pub refused_code : DecodeException → String
refused_code DecodeException.parse_error = "invalid_json"
refused_code (DecodeException.protocol_error e) = e.code
refused_code (DecodeException.other what) = "invalid_message"

abbrev pub refused_meta : DecodeException → Option RequestMeta
refused_meta DecodeException.parse_error = none
refused_meta (DecodeException.protocol_error e) = e.meta
refused_meta (DecodeException.other what) = none

abbrev pub either_id : Option String → Option String → Option String
either_id none other = other
either_id (some id) other = some id

abbrev pub refused_id : DecodeException → Option String
refused_id DecodeException.parse_error = none
refused_id (DecodeException.protocol_error e) = elim e.meta [
  | none ↦ e.request_id
  | some meta ↦ either_id meta.request_id e.request_id
]
refused_id (DecodeException.other what) = none

abbrev pub refused_type : Option RequestMeta → String
refused_type none = "error"
refused_type (some meta) = result_type meta

module _ (json : Json) (laws : JsonLaws json) where
  open json use {Value, parse, at, string, boolean, object}

  abbrev IsRefusal : Option RequestMeta → String → Option String → String → Type 0
  IsRefusal meta code id text =
      (v error : Value) × (parse text ≡ some v)
      × (at v "type" ≡ some (string (refused_type meta)))
      × (at v "ok" ≡ some (boolean false))
      × (at v "request_id" ≡ Option.map string id)
      × (at v "error" ≡ some error)
      × (at error "code" ≡ some (string code))
      × (at error "message" ≡ some (string (error_message code)))

  encoded-IsRefusal :
      (meta : Option RequestMeta) (code : String) (id request_id : Option String)
      → elim meta [ none ↦ request_id | some m ↦ either_id m.request_id request_id ] ≡ id
      → IsRefusal meta code id (encode_protocol_error json meta code request_id)
  unfolding encode_protocol_error protocol_error_to_json find
  encoded-IsRefusal none code id request_id same =
      let fields =
        ("type", string "error")
        ∷ ("ok", boolean false)
        ∷ ("error", error_to_json json code)
        ∷ [] in
      let told = at-with_request_id json laws request_id fields in
      (
        _,
        error_to_json json code,
        laws.parse-dump _,
        ground (arith, told "type"),
        ground (arith, told "ok"),
        ground (arith, told "request_id", same),
        ground (arith, told "error"),
        laws.at-object _ "code",
        laws.at-object _ "message",
      )
  encoded-IsRefusal (some m) code id request_id same =
      let fields =
        ("type", string (result_type m))
        ∷ ("ok", boolean false)
        ∷ ("error", error_to_json json code)
        ∷ [] in
      let told = at-with_request_id json laws (either_id m.request_id request_id) fields in
      (
        _,
        error_to_json json code,
        laws.parse-dump _,
        ground (arith, told "type"),
        ground (arith, told "ok"),
        ground (arith, told "request_id", same),
        ground (arith, told "error"),
        laws.at-object _ "code",
        laws.at-object _ "message",
      )

  -- The text that answers a refused text is an object whose `ok` is false, whose `type` is that of
  -- the request if the codec knew the request and `error` if not, whose `request_id` is the
  -- request's as far as the codec had read it and is missing otherwise, and whose `error` has the
  -- code of the refusal and its explanation: `invalid_json` for a text that is not JSON, the code of
  -- the codec for a request that it refuses, and `invalid_message` for any other exception.
  pub refused_text :
      (e : DecodeException)
      → (v error : Value) × (parse (decode_failed json e) ≡ some v)
        × (at v "type" ≡ some (string (refused_type (refused_meta e))))
        × (at v "ok" ≡ some (boolean false))
        × (at v "request_id" ≡ Option.map string (refused_id e))
        × (at v "error" ≡ some error)
        × (at error "code" ≡ some (string (refused_code e)))
        × (at error "message" ≡ some (string (error_message (refused_code e))))
  refused_text DecodeException.parse_error = encoded-IsRefusal none "invalid_json" none none refl
  refused_text (DecodeException.protocol_error e) =
      encoded-IsRefusal e.meta e.code (refused_id (DecodeException.protocol_error e)) e.request_id
        refl
  refused_text (DecodeException.other what) =
      encoded-IsRefusal none "invalid_message" none none refl
