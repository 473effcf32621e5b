-- ===== src/App/ProtocolCodec/Messages.antt =====
-- What a client reads in the messages that the server encodes, with a JSON library that keeps its
-- laws.
use buzzweb_server.Common.{
  String, ◌≡◌, Bool, true, false, Option, none, some, List, [], ◌∷◌, ◌==◌, arith, if◌then◌else◌,
  has_value, ◌&&◌,
}
use mathlib.Core.Option
use buzzweb_server.Common.UnorderedMap.{find}
use buzzweb_server.App.Json.{Json, JsonLaws}
use buzzweb_server.App.Messages.{RequestMeta, ControlDispatcherResponse}
use buzzweb_server.App.ProtocolCodec.Encode.{
  result_type, error_code, payload_to_json, error_to_json, with_request_id,
}

abbrev is_success : {J : Type 0} → ControlDispatcherResponse J → Bool
is_success (ControlDispatcherResponse.success meta payload) = true
is_success (ControlDispatcherResponse.error meta payload) = false

-- What stands in the body of a response: the data, or the code with its explanation.
module _ (json : Json) (laws : JsonLaws json) where
  open json use {Value, parse, at, string, boolean, object}

  abbrev plain_head : RequestMeta → Bool → List (String × Value)
  plain_head meta ok = ("type", string (result_type meta)) ∷ ("ok", boolean ok) ∷ []

  pub at-with_request_id :
      (id : Option String) (fields : List (String × Value)) (field : String)
      → at (with_request_id json id (object fields)) field ≡ (
          if has_value id && "request_id" == field then Option.map string id else find field fields)
  at-with_request_id none fields field = laws.at-object fields field
  at-with_request_id (some id) fields field = ground (
    arith,
    laws.at-object fields field,
    laws.at-assign (object fields) "request_id" (string id) field (laws.is_object-object fields),
  )

  -- What a client reads of the answer to a request.
  abbrev body_of : ControlDispatcherResponse Value → String × Value
  body_of (ControlDispatcherResponse.success meta payload) =
      ("payload", payload_to_json json payload)
  body_of (ControlDispatcherResponse.error meta payload) =
      ("error", error_to_json json (error_code payload))
