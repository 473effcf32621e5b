-- ===== src/App/Json.antt =====
-- nlohmann::json, which the source calls and does not contain: a parameter of the codec. The laws
-- are what the library's documentation says of these calls.
pub mod Sample
use buzzweb_server.Common.{
  String, ◌≡◌, Bool, true, false, Option, none, some, List, [], ◌∷◌, ◌==◌, has_value, if◌then◌else◌,
}
use buzzweb_server.Common.UnorderedMap

pub record Json : Type 1 where
  pub Value : Type 0
  -- `none` is an exception
  pub parse : String → Option Value
  -- Where `parse` throws: whether that is `parse_error`, and not the `out_of_range` of a number.
  pub is_parse_error : String → Bool
  pub dump : Value → String
  pub is_object : Value → Bool
  pub is_string : Value → Bool
  pub is_null : Value → Bool
  pub contains : Value → String → Bool
  -- `none` is `out_of_range`
  pub at : Value → String → Option Value
  -- `get<std::string>()`; `none` is `type_error`
  pub get_string : Value → Option String
  pub string : String → Value
  pub boolean : Bool → Value
  -- an initializer list of pairs
  pub object : List (String × Value) → Value
  pub array : List Value → Value
  -- `v[key] = w`
  pub assign : Value → String → Value → Value

-- The documented behaviour that the theorems use.
pub record JsonLaws (json : Json) : Type 0 where
  pub parse-dump : (v : json.Value) → json.parse (json.dump v) ≡ some v
  pub contains_lem : (v : json.Value) (k : String) → json.contains v k ≡ has_value (json.at v k)
  pub is_string_lem : (v : json.Value) → json.is_string v ≡ has_value (json.get_string v)
  pub get_string-string : (s : String) → json.get_string (json.string s) ≡ some s
  pub is_object-object :
      (fields : List (String × json.Value)) → json.is_object (json.object fields) ≡ true
  pub at-object :
      (fields : List (String × json.Value)) (k : String)
      → json.at (json.object fields) k ≡ UnorderedMap.find k fields
  pub is_object-assign :
      (v : json.Value) (k : String) (w : json.Value)
      → json.is_object v ≡ true
      → json.is_object (json.assign v k w) ≡ true
  pub at-assign :
      (v : json.Value) (k : String) (w : json.Value) (j : String)
      → json.is_object v ≡ true
      → json.at (json.assign v k w) j ≡ (if k == j then some w else json.at v j)
