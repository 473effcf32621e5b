-- ===== src/App/Json/Sample.antt =====
-- A JSON library for the tests, which keeps all the laws. A value is its own text: a letter for
-- the kind, then the words that it is made of. In a word, each character stands behind a mark.
use Prim.Native.Char.{Char, code}
use buzzweb_server.Common.{
  String, ◌≡◌, refl, ap, ◌∙◌, Bool, true, false, Option, none, some, List, [], ◌∷◌, has_value, ltb,
  leb, ◌&&◌, ℕ, if◌then◌else◌,
}
use buzzweb_server.Common.UnorderedMap
use buzzweb_server.Common.UnorderedMap.{UnorderedMap, find-assign}
use buzzweb_server.App.Json.{Json, JsonLaws}

-- the text of a word, in front of `rest`
abbrev pub word : String → String → String
word String.[] rest = String.◌∷◌ "." (String.◌∷◌ "." rest)
word (String.◌∷◌ c s) rest = String.◌∷◌ "'" (String.◌∷◌ c (word s rest))

abbrev pub add_char : Char → List String → List String
add_char c [] = []
add_char c (s ∷ words) = String.◌∷◌ c s ∷ words

abbrev pub words : String → List String
words String.[] = []
words (String.◌∷◌ mark String.[]) = []
words (String.◌∷◌ mark (String.◌∷◌ c s)) =
    let rest = words s in if ltb (code mark) 46 then add_char c rest else "" ∷ rest

words-word : (s rest : String) → words (word s rest) ≡ s ∷ words rest
words-word String.[] rest = refl
words-word (String.◌∷◌ c s) rest = ap (add_char c) (words-word s rest)

abbrev pub text_of : List (String × String) → String
text_of [] = ""
text_of ((k, v) ∷ fields) = word k (word v (text_of fields))

abbrev pub pairs : List String → List (String × String)
pairs [] = []
pairs (k ∷ []) = []
pairs (k ∷ v ∷ rest) = (k, v) ∷ pairs rest

pairs-words : (fields : List (String × String)) → pairs (words (text_of fields)) ≡ fields
pairs-words [] = refl
pairs-words ((k, v) ∷ fields) =
    ap pairs
      (words-word k (word v (text_of fields)) ∙ ap (λ l. k ∷ l) (words-word v (text_of fields)))
    ∙ ap (λ l. (k, v) ∷ l) (pairs-words fields)

abbrev pub items_text : List String → String
items_text [] = ""
items_text (v ∷ items) = word v (items_text items)

abbrev pub is_kind : ℕ → String → Bool
is_kind kind String.[] = false
is_kind kind (String.◌∷◌ c s) = leb kind (code c) && leb (code c) kind

abbrev pub body : String → String
body String.[] = ""
body (String.◌∷◌ c s) = s

abbrev pub object_text : List (String × String) → String
object_text fields = String.◌∷◌ "o" (text_of fields)

abbrev pub field : String → String → Option String
field v k = if is_kind 111 v then UnorderedMap.find k (pairs (words (body v))) else none

abbrev pub sample : Json
sample = record {
  Value = String;
  parse = λ s. some s;
  is_parse_error = λ s. true;
  dump = λ v. v;
  is_object = is_kind 111;
  is_string = is_kind 115;
  is_null = is_kind 110;
  contains = λ v k. has_value (field v k);
  at = field;
  get_string = λ v. if is_kind 115 v then some (body v) else none;
  string = λ s. String.◌∷◌ "s" s;
  boolean = λ b. if b then "true" else "false";
  object = object_text;
  array = λ items. String.◌∷◌ "a" (items_text items);
  assign = λ v k w. object_text (UnorderedMap.assign k w (pairs (words (body v))));
}

pub sample-JsonLaws : JsonLaws sample
sample-JsonLaws = record {
  parse-dump = λ v. refl;
  contains_lem = λ v k. refl;
  is_string_lem = λ v. kind_lem (is_kind 115 v) (body v);
  get_string-string = λ s. refl;
  is_object-object = λ fields. refl;
  at-object = λ fields k. ap (UnorderedMap.find k) (pairs-words fields);
  is_object-assign = λ v k w is. refl;
  at-assign = λ v k w j is.
      ap (UnorderedMap.find j) (pairs-words (UnorderedMap.assign k w (pairs (words (body v)))))
      ∙ find-assign k j w (pairs (words (body v)))
      ∙ rw is refl;
}
  where
    kind_lem : (b : Bool) (s : String) → b ≡ has_value (if b then some s else none)
    kind_lem true s = refl
    kind_lem false s = refl
