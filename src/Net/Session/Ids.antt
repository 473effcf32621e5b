-- ===== src/Net/Session/Ids.antt =====
-- `GenerateParticipantId`, Session.cpp: the ids of the sessions.
use buzzweb_server.Common.{
  ℕ, ◌≡◌, refl, ◌<◌, ◌^◌, ◌%◌, ap, subst, String, List, some, arith, length,
}
use buzzweb_server.Common.Streams.{
  digits, set_width, text, read_digits, value_from, IsNumeral, text-IsNumeral, IsNumeral-unique,
}
use buzzweb_server.Net.Session.{generate_participant_id}

-- what stands behind the first two characters
abbrev without_prefix : String → String
without_prefix (String.◌∷◌ c (String.◌∷◌ d s)) = s
without_prefix s = s

numeral : ℕ → String
numeral draw = text (set_width 16 (digits 16 (draw % 2 ^ 64)))

numeral-IsNumeral : (draw : ℕ) → draw < 2 ^ 64 → IsNumeral 16 16 draw (numeral draw)
unfolding numeral
numeral-IsNumeral draw h =
    let same : draw % 2 ^ 64 ≡ draw = omega (arith, h) in
    subst (λ n. IsNumeral 16 16 n (text (set_width 16 (digits 16 (draw % 2 ^ 64))))) same
      (text-IsNumeral 16 15 (draw % 2 ^ 64) (omega arith) (omega arith) (omega arith))

-- The id of a session is `p_` and sixteen hexadecimal digits, from `0` to `f`, which are the drawn
-- number with zeros before it, and different drawn numbers give different ids.
pub generate_participant_id_faithful :
    (draw other : ℕ)
    → draw < 2 ^ 64
    → other < 2 ^ 64
    → ((s : String) × (generate_participant_id draw ≡ String.◌∷◌ "p" (String.◌∷◌ "_" s))
        × ((ds : List ℕ) × (read_digits 16 s ≡ some ds)
            × (length ds ≡ 16)
            × (value_from 16 0 ds ≡ draw)))
      × (generate_participant_id draw ≡ generate_participant_id other → draw ≡ other)
unfolding generate_participant_id numeral
generate_participant_id_faithful draw other h h' = (
  (numeral draw, refl, numeral-IsNumeral draw h),
  λ same.
      IsNumeral-unique 16 16 draw other (numeral other)
        (subst (IsNumeral 16 16 draw) (ap without_prefix same) (numeral-IsNumeral draw h))
        (numeral-IsNumeral other h'),
)
