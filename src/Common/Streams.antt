-- ===== src/Common/Streams.antt =====
-- `std::ostringstream` as the source uses it: numbers in base 10 or 16, `std::setw` and
-- `std::setfill('0')`. Numbers are printed by lists of digits, the most significant first.
use Prim.Native.Nat.{ℕ, zero, suc, ◌+◌, ◌-◌, ◌*◌, ◌/◌, ◌%◌, ◌^◌, ◌≤◌, ◌<◌, compare, Ordering}
use Prim.Native.Char.{Char, code}
use Prim.Native.String.{String, char_at}
use native.Mathlib.Nat.{pow-suc, pow-zero, div-lt_self, div-add-mod', div-lt_iff_lt-mul, mod-lt}
use mathlib.Core.Path.{◌≡◌, refl, sym, ap, ◌∙◌}
use mathlib.Core.Option.{Option, none, some}
use mathlib.Core.Bool.{Bool, true, false, ◌&&◌}
use mathlib.Core.List.{List, [], ◌∷◌, ◌++◌}
use native.Mathlib.Omega.{arith}
use buzzweb_server.Common.Lists.{is_empty, length, length-append, Each, Each-append}
use buzzweb_server.Common.Tests.{ltb, leb, if◌then◌else◌}

-- A number takes at most as many rounds as its value, so one more is fuel enough.
digits_from : ℕ → ℕ → ℕ → List ℕ
digits_from base zero n = []
digits_from base (suc fuel) n =
    let more = digits_from base fuel (n / base) ++ (n % base) ∷ [] in
    if ltb n base then n ∷ [] else more

unfoldable pub digits : ℕ → ℕ → List ℕ
unfolding digits_from
digits base n = digits_from base (suc n) n

abbrev pub zeros : ℕ → List ℕ
zeros zero = []
zeros (suc n) = 0 ∷ zeros n

-- `setw(width) << setfill('0')`: a longer number is printed whole.
unfoldable pub set_width : ℕ → List ℕ → List ℕ
set_width width ds = zeros (width - length ds) ++ ds

unfoldable pub digit_char : ℕ → Char
digit_char d = char_at "0123456789abcdef" d

unfoldable pub text : List ℕ → String
unfolding digit_char
text [] = ""
text (d ∷ ds) = String.◌∷◌ (digit_char d) (text ds)

-- Reading back: the digits of a text in a base up to sixteen, if all its characters are such digits.
abbrev pub hex_value : Char → Option ℕ
hex_value c =
    if leb 48 (code c) && leb (code c) 57
    then some (code c - 48)
    else if leb 97 (code c) && leb (code c) 102
    then some (code c - 87)
    else none

abbrev pub digit_below : ℕ → Option ℕ → Option ℕ
digit_below base none = none
digit_below base (some d) = if ltb d base then some d else none

abbrev pub with_digit : Option ℕ → Option (List ℕ) → Option (List ℕ)
with_digit (some d) (some ds) = some (d ∷ ds)
with_digit _ _ = none

abbrev pub read_digits : ℕ → String → Option (List ℕ)
read_digits base String.[] = some []
read_digits base (String.◌∷◌ c s) = with_digit (digit_below base (hex_value c)) (read_digits base s)

abbrev pub value_from : ℕ → ℕ → List ℕ → ℕ
value_from base acc [] = acc
value_from base acc (d ∷ ds) = value_from base (acc * base + d) ds

-- The text is the number `n`, written with `width` digits of the base.
abbrev pub IsNumeral : ℕ → ℕ → ℕ → String → Type 0
IsNumeral base width n s =
    (ds : List ℕ) × (read_digits base s ≡ some ds)
    × (length ds ≡ width)
    × (value_from base 0 ds ≡ n)

value_from-append :
    (base acc : ℕ) (xs ys : List ℕ)
    → value_from base acc (xs ++ ys) ≡ value_from base (value_from base acc xs) ys
value_from-append base acc [] ys = refl
value_from-append base acc (x ∷ xs) ys = value_from-append base (acc * base + x) xs ys

value_from-zeros :
    (base n : ℕ) (ds : List ℕ) → value_from base 0 (zeros n ++ ds) ≡ value_from base 0 ds
value_from-zeros base zero ds = refl
value_from-zeros base (suc n) ds =
    ap (λ acc. value_from base acc (zeros n ++ ds)) zero_step ∙ value_from-zeros base n ds
  where
    zero_step : 0 * base + 0 ≡ 0
    zero_step = omega arith

value_digits_from :
    (base fuel n : ℕ) → 1 < base → n < fuel → value_from base 0 (digits_from base fuel n) ≡ n
unfolding digits_from
value_digits_from base zero n b h = absurd (omega arith)
value_digits_from base (suc fuel) n b h = ground (
  arith,
  value_from-append base 0 (digits_from base fuel (n / base)) ((n % base) ∷ []),
  λ (p : n / base < fuel). value_digits_from base fuel (n / base) b p,
  div-lt_self {n = n} {k = base},
  div-add-mod' n base,
)

digits_from-lt : (base fuel n : ℕ) → 1 < base → Each (λ d. d < base) (digits_from base fuel n)
unfolding digits_from
digits_from-lt base zero n b = tt
digits_from-lt base (suc fuel) n b = ground (
  arith,
  Each-append (λ d. d < base) (digits_from base fuel (n / base)) ((n % base) ∷ []),
  digits_from-lt base fuel (n / base) b,
  mod-lt n {m = base} (omega arith),
)

length-digits_from :
    (base fuel n k : ℕ) → 1 < base → n < base ^ suc k → length (digits_from base fuel n) ≤ suc k
unfolding digits_from
length-digits_from base zero n k b h = omega arith
length-digits_from base (suc fuel) n zero b h =
    let one_digit = rw (pow-suc, pow-zero) at h in
    let small : n < base = omega arith in ground arith
length-digits_from base (suc fuel) n (suc k) b h = ground (
  arith,
  length-append (digits_from base fuel (n / base)) ((n % base) ∷ []),
  length-digits_from base fuel (n / base) k b
      ((div-lt_iff_lt-mul {k = base} {x = n} {y = base ^ suc k} (omega arith)).1 (rw pow-suc at h)),
)

nat_eq : ℕ → ℕ → Bool
nat_eq a b = elim (compare a b) [ Ordering.eq ↦ true | _ ↦ false ]

same_digit : Option ℕ → ℕ → Bool
same_digit none d = false
same_digit (some n) d = nat_eq n d

-- The digits under `bound` are what their characters read back as.
reads_back : ℕ → Bool
reads_back zero = true
reads_back (suc bound) = same_digit (hex_value (digit_char bound)) bound && reads_back bound

reads_back_hexadecimal : reads_back 16 ≡ true
unfolding reads_back same_digit nat_eq digit_char
reads_back_hexadecimal = refl

nat_eq→eq : (a b : ℕ) → nat_eq a b ≡ true → a ≡ b
unfolding nat_eq
nat_eq→eq a b h = ground arith

same_digit→eq : (o : Option ℕ) (d : ℕ) → same_digit o d ≡ true → o ≡ some d
unfolding same_digit
same_digit→eq none d h = absurd (ground (arith, h))
same_digit→eq (some n) d h = ap some (nat_eq→eq n d h)

reads_back-below :
    (d bound : ℕ) → d < bound → reads_back bound ≡ true → hex_value (digit_char d) ≡ some d
unfolding reads_back
reads_back-below d zero h checked = absurd (omega arith)
reads_back-below d (suc bound) h checked =
    ground (arith, same_digit→eq (hex_value (digit_char bound)) bound, reads_back-below d bound)

pub hex_value-digit_char : (d : ℕ) → d < 16 → hex_value (digit_char d) ≡ some d
hex_value-digit_char d h = reads_back-below d 16 h reads_back_hexadecimal

read_digits-text :
    (base : ℕ) (ds : List ℕ)
    → base ≤ 16
    → Each (λ d. d < base) ds
    → read_digits base (text ds) ≡ some ds
unfolding text
read_digits-text base [] b h = refl
read_digits-text base (d ∷ ds) b h =
    let small : d < 16 = omega (arith, h.0) in
    rw (hex_value-digit_char d small, read_digits-text base ds b h.1) (ground (arith, h.0))

Each-zeros : (base n : ℕ) → 0 < base → Each (λ d. d < base) (zeros n)
Each-zeros base zero b = tt
Each-zeros base (suc n) b = (b, Each-zeros base n b)

length-zeros : (n : ℕ) → length (zeros n) ≡ n
length-zeros zero = refl
length-zeros (suc n) = ap suc (length-zeros n)

padded-lt : (base width n : ℕ) → 1 < base → Each (λ d. d < base) (set_width width (digits base n))
unfolding set_width digits
padded-lt base width n b =
    Each-append (λ d. d < base) (zeros (width - length (digits base n))) (digits base n)
      (Each-zeros base (width - length (digits base n)) (omega arith))
      (digits_from-lt base (suc n) n b)

-- A number that fits in the width is printed with exactly that many digits.
pub length-set_width :
    (base width n : ℕ)
    → 1 < base
    → n < base ^ suc width
    → length (set_width (suc width) (digits base n)) ≡ suc width
unfolding set_width digits
length-set_width base width n b h = omega (
  arith,
  length-append {0} (zeros (suc width - length (digits base n))) (digits base n),
  length-zeros (suc width - length (digits base n)),
  length-digits_from base (suc n) n width b h,
)

-- A number that fits in the width is printed as the numeral of that width.
pub text-IsNumeral :
    (base width n : ℕ)
    → 1 < base
    → base ≤ 16
    → n < base ^ suc width
    → IsNumeral base (suc width) n (text (set_width (suc width) (digits base n)))
unfolding set_width digits
text-IsNumeral base width n b h small = (
  set_width (suc width) (digits base n),
  read_digits-text base (set_width (suc width) (digits base n)) h (padded-lt base (suc width) n b),
  length-set_width base width n b small,
  value_from-zeros base (suc width - length (digits base n)) (digits base n)
      ∙ value_digits_from base (suc n) n b (omega arith),
)

-- Two numbers with one numeral are the same.
pub IsNumeral-unique :
    (base width m n : ℕ) (s : String) → IsNumeral base width m s → IsNumeral base width n s → m ≡ n
IsNumeral-unique base width m n s (ds, reads, _, value) (es, reads', _, value') =
    let same : ds ≡ es = ground (arith, reads, reads') in
    sym value ∙ ap (value_from base 0) same ∙ value'

-- What the digits of a number are, without a width.
pub digits-lt : (base n : ℕ) → 1 < base → Each (λ d. d < base) (digits base n)
unfolding digits
digits-lt base n b = digits_from-lt base (suc n) n b

pub value_from-digits : (base n : ℕ) → 1 < base → value_from base 0 (digits base n) ≡ n
unfolding digits
value_from-digits base n b = value_digits_from base (suc n) n b (omega arith)

-- A number has at least one digit.
pub is_empty-digits : (base n : ℕ) → is_empty (digits base n) ≡ false
unfolding digits digits_from
is_empty-digits base n = ground (arith, more (digits_from base n (n / base)) (n % base))
  where
    more : (ds : List ℕ) (d : ℕ) → is_empty (ds ++ d ∷ []) ≡ false
    more [] d = refl
    more (e ∷ ds) d = refl
