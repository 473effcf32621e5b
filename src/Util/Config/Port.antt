-- ===== src/Util/Config/Port.antt =====
-- The port that the server listens on.
use Prim.Native.Char.{code}
use buzzweb_server.Common.{
  ℕ, zero, suc, subst, ◌+◌, ◌%◌, ◌^◌, ◌<◌, ◌≤◌, ◌≡◌, refl, Bool, true, false, ◌&&◌, some, List, [],
  ◌∷◌, leb, arith, Each, is_empty,
}
use buzzweb_server.Common.Attempt.{gave}
use buzzweb_server.Common.Streams.{
  digits, digit_char, text, value_from, digits-lt, value_from-digits, is_empty-digits,
}
use buzzweb_server.Util.Config.{
  pos, ServerConfig, Environment, skip_spaces, split_sign, leading_digits, stoi, port_of,
  load_config,
}

-- Each decimal digit under `bound` is printed by its ASCII character.
is_ascii : ℕ → Bool
is_ascii zero = true
is_ascii (suc bound) =
    leb (code (digit_char bound)) (48 + bound)
    && leb (48 + bound) (code (digit_char bound))
    && is_ascii bound

is_ascii_decimal : is_ascii 10 ≡ true
unfolding is_ascii digit_char
is_ascii_decimal = refl

code-below : (d bound : ℕ) → d < bound → is_ascii bound ≡ true → code (digit_char d) ≡ 48 + d
unfolding is_ascii
code-below d zero h checked = absurd (omega arith)
code-below d (suc bound) h checked = ground (arith, code-below d bound)

code-digit_char : (d : ℕ) → d < 10 → code (digit_char d) ≡ 48 + d
code-digit_char d h = code-below d 10 h is_ascii_decimal

leading_digits-text : (ds : List ℕ) → Each (λ d. d < 10) ds → leading_digits (text ds) ≡ ds
unfolding text
leading_digits-text [] h = refl
leading_digits-text (d ∷ ds) h = ground (arith, code-digit_char d h.0, leading_digits-text ds h.1)

skip_spaces-text :
    (d : ℕ) (ds : List ℕ)
    → d < 10
    → split_sign (skip_spaces (text (d ∷ ds))) ≡ (false, text (d ∷ ds))
unfolding text
skip_spaces-text d ds h = ground (arith, code-digit_char d h)

stoi-digits :
    (ds : List ℕ)
    → Each (λ d. d < 10) ds
    → is_empty ds ≡ false
    → value_from 10 0 ds ≤ 2147483647
    → stoi (text ds) ≡ gave (pos (value_from 10 0 ds))
unfolding stoi
stoi-digits [] small some_digit fits = absurd (ground (arith, some_digit))
stoi-digits (d ∷ ds) small some_digit fits =
    rw (skip_spaces-text d ds small.0, leading_digits-text (d ∷ ds) small) (ground arith)

stoi-text : (n : ℕ) → n ≤ 2147483647 → stoi (text (digits 10 n)) ≡ gave (pos n)
stoi-text n fits =
    subst (λ m. stoi (text (digits 10 n)) ≡ gave (pos m)) value
      (stoi-digits (digits 10 n) (digits-lt 10 n (omega arith)) (is_empty-digits 10 n)
        (omega (arith, value)))
  where
    value : value_from 10 0 (digits 10 n) ≡ n
    value = value_from-digits 10 n (omega arith)

-- With a decimal number that fits an `int` in `BUZZWEB_SERVER_PORT`, the port is the number's
-- remainder by 65536: the number itself where it is a port, and another port where it is not.
pub load_config-port :
    (getenv : Environment) (n : ℕ) (config : ServerConfig)
    → n ≤ 2147483647
    → getenv "BUZZWEB_SERVER_PORT" ≡ some (text (digits 10 n))
    → load_config getenv ≡ gave config
    → config.port ≡ n % 2 ^ 16
unfolding load_config
load_config-port getenv n config fits set e =
    let read : port_of (getenv "BUZZWEB_SERVER_PORT") ≡ gave (n % 2 ^ 16) =
      rw (set, stoi-text n fits) refl in
    ground (arith, read, e)
