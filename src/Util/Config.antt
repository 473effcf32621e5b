-- ===== src/Util/Config.antt =====
-- Config.cpp and Env.cpp. The environment is a parameter `getenv`; `none` is the null pointer.
pub mod Port
pub mod Tls
use Prim.Native.Char.{Char, code}
use buzzweb_server.Common.{
  ℕ, zero, suc, ◌-◌, ◌%◌, ◌^◌, String, Bool, true, false, not, ◌&&◌, ◌||◌, Option, none, some, List,
  [], ◌∷◌, ◌==◌, leb, if◌then◌else◌,
}
use buzzweb_server.Common.Streams.{value_from}
use buzzweb_server.Common.Attempt.{Attempt, gave, raised, or_raise, throw_if, ◌>>=◌, ◌>>◌}

pub record ServerConfig : Type 0 where
  pub port : ℕ
  pub certificate_file : String
  pub private_key_file : String
  pub tls_enabled : Bool

abbrev pub default_port : ℕ
default_port = 9291

abbrev pub Environment : Type 0
Environment = String → Option String

unfoldable pub get_env : Environment → String → Attempt String String
get_env getenv env = or_raise "getenv_error" (getenv env)

unfoldable pub get_env_optional : Environment → String → Option String
get_env_optional getenv env = getenv env

-- `int`, which `std::stoi` keeps in its range
pub data ℤ : Type 0 where
  pos negsuc : ℕ → ℤ

abbrev pub signed : Bool → ℕ → ℤ
signed false n = pos n
signed true zero = pos 0
signed true (suc n) = negsuc n

-- `std::stoi`: blanks, a sign, and as many decimal digits as there are; the rest is passed over.
abbrev pub is_space : Char → Bool
is_space c = (leb 9 (code c) && leb (code c) 13) || (leb 32 (code c) && leb (code c) 32)

abbrev pub is_digit : Char → Bool
is_digit c = leb 48 (code c) && leb (code c) 57

abbrev pub skip_spaces : String → String
skip_spaces String.[] = ""
skip_spaces (String.◌∷◌ c s) =
    let rest = skip_spaces s in if is_space c then rest else String.◌∷◌ c s

abbrev pub split_sign : String → Bool × String
split_sign String.[] = (false, "")
split_sign (String.◌∷◌ c s) =
    if leb 45 (code c) && leb (code c) 45
    then (true, s)
    else if leb 43 (code c) && leb (code c) 43
    then (false, s)
    else (false, String.◌∷◌ c s)

abbrev pub leading_digits : String → List ℕ
leading_digits String.[] = []
leading_digits (String.◌∷◌ c s) =
    let rest = leading_digits s in if is_digit c then (code c - 48) ∷ rest else []

abbrev pub to_int : Bool → List ℕ → Attempt String ℤ
to_int negative [] = raised "invalid_argument"
to_int negative (d ∷ ds) =
    let magnitude = value_from 10 0 (d ∷ ds) in
    if leb magnitude (if negative then 2147483648 else 2147483647)
    then gave (signed negative magnitude)
    else raised "out_of_range"

unfoldable pub stoi : String → Attempt String ℤ
stoi s = let (negative, rest) = split_sign (skip_spaces s) in to_int negative (leading_digits rest)

-- `static_cast<unsigned short>`, of 16 bits
abbrev pub to_unsigned_short : ℤ → ℕ
to_unsigned_short (pos n) = n % 2 ^ 16
to_unsigned_short (negsuc n) = 2 ^ 16 - 1 - n % 2 ^ 16

abbrev pub port_of : Option String → Attempt String ℕ
port_of none = gave default_port
port_of (some port_str) = do i ← stoi port_str; gave (to_unsigned_short i)

unfoldable pub tls_required : Option String → Bool
tls_required none = true
tls_required (some tls_enabled) =
    not (tls_enabled == "0" || tls_enabled == "FALSE" || tls_enabled == "false")

abbrev pub tls_files : Environment → Bool → Attempt String (String × String)
tls_files getenv false = gave ("", "")
tls_files getenv true = do
  cert_path ← get_env getenv "BUZZWEB_CERTIFICATE_FILE_PATH"
  private_key ← get_env getenv "BUZZWEB_PRIVATE_KEY_PATH"
  gave (cert_path, private_key)

unfoldable pub load_config : Environment → Attempt String ServerConfig
unfolding get_env get_env_optional
load_config getenv = do
  let tls = tls_required (get_env_optional getenv "BUZZWEB_TLS_ENABLED")
  port ← port_of (get_env_optional getenv "BUZZWEB_SERVER_PORT")
  files ← tls_files getenv tls
  gave (record {
    port = port;
    certificate_file = files.0;
    private_key_file = files.1;
    tls_enabled = tls;
  })
