-- ===== src/Main/Start.antt =====
-- The start of the process, main.cpp, against a plan of the calls that it is to make.
use buzzweb_server.Common.{
  ◌≡◌, refl, String, true, false, Option, none, some, List, [], ◌∷◌, arith, inl, inr, Bool-cases,
  Option-cases, if◌then◌else◌, Outcome, returned, threw,
}
use buzzweb_server.Util.Config.{ServerConfig}
use buzzweb_server.Net.Listener.{Listener, Setup, set_up, new_listener}
use buzzweb_server.Net.System.{begun}
use buzzweb_server.Net.Server.{Boost, Call, Server, new_server}

-- The acceptor's calls, in their order.
abbrev pub setups : List Setup
setups = Setup.opens ∷ Setup.sets_reuse_address ∷ Setup.binds ∷ Setup.listens ∷ []

abbrev pub first_failure : (Setup → Option String) → List Setup → Option String
first_failure failure [] = none
first_failure failure (call ∷ calls) =
    let rest = first_failure failure calls in
    elim (failure call) [ none ↦ rest | some what ↦ some what ]

-- What the start calls, in order, with the exception that each call has ready: with TLS, the options
-- and both files; then the acceptor on the port.
abbrev pub plan : Boost → ServerConfig → List (Call × Option String)
plan boost config =
    let listening =
      (Call.listens_on config.port, first_failure (boost.acceptor_failure config.port) setups)
      ∷ [] in
    if config.tls_enabled
    then (Call.set_options, none)
      ∷ (
        Call.use_certificate_chain_file config.certificate_file,
        boost.certificate_failure config.certificate_file,
      )
      ∷ (
        Call.use_private_key_file config.private_key_file,
        boost.private_key_failure config.private_key_file,
      )
      ∷ listening
    else listening

-- The calls up to the first that fails, and its exception.
abbrev pub follow : List (Call × Option String) → List Call × Option String
follow [] = ([], none)
follow ((call, none) ∷ rest) = let (calls, failure) = follow rest in (call ∷ calls, failure)
follow ((call, some what) ∷ rest) = (call ∷ [], some what)

abbrev pub fresh : ServerConfig → Server
fresh config = record {
  config = config;
  listener = record { is_open = true; pending = 0; tls_enabled = config.tls_enabled; started = [] };
  stopped = false;
  system = begun;
}

abbrev pub made {ℓ} : {A : Type ℓ} → A → Option String → Outcome A
made a none = returned a
made a (some what) = threw what

set_up-first_failure :
    (failure : Setup → Option String) (calls : List Setup) (listener : Listener)
    → set_up failure calls listener ≡ made listener (first_failure failure calls)
set_up-first_failure failure [] listener = refl
set_up-first_failure failure (call ∷ calls) listener = elim (Option-cases (failure call)) [
  | inl fine ↦ ground (arith, fine, set_up-first_failure failure calls listener)
  | inr (what, wrong) ↦ ground (arith, wrong)
]

pub new_server-follows :
    (boost : Boost) (config : ServerConfig)
    → new_server boost config []
      ≡ (made (fresh config) (follow (plan boost config)).1, (follow (plan boost config)).0)
unfolding new_server new_listener
new_server-follows boost config =
    let listening =
      set_up-first_failure (boost.acceptor_failure config.port) setups (fresh config).listener in
    elim (Bool-cases config.tls_enabled) [
      | inl on ↦ ground (arith, on, listening)
      | inr off ↦ ground (arith, off, listening)
    ]
