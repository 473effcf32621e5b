-- ===== src/Net/Server.antt =====
-- Server.hpp and Server.cpp. What Boost answers when it loads a file or sets up the acceptor is a
-- parameter. `calls` lists what was asked of the outside, the oldest first.
pub mod Serving
use buzzweb_server.Common.{
  ℕ, String, Bool, true, false, Option, none, some, List, [], ◌∷◌, ◌++◌, if◌then◌else◌, Outcome,
  returned, threw, Exec, Done, pure, ◌>>=◌,
}
use buzzweb_server.Util.Config.{ServerConfig}
use buzzweb_server.App.Json.{Json}
use buzzweb_server.Net.SessionRegistry.{SessionPtr}
use buzzweb_server.Net.Listener
use buzzweb_server.Net.Listener.{Listener, SessionKind, Setup, new_listener}
use buzzweb_server.Net.System
use buzzweb_server.Net.System.{System, begun}

-- why a call throws, where it does
pub record Boost : Type 0 where
  pub certificate_failure : String → Option String
  pub private_key_failure : String → Option String
  pub acceptor_failure : ℕ → Setup → Option String

pub data Call : Type 0 where
  set_options : Call
  use_certificate_chain_file use_private_key_file : String → Call
  listens_on : ℕ → Call

abbrev pub ask {ℓ} : {A : Type ℓ} → Call → Outcome A → Exec (List Call) A
ask call outcome calls = (outcome, calls ++ call ∷ [])

abbrev loaded : Option String → Outcome Done
loaded none = returned tt
loaded (some what) = threw what

-- `stopped` says that the event loop was stopped; no handler runs after that.
pub record Server : Type 0 where
  pub config : ServerConfig
  pub listener : Listener
  pub stopped : Bool
  pub system : System

module _ (boost : Boost) where
  unfoldable pub configure_tls : ServerConfig → Exec (List Call) Done
  configure_tls config = do
    options ← ask Call.set_options (loaded none)
    certificate ←
        ask (Call.use_certificate_chain_file config.certificate_file)
          (loaded (boost.certificate_failure config.certificate_file))
    ask (Call.use_private_key_file config.private_key_file)
        (loaded (boost.private_key_failure config.private_key_file))

  abbrev pub tls_configured : ServerConfig → Exec (List Call) Done
  tls_configured config = if config.tls_enabled then configure_tls config else pure tt

  -- the constructor
  unfoldable pub new_server : ServerConfig → Exec (List Call) Server
  unfolding configure_tls
  new_server config = do
    configured ← tls_configured config
    listener ←
        ask (Call.listens_on config.port)
          (new_listener (boost.acceptor_failure config.port) config.tls_enabled)
    pure (record { config = config; listener = listener; stopped = false; system = begun })

-- the begin of `Run`, before the event loop runs
unfoldable pub run_start : Server → Server
run_start server = record server { listener = Listener.start server.listener }

unfoldable pub stop : Server → Server
stop server = record server { listener = Listener.stop server.listener; stopped = true }

-- What the event loop of `Run` does next: an accept completes, an operation of a session completes,
-- a posted function runs, or `Stop` is called.
pub data Event : Type 0 where
  accepted : SessionPtr → Event
  accept_failed stops : Event
  at_session : System.Event → Event

abbrev pub with_system : Server → Option System → Option Server
with_system server none = none
with_system server (some system) = some (record server { system = system })

abbrev pub kind_of : Listener → SessionKind
kind_of listener =
    if listener.tls_enabled then SessionKind.ssl_session else SessionKind.plain_session

module _ (json : Json) where
  -- `OnAccept`: while the acceptor is open, a session of the listener's kind is made and started.
  abbrev pub accept_session : SessionPtr → Server → Option Server
  accept_session self server =
      let next = record server {
        listener = Listener.happen Listener.Happening.accepted server.listener;
      } in
      if server.listener.is_open
      then with_system next
          (System.step json (System.Event.connects (kind_of server.listener) self) server.system)
      else some next

  abbrev pub handle : Event → Server → Option Server
  handle (accepted self) server = accept_session self server
  handle accept_failed server = some (record server {
    listener = Listener.happen Listener.Happening.accept_failed server.listener;
  })
  handle stops server = some (stop server)
  handle (at_session event) server = with_system server (System.step json event server.system)

  unfoldable pub step : Event → Server → Option Server
  step event server = if server.stopped then some server else handle event server

  unfoldable pub run : List Event → Server → Option Server
  run [] server = some server
  run (event ∷ events) server = elim (step event server) [
    | none ↦ none
    | some server' ↦ run events server'
  ]
