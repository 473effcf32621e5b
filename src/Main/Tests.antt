-- ===== src/Main/Tests.antt =====
-- A process without TLS on the default port, which a client reaches.
use buzzweb_server.Common.{
  ◌≡◌, refl, subst, ◌⊎◌, String, false, Option, none, some, List, [], ◌∷◌, ◌==◌, arith,
  if◌then◌else◌,
}
use buzzweb_server.Common.Attempt.{gave, raised}
use buzzweb_server.Util.Config.{
  ServerConfig, Environment, load_config, get_env, get_env_optional, tls_required,
}
use buzzweb_server.App.Json.Sample.{sample}
use buzzweb_server.App.RoomService.Make.{new_room_service}
use buzzweb_server.Net.SessionRegistry.{SessionPtr}
use buzzweb_server.Net.Listener
use buzzweb_server.Net.Listener.{SessionKind}
use buzzweb_server.Net.Session
use buzzweb_server.Net.Connection
use buzzweb_server.Net.Connection.{Connection}
use buzzweb_server.Net.System
use buzzweb_server.Net.System.{System}
use buzzweb_server.Net.Server
use buzzweb_server.Net.Server.{Boost, Call, Server, Event, run_start}
use buzzweb_server.Net.Server.Serving.{AreReady, Afterwards}
use buzzweb_server.Main.{Process, exited, running, main}
use buzzweb_server.Main.Start.{plan, follow, fresh}
use buzzweb_server.Main.Follows.{CanHappen, IsAsPlanned, main-follows}
use buzzweb_server.Main.Secured.{IsSecured, main-IsSecured}

abbrev open_house : Environment
open_house name = if name == "BUZZWEB_TLS_ENABLED" then some "0" else none

abbrev open_config : ServerConfig
open_config = record {
  port = 9291;
  certificate_file = "";
  private_key_file = "";
  tls_enabled = false;
}

abbrev willing : Boost
willing = record {
  certificate_failure = λ file. some "no such file";
  private_key_failure = λ file. some "no such file";
  acceptor_failure = λ port call. none;
}

abbrev visitor : SessionPtr
visitor = record { number = 1; participant_id = "p_1" }

abbrev visit : List Event
visit = Event.accepted visitor ∷ Event.at_session (System.Event.accepts "p_1" false) ∷ []

open_loaded : load_config open_house ≡ gave open_config
unfolding load_config get_env get_env_optional tls_required
open_loaded = refl

always : (o : Option Server) → Afterwards (λ server. Unit {0}) o
always none = tt
always (some server) = tt

visit-AreReady : AreReady sample visit (run_start (fresh open_config))
unfolding AreReady Server.step run_start Listener.start Listener.accept_next Listener.happen
    Listener.on_accept System.step Connection.start
visit-AreReady = (λ live. refl, (λ live. (tt, λ c e. ground (arith, e)), always _))

visit-CanHappen : CanHappen sample willing open_house visit
visit-CanHappen config loaded =
    let same : open_config ≡ config = ground (arith, loaded, open_loaded) in
    subst (λ k. AreReady sample visit (run_start (fresh k))) same visit-AreReady

abbrev served : Process → Server
served (running server) = server
served _ = fresh open_config

abbrev open_server : Server
open_server = served (main sample willing open_house visit).0

abbrev found : Option Connection → Connection
found none = Connection.new_connection SessionKind.ssl_session visitor
found (some c) = c

abbrev visiting : Connection
visiting = found (open_server.system.connections "p_1")

visit_run :
    (main sample willing open_house visit ≡ (running open_server, Call.listens_on 9291 ∷ []))
    × (open_server.system.connections "p_1" ≡ some visiting)
unfolding main new_room_service load_config get_env get_env_optional tls_required Server.new_server
    Listener.new_listener Server.run Server.step run_start Listener.start Listener.accept_next
    Listener.happen Listener.on_accept System.step Connection.start Connection.on_web_socket_accept
    Session.on_web_socket_accept
visit_run = (refl, refl)

main-follows_example :
    ((what : String) × (load_config open_house ≡ raised what)
      × (main sample willing open_house visit ≡ (exited 1, [])))
    ⊎ ((config : ServerConfig) × (load_config open_house ≡ gave config)
        × ((main sample willing open_house visit).1 ≡ (follow (plan willing config)).0)
        × IsAsPlanned config visit
            (follow (plan willing config)).1
            (main sample willing open_house visit).0)
main-follows_example = main-follows sample willing open_house visit visit-CanHappen

main-IsSecured_example : IsSecured willing open_house open_server.config visiting
main-IsSecured_example =
    main-IsSecured sample willing open_house visit open_server (Call.listens_on 9291 ∷ []) "p_1"
      visiting visit-CanHappen visit_run.0 visit_run.1
