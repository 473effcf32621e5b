-- ===== src/Main/Follows.antt =====
-- How the process ends, and what its connections are, main.cpp.
use buzzweb_server.Common.{
  ◌≡◌, refl, ◌∙◌, String, true, false, Option, none, some, List, [], arith, any_of, ◌⊎◌, inl, inr,
  Bool-cases,
}
use buzzweb_server.Common.Attempt.{gave, raised}
use buzzweb_server.Util.Config.{ServerConfig, Environment, load_config}
use buzzweb_server.App.Json.{Json}
use buzzweb_server.App.RoomService.Make.{new_room_service}
use buzzweb_server.App.ProtocolCodec.Requests.{Attempt-cases}
use buzzweb_server.Net.Listener
use buzzweb_server.Net.Listener.{SessionKind}
use buzzweb_server.Net.System.Delivered.{begun-IsSound}
use buzzweb_server.Net.Server.{Boost, Call, Server, Event, run_start}
use buzzweb_server.Net.Server.Serving.{AreReady, IsServing, is_stop, run-GoesOn}
use buzzweb_server.Main.{Process, exited, terminated, running, serve, main}
use buzzweb_server.Main.Start.{plan, follow, fresh, made, new_server-follows}

-- The process as the plan of its start and the events say. Without a stop it still runs, with the
-- configuration that was loaded.
abbrev pub IsAsPlanned : ServerConfig → List Event → Option String → Process → Type 0
IsAsPlanned config events (some what) process = process ≡ terminated what
IsAsPlanned config events none process =
    ((any_of is_stop events ≡ true) × (process ≡ exited 0))
    ⊎ ((any_of is_stop events ≡ false)
        × ((server : Server) × (process ≡ running server)
            × (server.config ≡ config)
            × IsServing server))

module _ (json : Json) (boost : Boost) (getenv : Environment) (events : List Event) where
  -- Whatever configuration is loaded, the events can happen on a server that starts with it.
  abbrev pub CanHappen : Type 0
  CanHappen =
      (config : ServerConfig)
      → load_config getenv ≡ gave config
      → AreReady json events (run_start (fresh config))

  started-IsServing : (config : ServerConfig) → IsServing (run_start (fresh config))
  unfolding run_start Listener.start Listener.accept_next
  started-IsServing config = record {
    sound = begun-IsSound json;
    kinds = λ p c e. absurd (ground (arith, e));
    configured = refl;
    listening = λ live. (refl, refl);
  }

  started-config : (config : ServerConfig) → (run_start (fresh config)).config ≡ config
  unfolding run_start
  started-config config = refl

  started-stopped : (config : ServerConfig) → (run_start (fresh config)).stopped ≡ false
  unfolding run_start
  started-stopped config = refl

  serve-IsAsPlanned :
      (config : ServerConfig) (failure : Option String) (calls : List Call)
      → AreReady json events (run_start (fresh config))
      → IsAsPlanned config events failure (serve json events (made (fresh config) failure, calls)).0
        × ((serve json events (made (fresh config) failure, calls)).1 ≡ calls)
  serve-IsAsPlanned config (some what) calls ready = (refl, refl)
  serve-IsAsPlanned config none calls ready =
      let (last, e, serving, same, stopped) =
        run-GoesOn json events (run_start (fresh config)) (started-IsServing config) ready in
      elim (Bool-cases (any_of is_stop events)) [
        | inl over ↦
            let off : last.stopped ≡ true = ground (arith, stopped, over, started-stopped config) in
            rw e (inl (over, simp (off) refl), refl)
        | inr live ↦
            let on : last.stopped ≡ false = ground (arith, stopped, live, started-stopped config) in
            rw e (inr (live, (last, simp (on) refl, same ∙ started-config config, serving)), refl)
      ]

  -- The process exits with 1, and touches nothing, exactly when no configuration can be loaded. With
  -- a configuration it makes the calls of the plan in their order, up to the first that fails, whose
  -- exception then leaves `main`; if none fails it exits with 0 exactly when it is stopped, and still
  -- runs otherwise, with no exception of a handler and no two operations of a stream at once.
  pub main-follows :
      CanHappen
      → ((what : String) × (load_config getenv ≡ raised what)
          × (main json boost getenv events ≡ (exited 1, [])))
        ⊎ ((config : ServerConfig) × (load_config getenv ≡ gave config)
            × ((main json boost getenv events).1 ≡ (follow (plan boost config)).0)
            × IsAsPlanned config events
                (follow (plan boost config)).1
                (main json boost getenv events).0)
  unfolding main new_room_service
  main-follows possible = elim (Attempt-cases (load_config getenv)) [
    | inl (config, loaded) ↦
        let failure = (follow (plan boost config)).1 in
        let (planned, calls) =
          serve-IsAsPlanned config failure (follow (plan boost config)).0
            (possible config loaded) in
        rw (loaded, new_server-follows boost config) (inr (config, refl, calls, planned))
    | inr (what, failed) ↦ rw failed (inl (what, refl, refl))
  ]
