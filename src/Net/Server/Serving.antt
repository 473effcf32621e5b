-- ===== src/Net/Server/Serving.antt =====
-- `Run` and `Stop` of Server.cpp over a sequence of events: the listener and the sessions together.
use buzzweb_server.Common.{
  ◌≡◌, refl, ap, subst, ◌∙◌, Bool, true, false, ◌||◌, Option, none, some, List, [], ◌∷◌, arith,
  any_of, inl, inr, Bool-cases,
}
use buzzweb_server.App.Json.{Json}
use buzzweb_server.Net.Listener
use buzzweb_server.Net.Listener.{Listener, SessionKind}
use buzzweb_server.Net.Listener.Accepting.{kind_for}
use buzzweb_server.Net.System
use buzzweb_server.Net.System.{System}
use buzzweb_server.Net.System.Sound.{IsSound}
use buzzweb_server.Net.System.Delivered.{step-Continues}
use buzzweb_server.Net.System.Visible.{AreOfKind}
use buzzweb_server.Net.System.Refinement.{IsOfKind, step-visible}
use buzzweb_server.Net.Server
use buzzweb_server.Net.Server.{
  Server, Event, accepted, accept_failed, stops, at_session, stop, step, run,
}

-- Only the listener makes sessions.
abbrev pub IsInternal : System.Event → Type 0
IsInternal (System.Event.connects kind self) = ⊥
IsInternal _ = Unit {0}

abbrev pub IsReady : Event → Server → Type 0
IsReady (accepted self) server = server.system.connections self.participant_id ≡ none
IsReady accept_failed server = Unit {0}
IsReady stops server = Unit {0}
IsReady (at_session event) server = IsInternal event × System.IsPossible event server.system

abbrev pub Afterwards : (Server → Type 0) → Option Server → Type 0
Afterwards P none = Unit {0}
Afterwards P (some server) = P server

-- Each event can happen when it does; after a stop nothing does.
unfoldable pub AreReady : Json → List Event → Server → Type 0
AreReady json [] server = Unit {0}
AreReady json (event ∷ events) server =
    (server.stopped ≡ false → IsReady event server)
    × Afterwards (AreReady json events) (step json event server)

abbrev pub is_stop : Event → Bool
is_stop stops = true
is_stop _ = false

pub record IsServing (server : Server) : Type 0 where
  pub sound : IsSound server.system
  pub kinds : AreOfKind (kind_for server.config.tls_enabled) server.system
  pub configured : server.listener.tls_enabled ≡ server.config.tls_enabled
  pub listening :
      server.stopped ≡ false → (server.listener.is_open ≡ true) × (server.listener.pending ≡ 1)

internal-IsOfKind :
    (event : System.Event) (kind : SessionKind) → IsInternal event → IsOfKind kind event
internal-IsOfKind (System.Event.connects made self) kind impossible = absurd impossible
internal-IsOfKind (System.Event.handshakes p failed) kind internal = tt
internal-IsOfKind (System.Event.accepts p failed) kind internal = tt
internal-IsOfKind (System.Event.writes p failed) kind internal = tt
internal-IsOfKind (System.Event.reads p result draw) kind internal = tt
internal-IsOfKind (System.Event.closes p is_open) kind internal = tt
internal-IsOfKind System.Event.runs_post kind internal = tt

module _ (json : Json) where
  -- The server goes on with its configuration, and has stopped or not.
  abbrev pub GoesOn : Server → Bool → Option Server → Type 0
  GoesOn server stopped o =
      (next : Server) × (o ≡ some next)
      × IsServing next
      × (next.config ≡ server.config)
      × (next.stopped ≡ stopped)

  -- A step of the sessions beside a listener that listens.
  session-GoesOn :
      (event : System.Event) (server : Server) (listener : Listener)
      → IsServing server
      → server.stopped ≡ false
      → System.IsPossible event server.system
      → IsOfKind (kind_for server.config.tls_enabled) event
      → listener.tls_enabled ≡ server.config.tls_enabled
      → (listener.is_open ≡ true) × (listener.pending ≡ 1)
      → GoesOn server false (
          Server.with_system
            (record server { listener = listener })
            (System.step json event server.system))
  session-GoesOn event server listener h live possible kind same listening =
      let (system, e, sound) = step-Continues json event server.system h.sound possible in
      let shown = step-visible json event server.system system h.sound e in
      rw e (
        record server { listener = listener; system = system },
        refl,
        record {
          sound = sound;
          kinds = shown.1 (kind_for server.config.tls_enabled) kind h.kinds;
          configured = same;
          listening = λ _. listening;
        },
        refl,
        ground (arith, live),
      )

  handle-GoesOn :
      (event : Event) (server : Server)
      → IsServing server
      → server.stopped ≡ false
      → IsReady event server
      → GoesOn server (is_stop event) (Server.handle json event server)
  unfolding Listener.happen Listener.on_accept Listener.accept_next stop Listener.stop
  handle-GoesOn (accepted self) server h live ready =
      let (opened, pending) = h.listening live in
      simp (opened) (
        session-GoesOn (System.Event.connects (Server.kind_of server.listener) self) server _ h live
          ready (ap kind_for h.configured) h.configured (refl, omega (arith, pending)))
  handle-GoesOn accept_failed server h live ready =
      let (opened, pending) = h.listening live in
      simp (opened) (
        _,
        refl,
        record {
          sound = h.sound;
          kinds = h.kinds;
          configured = h.configured;
          listening = λ _. (refl, omega (arith, pending));
        },
        refl,
        ground (arith, live),
      )
  handle-GoesOn stops server h live ready = (
    stop server,
    refl,
    record {
      sound = h.sound;
      kinds = h.kinds;
      configured = h.configured;
      listening = λ on. absurd (ground (arith, on));
    },
    refl,
    ground (arith, live),
  )
  handle-GoesOn (at_session event) server h live (internal, possible) =
      session-GoesOn event server server.listener h live possible
        (internal-IsOfKind event (kind_for server.config.tls_enabled) internal) h.configured
        (h.listening live)

  step-GoesOn :
      (event : Event) (server : Server)
      → IsServing server
      → (server.stopped ≡ false → IsReady event server)
      → GoesOn server (server.stopped || is_stop event) (step json event server)
  unfolding step
  step-GoesOn event server h ready = elim (Bool-cases server.stopped) [
    | inl over ↦ simp (over) (server, refl, h, refl, over)
    | inr live ↦ simp (live) (handle-GoesOn event server h live (ready live))
  ]

  pub run-GoesOn :
      (events : List Event) (server : Server)
      → IsServing server
      → AreReady json events server
      → GoesOn server (server.stopped || any_of is_stop events) (run json events server)
  unfolding run AreReady
  run-GoesOn [] server h ready = (server, refl, h, refl, ground arith)
  run-GoesOn (event ∷ events) server h ready =
      let (next, e, h1, same, stopped) = step-GoesOn event server h ready.0 in
      let (last, e', h2, same', stopped') =
        run-GoesOn events next h1 (subst (Afterwards (AreReady json events)) e ready.1) in
      (last, rw (run, e) e', h2, same' ∙ same, ground (arith, stopped, stopped'))
