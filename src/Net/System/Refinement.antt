-- ===== src/Net/System/Refinement.antt =====
-- Every step of the server is the step of the event loop that it shows, or none.
use buzzweb_server.Common.{
  ℕ, ◌≡◌, sym, ap, subst, ◌∙◌, Bool, true, false, Option, none, some, arith, inl, inr, Option-cases,
  Outcome, returned, threw, get_elem?,
}
use buzzweb_server.Domain.InMemory.{Rooms, in_memory}
use buzzweb_server.App.Json.{Json}
use buzzweb_server.Net.SessionRegistry.{SessionPtr}
use buzzweb_server.Net.WriteQueue
use buzzweb_server.Net.WriteQueue.{WriteQueue, write_error}
use buzzweb_server.Net.Listener.{SessionKind}
use buzzweb_server.Net.Session.{Hub, Session, ReadResult}
use buzzweb_server.Net.EventLoop
use buzzweb_server.Net.EventLoop.{Running, Sessions, no_draw, handled, deliver}
use buzzweb_server.Net.Connection
use buzzweb_server.Net.Connection.{
  Connection, new_connection, completed, with_queue, with_world, broken, after_handshake,
  after_accept, after_read, after_close, read_done,
}
use buzzweb_server.Net.System.{
  System, Event, connects, handshakes, accepts, writes, reads, closes, runs_post, advanced,
  post_run, step,
}
use buzzweb_server.Net.System.Sound.{IsSound}
use buzzweb_server.Net.System.Visible.{
  Keeps, AreOfKind, KeepsKinds, placed-AreOfKind, running_of, visible, placed-running,
  resumed-session, visible_handler, silent_handler,
}

broken-Keeps : Keeps broken
broken-Keeps c c' e = ground (arith, e)

after_handshake-Keeps : (failed : Bool) → Keeps (after_handshake failed)
after_handshake-Keeps true c c' e = ground (arith, e)
after_handshake-Keeps false c c' e = ground (arith, e)

after_accept-Keeps : (failed : Bool) → Keeps (after_accept failed)
after_accept-Keeps true c c' e = ground (arith, e)
after_accept-Keeps false c c' e = ground (arith, e)

after_read-Keeps : (result : ReadResult) → Keeps (after_read result)
after_read-Keeps ReadResult.closed c c' e = ground (arith, e)
after_read-Keeps ReadResult.failed c c' e = ground (arith, e)
after_read-Keeps ReadResult.binary c c' e = ground (arith, e)
after_read-Keeps (ReadResult.text_message message) c c' e = ground (arith, e)

after_close-Keeps : (closing is_open : Bool) → Keeps (after_close closing is_open)
after_close-Keeps true is_open c c' e = ground (arith, e)
after_close-Keeps false true c c' e = ground (arith, e)
after_close-Keeps false false c c' e = ground (arith, e)

queued-session :
    (c c' : Connection) (o : Option WriteQueue) (before world : Rooms × Hub)
    → with_world before (with_queue c o) ≡ some (c', world)
    → (c'.session ≡ c.session) × (world ≡ before) × (c'.kind ≡ c.kind)
queued-session c c' none before world e = absurd (ground (arith, e))
queued-session c c' (some queue) before world e = ground (arith, e)

-- A session that the event makes is of the kind.
abbrev pub IsOfKind : SessionKind → Event → Type 0
IsOfKind kind (connects made self) = made ≡ kind
IsOfKind kind _ = Unit {0}

module _ (json : Json) where
  -- The event loop makes the step that is visible of an event, and all connections are of one kind
  -- still if a new one is.
  abbrev pub Shows : Event → System → System → Type 0
  Shows event system next =
      (running_of next ≡ EventLoop.run json (visible event) (running_of system))
      × ((kind : SessionKind) → IsOfKind kind event → AreOfKind kind system → AreOfKind kind next)

  kinds_kept :
      (event : Event) (system next : System)
      → (running_of next ≡ EventLoop.run json (visible event) (running_of system))
        × KeepsKinds system next
      → Shows event system next
  kinds_kept event system next (shown, keeps) = (shown, λ kind own. keeps kind)

  read_done-session :
      (draw : ℕ → ℕ) (result : ReadResult) (session : Session) (c c' : Connection)
      (o : Outcome Session × (Rooms × Hub)) (world : Rooms × Hub)
      → read_done json in_memory draw result c o ≡ some (c', world)
      → ((c'.session, world) ≡ EventLoop.after_read session o) × (c'.kind ≡ c.kind)
  read_done-session draw result session c c' (returned session', world') world e =
      resumed-session (after_read result) c c' (session', world') world (after_read-Keeps result) e
  read_done-session draw result session c c' (threw what, world') world e =
      absurd (ground (arith, e))

  started-visible :
      (kind : SessionKind) (self : SessionPtr) (system next : System)
      → step json (connects kind self) system ≡ some next
      → Shows (connects kind self) system next
  unfolding step EventLoop.run EventLoop.step Connection.start
  started-visible SessionKind.plain_session self system next e = (
    placed-running system next _ system.rooms system.hub e,
    λ k own all. placed-AreOfKind system next _ system.rooms system.hub k e own all,
  )
  started-visible SessionKind.ssl_session self system next e = (
    placed-running system next _ system.rooms system.hub e,
    λ k own all. placed-AreOfKind system next _ system.rooms system.hub k e own all,
  )

  post-visible :
      (system next : System)
      → IsSound system
      → step json runs_post system ≡ some next
      → Shows runs_post system next
  unfolding step Connection.send_posted EventLoop.run
  post-visible system next h e = elim (Option-cases (get_elem? system.hub.sent system.executed)) [
    | inl over ↦
        let unchanged : system ≡ next = ground (arith, e, over) in
        (ap running_of (sym unchanged), λ kind own all. subst (AreOfKind kind) unchanged all)
    | inr ((receiver, message), found) ↦ kinds_kept runs_post system next (
        silent_handler (advanced system) next receiver.participant_id
          (λ c world. with_world world (Connection.send_posted message c))
          (h.named receiver.participant_id)
          (λ c c' world. queued-session c c' (WriteQueue.send message c.queue) _ world)
          (ap (post_run system) (sym found) ∙ e))
  ]

  pub step-visible :
      (event : Event) (system next : System)
      → IsSound system
      → step json event system ≡ some next
      → Shows event system next
  unfolding step EventLoop.run EventLoop.step Connection.on_tls_handshake
      Connection.on_web_socket_accept Connection.on_read Connection.on_write Connection.close
  step-visible (connects kind self) system next h e = started-visible kind self system next e
  step-visible (handshakes p failed) system next h e =
      kinds_kept (handshakes p failed) system next (
        visible_handler json (EventLoop.Event.handshakes p failed) system next p
          (Connection.on_tls_handshake json in_memory no_draw failed)
          (λ c c' world.
            resumed-session (after_handshake failed) (completed c) c' _ world
              (after_handshake-Keeps failed))
          e)
  step-visible (accepts p failed) system next h e = kinds_kept (accepts p failed) system next (
      visible_handler json (EventLoop.Event.accepts p failed) system next p
        (Connection.on_web_socket_accept json in_memory no_draw failed)
        (λ c c' world.
          resumed-session (after_accept failed) (completed c) c' _ world
            (after_accept-Keeps failed))
        e)
  step-visible (writes p true) system next h e = kinds_kept (writes p true) system next (
      visible_handler json (EventLoop.Event.fails p) system next p
        (Connection.on_write json in_memory no_draw true)
        (λ c c' world.
          resumed-session broken (record c { queue = write_error c.queue }) c' _ world broken-Keeps)
        e)
  step-visible (writes p false) system next h e = kinds_kept (writes p false) system next (
      silent_handler system next p (Connection.on_write json in_memory no_draw false) (h.named p)
        (λ c c' world. queued-session c c' (WriteQueue.write_done c.queue) _ world) e)
  step-visible (reads p result draw) system next h e =
      kinds_kept (reads p result draw) system next (
        visible_handler json (EventLoop.Event.reads p result draw) system next p
          (Connection.on_read json in_memory draw result)
          (λ c c' world. read_done-session draw result c.session (completed c) c' _ world) e)
  step-visible (closes p is_open) system next h e = kinds_kept (closes p is_open) system next (
      visible_handler json (EventLoop.Event.closes p) system next p
        (Connection.close json in_memory no_draw is_open)
        (λ c c' world.
          resumed-session (after_close c.session.closing is_open) c c' _ world
            (after_close-Keeps c.session.closing is_open))
        e)
  step-visible runs_post system next h e = post-visible system next h e
