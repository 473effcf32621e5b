-- ===== src/Net/System/Delivered.antt =====
-- All handlers of the server over any sequence of events.
use buzzweb_server.Common.{
  ◌≤◌, ◌≡◌, refl, ap, subst, ◌∙◌, true, false, some, List, [], ◌∷◌, ◌++◌, arith, take,
}
use buzzweb_server.Domain.Participant.{ParticipantId}
use buzzweb_server.Domain.InMemory.{in_memory}
use buzzweb_server.App.Json.{Json}
use buzzweb_server.Common.UnorderedMap
use buzzweb_server.Net.SessionRegistry
use buzzweb_server.Net.WriteQueue.{WriteQueue}
use buzzweb_server.Net.WriteQueue.Order.{is_empty_nil}
use buzzweb_server.Net.EventLoop.{no_draw}
use buzzweb_server.Net.Connection
use buzzweb_server.Net.Connection.{Connection, Outstanding}
use buzzweb_server.Net.Connection.Health.{start-IsHealthy, handshake-IsHandled, accept-IsHandled}
use buzzweb_server.Net.Connection.Reading.{write-IsHandled, read-IsHandled, close-IsHandled}
use buzzweb_server.Net.System.{
  System, begun, Event, connects, handshakes, accepts, writes, reads, closes, runs_post, step, run,
  IsPossible, Afterwards, ArePossible,
}
use buzzweb_server.Net.System.Posts.{messages_to}
use buzzweb_server.Net.System.Sound.{IsConnected, IsSound}
use buzzweb_server.Net.System.Handled.{
  Continues, at_connection-Continues, connected-Continues, post_run-Continues,
}

module _ (json : Json) where
  pub step-Continues :
      (event : Event) (system : System)
      → IsSound system
      → IsPossible event system
      → Continues (step json event system)
  unfolding step
  step-Continues (connects kind self) system h possible =
      let (c, e, healthy, same, empty) = start-IsHealthy kind self in
      rw e (
        _,
        refl,
        connected-Continues system self c h possible healthy same
            (ap (λ (w : WriteQueue). w.accepted) empty),
      )
  step-Continues (handshakes p failed) system h possible =
      at_connection-Continues system p (Connection.on_tls_handshake json in_memory no_draw failed) h
        (λ c here healthy alive.
          handshake-IsHandled (IsConnected system.connections) json in_memory no_draw system.rooms
            system.hub h.known failed c healthy (possible c here))
  step-Continues (accepts p failed) system h possible =
      at_connection-Continues system p
        (Connection.on_web_socket_accept json in_memory no_draw failed) h
        (λ c here healthy alive.
          accept-IsHandled (IsConnected system.connections) json in_memory no_draw system.rooms
            system.hub h.known failed c healthy alive)
  step-Continues (writes p failed) system h possible =
      at_connection-Continues system p (Connection.on_write json in_memory no_draw failed) h
        (λ c here healthy alive.
          write-IsHandled (IsConnected system.connections) json in_memory no_draw system.rooms
            system.hub h.known failed c healthy (possible c here))
  step-Continues (reads p result draw) system h possible =
      at_connection-Continues system p (Connection.on_read json in_memory draw result) h
        (λ c here healthy alive.
          read-IsHandled (IsConnected system.connections) json in_memory draw system.rooms
            system.hub h.known result c healthy alive)
  step-Continues (closes p is_open) system h possible =
      at_connection-Continues system p (Connection.close json in_memory no_draw is_open) h
        (λ c here healthy alive.
          close-IsHandled (IsConnected system.connections) json in_memory no_draw system.rooms
            system.hub h.known is_open c healthy)
  step-Continues runs_post system h possible = post_run-Continues system h

  run-Continues :
      (events : List Event) (system : System)
      → IsSound system
      → ArePossible json events system
      → Continues (run json events system)
  unfolding run ArePossible
  run-Continues [] system h possible = (system, refl, h)
  run-Continues (event ∷ events) system h possible =
      let (next, e, sound) = step-Continues event system h possible.0 in
      let (last, e', sound') =
        run-Continues events next sound
          (subst (Afterwards (ArePossible json events)) e possible.1) in
      (last, rw (run, e) e', sound')

  pub step-IsSound :
      (event : Event) (system next : System)
      → IsSound system
      → IsPossible event system
      → step json event system ≡ some next
      → IsSound next
  step-IsSound event system next h possible e =
      let (next', e', sound) = step-Continues event system h possible in
      let same : next' ≡ next = ground (arith, e, e') in subst IsSound same sound

  pub run-IsSound :
      (events : List Event) (system last : System)
      → IsSound system
      → ArePossible json events system
      → run json events system ≡ some last
      → IsSound last
  run-IsSound events system last h possible e =
      let (last', e', sound) = run-Continues events system h possible in
      let same : last' ≡ last = ground (arith, e, e') in subst IsSound same sound

  pub begun-IsSound : IsSound begun
  unfolding SessionRegistry.find UnorderedMap.find
  begun-IsSound = record {
    healthy = λ p c e. absurd (ground (arith, e));
    named = λ p c e. absurd (ground (arith, e));
    known = λ p session e. absurd (ground (arith, e));
    posted = tt;
    bounded = omega arith;
    in_order = λ p c e. absurd (ground (arith, e));
  }

  -- Whatever clients and network do, from the start on and in whatever order: no handler lets an
  -- exception out, no stream has two accepts, reads, handshakes or writes at once, and for each
  -- session, what was written to its client, followed by what waits in its queue, is what was posted
  -- to it among the posts that have run, in the order of the posts; a registered session has a read
  -- outstanding; while it is not closing, a message waits only if a write is in flight; and it starts
  -- one close frame at most. An operation is taken to complete only while it is outstanding, and a
  -- new session to have a new id.
  pub run-delivers :
      (events : List Event)
      → ArePossible json events begun
      → (system : System) × (run json events begun ≡ some system)
        × ((p : ParticipantId) (c : Connection)
            → system.connections p ≡ some c
            → (c.queue.written ++ c.queue.write_queue
                ≡ messages_to p (take system.executed system.hub.sent))
              × (c.session.registered ≡ true → c.outstanding ≡ Outstanding.read)
              × (c.session.closing ≡ false → c.queue.in_flight ≡ false → c.queue.write_queue ≡ [])
              × (c.close_frames ≤ 1))
  run-delivers events possible =
      let (system, e, h) = run-Continues events begun begun-IsSound possible in
      (
        system,
        e,
        λ p c here.
            let healthy = h.healthy p c here in
            (
              healthy.ordered.order ∙ h.in_order p c here,
              healthy.reading,
              λ closing idle.
                  is_empty_nil c.queue.write_queue
                    (ground (arith, healthy.in_step, healthy.ordered.live, closing, idle)),
              healthy.once,
            ),
      )
