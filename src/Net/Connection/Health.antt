-- ===== src/Net/Connection/Health.antt =====
-- What each handler keeps of a session and its stream, Session.hpp.
use buzzweb_server.Common.{
  ℕ, ◌≤◌, ◌≡◌, refl, sym, ap, subst, Bool, true, false, Option, some, [], arith, append-nil, ◌==◌,
  Bool-cases, inl, inr,
}
use buzzweb_server.Domain.RoomRepository.{RoomRepository}
use buzzweb_server.App.Json.{Json}
use buzzweb_server.Net.SessionRegistry.{SessionPtr, find-add}
use buzzweb_server.Net.WriteQueue
use buzzweb_server.Net.WriteQueue.{WriteQueue, write_error}
use buzzweb_server.Net.WriteQueue.Order.{IsConsistent, fresh-IsConsistent}
use buzzweb_server.Net.Session
use buzzweb_server.Net.Session.{Hub, Session, remove_from_registry}
use buzzweb_server.Net.Session.Posting.{
  AllKnown, Extends, Extends-none, remove_from_registry-Extends,
}
use buzzweb_server.Net.Listener.{SessionKind}
use buzzweb_server.Net.Connection
use buzzweb_server.Net.Connection.{
  Outstanding, Connection, new_connection, completed, resumed, broken, read_done,
}

pub record IsHealthy (c : Connection) : Type 0 where
  pub ordered : IsConsistent c.queue
  pub in_step : c.queue.closing ≡ c.session.closing
  pub reading : c.session.registered ≡ true → c.outstanding ≡ Outstanding.read
  pub once : c.close_frames ≤ 1
  pub unsent : c.session.closing ≡ false → c.close_frames ≡ 0

-- The queue after a handler that leaves `closing_` alone.
pub synced :
    (c : Connection) → IsHealthy c → IsConsistent (record c.queue { closing = c.session.closing })
synced c h = subst (λ b. IsConsistent (record c.queue { closing = b })) h.in_step h.ordered

pub start-IsHealthy :
    (kind : SessionKind) (self : SessionPtr)
    → (c : Connection) × (Connection.start (new_connection kind self) ≡ some c)
      × IsHealthy c
      × (c.session.self ≡ self)
      × (c.queue ≡ WriteQueue.fresh)
unfolding Connection.start
start-IsHealthy SessionKind.plain_session self = (
  _,
  refl,
  record {
    ordered = fresh-IsConsistent;
    in_step = refl;
    reading = λ on. absurd (ground (arith, on));
    once = omega arith;
    unsent = λ off. refl;
  },
  refl,
  refl,
)
start-IsHealthy SessionKind.ssl_session self = (
  _,
  refl,
  record {
    ordered = fresh-IsConsistent;
    in_step = refl;
    reading = λ on. absurd (ground (arith, on));
    once = omega arith;
    unsent = λ off. refl;
  },
  refl,
  refl,
)

module _ (K : SessionPtr → Type 0) {S : Type 0} where
  -- The handler neither overlaps an operation nor throws, and keeps what a connection promises.
  abbrev pub IsHandled : Connection → Hub → Option (Connection × (S × Hub)) → Type 0
  IsHandled c hub o =
      (c' : Connection) × (world : S × Hub) × (o ≡ some (c', world))
      × IsHealthy c'
      × (c'.session.self ≡ c.session.self)
      × (c'.queue.accepted ≡ c.queue.accepted)
      × Extends K hub world.1

  module _ (json : Json) (repository : RoomRepository S) (draw : ℕ → ℕ) (s : S) (hub : Hub)
      (known : AllKnown K hub.registry) where
    -- The session is taken out of the registry, with the flag for the closing set.
    pub ended-IsHandled :
        (c c0 : Connection) (is_open : Bool) (frames : ℕ)
        → IsConsistent c0.queue
        → frames ≤ 1
        → c0.queue.accepted ≡ c.queue.accepted
        → IsHandled c hub (
            resumed
              (λ c'. some (record c' { socket_open = is_open; close_frames = frames }))
              c0
              (remove_from_registry json repository draw
                (record c.session { closing = true })
                (s, hub)))
    ended-IsHandled c c0 is_open frames ordered once same =
        let session = record c.session { closing = true } in
        let (e, extends) =
          remove_from_registry-Extends K json repository draw session s hub known in
        let closed = ap (λ (x : Session). x.closing) e in
        (
          _,
          _,
          refl,
          record {
            ordered = record {
              busy = ordered.busy;
              live = λ off. absurd (ground (arith, off, closed));
              order = ordered.order;
            };
            in_step = refl;
            reading = λ on. absurd (ground (arith, on, ap (λ (x : Session). x.registered) e));
            once = once;
            unsent = λ off. absurd (ground (arith, off, closed));
          },
          ap (λ (x : Session). x.self) e,
          same,
          extends,
        )

    pub broken-IsHandled :
        (c c0 : Connection)
        → IsConsistent c0.queue
        → c0.close_frames ≤ 1
        → c0.queue.accepted ≡ c.queue.accepted
        → IsHandled c hub (resumed broken c0 (Session.fail json repository draw c.session (s, hub)))
    unfolding Session.fail
    broken-IsHandled c c0 ordered once same =
        ended-IsHandled c c0 false c0.close_frames ordered once same

    pub handshake-IsHandled :
        (failed : Bool) (c : Connection)
        → IsHealthy c
        → c.outstanding ≡ Outstanding.handshake
        → IsHandled c hub (Connection.on_tls_handshake json repository draw failed c (s, hub))
    unfolding Connection.on_tls_handshake Session.on_tls_handshake
    handshake-IsHandled true c h possible = broken-IsHandled c (completed c) h.ordered h.once refl
    handshake-IsHandled false c h possible = (
      _,
      _,
      refl,
      record {
        ordered = synced c h;
        in_step = refl;
        reading = λ on. absurd (ground (arith, possible, h.reading on));
        once = h.once;
        unsent = h.unsent;
      },
      refl,
      refl,
      Extends-none K hub known,
    )

    pub accept-IsHandled :
        (failed : Bool) (c : Connection)
        → IsHealthy c
        → K c.session.self
        → IsHandled c hub (Connection.on_web_socket_accept json repository draw failed c (s, hub))
    unfolding Connection.on_web_socket_accept Session.on_web_socket_accept
    accept-IsHandled true c h own = broken-IsHandled c (completed c) h.ordered h.once refl
    accept-IsHandled false c h own = (
      _,
      _,
      refl,
      record {
        ordered = synced c h;
        in_step = refl;
        reading = λ on. refl;
        once = h.once;
        unsent = h.unsent;
      },
      refl,
      refl,
      (
        λ p other found. elim (Bool-cases (c.session.self.participant_id == p)) [
          | inl same ↦ ground (arith, own, found, same, find-add c.session.self p hub.registry)
          | inr differs ↦
              known p other (ground (arith, found, differs, find-add c.session.self p hub.registry))
        ],
        ([], sym (append-nil hub.sent), tt),
      ),
    )
