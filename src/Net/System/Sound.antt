-- ===== src/Net/System/Sound.antt =====
-- The invariant of the whole server: each session and its stream, and what has been posted to it.
use buzzweb_server.Common.{
  ◌≤◌, ◌≡◌, ap, subst, ◌∙◌, true, some, ◌==◌, eq_iff, arith, length, take, Each, Each-map,
  Each-append, has_value, inl, inr, Bool-cases, length-append, take-append,
}
use buzzweb_server.Domain.Participant.{ParticipantId}
use buzzweb_server.Domain.InMemory.{Rooms}
use buzzweb_server.Net.SessionRegistry.{SessionPtr}
use buzzweb_server.Net.Session.{Hub}
use buzzweb_server.Net.Session.Posting.{AllKnown, Extends}
use buzzweb_server.Net.Connection.{Connection}
use buzzweb_server.Net.Connection.Health.{IsHealthy}
use buzzweb_server.Net.System.{Connections, System, put}
use buzzweb_server.Net.System.Posts.{messages_to}

-- The session has a connection, that is, its object is alive.
abbrev pub IsConnected : Connections → SessionPtr → Type 0
IsConnected connections session = has_value (connections session.participant_id) ≡ true

pub record IsSound (system : System) : Type 0 where
  pub healthy : (p : ParticipantId) (c : Connection) → system.connections p ≡ some c → IsHealthy c
  pub named :
      (p : ParticipantId) (c : Connection)
      → system.connections p ≡ some c
      → c.session.self.participant_id ≡ p
  pub known : AllKnown (IsConnected system.connections) system.hub.registry
  pub posted : Each (λ delivery. IsConnected system.connections delivery.0) system.hub.sent
  pub bounded : system.executed ≤ length system.hub.sent
  pub in_order :
      (p : ParticipantId) (c : Connection)
      → system.connections p ≡ some c
      → c.queue.accepted ≡ messages_to p (take system.executed system.hub.sent)

pub put-IsConnected :
    (c : Connection) (connections : Connections) (session : SessionPtr)
    → IsConnected connections session
    → IsConnected (put c connections) session
put-IsConnected c connections session h = ground (arith, h)

-- A session that is new, or that a handler has changed.
pub put-IsSound :
    (system : System) (c : Connection) (rooms : Rooms) (hub : Hub)
    → IsSound system
    → IsHealthy c
    → c.queue.accepted
      ≡ messages_to c.session.self.participant_id (take system.executed system.hub.sent)
    → Extends (IsConnected system.connections) system.hub hub
    → IsSound (record system { rooms = rooms; hub = hub; connections = put c system.connections })
put-IsSound system c rooms hub h healthy accepted (known, (more, sent, receivers)) =
    let all = put-IsConnected c system.connections in
    let same =
      ap (take system.executed) sent ∙ take-append system.executed system.hub.sent more h.bounded in
    record {
      healthy = λ p other e. elim (Bool-cases (c.session.self.participant_id == p)) [
        | inl own ↦ subst IsHealthy (ground (arith, e, own)) healthy
        | inr differs ↦ h.healthy p other (ground (arith, e, differs))
      ];
      named =
          λ p other e. ground (arith, e, eq_iff c.session.self.participant_id p, h.named p other);
      known = λ p session found. all session (known p session found);
      posted = rw sent (
          Each-append (λ delivery. IsConnected (put c system.connections) delivery.0)
            system.hub.sent more (Each-map (λ delivery. all delivery.0) system.hub.sent h.posted)
            (Each-map (λ delivery. all delivery.0) more receivers));
      bounded = omega (arith, h.bounded, ap length sent, length-append system.hub.sent more);
      in_order = λ p other e.
          rw same (
            ground
              (arith, e, accepted, eq_iff c.session.self.participant_id p, h.in_order p other));
    }
