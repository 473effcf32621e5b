-- ===== src/Net/System/Handled.antt =====
-- A handler of one connection, a new connection and a posted function in the whole server.
use buzzweb_server.Common.{
  ℕ, zero, suc, ◌+◌, String, ◌≡◌, refl, sym, ap, subst, ◌∙◌, Option, none, some, [], ◌∷◌, ◌++◌,
  ◌==◌, eq_iff, arith, take, get_elem?, Each, Each-map, Each-take, append-nil, has_value, inl, inr,
  Bool-cases, Option-cases, take-suc,
}
use buzzweb_server.Domain.Participant.{ParticipantId}
use buzzweb_server.Domain.InMemory.{Rooms}
use buzzweb_server.Net.SessionRegistry.{SessionPtr}
use buzzweb_server.Net.Session.{Hub, Session}
use buzzweb_server.Net.Connection.{Connection}
use buzzweb_server.Net.Connection.Health.{IsHealthy, IsHandled}
use buzzweb_server.Net.Connection.Reading.{send_posted-IsHealthy}
use buzzweb_server.Net.System.{Connections, System, put, placed, at_connection, post_run}
use buzzweb_server.Net.System.Posts.{Posts, messages_to, messages_to-append, messages_to-none}
use buzzweb_server.Net.System.Sound.{IsConnected, IsSound, put-IsConnected, put-IsSound}

-- The state after an event is there, and sound.
abbrev pub Continues : Option System → Type 0
Continues o = (system : System) × (o ≡ some system) × IsSound system

handled-Continues :
    (system : System) (p : ParticipantId) (c : Connection) (o : Option (Connection × (Rooms × Hub)))
    → IsSound system
    → system.connections p ≡ some c
    → IsHandled (IsConnected system.connections) c system.hub o
    → Continues (placed system o)
handled-Continues system p c o h here (c', (rooms, hub), e, healthy, self, accepted, extends) =
    let own = ap (λ (s : SessionPtr). s.participant_id) self ∙ h.named p c here in
    rw e (
      _,
      refl,
      put-IsSound system c' rooms hub h healthy
          (accepted
            ∙ h.in_order p c here
            ∙ ap (λ q. messages_to q (take system.executed system.hub.sent)) (sym own))
          extends,
    )

-- A handler that keeps what a connection promises keeps the server sound.
pub at_connection-Continues :
    (system : System) (p : ParticipantId)
    (handler : Connection → Rooms × Hub → Option (Connection × (Rooms × Hub)))
    → IsSound system
    → ((c : Connection)
        → system.connections p ≡ some c
        → IsHealthy c
        → IsConnected system.connections c.session.self
        → IsHandled
            (IsConnected system.connections)
            c
            system.hub
            (handler c (system.rooms, system.hub)))
    → Continues (at_connection system handler (system.connections p))
at_connection-Continues system p handler h keeps = elim (Option-cases (system.connections p)) [
  | inl nobody ↦ rw nobody (system, refl, h)
  | inr (c, here) ↦
      let alive = ap has_value (ap system.connections (h.named p c here) ∙ here) in
      let handled = keeps c here (h.healthy p c here) alive in
      rw here (handled-Continues system p c (handler c (system.rooms, system.hub)) h here handled)
]

-- A new session, to which nothing was posted before.
pub connected-Continues :
    (system : System) (self : SessionPtr) (c : Connection)
    → IsSound system
    → system.connections self.participant_id ≡ none
    → IsHealthy c
    → c.session.self ≡ self
    → c.queue.accepted ≡ []
    → IsSound (record system { connections = put c system.connections })
connected-Continues system self c h free healthy same empty =
    let nothing =
      messages_to-none self.participant_id (λ p. has_value (system.connections p))
        (take system.executed system.hub.sent) (ap has_value free)
        (Each-take _ system.executed system.hub.sent h.posted) in
    put-IsSound system c system.rooms system.hub h healthy
      (empty
        ∙ sym nothing
        ∙ ap
            (λ (s : SessionPtr).
              messages_to s.participant_id (take system.executed system.hub.sent))
            (sym same))
      (h.known, ([], sym (append-nil system.hub.sent), tt))

pub receiver-IsConnected :
    (connections : Connections) (posts : Posts) (n : ℕ) (receiver : SessionPtr) (message : String)
    → Each (λ delivery. IsConnected connections delivery.0) posts
    → get_elem? posts n ≡ some (receiver, message)
    → IsConnected connections receiver
receiver-IsConnected connections [] n receiver message all e = absurd (ground (arith, e))
receiver-IsConnected connections (post ∷ posts) zero receiver message (here, all) e =
    ground (arith, here, e)
receiver-IsConnected connections (post ∷ posts) (suc n) receiver message (here, all) e =
    receiver-IsConnected connections posts n receiver message all e

-- The next posted function has run at its receiver.
sent-IsSound :
    (system : System) (receiver : SessionPtr) (message : String) (c c' : Connection)
    → IsSound system
    → get_elem? system.hub.sent system.executed ≡ some (receiver, message)
    → system.connections receiver.participant_id ≡ some c
    → IsHealthy c'
    → c'.session ≡ c.session
    → c'.queue.accepted ≡ c.queue.accepted ++ message ∷ []
    → IsSound
        (record system { connections = put c' system.connections; executed = system.executed + 1 })
sent-IsSound system receiver message c c' h next here healthy same added =
    let all = put-IsConnected c' system.connections in
    let (taken, within) = take-suc system.executed system.hub.sent (receiver, message) next in
    let own =
      ap (λ (s : Session). s.self.participant_id) same ∙ h.named receiver.participant_id c here in
    let before = take system.executed system.hub.sent in
    record {
      healthy = λ p other e. elim (Bool-cases (c'.session.self.participant_id == p)) [
        | inl mine ↦ subst IsHealthy (ground (arith, e, mine)) healthy
        | inr differs ↦ h.healthy p other (ground (arith, e, differs))
      ];
      named =
          λ p other e. ground (arith, e, eq_iff c'.session.self.participant_id p, h.named p other);
      known = λ p session found. all session (h.known p session found);
      posted = Each-map (λ delivery. all delivery.0) system.hub.sent h.posted;
      bounded = within;
      in_order = λ p other e.
          rw (taken, messages_to-append p before)
            (ground (
              arith,
              e,
              own,
              added,
              eq_iff c'.session.self.participant_id p,
              eq_iff receiver.participant_id p,
              h.in_order p other,
              h.in_order receiver.participant_id c here,
              append-nil (messages_to p before),
            ));
    }

pub post_run-Continues :
    (system : System)
    → IsSound system
    → Continues (post_run system (get_elem? system.hub.sent system.executed))
post_run-Continues system h = elim (Option-cases (get_elem? system.hub.sent system.executed)) [
  | inl over ↦ rw over (system, refl, h)
  | inr ((receiver, message), next) ↦
      elim (Option-cases (system.connections receiver.participant_id)) [
        | inl nobody ↦ absurd (
            ground (
              arith,
              nobody,
              receiver-IsConnected system.connections system.hub.sent system.executed receiver
                  message h.posted next,
            ))
        | inr (c, here) ↦
            let (c', e, healthy, same, added, sent) =
              send_posted-IsHealthy message c (h.healthy receiver.participant_id c here) in
            rw (next, here, e)
              (_, refl, sent-IsSound system receiver message c c' h next here healthy same added)
      ]
]
