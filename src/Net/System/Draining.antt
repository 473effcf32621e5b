-- ===== src/Net/System/Draining.antt =====
-- One posted function, and the writes of one session, while nothing new happens.
use buzzweb_server.Common.{
  ℕ, zero, suc, ◌+◌, ◌<◌, String, ◌≡◌, refl, ap, subst, ◌∙◌, Bool, true, false, not, some, List, [],
  ◌∷◌, ◌++◌, eq_iff, eq_refl, arith, length, replicate, is_empty, inl, inr, Option-cases,
  get_elem?-cases,
}
use buzzweb_server.Domain.Participant.{ParticipantId}
use buzzweb_server.App.Json.{Json}
use buzzweb_server.Net.WriteQueue.Draining.{write_done-pops}
use buzzweb_server.Net.Session.{Session}
use buzzweb_server.Net.Connection
use buzzweb_server.Net.Connection.{Connection}
use buzzweb_server.Net.Connection.Reading.{send_posted-IsHealthy}
use buzzweb_server.Net.System.{
  System, put, Event, writes, runs_post, step, run, IsPossible, Afterwards, ArePossible,
}
use buzzweb_server.Net.System.Sound.{IsSound}
use buzzweb_server.Net.System.Handled.{receiver-IsConnected}
use buzzweb_server.Net.System.Delivered.{step-IsSound}

module _ (json : Json) where
  -- The events can happen one after another, and lead from the first state to the second.
  abbrev pub Leads : List Event → System → System → Type 0
  Leads events first last = ArePossible json events first × (run json events first ≡ some last)

  pub Leads-step :
      (event : Event) (events : List Event) (first next last : System)
      → IsPossible event first
      → step json event first ≡ some next
      → Leads events next last
      → Leads (event ∷ events) first last
  unfolding run ArePossible
  Leads-step event events first next last possible e (are, e') =
      (rw (e, ArePossible) (possible, are), rw (e, run) e')

  pub Leads-append :
      (events events' : List Event) (first next last : System)
      → Leads events first next
      → Leads events' next last
      → Leads (events ++ events') first last
  unfolding run ArePossible
  Leads-append [] events' first next last (are, e) (are', e') =
      subst (λ s. Leads events' s last) (ground (arith, e)) (are', e')
  Leads-append (event ∷ events) events' first next last (are, e) later =
      elim (Option-cases (step json event first)) [
        | inl stuck ↦ absurd (ground (arith, e, stuck))
        | inr (second, moved) ↦ Leads-step event (events ++ events') first second last are.0 moved (
            Leads-append events events' second next last
              (subst (Afterwards (ArePossible json events)) moved are.1, ground (arith, e, moved))
              later)
      ]

  -- The next write of an open session completes, and one message fewer waits.
  write_completes :
      (p : ParticipantId) (n : ℕ) (system : System) (c : Connection)
      → IsSound system
      → system.connections p ≡ some c
      → c.session.closing ≡ false
      → length c.queue.write_queue ≡ suc n
      → (c' : Connection) × IsPossible (writes p false) system
        × (step json (writes p false) system
            ≡ some (record system { connections = put c' system.connections }))
        × (put c' system.connections p ≡ some c')
        × (c'.session.closing ≡ false)
        × (length c'.queue.write_queue ≡ n)
  unfolding step Connection.on_write
  write_completes p n system c h here open_still counted =
      let healthy = h.healthy p c here in
      let (w, e, fewer, closing) =
        write_done-pops c.queue c.queue.write_queue n refl (healthy.in_step ∙ open_still) counted in
      let own = h.named p c here in
      (
        record c { queue = w },
        λ other e'. ground (
          arith,
          here,
          e',
          open_still,
          healthy.in_step,
          flying c.queue.write_queue c.queue.in_flight n counted
              (healthy.ordered.live (healthy.in_step ∙ open_still)),
        ),
        rw (here, e) refl,
        ground (arith, own, eq_refl p),
        open_still,
        fewer,
      )
    where
      flying :
          (messages : List String) (in_flight : Bool) (k : ℕ)
          → length messages ≡ suc k
          → is_empty messages ≡ not in_flight
          → in_flight ≡ true
      flying [] in_flight k counts live = absurd (omega (arith, counts))
      flying (m ∷ messages) in_flight k counts live = ground (arith, live)

  -- The writes of an open session complete one after another until its queue is empty.
  pub writes_drain :
      (p : ParticipantId) (n : ℕ) (system : System) (c : Connection)
      → IsSound system
      → system.connections p ≡ some c
      → c.session.closing ≡ false
      → length c.queue.write_queue ≡ n
      → (last : System) × (c' : Connection) × Leads (replicate n (writes p false)) system last
        × (last.hub ≡ system.hub)
        × (last.executed ≡ system.executed)
        × (last.connections p ≡ some c')
        × (c'.queue.write_queue ≡ [])
  unfolding run ArePossible
  writes_drain p zero system c h here open_still counted =
      (system, c, (tt, refl), refl, refl, here, none_left c.queue.write_queue counted)
    where
      none_left : (messages : List String) → length messages ≡ zero → messages ≡ []
      none_left [] e = refl
      none_left (m ∷ messages) e = absurd (omega (arith, e))
  writes_drain p (suc n) system c h here open_still counted =
      let (c1, possible, e, here1, open1, counted1) =
        write_completes p n system c h here open_still counted in
      let next = record system { connections = put c1 system.connections } in
      let h1 = step-IsSound json (writes p false) system next h possible e in
      let (last, c', leads, hub, executed, here', empty) =
        writes_drain p n next c1 h1 here1 open1 counted1 in
      (
        last,
        c',
        Leads-step (writes p false) (replicate n (writes p false)) system next last possible e
            leads,
        hub,
        executed,
        here',
        empty,
      )

  -- The next posted function runs; it writes nothing, and closes nothing.
  pub post_runs :
      (system : System) (p : ParticipantId) (c : Connection)
      → IsSound system
      → system.executed < length system.hub.sent
      → system.connections p ≡ some c
      → (next : System) × (c' : Connection) × (step json runs_post system ≡ some next)
        × (next.hub ≡ system.hub)
        × (next.executed ≡ system.executed + 1)
        × (next.connections p ≡ some c')
        × (c'.session ≡ c.session)
        × (c'.queue.written ≡ c.queue.written)
  unfolding step
  post_runs system p c h some_left here = elim (get_elem?-cases system.executed system.hub.sent) [
    | inl (over, past) ↦ absurd (omega (arith, past, some_left))
    | inr ((receiver, message), next, within) ↦
        elim (Option-cases (system.connections receiver.participant_id)) [
          | inl nobody ↦ absurd (
              ground (
                arith,
                nobody,
                receiver-IsConnected system.connections system.hub.sent system.executed receiver
                    message h.posted next,
              ))
          | inr (d, there) ↦
              let (d', e, healthy, same, added, sent) =
                send_posted-IsHealthy message d (h.healthy receiver.participant_id d there) in
              let own =
                ap (λ (s : Session). s.self.participant_id) same
                ∙ h.named receiver.participant_id d there in
              elim (Option-cases (put d' system.connections p)) [
                | inl nobody ↦ absurd (ground (arith, nobody, here))
                | inr (c', found) ↦
                    rw (next, there, e)
                      (
                        _,
                        c',
                        refl,
                        refl,
                        refl,
                        found,
                        ground (
                          arith,
                          found,
                          own,
                          there,
                          here,
                          same,
                          eq_iff receiver.participant_id p,
                        ),
                        ground (
                          arith,
                          found,
                          own,
                          there,
                          here,
                          sent,
                          eq_iff receiver.participant_id p,
                        ),
                      )
              ]
        ]
  ]
