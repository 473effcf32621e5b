-- ===== src/Net/System/Drained.antt =====
-- What the server does with all that was posted, once nothing new happens.
use buzzweb_server.Common.{
  String, ℕ, zero, suc, ◌+◌, ◌-◌, ◌≡◌, refl, sym, ap, ◌∙◌, false, some, List, [], ◌++◌, arith,
  length, replicate, append-nil, length-append, take-length,
}
use buzzweb_server.Domain.Participant.{ParticipantId}
use buzzweb_server.App.Json.{Json}
use buzzweb_server.Net.Session.{Hub, Session}
use buzzweb_server.Net.Connection.{Connection}
use buzzweb_server.Net.System.{System, begun, Event, writes, runs_post, run, ArePossible}
use buzzweb_server.Net.System.Posts.{messages_to}
use buzzweb_server.Net.System.Sound.{IsSound}
use buzzweb_server.Net.System.Delivered.{step-IsSound, run-IsSound, begun-IsSound}
use buzzweb_server.Net.System.Draining.{Leads, Leads-step, Leads-append, writes_drain, post_runs}

-- When all posts have run, what was written and what waits is all that was posted.
all_written :
    (hub : Hub) (system : System) (p : ParticipantId) (c : Connection)
    → IsSound system
    → system.hub ≡ hub
    → system.executed ≡ length hub.sent
    → system.connections p ≡ some c
    → c.queue.written ++ c.queue.write_queue ≡ messages_to p hub.sent
all_written hub system p c h same all_run here =
    let healthy = h.healthy p c here in
    let sent : system.hub.sent ≡ hub.sent = ap (λ (x : Hub). x.sent) same in
    healthy.ordered.order
    ∙ h.in_order p c here
    ∙ rw (all_run, sent) (ap (messages_to p) (take-length hub.sent))

none_waits :
    (written waiting all : List String) → written ++ waiting ≡ all → waiting ≡ [] → written ≡ all
none_waits written waiting all whole empty =
    sym (append-nil written) ∙ ap (λ l. written ++ l) (sym empty) ∙ whole

-- what is left to happen before all that was posted to the session has been written
abbrev pub remaining : ParticipantId → System → Connection → List Event
remaining p system c =
    replicate (length system.hub.sent - system.executed) runs_post
    ++ replicate (length (messages_to p system.hub.sent) - length c.queue.written) (writes p false)

module _ (json : Json) where
  posts_drain :
      (n : ℕ) (system : System) (p : ParticipantId) (c : Connection)
      → IsSound system
      → system.executed + n ≡ length system.hub.sent
      → system.connections p ≡ some c
      → (last : System) × (c' : Connection) × Leads json (replicate n runs_post) system last
        × (last.hub ≡ system.hub)
        × (last.executed ≡ system.executed + n)
        × (last.connections p ≡ some c')
        × (c'.session ≡ c.session)
        × (c'.queue.written ≡ c.queue.written)
        × IsSound last
  unfolding run ArePossible
  posts_drain zero system p c h left here =
      (system, c, (tt, refl), refl, omega arith, here, refl, refl, h)
  posts_drain (suc n) system p c h left here =
      let (next, c1, e, hub, executed, here1, same, written) =
        post_runs json system p c h (omega (arith, left)) here in
      let h1 = step-IsSound json runs_post system next h tt e in
      let (last, c', leads, hub', executed', here', same', written', h') =
        posts_drain n next p c1 h1
          (omega (arith, left, executed, ap (λ (x : Hub). length x.sent) hub)) here1 in
      (
        last,
        c',
        Leads-step json runs_post (replicate n runs_post) system next last tt e leads,
        hub' ∙ hub,
        omega (arith, executed, executed'),
        here',
        same' ∙ same,
        written' ∙ written,
        h',
      )

  -- The events that are left are possible, and after them the queue is empty and all was written.
  pub sound-delivers :
      (system : System) (p : ParticipantId) (c : Connection)
      → IsSound system
      → system.connections p ≡ some c
      → c.session.closing ≡ false
      → ArePossible json (remaining p system c) system
        × ((last : System) × (c' : Connection) × (run json (remaining p system c) system
              ≡ some last)
            × (last.hub ≡ system.hub)
            × (last.connections p ≡ some c')
            × (c'.queue.write_queue ≡ [])
            × (c'.queue.written ≡ messages_to p system.hub.sent))
  sound-delivers system p c h here open_still =
      let posts = length system.hub.sent - system.executed in
      let (next, c1, leads, hub, executed, here1, same, written, h1) =
        posts_drain posts system p c h (omega (arith, h.bounded)) here in
      let all_run : next.executed ≡ length system.hub.sent = omega (arith, executed, h.bounded) in
      let all = all_written system.hub next p c1 h1 hub all_run here1 in
      let counted : length c1.queue.write_queue
          ≡ length (messages_to p system.hub.sent) - length c.queue.written =
        omega (
          arith,
          ap length all,
          length-append c1.queue.written c1.queue.write_queue,
          ap length written,
        ) in
      let (last, c', leads', hub', executed', here', empty) =
        writes_drain json p (length (messages_to p system.hub.sent) - length c.queue.written) next
          c1 h1 here1 (ap (λ (x : Session). x.closing) same ∙ open_still) counted in
      let (are, ran_on) = Leads-append json _ _ system next last leads leads' in
      let h2 = run-IsSound json (remaining p system c) system last h are ran_on in
      (
        are,
        (
          last,
          c',
          ran_on,
          hub' ∙ hub,
          here',
          empty,
          none_waits c'.queue.written c'.queue.write_queue (messages_to p system.hub.sent)
              (all_written system.hub last p c' h2 (hub' ∙ hub) (executed' ∙ all_run) here') empty,
        ),
      )

  -- In every state that the server reaches, for every session that is not closing: when the posted
  -- functions that are left have run and the writes of the session have completed, a number of
  -- events that the state determines and that all are possible, its queue is empty, and what was
  -- written to its client is all that was ever posted to it, in the order of the posts.
  pub remaining-delivers :
      (events : List Event) (system : System) (p : ParticipantId) (c : Connection)
      → ArePossible json events begun
      → run json events begun ≡ some system
      → system.connections p ≡ some c
      → c.session.closing ≡ false
      → ArePossible json (remaining p system c) system
        × ((last : System) × (c' : Connection) × (run json (remaining p system c) system
              ≡ some last)
            × (last.hub ≡ system.hub)
            × (last.connections p ≡ some c')
            × (c'.queue.write_queue ≡ [])
            × (c'.queue.written ≡ messages_to p system.hub.sent))
  remaining-delivers events system p c possible ran here open_still =
      sound-delivers system p c
        (run-IsSound json events begun system (begun-IsSound json) possible ran) here open_still
