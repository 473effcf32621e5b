-- ===== src/Net/Connection/Reading.antt =====
-- What the completion of a read, the completion of a write, `Close` and the function that `Send`
-- posts keep of a session and its stream, Session.hpp.
use buzzweb_server.Common.{
  ℕ, suc, String, ◌≡◌, refl, sym, ap, subst, ◌∙◌, Bool, true, false, some, [], ◌∷◌, ◌++◌, arith,
  Bool-cases, inl, inr,
}
use buzzweb_server.Domain.RoomRepository.{RoomRepository}
use buzzweb_server.App.Json.{Json}
use buzzweb_server.Net.SessionRegistry.{SessionPtr}
use buzzweb_server.Net.WriteQueue
use buzzweb_server.Net.WriteQueue.{WriteQueue, write_error}
use buzzweb_server.Net.WriteQueue.Order.{
  IsConsistent, step-IsConsistent, shut-IsConsistent, write_done-keeps, send-keeps,
}
use buzzweb_server.Net.Session
use buzzweb_server.Net.Session.{Hub, Session, ReadResult, remove_from_registry}
use buzzweb_server.Net.Session.Posting.{
  AllKnown, Extends-none, handle_message-Extends, remove_from_registry-Extends,
}
use buzzweb_server.Net.Connection
use buzzweb_server.Net.Connection.{Outstanding, Connection, completed, resumed, after_close}
use buzzweb_server.Net.Connection.Health.{
  IsHealthy, IsHandled, broken-IsHandled, ended-IsHandled, synced,
}

pub send_posted-IsHealthy :
    (message : String) (c : Connection)
    → IsHealthy c
    → (c' : Connection) × (Connection.send_posted message c ≡ some c')
      × IsHealthy c'
      × (c'.session ≡ c.session)
      × (c'.queue.accepted ≡ c.queue.accepted ++ message ∷ [])
      × (c'.queue.written ≡ c.queue.written)
unfolding Connection.send_posted WriteQueue.step
send_posted-IsHealthy message c h =
    let (w, e, ordered) = step-IsConsistent (WriteQueue.Event.sends message) c.queue h.ordered tt in
    let (same, added, sent) = send-keeps message c.queue w e in
    (
      record c { queue = w },
      rw e refl,
      record {
        ordered = ordered;
        in_step = same ∙ h.in_step;
        reading = h.reading;
        once = h.once;
        unsent = h.unsent;
      },
      refl,
      added,
      sent,
    )

module _ (K : SessionPtr → Type 0) {S : Type 0} (json : Json) (repository : RoomRepository S)
    (draw : ℕ → ℕ) (s : S) (hub : Hub) (known : AllKnown K hub.registry) where
  pub write-IsHandled :
      (failed : Bool) (c : Connection)
      → IsHealthy c
      → c.queue.in_flight ≡ true
      → IsHandled K c hub (Connection.on_write json repository draw failed c (s, hub))
  unfolding Connection.on_write WriteQueue.step
  write-IsHandled true c h possible =
      broken-IsHandled K json repository draw s hub known c
        (record c { queue = write_error c.queue })
        (shut-IsConsistent c.queue false (λ e. absurd (ground (arith, e))) h.ordered) h.once refl
  write-IsHandled false c h possible =
      let (w, e, ordered) =
        step-IsConsistent WriteQueue.Event.completes c.queue h.ordered possible in
      let (same, sent) = write_done-keeps c.queue w e in
      (
        record c { queue = w },
        (s, hub),
        rw e refl,
        record {
          ordered = ordered;
          in_step = same ∙ h.in_step;
          reading = h.reading;
          once = h.once;
          unsent = h.unsent;
        },
        refl,
        sent,
        Extends-none K hub known,
      )

  -- The reads of a session are over, and it is not registered any more.
  done_reading-IsHandled :
      (c : Connection)
      → IsHealthy c
      → IsHandled K c hub (Connection.on_read json repository draw ReadResult.closed c (s, hub))
  unfolding Connection.on_read Session.on_read
  done_reading-IsHandled c h =
      let (e, extends) =
        remove_from_registry-Extends K json repository draw c.session s hub known in
      let closing = ap (λ (x : Session). x.closing) e in
      (
        _,
        _,
        refl,
        record {
          ordered =
              subst (λ b. IsConsistent (record c.queue { closing = b })) (sym closing) (synced c h);
          in_step = refl;
          reading = λ on. absurd (ground (arith, on, ap (λ (x : Session). x.registered) e));
          once = h.once;
          unsent = λ off. h.unsent (sym closing ∙ off);
        },
        ap (λ (x : Session). x.self) e,
        refl,
        extends,
      )

  -- A message was handled, and the next is read.
  reading_on-IsHealthy :
      (c : Connection)
      → IsHealthy c
      → IsHealthy (record c {
        outstanding = Outstanding.read;
        queue = record c.queue { closing = c.session.closing };
      })
  reading_on-IsHealthy c h = record {
    ordered = synced c h;
    in_step = refl;
    reading = λ on. refl;
    once = h.once;
    unsent = h.unsent;
  }

  pub read-IsHandled :
      (result : ReadResult) (c : Connection)
      → IsHealthy c
      → K c.session.self
      → IsHandled K c hub (Connection.on_read json repository draw result c (s, hub))
  unfolding Connection.on_read Session.on_read
  read-IsHandled ReadResult.closed c h own = done_reading-IsHandled c h
  read-IsHandled ReadResult.failed c h own =
      broken-IsHandled K json repository draw s hub known c (completed c) h.ordered h.once refl
  read-IsHandled ReadResult.binary c h own = (
    _,
    _,
    refl,
    reading_on-IsHealthy c h,
    refl,
    refl,
    (known, ((c.session.self, _) ∷ [], refl, (own, tt))),
  )
  read-IsHandled (ReadResult.text_message message) c h own =
      let (returns, extends) =
        handle_message-Extends K json repository draw c.session.self message s hub own known in
      rw returns (_, _, refl, reading_on-IsHealthy c h, refl, refl, extends)

  first_close-IsHandled :
      (is_open : Bool) (c : Connection)
      → IsHealthy c
      → c.session.closing ≡ false
      → IsHandled K c hub (
          resumed (after_close false is_open) c (
            remove_from_registry json repository draw
              (record c.session { closing = true })
              (s, hub)))
  first_close-IsHandled true c h first =
      ended-IsHandled K json repository draw s hub known c c c.socket_open (suc c.close_frames)
        h.ordered (omega (arith, h.unsent first)) refl
  first_close-IsHandled false c h first =
      ended-IsHandled K json repository draw s hub known c c false c.close_frames h.ordered h.once
        refl

  pub close-IsHandled :
      (is_open : Bool) (c : Connection)
      → IsHealthy c
      → IsHandled K c hub (Connection.close json repository draw is_open c (s, hub))
  unfolding Connection.close Session.close
  close-IsHandled is_open c h = elim (Bool-cases c.session.closing) [
    | inl again ↦ simp (again) (
      record c { queue = record c.queue { closing = true } },
      (s, hub),
      refl,
      record {
        ordered = shut-IsConsistent c.queue c.queue.in_flight (λ e. e) h.ordered;
        in_step = sym again;
        reading = h.reading;
        once = h.once;
        unsent = h.unsent;
      },
      refl,
      refl,
      Extends-none K hub known,
    )
    | inr first ↦ simp (first) (first_close-IsHandled is_open c h first)
  ]
