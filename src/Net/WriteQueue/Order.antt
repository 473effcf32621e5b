-- ===== src/Net/WriteQueue/Order.antt =====
-- The order in which the messages of a session are written, Session.hpp.
use buzzweb_server.Common.{
  String, ◌≡◌, refl, ◌∙◌, ap, Bool, true, false, not, none, some, List, [], ◌∷◌, ◌++◌, arith, sym,
  subst, is_empty,
}
use mathlib.Core.List.{append_assoc}
use buzzweb_server.Net.WriteQueue.{
  WriteQueue, fresh, do_write, send, write_done, write_failed, start_closing, Event, sends,
  completes, fails, closes, IsPossible, step, run, ArePossible,
}

pub record IsConsistent (w : WriteQueue) : Type 0 where
  pub busy : w.in_flight ≡ true → is_empty w.write_queue ≡ false
  pub live : w.closing ≡ false → is_empty w.write_queue ≡ not w.in_flight
  pub order : w.written ++ w.write_queue ≡ w.accepted

module _ (written accepted : List String) where
  abbrev queued : List String → Bool → Bool → WriteQueue
  queued messages closed flying = record {
    write_queue = messages;
    closing = closed;
    in_flight = flying;
    written = written;
    accepted = accepted;
  }

  pushed_order :
      (message : String) (messages : List String)
      → written ++ messages ≡ accepted
      → written ++ (messages ++ message ∷ []) ≡ accepted ++ message ∷ []
  pushed_order message messages order =
      sym (append_assoc written messages (message ∷ [])) ∙ ap (λ l. l ++ message ∷ []) order

  send-IsConsistent :
      (message : String) (messages : List String) (closed flying : Bool)
      → IsConsistent (queued messages closed flying)
      → (w' : WriteQueue) × (send message (queued messages closed flying) ≡ some w')
        × IsConsistent w'
  unfolding send do_write
  send-IsConsistent message [] false false c = (
    _,
    refl,
    record { busy = λ _. refl; live = λ _. refl; order = pushed_order message [] c.order },
  )
  send-IsConsistent message [] true false c = (
    _,
    refl,
    record {
      busy = λ _. refl;
      live = λ e. absurd (ground (arith, e));
      order = pushed_order message [] c.order;
    },
  )
  send-IsConsistent message [] closed true c = absurd (ground (arith, c.busy refl))
  send-IsConsistent message (m ∷ messages) closed flying c = (
    _,
    refl,
    record { busy = λ _. refl; live = c.live; order = pushed_order message (m ∷ messages) c.order },
  )

  write_done-IsConsistent :
      (messages : List String) (closed : Bool)
      → IsConsistent (queued messages closed true)
      → (w' : WriteQueue) × (write_done (queued messages closed true) ≡ some w') × IsConsistent w'
  unfolding write_done do_write
  write_done-IsConsistent [] closed c = absurd (ground (arith, c.busy refl))
  write_done-IsConsistent (m ∷ []) closed c = (
    _,
    refl,
    record {
      busy = λ e. absurd (ground (arith, e));
      live = λ _. refl;
      order = append_assoc written (m ∷ []) [] ∙ c.order;
    },
  )
  write_done-IsConsistent (m ∷ n ∷ messages) false c = (
    _,
    refl,
    record {
      busy = λ _. refl;
      live = λ _. refl;
      order = append_assoc written (m ∷ []) (n ∷ messages) ∙ c.order;
    },
  )
  write_done-IsConsistent (m ∷ n ∷ messages) true c = (
    _,
    refl,
    record {
      busy = λ _. refl;
      live = λ e. absurd (ground (arith, e));
      order = append_assoc written (m ∷ []) (n ∷ messages) ∙ c.order;
    },
  )

pub shut-IsConsistent :
    (w : WriteQueue) (flying : Bool)
    → (flying ≡ true → w.in_flight ≡ true)
    → IsConsistent w
    → IsConsistent (record w { in_flight = flying; closing = true })
shut-IsConsistent w flying sooner c = record {
  busy = λ e. c.busy (sooner e);
  live = λ e. absurd (ground (arith, e));
  order = c.order;
}

pub step-IsConsistent :
    (event : Event) (w : WriteQueue)
    → IsConsistent w
    → IsPossible event w
    → (w' : WriteQueue) × (step event w ≡ some w') × IsConsistent w'
unfolding step write_failed start_closing
step-IsConsistent (sends message) w c possible =
    send-IsConsistent w.written w.accepted message w.write_queue w.closing w.in_flight c
step-IsConsistent completes w c possible =
    let flying =
      subst (λ b. IsConsistent (queued w.written w.accepted w.write_queue w.closing b)) possible
        c in
    let (w', e, c') = write_done-IsConsistent w.written w.accepted w.write_queue w.closing flying in
    (
      w',
      ap (λ b. write_done (queued w.written w.accepted w.write_queue w.closing b)) possible ∙ e,
      c',
    )
step-IsConsistent fails w c possible =
    (_, refl, shut-IsConsistent w false (λ e. absurd (ground (arith, e))) c)
step-IsConsistent closes w c possible = (_, refl, shut-IsConsistent w w.in_flight (λ e. e) c)

pub send-keeps :
    (message : String) (w w' : WriteQueue)
    → send message w ≡ some w'
    → (w'.closing ≡ w.closing)
      × (w'.accepted ≡ w.accepted ++ message ∷ [])
      × (w'.written ≡ w.written)
unfolding send do_write
send-keeps message w w' e = ground (arith, e)

pub write_done-keeps :
    (w w' : WriteQueue)
    → write_done w ≡ some w'
    → (w'.closing ≡ w.closing) × (w'.accepted ≡ w.accepted)
unfolding write_done do_write
write_done-keeps w w' e = ground (arith, e)

pub fresh-IsConsistent : IsConsistent fresh
fresh-IsConsistent = record {
  busy = λ e. absurd (ground (arith, e));
  live = λ _. refl;
  order = refl;
}

run-IsConsistent :
    (events : List Event) (w : WriteQueue)
    → IsConsistent w
    → ArePossible events w
    → (w' : WriteQueue) × (run events w ≡ some w') × IsConsistent w'
unfolding run ArePossible
run-IsConsistent [] w c possible = (w, refl, c)
run-IsConsistent (event ∷ events) w c possible =
    let (w1, e1, c1) = step-IsConsistent event w c possible.0 in
    let (w2, e2, c2) =
      run-IsConsistent events w1 c1
        (subst (λ o. elim o [ none ↦ Unit {0} | some w' ↦ ArePossible events w' ]) e1 possible.1) in
    (w2, rw (run, e1) e2, c2)

pub is_empty_nil : (messages : List String) → is_empty messages ≡ true → messages ≡ []
is_empty_nil [] e = refl
is_empty_nil (m ∷ messages) e = absurd (ground (arith, e))

-- Whatever the event loop does with a new session's sends, completions, write errors and closes, in
-- whatever order: no write is started while another is in flight; what has been written, followed
-- by what waits, is what was sent, in the order of the sends; and until the session closes, a
-- message waits only while a write is in flight.
pub run-in_order :
    (events : List Event)
    → ArePossible events fresh
    → (w : WriteQueue) × (run events fresh ≡ some w)
      × (w.written ++ w.write_queue ≡ w.accepted)
      × (w.closing ≡ false → w.in_flight ≡ false → w.write_queue ≡ [])
run-in_order events possible =
    let (w, e, c) = run-IsConsistent events fresh fresh-IsConsistent possible in
    (
      w,
      e,
      c.order,
      λ closing idle. is_empty_nil w.write_queue (ground (arith, c.live closing, idle)),
    )
