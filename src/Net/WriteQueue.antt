-- ===== src/Net/WriteQueue.antt =====
-- `Send`, `DoWrite` and the completion of a write, in Session.hpp. All run on the session's
-- executor, one at a time; an event loop chooses when. Beast allows one `async_write` at a time.
pub mod Order
pub mod Draining
use buzzweb_server.Common.{
  String, ◌≡◌, refl, ◌∙◌, ap, Bool, true, false, not, ◌||◌, Option, none, some, List, [], ◌∷◌, ◌++◌,
  arith, sym, subst, is_empty, if◌then◌else◌,
}
use mathlib.Core.List.{append_assoc}

-- `in_flight` says that an `async_write` was started and has not completed; `written` is what the
-- completed ones have sent, and `accepted` what `Send` was given, both oldest first.
pub record WriteQueue : Type 0 where
  pub write_queue : List String
  pub closing : Bool
  pub in_flight : Bool
  pub written : List String
  pub accepted : List String

abbrev pub fresh : WriteQueue
fresh = record { write_queue = []; closing = false; in_flight = false; written = []; accepted = [] }

-- `none` is a second write at the same time.
abbrev async_write : WriteQueue → Option WriteQueue
async_write w = if w.in_flight then none else some (record w { in_flight = true })

unfoldable pub do_write : WriteQueue → Option WriteQueue
do_write w = if is_empty w.write_queue || w.closing then some w else async_write w

-- the function that `Send` posts
unfoldable pub send : String → WriteQueue → Option WriteQueue
unfolding do_write
send message w =
    let writing = not (is_empty w.write_queue) in
    let pushed = record w {
      write_queue = w.write_queue ++ message ∷ [];
      accepted = w.accepted ++ message ∷ [];
    } in
    if not writing then do_write pushed else some pushed

abbrev pop_front : List String → List String
pop_front [] = []
pop_front (_ ∷ rest) = rest

abbrev front : List String → List String
front [] = []
front (message ∷ _) = message ∷ []

-- the completion without an error
unfoldable pub write_done : WriteQueue → Option WriteQueue
unfolding do_write
write_done w =
    let popped = record w {
      in_flight = false;
      write_queue = pop_front w.write_queue;
      written = w.written ++ front w.write_queue;
    } in
    if not (is_empty popped.write_queue) then do_write popped else some popped

-- the completion with an error: `Fail` sets `closing_`, and the message stays in the queue
abbrev pub write_error : WriteQueue → WriteQueue
write_error w = record w { in_flight = false; closing = true }

unfoldable pub write_failed : WriteQueue → Option WriteQueue
write_failed w = some (write_error w)

-- `Close` and `Fail`, as far as the queue goes
unfoldable pub start_closing : WriteQueue → Option WriteQueue
start_closing w = some (record w { closing = true })

pub data Event : Type 0 where
  sends : String → Event
  completes fails closes : Event

-- A write can complete only while one is in flight.
abbrev pub IsPossible : Event → WriteQueue → Type 0
IsPossible (sends message) w = Unit {0}
IsPossible completes w = w.in_flight ≡ true
IsPossible fails w = w.in_flight ≡ true
IsPossible closes w = Unit {0}

unfoldable pub step : Event → WriteQueue → Option WriteQueue
unfolding send write_done write_failed start_closing
step (sends message) w = send message w
step completes w = write_done w
step fails w = write_failed w
step closes w = start_closing w

-- the events one after another; `none` when two writes overlap
unfoldable pub run : List Event → WriteQueue → Option WriteQueue
run [] w = some w
run (event ∷ events) w = elim (step event w) [ none ↦ none | some w' ↦ run events w' ]

-- each event is possible when it happens
unfoldable pub ArePossible : List Event → WriteQueue → Type 0
ArePossible [] w = Unit {0}
ArePossible (event ∷ events) w =
    IsPossible event w × elim (step event w) [ none ↦ Unit {0} | some w' ↦ ArePossible events w' ]
