-- ===== src/Net/WriteQueue/Draining.antt =====
-- How the queue of a session empties, Session.hpp.
use buzzweb_server.Common.{ℕ, suc, String, ◌≡◌, refl, false, some, List, [], ◌∷◌, arith, length}
use buzzweb_server.Net.WriteQueue.{WriteQueue, do_write, write_done}

-- One message fewer waits after a write, and the next write is started.
pub write_done-pops :
    (w : WriteQueue) (messages : List String) (n : ℕ)
    → w.write_queue ≡ messages
    → w.closing ≡ false
    → length messages ≡ suc n
    → (w' : WriteQueue) × (write_done w ≡ some w')
      × (length w'.write_queue ≡ n)
      × (w'.closing ≡ false)
unfolding write_done do_write
write_done-pops w [] n waits open_still counted = absurd (omega (arith, counted))
write_done-pops w (m ∷ []) n waits open_still counted =
    rw (waits, open_still) (_, refl, omega (arith, counted), refl)
write_done-pops w (m ∷ m' ∷ messages) n waits open_still counted =
    rw (waits, open_still) (_, refl, omega (arith, counted), refl)
