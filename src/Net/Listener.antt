-- ===== src/Net/Listener.antt =====
-- Listener.hpp and Listener.cpp. The acceptor of Boost is kept as whether it is open and how many
-- calls of `async_accept` have not completed.
pub mod Accepting
use buzzweb_server.Common.{
  ℕ, suc, ◌+◌, ◌-◌, String, Bool, true, false, not, Option, none, some, List, [], ◌∷◌, ◌++◌,
  if◌then◌else◌, Outcome, returned, threw,
}

pub data SessionKind : Type 0 where
  plain_session ssl_session : SessionKind

-- `started` are the sessions that were made and started, the oldest first.
pub record Listener : Type 0 where
  pub is_open : Bool
  pub pending : ℕ
  pub tls_enabled : Bool
  pub started : List SessionKind

-- What the constructor calls on the acceptor, in this order; each call may fail.
pub data Setup : Type 0 where
  opens sets_reuse_address binds listens : Setup

abbrev pub set_up : (Setup → Option String) → List Setup → Listener → Outcome Listener
set_up failure [] listener = returned listener
set_up failure (call ∷ calls) listener =
    let rest = set_up failure calls listener in
    elim (failure call) [ none ↦ rest | some what ↦ threw what ]

unfoldable pub new_listener : (Setup → Option String) → Bool → Outcome Listener
new_listener failure tls_enabled =
    set_up failure (Setup.opens ∷ Setup.sets_reuse_address ∷ Setup.binds ∷ Setup.listens ∷ [])
      (record { is_open = true; pending = 0; tls_enabled = tls_enabled; started = [] })

unfoldable pub accept_next : Listener → Listener
accept_next listener = record listener { pending = suc listener.pending }

unfoldable pub start : Listener → Listener
unfolding accept_next
start listener = accept_next listener

unfoldable pub stop : Listener → Listener
stop listener = record listener { is_open = false }

abbrev pub start_session : Listener → Listener
start_session listener = record listener {
  started =
      listener.started
      ++ (if listener.tls_enabled then SessionKind.ssl_session else SessionKind.plain_session) ∷ [];
}

-- `failed` says whether there is an error.
unfoldable pub on_accept : Bool → Listener → Listener
unfolding accept_next
on_accept failed listener =
    if not listener.is_open
    then listener
    else if failed
    then accept_next listener
    else accept_next (start_session listener)

-- What the event loop does: an `async_accept` completes, or the server stops the listener.
pub data Happening : Type 0 where
  accepted accept_failed stopped : Happening

abbrev pub completed : Listener → Listener
completed listener = record listener { pending = listener.pending - 1 }

unfoldable pub happen : Happening → Listener → Listener
unfolding on_accept stop
happen accepted listener = on_accept false (completed listener)
happen accept_failed listener = on_accept true (completed listener)
happen stopped listener = stop listener

unfoldable pub run : List Happening → Listener → Listener
unfolding happen
run [] listener = listener
run (happening ∷ rest) listener = run rest (happen happening listener)
