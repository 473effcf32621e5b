-- ===== src/Net/Listener/Accepting.antt =====
-- The accept loop of Listener.cpp over a sequence of connections, errors and stops.
use buzzweb_server.Common.{
  String, Option, Option-cases, inl, inr, ◌≡◌, refl, sym, ◌∙◌, Bool, true, false, List, [], ◌∷◌,
  ◌++◌, if◌then◌else◌, arith, returned, append-nil,
}
use mathlib.Core.List.{append_assoc}
use buzzweb_server.Net.Listener.{
  SessionKind, Listener, Setup, new_listener, set_up, start, Happening, accepted, accept_failed,
  stopped, happen, on_accept, stop, accept_next, completed, run,
}

abbrev pub kind_for : Bool → SessionKind
kind_for tls_enabled = if tls_enabled then SessionKind.ssl_session else SessionKind.plain_session

-- one session for each connection that came before the stop
abbrev pub expected : Bool → List Happening → List SessionKind
expected tls_enabled [] = []
expected tls_enabled (accepted ∷ rest) = kind_for tls_enabled ∷ expected tls_enabled rest
expected tls_enabled (accept_failed ∷ rest) = expected tls_enabled rest
expected tls_enabled (stopped ∷ rest) = []

run_closed :
    (happenings : List Happening) (listener : Listener)
    → listener.is_open ≡ false
    → ((run happenings listener).is_open ≡ false)
      × ((run happenings listener).started ≡ listener.started)
unfolding run happen on_accept stop
run_closed [] listener shut = (shut, refl)
run_closed (accepted ∷ rest) listener shut =
    let next = run_closed rest (on_accept false (completed listener)) (simp (shut) refl) in
    (next.0, next.1 ∙ simp (shut) refl)
run_closed (accept_failed ∷ rest) listener shut =
    let next = run_closed rest (on_accept true (completed listener)) (simp (shut) refl) in
    (next.0, next.1 ∙ simp (shut) refl)
run_closed (stopped ∷ rest) listener shut = run_closed rest (stop listener) refl

abbrev listening : Bool → Bool → List SessionKind → Listener
listening opened tls_enabled before = record {
  is_open = opened;
  pending = 1;
  tls_enabled = tls_enabled;
  started = before;
}

run_open :
    (happenings : List Happening) (tls_enabled : Bool) (before : List SessionKind)
    → let listener = listening true tls_enabled before in
      ((run happenings listener).started ≡ before ++ expected tls_enabled happenings)
      × ((run happenings listener).is_open ≡ true → (run happenings listener).pending ≡ 1)
unfolding run happen on_accept stop accept_next
run_open [] tls_enabled before = (sym (append-nil before), λ o. refl)
run_open (accepted ∷ rest) tls_enabled before =
    let next = run_open rest tls_enabled (before ++ kind_for tls_enabled ∷ []) in
    (next.0 ∙ append_assoc before (kind_for tls_enabled ∷ []) (expected tls_enabled rest), next.1)
run_open (accept_failed ∷ rest) tls_enabled before = run_open rest tls_enabled before
run_open (stopped ∷ rest) tls_enabled before =
    let next = run_closed rest (listening false tls_enabled before) refl in
    (next.1 ∙ sym (append-nil before), λ o. absurd (ground (arith, o, next.0)))

-- Over every sequence of connections, failed accepts and stops after the start: each connection
-- before the stop has one session of the configured kind, in the order of the connections, and none
-- has one after it; failed accepts do not end the loop; and while the acceptor is open, exactly one
-- accept is outstanding.
pub started-run :
    (failure : Setup → Option String) (tls_enabled : Bool) (listener : Listener)
    (happenings : List Happening)
    → new_listener failure tls_enabled ≡ returned listener
    → ((run happenings (start listener)).started ≡ expected tls_enabled happenings)
      × ((run happenings (start listener)).is_open ≡ true
          → (run happenings (start listener)).pending ≡ 1)
unfolding new_listener start accept_next
started-run failure tls_enabled listener happenings made =
    rw (sym fresh) (run_open happenings tls_enabled [])
  where
    set_up-returned :
        (calls : List Setup) (first : Listener)
        → set_up failure calls first ≡ returned listener
        → first ≡ listener
    set_up-returned [] first e = ground (arith, e)
    set_up-returned (call ∷ calls) first e = elim (Option-cases (failure call)) [
      | inl fine ↦ set_up-returned calls first (ground (arith, e, fine))
      | inr (what, wrong) ↦ absurd (ground (arith, e, wrong))
    ]

    fresh :
        record { is_open = true; pending = 0; tls_enabled = tls_enabled; started = [] } ≡ listener
    fresh =
        set_up-returned (Setup.opens ∷ Setup.sets_reuse_address ∷ Setup.binds ∷ Setup.listens ∷ [])
          _ made
