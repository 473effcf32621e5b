-- ===== src/Net/System/Attended.antt =====
-- Whoever is in a room is attended to: his session reads, so that its end is noticed.
use buzzweb_server.Common.{
  ℕ, String, ◌≡◌, sym, ap, subst, true, false, some, List, [], ◌∷◌, arith, inl, inr, Option-cases,
}
use buzzweb_server.Domain.Participant.{ParticipantId}
use buzzweb_server.Domain.Room.{RoomCode}
use buzzweb_server.Domain.RoomRepository.{holds}
use buzzweb_server.Domain.InMemory.Refinement.{view}
use buzzweb_server.App.Json.{Json}
use buzzweb_server.Net.SessionRegistry
use buzzweb_server.Net.SessionRegistry.{SessionPtr}
use buzzweb_server.Net.Session.{ReadResult}
use buzzweb_server.Net.EventLoop
use buzzweb_server.Net.EventLoop.{AreOrderly}
use buzzweb_server.Net.EventLoop.Presence.{IsPresentIn}
use buzzweb_server.Net.EventLoop.Reachable.{run-IsPresent, started-IsPresent}
use buzzweb_server.Net.Connection.{Connection, Outstanding}
use buzzweb_server.Net.System.{
  System, begun, Event, connects, handshakes, accepts, writes, reads, closes, runs_post, step, run,
  Holds, IsPossible, Afterwards,
}
use buzzweb_server.Net.System.Sound.{IsSound}
use buzzweb_server.Net.System.Delivered.{step-IsSound, begun-IsSound}
use buzzweb_server.Net.System.Visible.{running_of, session_of, visible}
use buzzweb_server.Net.System.Refinement.{step-visible}

-- No text is read on a session that is not registered.
abbrev pub IsAttended : Event → System → Type 0
IsAttended (reads p (ReadResult.text_message message) draw) system =
    Holds (λ c. c.session.registered ≡ true) p system
IsAttended _ system = Unit {0}

-- The events are possible, each when it happens, and attended.
unfoldable pub AreAttended : Json → List Event → System → Type 0
AreAttended json [] system = Unit {0}
AreAttended json (event ∷ events) system =
    IsPossible event system
    × IsAttended event system
    × Afterwards (AreAttended json events) (step json event system)

module _ (json : Json) where
  reads-AreOrderly :
      (p : ParticipantId) (message : String) (draw : ℕ → ℕ) (system : System)
      → IsAttended (reads p (ReadResult.text_message message) draw) system
      → EventLoop.IsOrderly
          (EventLoop.Event.reads p (ReadResult.text_message message) draw)
          (running_of system)
  reads-AreOrderly p message draw system attended session there =
      elim (Option-cases (system.connections p)) [
        | inl nobody ↦ absurd (ground (arith, there, nobody))
        | inr (c, here) ↦ ground (arith, there, here, attended c here)
      ]

  visible-AreOrderly :
      (event : Event) (system : System)
      → IsPossible event system
      → IsAttended event system
      → AreOrderly json (visible event) (running_of system)
  unfolding AreOrderly
  visible-AreOrderly (connects kind self) system possible attended = (ap session_of possible, tt)
  visible-AreOrderly (handshakes p failed) system possible attended = (tt, tt)
  visible-AreOrderly (accepts p failed) system possible attended = (tt, tt)
  visible-AreOrderly (writes p true) system possible attended = (tt, tt)
  visible-AreOrderly (writes p false) system possible attended = tt
  visible-AreOrderly (reads p ReadResult.closed draw) system possible attended = (tt, tt)
  visible-AreOrderly (reads p ReadResult.failed draw) system possible attended = (tt, tt)
  visible-AreOrderly (reads p ReadResult.binary draw) system possible attended = (tt, tt)
  visible-AreOrderly (reads p (ReadResult.text_message message) draw) system possible attended =
      (reads-AreOrderly p message draw system attended, tt)
  visible-AreOrderly (closes p is_open) system possible attended = (tt, tt)
  visible-AreOrderly runs_post system possible attended = tt

  pub run-IsPresentIn :
      (events : List Event) (system last : System)
      → IsSound system
      → IsPresentIn (running_of system)
      → AreAttended json events system
      → run json events system ≡ some last
      → IsSound last × IsPresentIn (running_of last)
  unfolding run AreAttended
  run-IsPresentIn [] system last h present attended e =
      let same : system ≡ last = ground (arith, e) in
      (subst IsSound same h, subst (λ s. IsPresentIn (running_of s)) same present)
  run-IsPresentIn (event ∷ events) system last h present attended e =
      elim (Option-cases (step json event system)) [
        | inl stuck ↦ absurd (ground (arith, e, stuck))
        | inr (next, moved) ↦
            run-IsPresentIn events next last
              (step-IsSound json event system next h attended.0 moved)
              (subst IsPresentIn (sym (step-visible json event system next h moved).0) (
                run-IsPresent json (visible event) (running_of system) present
                  (visible-AreOrderly event system attended.0 attended.1)))
              (subst (Afterwards (AreAttended json events)) moved attended.2)
              (ground (arith, e, moved))
      ]

  -- In every state that the server reaches, everyone who is in a room has a session that counts as
  -- registered, stands in the registry under his id, and has a read outstanding, whose completion
  -- with an error takes him out of all rooms. It is assumed that an operation completes only while it
  -- is outstanding, that a new session has a new id, and that no text is read on a session that is
  -- not registered.
  pub members-attended :
      (events : List Event) (system : System) (p : ParticipantId) (code : RoomCode)
      → AreAttended json events begun
      → run json events begun ≡ some system
      → holds p (view system.rooms code) ≡ true
      → (c : Connection) × (system.connections p ≡ some c)
        × (c.session.registered ≡ true)
        × (c.outstanding ≡ Outstanding.read)
        × ((session : SessionPtr) × (SessionRegistry.find p system.hub.registry ≡ some session)
            × (session.participant_id ≡ p))
  members-attended events system p code attended ran inside =
      let (h, present) =
        run-IsPresentIn events begun system (begun-IsSound json) (started-IsPresent json) attended
          ran in
      let found = present.present p code inside in
      elim (Option-cases (system.connections p)) [
        | inl nobody ↦ absurd (ground (arith, nobody, present.enrolled p found))
        | inr (c, here) ↦ elim (Option-cases (SessionRegistry.find p system.hub.registry)) [
          | inl missing ↦ absurd (ground (arith, missing, found))
          | inr (session, there) ↦
              let on : c.session.registered ≡ true =
                ground (arith, here, present.enrolled p found) in
              (
                c,
                here,
                on,
                (h.healthy p c here).reading on,
                (session, there, present.keyed p session there),
              )
        ]
      ]
