-- ===== src/Net/EventLoop/Presence.antt =====
-- The sessions of those who are in a room, through the events of Net/EventLoop.
use buzzweb_server.Common.{
  ℕ, String, ◌≡◌, inl, inr, refl, sym, subst, Bool, true, false, Option, none, some, ◌==◌, eq_iff,
  arith, has_value, if◌then◌else◌, Bool-cases,
}
use buzzweb_server.Domain.Participant.{ParticipantId}
use buzzweb_server.Domain.Room.{RoomCode}
use buzzweb_server.Domain.RoomRepository.{holds}
use buzzweb_server.Domain.InMemory.{Rooms, in_memory}
use buzzweb_server.Domain.InMemory.Refinement.{view, in_memory-Contract}
use buzzweb_server.App.ControlDispatcher.Spec.{Stored}
use buzzweb_server.App.Json.{Json}
use buzzweb_server.Net.SessionRegistry
use buzzweb_server.Net.SessionRegistry.{SessionPtr, Registry, IsKeyed, add-IsKeyed, find-add}
use buzzweb_server.Net.Session.{Hub, Session, ReadResult, on_read, remove_from_registry}
use buzzweb_server.Net.Session.Entering.{IsEntry, handle_message-IsEntry}
use buzzweb_server.Net.Session.Replies.{handle_message-private}
use buzzweb_server.Net.Session.Removal.{remove_from_registry-removes}
use buzzweb_server.Net.EventLoop.{Sessions, Running, set, updated, after_read}

abbrev pub counts : Option Session → Bool
counts none = false
counts (some session) = session.registered

-- The sessions that count as registered are those in the registry, and everyone in a room has one.
pub record IsPresent (sessions : Sessions) (registry : Registry) (stored : Stored) : Type 0 where
  pub keyed : IsKeyed registry
  pub named :
      (p : ParticipantId) (session : Session)
      → sessions p ≡ some session
      → session.self.participant_id ≡ p
  pub listed :
      (p : ParticipantId) (session : Session)
      → sessions p ≡ some session
      → session.registered ≡ true
      → has_value (SessionRegistry.find p registry) ≡ true
  pub enrolled :
      (p : ParticipantId)
      → has_value (SessionRegistry.find p registry) ≡ true
      → counts (sessions p) ≡ true
  pub present :
      (p : ParticipantId) (code : RoomCode)
      → holds p (stored code) ≡ true
      → has_value (SessionRegistry.find p registry) ≡ true

abbrev pub IsPresentIn : Running → Type 0
IsPresentIn running = IsPresent running.sessions running.hub.registry (view running.rooms)

pub accepted-IsPresent :
    (sessions : Sessions) (registry : Registry) (stored : Stored) (session : Session)
    → IsPresent sessions registry stored
    → session.registered ≡ true
    → IsPresent (set session sessions) (SessionRegistry.add (some session.self) registry) stored
accepted-IsPresent sessions registry stored session h on_now = record {
  keyed = add-IsKeyed session.self registry h.keyed;
  named = λ p other e. ground (arith, e, eq_iff session.self.participant_id p, h.named p other);
  listed =
      λ p other e on. ground (arith, e, on, find-add session.self p registry, h.listed p other);
  enrolled =
      λ p found. ground (arith, found, on_now, find-add session.self p registry, h.enrolled p);
  present = λ p code e. ground (arith, find-add session.self p registry, h.present p code e);
}

-- A new session, which is not registered.
pub connected-IsPresent :
    (sessions : Sessions) (registry : Registry) (stored : Stored) (session : Session)
    → IsPresent sessions registry stored
    → sessions session.self.participant_id ≡ none
    → session.registered ≡ false
    → IsPresent (set session sessions) registry stored
connected-IsPresent sessions registry stored session h free off = record {
  keyed = h.keyed;
  named = λ p other e. ground (arith, e, eq_iff session.self.participant_id p, h.named p other);
  listed = λ p other e on. ground (arith, e, on, off, h.listed p other);
  enrolled = λ p found.
      ground (arith, found, free, eq_iff session.self.participant_id p, h.enrolled p found);
  present = h.present;
}

-- A session that changes neither the registry nor the rooms, and is as registered as before.
pub kept-IsPresent :
    (sessions : Sessions) (registry : Registry) (stored : Stored) (p : ParticipantId)
    (session session' : Session)
    → IsPresent sessions registry stored
    → sessions p ≡ some session
    → session'.self ≡ session.self
    → session'.registered ≡ session.registered
    → IsPresent (set session' sessions) registry stored
kept-IsPresent sessions registry stored p session session' h here same as_before = record {
  keyed = h.keyed;
  named = λ q other e. ground (arith, e, eq_iff session'.self.participant_id q, h.named q other);
  listed = λ q other e on. ground (
    arith,
    e,
    on,
    here,
    same,
    as_before,
    eq_iff session'.self.participant_id q,
    h.named p session here,
    h.listed q other,
    h.listed p session here,
  );
  enrolled = λ q found. ground (
    arith,
    found,
    here,
    same,
    as_before,
    eq_iff session'.self.participant_id q,
    h.named p session here,
    h.enrolled q found,
  );
  present = h.present;
}

-- A session that is taken out of the registry and its participant out of the rooms.
gone-IsPresent :
    (sessions : Sessions) (registry registry' : Registry) (stored stored' : Stored)
    (session : Session)
    → IsPresent sessions registry stored
    → session.registered ≡ false
    → ((q : ParticipantId)
        → SessionRegistry.find q registry'
          ≡ (if session.self.participant_id == q then none else SessionRegistry.find q registry))
    → ((q : ParticipantId) (code : RoomCode)
        → holds q (stored' code)
          ≡ (if session.self.participant_id == q then false else holds q (stored code)))
    → IsPresent (set session sessions) registry' stored'
gone-IsPresent sessions registry registry' stored stored' session h off found holding = record {
  keyed = λ q other e. ground (arith, e, found q, h.keyed q other);
  named = λ q other e. ground (arith, e, eq_iff session.self.participant_id q, h.named q other);
  listed = λ q other e on. ground (arith, e, on, off, found q, h.listed q other);
  enrolled = λ q there. ground (arith, there, off, found q, h.enrolled q);
  present = λ q code e. ground (arith, e, found q, holding q code, h.present q code);
}

-- Rooms that only the participant of a registered session has entered.
entered-IsPresent :
    (sessions : Sessions) (registry : Registry) (stored stored' : Stored) (p : ParticipantId)
    (session : Session)
    → IsPresent sessions registry stored
    → sessions p ≡ some session
    → session.registered ≡ true
    → ((code : RoomCode) → IsEntry session.self.participant_id (stored code) (stored' code))
    → IsPresent (set session sessions) registry stored'
entered-IsPresent sessions registry stored stored' p session h here on entries =
    let kept = kept-IsPresent sessions registry stored p session session h here refl refl in
    record {
      keyed = h.keyed;
      named = kept.named;
      listed = kept.listed;
      enrolled = kept.enrolled;
      present = λ q code e. elim (entries code q e) [
        | inl before ↦ h.present q code before
        | inr same ↦ rw (same, h.named p session here) (h.listed p session here on)
      ];
    }

module _ (json : Json) (draw : ℕ → ℕ) where
  remove_from_registry-self :
      (session : Session) (world : Rooms × Hub)
      → (remove_from_registry json in_memory draw session world).0.self ≡ session.self
  unfolding remove_from_registry
  remove_from_registry-self session world = elim (Bool-cases session.registered) [
    | inl on ↦ simp (on) refl
    | inr off ↦ simp (off) refl
  ]

  remove_from_registry-off :
      (session : Session) (world : Rooms × Hub)
      → session.registered ≡ false
      → remove_from_registry json in_memory draw session world ≡ (session, world)
  unfolding remove_from_registry
  remove_from_registry-off session world off = simp (off) refl

  -- The end of a session, with its flag for the closing set or not.
  pub removed-IsPresent :
      (sessions : Sessions) (rooms : Rooms) (hub : Hub) (p : ParticipantId)
      (session session' : Session)
      → IsPresent sessions hub.registry (view rooms)
      → sessions p ≡ some session
      → session'.self ≡ session.self
      → session'.registered ≡ session.registered
      → IsPresentIn
          (updated sessions (remove_from_registry json in_memory draw session' (rooms, hub)))
  removed-IsPresent sessions rooms hub p session session' h here same as_before =
      elim (Bool-cases session'.registered) [
        | inl on ↦
            let (off, found, holding, sent, again) =
              remove_from_registry-removes json in_memory-Contract draw session' rooms hub on
                h.keyed in
            let self = remove_from_registry-self session' (rooms, hub) in
            gone-IsPresent sessions hub.registry _ (view rooms) _ _ h off (λ q. rw self (found q))
              (λ q code. rw self (holding q code))
        | inr off ↦
            subst (λ result. IsPresentIn (updated sessions result))
              (sym (remove_from_registry-off session' (rooms, hub) off))
              (kept-IsPresent sessions hub.registry (view rooms) p session session' h here same
                as_before)
      ]

  -- A text that is read on a registered session.
  pub served-IsPresent :
      (sessions : Sessions) (rooms : Rooms) (hub : Hub) (p : ParticipantId) (session : Session)
      (message : String)
      → IsPresent sessions hub.registry (view rooms)
      → sessions p ≡ some session
      → session.registered ≡ true
      → IsPresentIn (
          updated sessions (
            after_read session
              (on_read json in_memory draw (ReadResult.text_message message) session (rooms, hub))))
  unfolding on_read
  served-IsPresent sessions rooms hub p session message h here on =
      let (returns, (more, same, allowed)) =
        handle_message-private json in_memory-Contract draw session.self rooms hub message
          h.keyed in
      rw (returns, same)
        (entered-IsPresent sessions hub.registry (view rooms) _ p session h here on
          (handle_message-IsEntry json in_memory-Contract draw session.self rooms hub message))
