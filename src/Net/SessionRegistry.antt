-- ===== src/Net/SessionRegistry.antt =====
-- SessionRegistry.hpp and SessionRegistry.cpp. Each method holds the mutex throughout.
use buzzweb_server.Common.{
  ℕ, ◌≡◌, Option, none, some, List, [], ◌∷◌, ◌==◌, eq_iff, arith, if◌then◌else◌,
}
use buzzweb_server.Common.UnorderedMap
use buzzweb_server.Common.UnorderedMap.{UnorderedMap, find-assign, find-erase}
use buzzweb_server.Domain.Participant.{ParticipantId}

-- A shared pointer to a session: which object it is, and the id that the object has for life.
pub record SessionPtr : Type 0 where
  pub number : ℕ
  pub participant_id : ParticipantId

-- `sessions_`
abbrev pub Registry : Type 0
Registry = UnorderedMap SessionPtr

-- A null pointer is not added; a session of the same id is replaced.
unfoldable pub add : Option SessionPtr → Registry → Registry
add none registry = registry
add (some session) registry = UnorderedMap.assign session.participant_id session registry

unfoldable pub remove : ParticipantId → Registry → Registry
remove participant_id registry = UnorderedMap.erase participant_id registry

unfoldable pub find : ParticipantId → Registry → Option SessionPtr
find participant_id registry = UnorderedMap.find participant_id registry

unfoldable pub get_participant_ids : Registry → List ParticipantId
get_participant_ids registry = UnorderedMap.keys registry

pub find-add :
    (session : SessionPtr) (p : ParticipantId) (registry : Registry)
    → find p (add (some session) registry)
      ≡ (if session.participant_id == p then some session else find p registry)
unfolding find add
find-add session p registry = find-assign session.participant_id p session registry

pub find-remove :
    (q p : ParticipantId) (registry : Registry)
    → find p (remove q registry) ≡ (if q == p then none else find p registry)
unfolding find remove
find-remove q p registry = find-erase q p registry

-- Every session stands under its own id.
abbrev pub IsKeyed : Registry → Type 0
IsKeyed registry =
    (p : ParticipantId) (session : SessionPtr)
    → find p registry ≡ some session
    → session.participant_id ≡ p

pub add-IsKeyed :
    (session : SessionPtr) (registry : Registry)
    → IsKeyed registry
    → IsKeyed (add (some session) registry)
add-IsKeyed session registry keyed p other e =
    ground (arith, eq_iff session.participant_id p, find-add session p registry, keyed p other)

pub remove-IsKeyed :
    (q : ParticipantId) (registry : Registry) → IsKeyed registry → IsKeyed (remove q registry)
remove-IsKeyed q registry keyed p other e =
    ground (arith, eq_iff q p, find-remove q p registry, keyed p other)

pub data Change : Type 0 where
  adds : Option SessionPtr → Change
  removes : ParticipantId → Change

abbrev pub change : Change → Registry → Registry
change (adds session) registry = add session registry
change (removes participant_id) registry = remove participant_id registry

unfoldable pub changes : List Change → Registry → Registry
changes [] registry = registry
changes (c ∷ rest) registry = changes rest (change c registry)

change-IsKeyed : (c : Change) (registry : Registry) → IsKeyed registry → IsKeyed (change c registry)
unfolding add
change-IsKeyed (adds none) registry keyed = keyed
change-IsKeyed (adds (some session)) registry keyed = add-IsKeyed session registry keyed
change-IsKeyed (removes q) registry keyed = remove-IsKeyed q registry keyed

-- After any additions, of null pointers too, and removals, whoever is found under a participant's
-- id is a session of that participant.
pub changes-IsKeyed :
    (cs : List Change) (registry : Registry) → IsKeyed registry → IsKeyed (changes cs registry)
unfolding changes
changes-IsKeyed [] registry keyed = keyed
changes-IsKeyed (c ∷ rest) registry keyed =
    changes-IsKeyed rest (change c registry) (change-IsKeyed c registry keyed)
