-- ===== src/App/ControlDispatcher/Commuting.antt =====
-- Requests that clients make of different rooms, in whichever order `Dispatch` gets them.
use buzzweb_server.Common.{
  subst, ℕ, ◌≡◌, ◌≢◌, ◌⊎◌, refl, sym, ap, ◌∙◌, some, List, [], ◌∷◌, ◌++◌, ◌==◌, eq_iff, arith, inl,
  inr, Bool-cases, returned,
}
use mathlib.Core.Path.{fun_ext}
use mathlib.Core.Quot
use mathlib.Core.Quot.{Quot, Quot-set}
use buzzweb_server.Domain.Room.{RoomCode}
use buzzweb_server.Domain.RoomRepository.{RoomRepository, Contract}
use buzzweb_server.App.Messages.{ControlDispatcherRequest, ControlDispatcherResult}
use buzzweb_server.App.ControlDispatcher.{Handler, dispatch}
use buzzweb_server.App.ControlDispatcher.Spec.{Stored, answer}
use buzzweb_server.App.ControlDispatcher.Outcomes.{Answers}
use buzzweb_server.App.ControlDispatcher.Refinement.{dispatch-refines}
use buzzweb_server.App.ControlDispatcher.Locality.{room_of, answer-IsLocal}

named : (code j : RoomCode) → (code ≡ j) ⊎ (code ≢ j)
named code j = elim (Bool-cases (code == j)) [
  | inl same ↦ inl ((eq_iff code j).0 same)
  | inr differs ↦ inr (λ same. ground (arith, differs, eq_iff code j, same))
]

-- The handler that notes the answers.
abbrev pub noting : {J : Type 0} → Handler J (List (ControlDispatcherResult J))
noting result results = (returned tt, results ++ result ∷ [])

-- Two storages with the same room, or none, under each code.
abbrev pub SameRooms : {S : Type 0} → (S → Stored) → S → S → Type 0
SameRooms view s s' = (code : RoomCode) → view s code ≡ view s' code

-- A storage without the order and the way in which it keeps its rooms.
abbrev pub Storage : {S : Type 0} → (S → Stored) → Type 0
Storage view = Quot (SameRooms view)

-- The answers of `Dispatch` to a request, and the storage that it leaves.
abbrev pub served :
    {J S : Type 0}
    → RoomRepository S
    → (ℕ → ℕ)
    → ControlDispatcherRequest J
    → S
    → S × List (ControlDispatcherResult J)
served repository draw request s = (dispatch repository draw request (some noting) (s, [])).1

module _ {J S : Type 0} {repository : RoomRepository S} {view : S → Stored}
    (contract : Contract repository view) (draw : ℕ → ℕ) where
  abbrev answer_to : ControlDispatcherRequest J → Stored → ControlDispatcherResult J × Stored
  answer_to request stored = answer request.meta draw request.meta.type request.command stored

  served-Answers :
      (request : ControlDispatcherRequest J) (s : S)
      → Answers view noting []
          (answer request.meta draw request.meta.type request.command (view s)).0
          (answer request.meta draw request.meta.type request.command (view s)).1
          (dispatch repository draw request (some noting) (s, []))
  served-Answers request s = dispatch-refines contract draw request noting (λ result h. refl) [] s

  pub served-SameRooms :
      (request : ControlDispatcherRequest J) (s s' : S)
      → SameRooms view s s'
      → SameRooms view (served repository draw request s).0 (served repository draw request s').0
  served-SameRooms request s s' same code =
      (served-Answers request s).stores code
      ∙ ap (λ stored. (answer_to request stored).1 code) (fun_ext same)
      ∙ sym ((served-Answers request s').stores code)

  unfoldable pub after : ControlDispatcherRequest J → Storage view → Storage view
  after request =
      Quot.lift Quot-set (λ s. Quot.mk (served repository draw request s).0)
        (λ s s' same. Quot.sound (served-SameRooms request s s' same))

  undisturbed :
      (request : ControlDispatcherRequest J) (code j : RoomCode) (s : S)
      → room_of request.command ≡ some code
      → code ≢ j
      → view (served repository draw request s).0 j ≡ view s j
  undisturbed request code j s names other =
      let local = answer-IsLocal request.meta draw code request.meta.type request.command names in
      (served-Answers request s).stores j ∙ local.keeps (view s) j other

  served_alike :
      (request : ControlDispatcherRequest J) (code : RoomCode) (s s' : S)
      → room_of request.command ≡ some code
      → view s code ≡ view s' code
      → ((served repository draw request s).1 ≡ (served repository draw request s').1)
        × (view (served repository draw request s).0 code
            ≡ view (served repository draw request s').0 code)
  served_alike request code s s' names same =
      let local = answer-IsLocal request.meta draw code request.meta.type request.command names in
      (
        (served-Answers request s).called
            ∙ ap (λ result. (noting result []).1) (local.replies (view s) (view s') same)
            ∙ sym ((served-Answers request s').called),
        (served-Answers request s).stores code
            ∙ local.changes (view s) (view s') same
            ∙ sym ((served-Answers request s').stores code),
      )

  -- The room of the second request is the same in both orders.
  seen_at_second :
      (a b : ControlDispatcherRequest J) (code code' : RoomCode) (s : S)
      → room_of a.command ≡ some code
      → room_of b.command ≡ some code'
      → code ≢ code'
      → view (served repository draw b (served repository draw a s).0).0 code'
        ≡ view (served repository draw a (served repository draw b s).0).0 code'
  seen_at_second a b code code' s at_a at_b other =
      (served_alike b code' _ s at_b (undisturbed a code code' s at_a other)).1
      ∙ sym (undisturbed a code code' _ at_a other)

  commute-SameRooms :
      (a b : ControlDispatcherRequest J) (code code' : RoomCode) (s : S)
      → room_of a.command ≡ some code
      → room_of b.command ≡ some code'
      → code ≢ code'
      → SameRooms view
          (served repository draw b (served repository draw a s).0).0
          (served repository draw a (served repository draw b s).0).0
  commute-SameRooms a b code code' s at_a at_b other j = elim (named code' j) [
    | inl second ↦
        subst
          (λ i.
            view (served repository draw b (served repository draw a s).0).0 i
            ≡ view (served repository draw a (served repository draw b s).0).0 i)
          second (seen_at_second a b code code' s at_a at_b other)
    | inr beside ↦ elim (named code j) [
      | inl first ↦
          subst
            (λ i.
              view (served repository draw b (served repository draw a s).0).0 i
              ≡ view (served repository draw a (served repository draw b s).0).0 i)
            first (sym (seen_at_second b a code' code s at_b at_a (λ same. other (sym same))))
      | inr away ↦
          undisturbed b code' j _ at_b beside
          ∙ undisturbed a code j s at_a away
          ∙ sym (undisturbed b code' j s at_b beside)
          ∙ sym (undisturbed a code j _ at_a away)
    ]
  ]

  -- Two requests that name different rooms do not disturb each other, over any repository that keeps
  -- its contract: in either order each gets the same answer, and the storage that they leave is the
  -- same up to the way in which it keeps its rooms. Creations are left out, since they name no room.
  pub dispatch_commutes :
      (a b : ControlDispatcherRequest J) (code code' : RoomCode) (s : S)
      → room_of a.command ≡ some code
      → room_of b.command ≡ some code'
      → code ≢ code'
      → ((served repository draw a (served repository draw b s).0).1
          ≡ (served repository draw a s).1)
        × ((served repository draw b (served repository draw a s).0).1
            ≡ (served repository draw b s).1)
        × (after b (after a (Quot.mk s)) ≡ after a (after b (Quot.mk s)))
  unfolding after
  dispatch_commutes a b code code' s at_a at_b other = (
    (served_alike a code _ s at_a (undisturbed b code' code s at_b (λ same. other (sym same)))).0,
    (served_alike b code' _ s at_b (undisturbed a code code' s at_a other)).0,
    Quot.sound (commute-SameRooms a b code code' s at_a at_b other),
  )
