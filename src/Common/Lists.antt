-- ===== src/Common/Lists.antt =====
-- Lists under the library's names, with the algorithms that the source takes from <algorithm>.
use Prim.Native.Nat.{ℕ, zero, suc, ◌+◌, ◌≤◌, ◌<◌}
use mathlib.Core.Path.{◌≡◌, refl, ap}
use mathlib.Core.Bool.{Bool, true, false, ◌||◌}
use mathlib.Core.Logic.{◌⊎◌, inl, inr}
use mathlib.Core.List.{List, [], ◌∷◌, ◌++◌}
use mathlib.Core.Option.{Option, none, some}
use native.Mathlib.Omega.{arith}
use buzzweb_server.Common.Tests.{Bool-cases, if◌then◌else◌}

module _ {ℓ} {A : Type ℓ} where
  abbrev pub length : List A → ℕ
  length [] = 0
  length (x ∷ xs) = suc (length xs)

  abbrev pub get_elem? : List A → ℕ → Option A
  get_elem? [] i = none
  get_elem? (x ∷ xs) zero = some x
  get_elem? (x ∷ xs) (suc i) = get_elem? xs i

  abbrev pub take : ℕ → List A → List A
  take zero xs = []
  take (suc n) [] = []
  take (suc n) (x ∷ xs) = x ∷ take n xs

  abbrev pub replicate : ℕ → A → List A
  replicate zero x = []
  replicate (suc n) x = x ∷ replicate n x

  -- `std::any_of`
  abbrev pub any_of : (A → Bool) → List A → Bool
  any_of p [] = false
  any_of p (x ∷ xs) = p x || any_of p xs

  -- `std::find_if`; `none` is the end iterator
  abbrev pub find_if : (A → Bool) → List A → Option A
  find_if p [] = none
  find_if p (x ∷ xs) = if p x then some x else find_if p xs

  -- `erase(remove_if(...), end())`
  abbrev pub remove_if : (A → Bool) → List A → List A
  remove_if p [] = []
  remove_if p (x ∷ xs) = let rest = remove_if p xs in if p x then rest else x ∷ rest

  -- `empty()`
  abbrev pub is_empty : List A → Bool
  is_empty [] = true
  is_empty (_ ∷ _) = false

  pub any_of-append :
      (p : A → Bool) (xs ys : List A) → any_of p (xs ++ ys) ≡ (any_of p xs || any_of p ys)
  any_of-append p [] ys = refl
  any_of-append p (x ∷ xs) ys = ground (arith, any_of-append p xs ys)

  pub any_of-remove_if : (p : A → Bool) (xs : List A) → any_of p (remove_if p xs) ≡ false
  any_of-remove_if p [] = refl
  any_of-remove_if p (x ∷ xs) = ground (arith, any_of-remove_if p xs)

  -- With nothing to remove, the list stays as it is.
  pub remove_if_none : (p : A → Bool) (xs : List A) → any_of p xs ≡ false → remove_if p xs ≡ xs
  remove_if_none p [] h = refl
  remove_if_none p (x ∷ xs) h = ground (arith, remove_if_none p xs)

  pub length-remove_if-le : (p : A → Bool) (xs : List A) → length (remove_if p xs) ≤ length xs
  length-remove_if-le p [] = omega arith
  length-remove_if-le p (x ∷ xs) = ground (arith, length-remove_if-le p xs)

  pub find_if_cases :
      (p : A → Bool) (xs : List A)
      → (any_of p xs ≡ true → (x : A) × (find_if p xs ≡ some x) × (p x ≡ true))
        × (any_of p xs ≡ false → find_if p xs ≡ none)
  find_if_cases p [] = (λ h. cc, λ h. refl)
  find_if_cases p (x ∷ xs) = elim (Bool-cases (p x)) [
    | inl hit ↦ rw hit (λ _. (x, refl, hit), λ h. cc)
    | inr miss ↦ rw miss (find_if_cases p xs)
  ]

  pub remove_if-append :
      (p : A → Bool) (xs ys : List A) → remove_if p (xs ++ ys) ≡ remove_if p xs ++ remove_if p ys
  remove_if-append p [] ys = refl
  remove_if-append p (x ∷ xs) ys = ground (arith, remove_if-append p xs ys)

  pub length-append : (xs ys : List A) → length (xs ++ ys) ≡ length xs + length ys
  length-append [] ys = omega arith
  length-append (x ∷ xs) ys = omega (arith, length-append xs ys)

  pub take-append : (n : ℕ) (xs ys : List A) → n ≤ length xs → take n (xs ++ ys) ≡ take n xs
  take-append zero xs ys h = refl
  take-append (suc n) [] ys h = absurd (omega arith)
  take-append (suc n) (x ∷ xs) ys h = ap (λ l. x ∷ l) (take-append n xs ys (omega arith))

  pub take-length : (xs : List A) → take (length xs) xs ≡ xs
  take-length [] = refl
  take-length (x ∷ xs) = ap (λ l. x ∷ l) (take-length xs)

  pub take-suc :
      (n : ℕ) (xs : List A) (x : A)
      → get_elem? xs n ≡ some x
      → (take (n + 1) xs ≡ take n xs ++ x ∷ []) × (n + 1 ≤ length xs)
  take-suc n [] x e = absurd (ground (arith, e))
  take-suc zero (y ∷ xs) x e = ground (arith, e)
  take-suc (suc n) (y ∷ xs) x e =
      let (taken, within) = take-suc n xs x e in (ground (arith, taken), omega (arith, within))

  -- At the end of a list there is nothing, and before it something.
  pub get_elem?-cases :
      (n : ℕ) (xs : List A)
      → ((get_elem? xs n ≡ none) × (length xs ≤ n))
        ⊎ ((x : A) × (get_elem? xs n ≡ some x) × (n < length xs))
  get_elem?-cases n [] = inl (refl, omega arith)
  get_elem?-cases zero (x ∷ xs) = inr (x, refl, omega arith)
  get_elem?-cases (suc n) (x ∷ xs) = elim (get_elem?-cases n xs) [
    | inl (e, h) ↦ inl (e, omega arith)
    | inr (y, e, h) ↦ inr (y, e, omega arith)
  ]

-- A predicate by recursion computes to tuples, which the tactics read and build.
abbrev pub Each {ℓ κ} : {A : Type ℓ} → (A → Type κ) → List A → Type κ
Each Q [] = Unit
Each Q (a ∷ rest) = Q a × Each Q rest

pub Each-append {ℓ κ} :
    {A : Type ℓ} (Q : A → Type κ) (front back : List A)
    → Each Q front
    → Each Q back
    → Each Q (front ++ back)
Each-append Q [] back first second = second
Each-append Q (a ∷ front) back (here, first) second = (here, Each-append Q front back first second)

pub Each-map {ℓ κ μ} :
    {A : Type ℓ} {P : A → Type κ} {Q : A → Type μ}
    → ((a : A) → P a → Q a)
    → (xs : List A) → Each P xs
    → Each Q xs
Each-map f [] h = tt
Each-map f (x ∷ xs) h = (f x h.0, Each-map f xs h.1)

pub Each-take {ℓ κ} :
    {A : Type ℓ} (Q : A → Type κ) (n : ℕ) (xs : List A) → Each Q xs → Each Q (take n xs)
Each-take Q zero xs h = tt
Each-take Q (suc n) [] h = tt
Each-take Q (suc n) (x ∷ xs) (here, rest) = (here, Each-take Q n xs rest)
