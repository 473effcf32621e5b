-- ===== src/Common/UnorderedMap.antt =====
-- `std::unordered_map` with text keys, as an association list. The order in which the container
-- iterates is the order of the list, and lemmas are about every list.
use Prim.Native.String.{String}
use mathlib.Core.Path.{◌≡◌, refl}
use mathlib.Core.Bool.{Bool, true, false}
use mathlib.Core.Option.{Option, none, some}
use mathlib.Core.List.{List, [], ◌∷◌}
use native.Mathlib.Omega.{arith}
use text.Mathlib.Text.{◌==◌}
use text.Mathlib.TextEquality.{eq_iff}
use buzzweb_server.Common.Lists.{any_of}
use buzzweb_server.Common.Tests.{if◌then◌else◌, has_value}

abbrev pub UnorderedMap {ℓ} : Type ℓ → Type ℓ
UnorderedMap V = List (String × V)

module _ {ℓ} {V : Type ℓ} where
  unfoldable pub find : String → UnorderedMap V → Option V
  find k [] = none
  find k ((j, v) ∷ m) = if j == k then some v else find k m

  unfoldable pub contains : String → UnorderedMap V → Bool
  contains k m = has_value (find k m)

  -- `emplace` changes nothing where the key is taken, and says whether it inserted.
  unfoldable pub emplace : String → V → UnorderedMap V → UnorderedMap V × Bool
  emplace k v m = if contains k m then (m, false) else ((k, v) ∷ m, true)

  -- `m[k] = v`
  unfoldable pub assign : String → V → UnorderedMap V → UnorderedMap V
  assign k v [] = (k, v) ∷ []
  assign k v ((j, w) ∷ m) = if j == k then (j, v) ∷ m else (j, w) ∷ assign k v m

  unfoldable pub erase : String → UnorderedMap V → UnorderedMap V
  erase k [] = []
  erase k ((j, v) ∷ m) = let rest = erase k m in if j == k then rest else (j, v) ∷ rest

  unfoldable pub keys : UnorderedMap V → List String
  keys [] = []
  keys ((k, v) ∷ m) = k ∷ keys m

  pub find-emplace :
      (k j : String) (v : V) (m : UnorderedMap V)
      → find j (emplace k v m).0
        ≡ (if has_value (find k m) then find j m else if k == j then some v else find j m)
  unfolding emplace contains find
  find-emplace k j v m = ground arith

  pub find-assign :
      (k j : String) (v : V) (m : UnorderedMap V)
      → find j (assign k v m) ≡ (if k == j then some v else find j m)
  unfolding find assign
  find-assign k j v [] = refl
  find-assign k j v (entry ∷ m) =
      ground (arith, find-assign k j v m, eq_iff entry.0 j, eq_iff entry.0 k, eq_iff k j)

  pub find-erase :
      (k j : String) (m : UnorderedMap V) → find j (erase k m) ≡ (if k == j then none else find j m)
  unfolding find erase
  find-erase k j [] = ground arith
  find-erase k j (entry ∷ m) =
      ground (arith, find-erase k j m, eq_iff entry.0 j, eq_iff entry.0 k, eq_iff k j)

abbrev pub AreDistinct : List String → Type 0
AreDistinct [] = Unit {0}
AreDistinct (k ∷ ks) = (any_of (λ j. j == k) ks ≡ false) × AreDistinct ks

module _ {ℓ} {V : Type ℓ} where
  pub any_of-keys :
      (k : String) (m : UnorderedMap V) → any_of (λ j. j == k) (keys m) ≡ has_value (find k m)
  unfolding keys find
  any_of-keys k [] = refl
  any_of-keys k ((j, v) ∷ m) = ground (arith, any_of-keys k m)

  pub emplace-AreDistinct :
      (k : String) (v : V) (m : UnorderedMap V)
      → AreDistinct (keys m)
      → AreDistinct (keys (emplace k v m).0)
  unfolding emplace contains keys
  emplace-AreDistinct k v m d = ground (arith, any_of-keys k m)

  pub assign-AreDistinct :
      (k : String) (v : V) (m : UnorderedMap V)
      → AreDistinct (keys m)
      → AreDistinct (keys (assign k v m))
  unfolding assign keys
  assign-AreDistinct k v [] d = (refl, tt)
  assign-AreDistinct k v ((j, w) ∷ m) d = ground (
    arith,
    eq_iff j k,
    eq_iff k j,
    any_of-keys j m,
    any_of-keys j (assign k v m),
    find-assign k j v m,
    assign-AreDistinct k v m d.1,
  )

  pub erase-AreDistinct :
      (k : String) (m : UnorderedMap V) → AreDistinct (keys m) → AreDistinct (keys (erase k m))
  unfolding erase keys
  erase-AreDistinct k [] d = tt
  erase-AreDistinct k ((j, w) ∷ m) d = ground (
    arith,
    eq_iff j k,
    eq_iff k j,
    any_of-keys j m,
    any_of-keys j (erase k m),
    find-erase k j m,
    erase-AreDistinct k m d.1,
  )
