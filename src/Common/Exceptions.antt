-- ===== src/Common/Exceptions.antt =====
-- C++ exceptions. A call returns a value or throws; what was written before a throw stays written,
-- so the state comes back beside the exception too.
use Prim.Native.String.{String}

-- `threw m` is a `std::exception` whose `what()` is `m`.
pub data Outcome {ℓ} (A : Type ℓ) : Type ℓ where
  returned : A → Outcome A
  threw : String → Outcome A

abbrev pub Exec {ℓ κ} : Type ℓ → Type κ → Type (ℓ ⊔ κ)
Exec S A = S → Outcome A × S

-- `std::monostate`-like result of a function that returns nothing.
abbrev pub Done : Type 0
Done = Unit {0}

module _ {ℓ κ} {S : Type ℓ} {A : Type κ} where
  abbrev pub pure : A → Exec S A
  pure a s = (returned a, s)

  abbrev pub throw : String → Exec S A
  throw m s = (threw m, s)

module _ {ℓ κ μ} {S : Type ℓ} {A : Type κ} {B : Type μ} where
  abbrev pub continue : Outcome A → (A → Exec S B) → Exec S B
  continue (returned a) f s = f a s
  continue (threw m) f s = (threw m, s)

  infixl 5 ◌>>=◌
  abbrev pub ◌>>=◌ : Exec S A → (A → Exec S B) → Exec S B
  ◌>>=◌ m f s = let (o, s') = m s in continue o f s'

-- `try { m } catch (const std::exception&) { h }`
abbrev pub recover {ℓ κ} :
    {S : Type ℓ} {A : Type κ} → (String → Exec S A) → Outcome A × S → Outcome A × S
recover h (returned a, s) = (returned a, s)
recover h (threw m, s) = h m s

abbrev pub catch {ℓ κ} : {S : Type ℓ} {A : Type κ} → Exec S A → (String → Exec S A) → Exec S A
catch m h s = recover h (m s)
