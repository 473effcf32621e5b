-- ===== src/Common/Attempt.antt =====
-- Code that throws exceptions of a type `E` and that changes no state.
use mathlib.Core.Bool.{Bool, true, false}
use mathlib.Core.Option.{Option, none, some}

pub data Attempt (E A : Type 0) : Type 0 where
  gave : A → Attempt E A
  raised : E → Attempt E A

module _ {E A B : Type 0} where
  infixl 5 ◌>>=◌
  abbrev pub ◌>>=◌ : Attempt E A → (A → Attempt E B) → Attempt E B
  gave a >>= f = f a
  raised e >>= f = raised e

module _ {E B : Type 0} where
  infixl 5 ◌>>◌
  abbrev pub ◌>>◌ : Attempt E (Unit {0}) → Attempt E B → Attempt E B
  m >> k = m >>= λ _. k

module _ {E : Type 0} where
  -- `if (b) throw e;`
  abbrev pub throw_if : Bool → E → Attempt E (Unit {0})
  throw_if true e = raised e
  throw_if false e = gave tt

module _ {E B : Type 0} where
  abbrev pub or_raise : E → Option B → Attempt E B
  or_raise e none = raised e
  or_raise e (some b) = gave b

-- `try { m } catch (e) { throw f(e); }`
module _ {E F A : Type 0} where
  abbrev pub rethrow : (E → F) → Attempt E A → Attempt F A
  rethrow f (gave a) = gave a
  rethrow f (raised e) = raised (f e)
