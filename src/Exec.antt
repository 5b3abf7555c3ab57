-- ===== src/Exec.antt =====
-- Go functions that return `(value, error)` and act on the program's world: actions of a state
-- `S`. What was written before an error stays written, so the state comes back beside it.
pub mod Rules
use esppdv.Base.{Bool, true, false, Option, none, some, List, [], ◌∷◌}
use esppdv.Outcome.{Error, Result, ok, err}

abbrev pub Exec {ℓ} : Type ℓ → Type ℓ → Type ℓ
Exec S A = S → Result A × S

module _ {ℓ} {S A : Type ℓ} where
  abbrev pub pure : A → Exec S A
  pure a s = (ok a, s)

  abbrev pub raise : Error → Exec S A
  raise e s = (err e, s)

  abbrev pub lift : Result A → Exec S A
  lift r s = (r, s)

  abbrev pub gets : (S → A) → Exec S A
  gets f s = (ok (f s), s)

module _ {ℓ} {S A B : Type ℓ} where
  -- `if err != nil { return err }`
  abbrev pub continue : Result A → (A → Exec S B) → Exec S B
  continue (ok a) f s = f a s
  continue (err e) f s = (err e, s)

  infixl 5 ◌>>=◌ ◌>>◌
  unfoldable pub ◌>>=◌ : Exec S A → (A → Exec S B) → Exec S B
  ◌>>=◌ m f s = let (r, s') = m s in continue r f s'

  abbrev pub ◌>>◌ : Exec S A → Exec S B → Exec S B
  m >> n = m >>= λ _. n

module _ {S : Type 0} where
  -- `if !test { return e }`
  abbrev pub guard : Bool → Error → Exec S (Unit {0})
  guard true e s = (ok tt, s)
  guard false e s = (err e, s)

  -- `if test { return e }`
  abbrev pub raise_if : Bool → Error → Exec S (Unit {0})
  raise_if true e s = (err e, s)
  raise_if false e s = (ok tt, s)

module _ {ℓ} {S A : Type ℓ} where
  abbrev pub rethrow : (Error → Error) → Result A → Exec S A
  rethrow f (ok a) s = (ok a, s)
  rethrow f (err e) s = (err (f e), s)

  abbrev pub forget : Result A → Exec S (Option A)
  forget (ok a) s = (ok (some a), s)
  forget (err e) s = (ok none, s)

  -- A call whose error is replaced: `if err != nil { return e }`.
  unfoldable pub or_else : Exec S A → (Error → Error) → Exec S A
  or_else m f s = let (r, s') = m s in rethrow f r s'

  abbrev pub or_raise : Option A → Error → Exec S A
  or_raise none e = raise e
  or_raise (some a) e = pure a

  -- `_ = call()`: the error is dropped, and what the call wrote stays.
  unfoldable pub attempt : Exec S A → Exec S (Option A)
  attempt m s = let (r, s') = m s in forget r s'

-- `for _, x := range xs { … }`, ended by the first error.
unfoldable pub for_each : {S A : Type 0} → List A → (A → Exec S (Unit {0})) → Exec S (Unit {0})
unfolding ◌>>=◌
for_each [] f = pure tt
for_each (x ∷ xs) f = let rest = for_each xs f in f x >> rest
