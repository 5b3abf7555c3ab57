-- ===== src/Exec/Rules.antt =====
-- How a successful action came to its result, and rules for actions that leave a part of the
-- state alone.
use esppdv.Base.{◌≡◌, refl, Bool, true, false}
use esppdv.Outcome.{Error, Result, ok, err}
use esppdv.Exec.{Exec, lift, continue, ◌>>=◌, guard, raise_if, or_else, rethrow}

module _ {ℓ} {S A B : Type ℓ} where
  continue-ok :
      (r : Result A) (f : A → Exec S B) (s : S) {b : B} {t : S}
      → continue r f s ≡ (ok b, t)
      → (a : A) × (r ≡ ok a) × (f a s ≡ (ok b, t))
  continue-ok (ok a) f s h = (a, refl, h)
  continue-ok (err e) f s h = cc

  -- A chain that succeeds has a first part that succeeds, and goes on from there.
  pub bind-ok :
      (m : Exec S A) (f : A → Exec S B) (s : S) {b : B} {t : S}
      → (m >>= f) s ≡ (ok b, t)
      → (a : A) × (s' : S) × (m s ≡ (ok a, s')) × (f a s' ≡ (ok b, t))
  unfolding ◌>>=◌
  bind-ok m f s h =
      let (a, e, k) = continue-ok (m s).0 f (m s).1 h in (a, (m s).1, λ i. (e i, (m s).1), k)

  -- The same, to go on from a first part of which only the equation is known.
  pub bind-elim {κ} :
      (m : Exec S A) (f : A → Exec S B) (s : S) {b : B} {t : S} {P : Type κ}
      → (m >>= f) s ≡ (ok b, t)
      → ((a : A) (s' : S) → m s ≡ (ok a, s') → f a s' ≡ (ok b, t) → P)
      → P
  bind-elim m f s h k = let (a, s', e, r) = bind-ok m f s h in k a s' e r

  -- A chain goes on from a first part that is known.
  pub bind_step :
      (m : Exec S A) (f : A → Exec S B) (s : S) {a : A} {s' : S}
      → m s ≡ (ok a, s')
      → (m >>= f) s ≡ f a s'
  unfolding ◌>>=◌
  bind_step m f s h = rw h

  pub bind_stop :
      (m : Exec S A) (f : A → Exec S B) (s : S) {e : Error} {s' : S}
      → m s ≡ (err e, s')
      → (m >>= f) s ≡ (err e, s')
  unfolding ◌>>=◌
  bind_stop m f s h = rw h

module _ {S : Type 0} where
  pub guard-ok :
      (b : Bool) (e : Error) (s : S) {t : S} → guard b e s ≡ (ok tt, t) → (b ≡ true) × (s ≡ t)
  guard-ok true e s h = (refl, cc)
  guard-ok false e s h = (cc, cc)

  pub raise_if-ok :
      (b : Bool) (e : Error) (s : S) {t : S} → raise_if b e s ≡ (ok tt, t) → (b ≡ false) × (s ≡ t)
  raise_if-ok true e s h = (cc, cc)
  raise_if-ok false e s h = (refl, cc)

module _ {ℓ} {S A : Type ℓ} where
  pub lift-ok : (r : Result A) (s : S) {a : A} {t : S} → lift r s ≡ (ok a, t) → (r ≡ ok a) × (s ≡ t)
  lift-ok r s h = (cc, cc)

  rethrow-ok :
      (r : Result A) (f : Error → Error) (s : S) {a : A} {t : S}
      → rethrow f r s ≡ (ok a, t)
      → (r ≡ ok a) × (s ≡ t)
  rethrow-ok (ok a) f s h = (cc, cc)
  rethrow-ok (err e) f s h = (cc, cc)

  pub or_else-ok :
      (m : Exec S A) (f : Error → Error) (s : S) {a : A} {t : S}
      → or_else m f s ≡ (ok a, t)
      → m s ≡ (ok a, t)
  unfolding or_else
  or_else-ok m f s h = let (e, k) = rethrow-ok (m s).0 f (m s).1 h in λ i. (e i, k i)
