-- ===== src/World/Inversion.antt =====
-- What a successful step says: of the value, and of the world after it.
use esppdv.Base.{Bool, true, false, Option, none, some, ◌≡◌, refl, ap, sym, ◌∙◌}
use esppdv.Outcome.{Error, Result, ok, err}
use esppdv.Exec.{◌>>=◌, lift, gets, pure, or_raise, guard, raise_if}
use esppdv.Exec.Rules.{bind-ok, bind-elim}
use esppdv.World.{World, Tables}
use esppdv.World.Sql.{M, next_fault, reach, run_exec, query, exec, one_row}
use esppdv.World.Quiet.{Quiet, lasting}

-- The world that a statement works on: one fault has been taken.
abbrev pub reached : World → World
reached w = record w { faults = (next_fault w.faults).1 }

pub reach-ok : (w : World) {t : World} → reach w ≡ (ok tt, t) → reached w ≡ t
unfolding reach
reach-ok w h = ap (λ (p : Result (Unit {0}) × World). p.1) h

module _ {A : Type 0} where
  pub or_raise-ok :
      (o : Option A) (e : Error) (w : World) {a : A} {t : World}
      → or_raise o e w ≡ (ok a, t)
      → (o ≡ some a) × (w ≡ t)
  or_raise-ok none e w h = (cc, cc)
  or_raise-ok (some b) e w h = (cc, cc)

  pub pure-ok : (a : A) (w : World) {b : A} {t : World} → pure a w ≡ (ok b, t) → (a ≡ b) × (w ≡ t)
  pure-ok a w h = (cc, cc)

  pub one_row-ok : (o : Option A) {a : A} → one_row o ≡ ok a → o ≡ some a
  one_row-ok none h = cc
  one_row-ok (some b) h = cc

  -- A quiet step that succeeds leads to a world with the same tables and clock.
  pub Quiet-step :
      {m : M A} (w : World) {a : A} {t : World} → Quiet m → m w ≡ (ok a, t) → lasting t ≡ lasting w
  Quiet-step {m} w q h = ap (λ (p : Result A × World). lasting p.1) (sym h) ∙ q.at w

  pub query-ok :
      (f : World → Result A) (w : World) {a : A} {t : World}
      → query f w ≡ (ok a, t)
      → f (reached w) ≡ ok a
  unfolding query
  query-ok f w h =
      let (_, w1, r, q) = bind-ok _ _ w h in
      let e : reached w ≡ w1 = reach-ok w r in rw e (ap (λ (p : Result A × World). p.0) q)

  run_exec-ok :
      (r : Result (A × Tables)) (w : World) {a : A} {t : World}
      → run_exec r w ≡ (ok a, t)
      → (s : Tables) × (r ≡ ok (a, s)) × (record w { tables = s } ≡ t)
  run_exec-ok (ok (a, s)) w h = (s, cc, cc)
  run_exec-ok (err e) w h = cc

  pub exec-ok :
      (f : World → Result (A × Tables)) (w : World) {a : A} {t : World}
      → exec f w ≡ (ok a, t)
      → (f (reached w) ≡ ok (a, t.tables)) × (t.now ≡ w.now)
  unfolding exec
  exec-ok f w h =
      let (_, w1, r, q) = bind-ok _ _ w h in
      let e : reached w ≡ w1 = reach-ok w r in
      let (s, k, l) = run_exec-ok (f w1) w1 q in (rw (e, ← l) k, rw (← l, ← e) refl)

  pub exec-serial :
      (f : World → Result (A × Tables)) (w : World) {a : A} {t : World}
      → exec f w ≡ (ok a, t)
      → (t.serial ≡ w.serial) × (t.rls ≡ w.rls) × (t.setting ≡ w.setting)
  unfolding exec
  exec-serial f w h =
      let (_, w1, r, q) = bind-ok _ _ w h in
      let e : reached w ≡ w1 = reach-ok w r in
      let (s, k, l) = run_exec-ok (f w1) w1 q in
      (rw (← l, ← e) refl, rw (← l, ← e) refl, rw (← l, ← e) refl)

-- One rule for each kind of step, to walk down a chain that succeeds.
module _ {A B P : Type 0} (g : A → M B) (w : World) {b : B} {t : World} where
  pub quiet-elim :
      (m : M A)
      → Quiet m
      → (m >>= g) w ≡ (ok b, t)
      → ((a : A) (w' : World) → m w ≡ (ok a, w') → lasting w' ≡ lasting w → g a w' ≡ (ok b, t) → P)
      → P
  quiet-elim m q h k = bind-elim m g w h λ a w' e r. k a w' e (Quiet-step w q e) r

  pub gets-elim : (f : World → A) → (gets f >>= g) w ≡ (ok b, t) → (g (f w) w ≡ (ok b, t) → P) → P
  unfolding ◌>>=◌
  gets-elim f h k = k h

  pub lift-elim :
      (r : Result A)
      → (lift r >>= g) w ≡ (ok b, t)
      → ((a : A) → r ≡ ok a → g a w ≡ (ok b, t) → P)
      → P
  unfolding ◌>>=◌
  lift-elim (ok a) h k = k a refl h
  lift-elim (err e) h k = cc

  pub or_raise-elim :
      (o : Option A) (e : Error)
      → (or_raise o e >>= g) w ≡ (ok b, t)
      → ((a : A) → o ≡ some a → g a w ≡ (ok b, t) → P)
      → P
  unfolding ◌>>=◌
  or_raise-elim none e h k = cc
  or_raise-elim (some a) e h k = k a refl h

module _ {B P : Type 0} (g : Unit {0} → M B) (w : World) {b : B} {t : World} where
  pub guard-elim :
      (c : Bool) (e : Error)
      → (guard c e >>= g) w ≡ (ok b, t)
      → (c ≡ true → g tt w ≡ (ok b, t) → P)
      → P
  unfolding ◌>>=◌
  guard-elim true e h k = k refl h
  guard-elim false e h k = cc

  pub raise_if-elim :
      (c : Bool) (e : Error)
      → (raise_if c e >>= g) w ≡ (ok b, t)
      → (c ≡ false → g tt w ≡ (ok b, t) → P)
      → P
  unfolding ◌>>=◌
  raise_if-elim true e h k = cc
  raise_if-elim false e h k = k refl h
