-- ===== src/Etl/Kept.antt =====
-- What the steps of the migration keep: no key that a table holds is lost.
use esppdv.Base.{
  String, ◌≡◌, refl, sym, Bool, true, List, [], ◌∷◌, ◌++◌, any, Bool-cases, inl, inr, Option, none,
  some, eqb_ℤ_refl,
}
use esppdv.Outcome.{Result, ok, err}
use esppdv.Exec.{continue, ◌>>=◌}
use esppdv.World.{World, Tables}
use esppdv.World.Sql.{M, next_fault, exec, run_exec, commit, close_tx, with_tx}
use esppdv.World.Quiet.{Quiet, lasting-tables, Quiet-reach}
use esppdv.Etl.Load.{
  Key, Target, holds_key, has_key, same_key, added, inserted_valid, inserted, insert,
}
use esppdv.Etl.Org.{units, employees, users, user_units}
use esppdv.Etl.Money.{budgets, spds}
use esppdv.Etl.Flow.{approvals, documents, notifications}

abbrev pub Holds : {A : Type 0} → Target A → Tables → Tables → Type 0
Holds target t t' = (k : Key) → holds_key target k t ≡ true → holds_key target k t' ≡ true

-- Each table of the migration holds the keys that it held.
pub record Kept (t t' : Tables) : Type 0 where
  pub units : Holds units t t'
  pub employees : Holds employees t t'
  pub users : Holds users t t'
  pub user_units : Holds user_units t t'
  pub budgets : Holds budgets t t'
  pub spds : Holds spds t t'
  pub approvals : Holds approvals t t'
  pub documents : Holds documents t t'
  pub notifications : Holds notifications t t'

pub Kept-refl : (t t' : Tables) → t' ≡ t → Kept t t'
Kept-refl t t' e = rw e (record {
  units = λ k h. h;
  employees = λ k h. h;
  users = λ k h. h;
  user_units = λ k h. h;
  budgets = λ k h. h;
  spds = λ k h. h;
  approvals = λ k h. h;
  documents = λ k h. h;
  notifications = λ k h. h;
})

pub Kept-trans : (t u v : Tables) → Kept t u → Kept u v → Kept t v
Kept-trans t u v p q = record {
  units = λ k h. q.units k (p.units k h);
  employees = λ k h. q.employees k (p.employees k h);
  users = λ k h. q.users k (p.users k h);
  user_units = λ k h. q.user_units k (p.user_units k h);
  budgets = λ k h. q.budgets k (p.budgets k h);
  spds = λ k h. q.spds k (p.spds k h);
  approvals = λ k h. q.approvals k (p.approvals k h);
  documents = λ k h. q.documents k (p.documents k h);
  notifications = λ k h. q.notifications k (p.notifications k h);
}

-- `m` loses no key.
pub record Grows {A : Type 0} (m : M A) : Type 0 where
  pub at : (w : World) → Kept w.tables (m w).1.tables

module _ {A B : Type 0} where
  continue-Grows :
      (r : Result A) {f : A → M B} (w : World)
      → ((a : A) → Grows (f a))
      → Kept w.tables (continue r f w).1.tables
  continue-Grows (ok a) w q = (q a).at w
  continue-Grows (err e) w q = Kept-refl w.tables w.tables refl

  pub Grows-bind : {m : M A} {f : A → M B} → Grows m → ((a : A) → Grows (f a)) → Grows (m >>= f)
  unfolding ◌>>=◌
  Grows-bind {m} {f} qm qf = record {
    at = λ w. Kept-trans w.tables (m w).1.tables _ (qm.at w) (continue-Grows (m w).0 (m w).1 qf);
  }

module _ {A : Type 0} where
  pub Grows-of_Quiet : {m : M A} → Quiet m → Grows m
  Grows-of_Quiet {m} q = record {
    at = λ w. Kept-refl w.tables (m w).1.tables (lasting-tables w (m w).1 (q.at w));
  }

module _ {A : Type 0} where
  commit-Grows :
      (t : Tables) (a : A) (p : Result (Unit {0}) × List (Option String)) (w : World)
      → Kept t w.tables
      → Kept t (commit t a p w).1.tables
  commit-Grows t a (ok _, fs) w h = h
  commit-Grows t a (err e, fs) w h = Kept-refl t t refl

  close_tx-Grows :
      (t : Tables) (r : Result A) (w : World) → Kept t w.tables → Kept t (close_tx t r w).1.tables
  close_tx-Grows t (err e) w h = Kept-refl t t refl
  close_tx-Grows t (ok a) w h = commit-Grows t a (next_fault w.faults) w h

  pub Grows-with_tx : {fn : M A} → Grows fn → Grows (with_tx fn)
  unfolding with_tx
  Grows-with_tx {fn} q =
      Grows-bind (Grows-of_Quiet Quiet-reach)
        (λ _. record { at = λ w. close_tx-Grows w.tables (fn w).0 (fn w).1 (q.at w) })

  run_exec-Grows :
      (r : Result (A × Tables)) (w : World)
      → ((a : A) (t : Tables) → r ≡ ok (a, t) → Kept w.tables t)
      → Kept w.tables (run_exec r w).1.tables
  run_exec-Grows (ok (a, t)) w h = h a t refl
  run_exec-Grows (err e) w h = Kept-refl w.tables w.tables refl

  pub Grows-exec :
      (f : World → Result (A × Tables))
      → ((w : World) (a : A) (t : Tables) → f w ≡ ok (a, t) → Kept w.tables t)
      → Grows (exec f)
  unfolding exec
  Grows-exec f h =
      Grows-bind (Grows-of_Quiet Quiet-reach)
        (λ _. record { at = λ w. run_exec-Grows (f w) w (h w) })

pub any-append :
    {A : Type 0} (p : A → Bool) (xs ys : List A) → any p xs ≡ true → any p (xs ++ ys) ≡ true
any-append p [] ys h = cc
any-append p (x ∷ xs) ys h = elim (Bool-cases (p x)) [
  | inl e ↦ rw e refl
  | inr e ↦ rw e (any-append p xs ys (rw e at h))
]

any-last :
    {A : Type 0} (p : A → Bool) (xs : List A) (x : A) → p x ≡ true → any p (xs ++ x ∷ []) ≡ true
any-last p [] x h = rw h refl
any-last p (y ∷ xs) x h = elim (Bool-cases (p y)) [
  | inl e ↦ rw e refl
  | inr e ↦ rw e (any-last p xs x h)
]

same_key_refl : (k : Key) → same_key k k ≡ true
same_key_refl (a, b) = rw (eqb_ℤ_refl a, eqb_ℤ_refl b) refl

-- What a table of the migration has to be: a new row stands in it, with the key of its values, and
-- disturbs no table's keys.
pub record Lawful {A : Type 0} (target : Target A) : Type 0 where
  pub stands : (l : List A) (t : Tables) → target.rows (target.with_rows l t) ≡ l
  pub fits : (a : A) → target.key (target.fitted a) ≡ target.key a
  pub keeps : (a : A) (t : Tables) → Kept t (target.with_rows (target.rows t ++ a ∷ []) t)
  pub holds : (t t' : Tables) → Kept t t' → Holds target t t'

module _ {A : Type 0} (target : Target A) where
  added-Kept :
      (a : A) (t : Tables) (o : Option _) {t' : Tables}
      → Lawful target
      → added target a t o ≡ ok (tt, t')
      → Kept t t' × (holds_key target (target.key a) t' ≡ true)
  added-Kept a t (some e) l h = cc
  added-Kept a t none {t'} l h =
      let b = target.fitted a in
      let e : target.with_rows (target.rows t ++ b ∷ []) t ≡ t' = cc h in
      rw (← e) (
        l.keeps b t,
        rw (l.stands (target.rows t ++ b ∷ []) t) (
            any-last (has_key target (target.key a)) (target.rows t) b
              (rw (l.fits a) (same_key_refl (target.key a)))),
      )

  inserted_valid-Kept :
      (a : A) (w : World) (o : Option String) {t' : Tables}
      → Lawful target
      → inserted_valid target a w o ≡ ok (tt, t')
      → Kept w.tables t' × (holds_key target (target.key a) t' ≡ true)
  inserted_valid-Kept a w (some e) l h = cc
  inserted_valid-Kept a w none {t'} l h =
      elim (Bool-cases (holds_key target (target.key a) w.tables)) [
        | inl e ↦
            let same : w.tables ≡ t' = cc (rw e at h) in
            (Kept-refl w.tables t' (sym same), rw (← same) e)
        | inr e ↦ added-Kept a w.tables (target.refused (target.fitted a) w) l (rw e at h)
      ]

  -- Whatever an INSERT comes to, no key is lost, and that of its row is there.
  pub inserted-Kept :
      (a : A) (w : World) {t' : Tables}
      → Lawful target
      → inserted target a w ≡ ok (tt, t')
      → Kept w.tables t' × (holds_key target (target.key a) t' ≡ true)
  inserted-Kept a w l h = inserted_valid-Kept a w (target.invalid a w) l h

  pub Grows-insert : (a : A) → Lawful target → Grows (insert target a)
  unfolding insert
  Grows-insert a l = Grows-exec _ λ w _ t h. (inserted-Kept a w l h).0
