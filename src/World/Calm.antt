-- ===== src/World/Calm.antt =====
-- Actions that publish nothing and take back no value of an id sequence, by a rule for each way to
-- build an action.
use esppdv.Base.{
  ℕ, ◌≤◌, ℤ, ◌≡◌, refl, ◌∙◌, String, Bool, true, false, Option, none, some, List, str_eq,
  if◌then◌else◌, arith, Bool-cases, inl, inr,
}
use esppdv.Outcome.{Error, Result, ok, err}
use esppdv.Exec.{
  continue, ◌>>=◌, guard, raise_if, or_else, rethrow, forget, attempt, pure, raise, lift, gets,
  or_raise,
}
use esppdv.World.{World, Tables}
use esppdv.World.Sql.{
  M, reach, query, exec, run_exec, nextval, advanced, set_rls_context, next_fault, commit, close_tx,
  with_tx, rand_read,
}

-- What `v` has of `w`: the messages, and each id sequence at least as far.
pub record After (w v : World) : Type 0 where
  pub published : v.published ≡ w.published
  pub serial : (table : String) → w.serial table ≤ v.serial table

pub record Calm {A : Type 0} (m : M A) : Type 0 where
  pub at : (w : World) → After w (m w).1

at_once : (w : World) → After w w
at_once w = record { published = refl; serial = λ table. omega arith }

le_trans : {a b c : ℕ} → a ≤ b → b ≤ c → a ≤ c
le_trans p q = omega arith

pub After-trans : (u v w : World) → After u v → After v w → After u w
After-trans u v w p q = record {
  published = q.published ∙ p.published;
  serial = λ table. le_trans (p.serial table) (q.serial table);
}

module _ {A : Type 0} where
  pub Calm-pure : (a : A) → Calm (pure a)
  Calm-pure a = record { at = at_once }

  pub Calm-raise : (e : Error) → Calm (raise {A = A} e)
  Calm-raise e = record { at = at_once }

  pub Calm-lift : (r : Result A) → Calm (lift r)
  Calm-lift r = record { at = at_once }

  pub Calm-gets : (f : World → A) → Calm (gets f)
  Calm-gets f = record { at = at_once }

  pub Calm-or_raise : (o : Option A) (e : Error) → Calm (or_raise o e)
  Calm-or_raise none e = record { at = at_once }
  Calm-or_raise (some a) e = record { at = at_once }

  After-rethrow :
      (f : Error → Error) (r : Result A) (u w : World) → After u w → After u (rethrow f r w).1
  After-rethrow f (ok a) u w h = h
  After-rethrow f (err e) u w h = h

  After-forget : (r : Result A) (u w : World) → After u w → After u (forget r w).1
  After-forget (ok a) u w h = h
  After-forget (err e) u w h = h

  pub Calm-or_else : {m : M A} (f : Error → Error) → Calm m → Calm (or_else m f)
  unfolding or_else
  Calm-or_else {m} f q = record { at = λ w. After-rethrow f (m w).0 w (m w).1 (q.at w) }

  pub Calm-attempt : {m : M A} → Calm m → Calm (attempt m)
  unfolding attempt
  Calm-attempt {m} q = record { at = λ w. After-forget (m w).0 w (m w).1 (q.at w) }

pub Calm-guard : (b : Bool) (e : Error) → Calm (guard b e)
Calm-guard true e = record { at = at_once }
Calm-guard false e = record { at = at_once }

pub Calm-raise_if : (b : Bool) (e : Error) → Calm (raise_if b e)
Calm-raise_if true e = record { at = at_once }
Calm-raise_if false e = record { at = at_once }

pub Calm-if : {A : Type 0} (b : Bool) {m n : M A} → Calm m → Calm n → Calm (if b then m else n)
Calm-if true qm qn = qm
Calm-if false qm qn = qn

module _ {A B : Type 0} where
  After-continue :
      (r : Result A) {f : A → M B} (u w : World)
      → After u w
      → ((a : A) → Calm (f a))
      → After u (continue r f w).1
  After-continue (ok a) {f} u w h q = After-trans u w (f a w).1 h ((q a).at w)
  After-continue (err e) u w h q = h

  pub Calm-bind : {m : M A} {f : A → M B} → Calm m → ((a : A) → Calm (f a)) → Calm (m >>= f)
  unfolding ◌>>=◌
  Calm-bind {m} qm qf = record { at = λ w. After-continue (m w).0 w (m w).1 (qm.at w) qf }

same_serial : (w v : World) → v.published ≡ w.published → v.serial ≡ w.serial → After w v
same_serial w v p s = record { published = p; serial = λ table. rw s (omega arith) }

pub Calm-reach : Calm reach
unfolding reach
Calm-reach = record { at = λ w. same_serial w (reach w).1 refl refl }

advanced-ge : (table : String) (f : String → ℕ) (name : String) → f name ≤ advanced table f name
advanced-ge table f name = elim (Bool-cases (str_eq name table)) [
  | inl e ↦ rw e (omega arith)
  | inr e ↦ rw e (omega arith)
]

pub Calm-nextval : (table : String) → Calm (nextval table)
unfolding nextval
Calm-nextval table = record {
  at = λ w. record { published = refl; serial = advanced-ge table w.serial };
}

pub Calm-rand_read : (n : ℕ) → Calm (rand_read n)
unfolding rand_read
Calm-rand_read n = record {
  at = λ w. same_serial w (rand_read n w).1 (ground arith) (ground arith);
}

pub Calm-set_rls_context : (user_id : ℤ) (role : String) → Calm (set_rls_context user_id role)
unfolding set_rls_context
Calm-set_rls_context user_id role = Calm-bind (Calm-or_else _ Calm-reach) λ _.
    Calm-bind (record { at = λ w. same_serial w _ refl refl })
      λ _. Calm-bind (Calm-or_else _ Calm-reach) λ _. record { at = λ w. same_serial w _ refl refl }

module _ {A : Type 0} where
  pub Calm-query : (f : World → Result A) → Calm (query f)
  unfolding query
  Calm-query f = Calm-bind Calm-reach (λ _. record { at = λ w. at_once w })

  After-exec : (r : Result (A × Tables)) (w : World) → After w (run_exec r w).1
  After-exec (ok (a, t)) w = same_serial w _ refl refl
  After-exec (err e) w = at_once w

  pub Calm-exec : (f : World → Result (A × Tables)) → Calm (exec f)
  unfolding exec
  Calm-exec f = Calm-bind Calm-reach (λ _. record { at = λ w. After-exec (f w) w })

  After-commit :
      (t : Tables) (a : A) (p : Result (Unit {0}) × List (Option String)) (u w : World)
      → After u w
      → After u (commit t a p w).1
  After-commit t a (ok _, fs) u w h = record { published = h.published; serial = h.serial }
  After-commit t a (err e, fs) u w h = record { published = h.published; serial = h.serial }

  After-close : (t : Tables) (r : Result A) (u w : World) → After u w → After u (close_tx t r w).1
  After-close t (err e) u w h = record { published = h.published; serial = h.serial }
  After-close t (ok a) u w h = After-commit t a (next_fault w.faults) u w h

  pub Calm-with_tx : {fn : M A} → Calm fn → Calm (with_tx fn)
  unfolding with_tx
  Calm-with_tx {fn} q =
      Calm-bind Calm-reach
        (λ _. record { at = λ w. After-close w.tables (fn w).0 w (fn w).1 (q.at w) })

-- To prove by `search` that an action is calm.
pub ruleset calm_rules = (
  Calm-pure, Calm-raise, Calm-lift, Calm-gets, Calm-or_raise, Calm-or_else, Calm-attempt,
  Calm-guard, Calm-raise_if, Calm-if, Calm-bind, Calm-reach, Calm-nextval, Calm-rand_read,
  Calm-query, Calm-exec, Calm-set_rls_context, Calm-with_tx,
)
