-- ===== src/World/Quiet.antt =====
-- Actions that change no table and no clock, by a rule for each way to build an action.
use esppdv.Base.{
  ℕ, ℤ, ◌≡◌, refl, ap, String, Bool, true, false, Option, none, some, ◌∙◌, if◌then◌else◌, arith,
}
use esppdv.Outcome.{Error, Result, ok, err}
use esppdv.Exec.{
  continue, ◌>>=◌, guard, raise_if, or_else, rethrow, forget, attempt, pure, raise, lift, gets,
  or_raise,
}
use esppdv.World.{World, Tables}
use esppdv.World.Rows.{Message, Time}
use esppdv.World.Sql.{
  M, reach, query, nextval, set_user, set_role, set_rls_context, close_tx, with_tx, publish,
  rand_read,
}

abbrev pub lasting : World → Tables × Time
lasting w = (w.tables, w.now)

-- `m` leaves the tables and the clock as they were.
pub record Quiet {A : Type 0} (m : M A) : Type 0 where
  pub at : (w : World) → lasting (m w).1 ≡ lasting w

pub lasting-tables : (w w' : World) → lasting w' ≡ lasting w → w'.tables ≡ w.tables
lasting-tables w w' h = ap (λ (p : Tables × Time). p.0) h

pub lasting-now : (w w' : World) → lasting w' ≡ lasting w → w'.now ≡ w.now
lasting-now w w' h = ap (λ (p : Tables × Time). p.1) h

module _ {A : Type 0} where
  pub Quiet-pure : (a : A) → Quiet (pure a)
  Quiet-pure a = record { at = λ w. refl }

  pub Quiet-raise : (e : Error) → Quiet (raise {A = A} e)
  Quiet-raise e = record { at = λ w. refl }

  pub Quiet-lift : (r : Result A) → Quiet (lift r)
  Quiet-lift r = record { at = λ w. refl }

  pub Quiet-gets : (f : World → A) → Quiet (gets f)
  Quiet-gets f = record { at = λ w. refl }

  pub Quiet-or_raise : (o : Option A) (e : Error) → Quiet (or_raise o e)
  Quiet-or_raise none e = record { at = λ w. refl }
  Quiet-or_raise (some a) e = record { at = λ w. refl }

  pub rethrow-lasting :
      (f : Error → Error) (r : Result A) (w : World) → lasting (rethrow f r w).1 ≡ lasting w
  rethrow-lasting f (ok a) w = refl
  rethrow-lasting f (err e) w = refl

  forget-lasting : (r : Result A) (w : World) → lasting (forget r w).1 ≡ lasting w
  forget-lasting (ok a) w = refl
  forget-lasting (err e) w = refl

  pub Quiet-or_else : {m : M A} (f : Error → Error) → Quiet m → Quiet (or_else m f)
  unfolding or_else
  Quiet-or_else {m} f q = record { at = λ w. rethrow-lasting f (m w).0 (m w).1 ∙ q.at w }

  pub Quiet-attempt : {m : M A} → Quiet m → Quiet (attempt m)
  unfolding attempt
  Quiet-attempt {m} q = record { at = λ w. forget-lasting (m w).0 (m w).1 ∙ q.at w }

pub Quiet-guard : (b : Bool) (e : Error) → Quiet (guard b e)
Quiet-guard true e = record { at = λ w. refl }
Quiet-guard false e = record { at = λ w. refl }

pub Quiet-raise_if : (b : Bool) (e : Error) → Quiet (raise_if b e)
Quiet-raise_if true e = record { at = λ w. refl }
Quiet-raise_if false e = record { at = λ w. refl }

pub Quiet-if : {A : Type 0} (b : Bool) {m n : M A} → Quiet m → Quiet n → Quiet (if b then m else n)
Quiet-if true qm qn = qm
Quiet-if false qm qn = qn

module _ {A B : Type 0} where
  continue-Quiet :
      (r : Result A) {f : A → M B} (w : World)
      → ((a : A) → Quiet (f a))
      → lasting (continue r f w).1 ≡ lasting w
  continue-Quiet (ok a) w q = (q a).at w
  continue-Quiet (err e) w q = refl

  pub Quiet-bind : {m : M A} {f : A → M B} → Quiet m → ((a : A) → Quiet (f a)) → Quiet (m >>= f)
  unfolding ◌>>=◌
  Quiet-bind {m} qm qf = record { at = λ w. continue-Quiet (m w).0 (m w).1 qf ∙ qm.at w }

pub Quiet-reach : Quiet reach
unfolding reach
Quiet-reach = record { at = λ w. refl }

pub Quiet-nextval : (table : String) → Quiet (nextval table)
unfolding nextval
Quiet-nextval table = record { at = λ w. refl }

pub Quiet-rand_read : (n : ℕ) → Quiet (rand_read n)
unfolding rand_read
Quiet-rand_read n = record { at = λ w. ground arith }

pub Quiet-publish : (m : Message) → Quiet (publish m)
unfolding publish
Quiet-publish m = Quiet-bind Quiet-reach (λ _. record { at = λ w. refl })

module _ {A : Type 0} where
  pub Quiet-query : (f : World → Result A) → Quiet (query f)
  unfolding query
  Quiet-query f = Quiet-bind Quiet-reach (λ _. record { at = λ w. refl })

Quiet-set_user : (user_id : ℤ) → Quiet (set_user user_id)
Quiet-set_user user_id = record { at = λ w. refl }

Quiet-set_role : (role : String) → Quiet (set_role role)
Quiet-set_role role = record { at = λ w. refl }

pub Quiet-set_rls_context : (user_id : ℤ) (role : String) → Quiet (set_rls_context user_id role)
unfolding set_rls_context
Quiet-set_rls_context user_id role = Quiet-bind (Quiet-or_else _ Quiet-reach) λ _.
    Quiet-bind (Quiet-set_user user_id)
      λ _. Quiet-bind (Quiet-or_else _ Quiet-reach) λ _. Quiet-set_role role

module _ {A : Type 0} where
  close_tx-Quiet :
      (v : World) (r : Result A) (w : World)
      → lasting w ≡ lasting v
      → lasting (close_tx v.tables r w).1 ≡ lasting v
  close_tx-Quiet v (err _) w h = ap (λ n. (v.tables, n)) (lasting-now v w h)
  close_tx-Quiet v (ok a) w h = ground arith

  pub Quiet-with_tx : {fn : M A} → Quiet fn → Quiet (with_tx fn)
  unfolding with_tx
  Quiet-with_tx {fn} q =
      Quiet-bind Quiet-reach (λ _. record { at = λ w. close_tx-Quiet w (fn w).0 (fn w).1 (q.at w) })

-- To prove by `search` that an action is quiet.
pub ruleset quiet_rules = (
  Quiet-pure, Quiet-raise, Quiet-lift, Quiet-gets, Quiet-or_raise, Quiet-or_else, Quiet-attempt,
  Quiet-guard, Quiet-raise_if, Quiet-if, Quiet-bind, Quiet-reach, Quiet-nextval, Quiet-rand_read,
  Quiet-publish, Quiet-query, Quiet-set_rls_context, Quiet-with_tx,
)
