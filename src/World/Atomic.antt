-- ===== src/World/Atomic.antt =====
-- Actions that change no table if they fail, by a rule for each way to build an action.
use esppdv.Base.{◌≡◌, refl, ap, ◌∙◌, arith}
use esppdv.Outcome.{Error, Result, ok, err}
use esppdv.Exec.{continue, ◌>>=◌, or_else, rethrow, pure}
use esppdv.World.{World, Tables}
use esppdv.World.Rows.{Time}
use esppdv.World.Sql.{M, exec, run_exec, close_tx, with_tx}
use esppdv.World.Quiet.{Quiet, lasting-tables, rethrow-lasting, Quiet-reach}

-- `m` leaves the tables as they were if it ends in an error.
pub record Atomic {A : Type 0} (m : M A) : Type 0 where
  pub at : (w : World) (e : Error) → (m w).0 ≡ err e → (m w).1.tables ≡ w.tables

module _ {A B : Type 0} where
  continue-Atomic :
      (r : Result A) {f : A → M B} (w : World) (e : Error)
      → ((a : A) → Atomic (f a))
      → (continue r f w).0 ≡ err e
      → (continue r f w).1.tables ≡ w.tables
  continue-Atomic (ok a) w e q h = (q a).at w e h
  continue-Atomic (err _) w e q h = refl

  -- What comes before the first write may fail at any point.
  pub Atomic-bind : {m : M A} {f : A → M B} → Quiet m → ((a : A) → Atomic (f a)) → Atomic (m >>= f)
  unfolding ◌>>=◌
  Atomic-bind {m} qm qf = record {
    at =
        λ w e h. continue-Atomic (m w).0 (m w).1 e qf h ∙ ap (λ (p : Tables × Time). p.0) (qm.at w);
  }

  -- Nothing that can fail comes after the write.
  continue-pure :
      (r : Result A) (g : A → B) (w : World) (e : Error)
      → (continue r (λ a. pure (g a)) w).0 ≡ err e
      → (r ≡ err e) × ((continue r (λ a. pure (g a)) w).1.tables ≡ w.tables)
  continue-pure (ok a) g w e h = (cc, refl)
  continue-pure (err e') g w e h = (cc, refl)

  pub Atomic-bind_pure : {m : M A} (g : A → B) → Atomic m → Atomic (m >>= λ a. pure (g a))
  unfolding ◌>>=◌
  Atomic-bind_pure {m} g q = record {
    at = λ w e h. let (k, same) = continue-pure (m w).0 g (m w).1 e h in same ∙ q.at w e k;
  }

  continue_known :
      (r : Result A) {f : A → M B} (w : World) (e : Error)
      → ((a : A) → r ≡ ok a → Atomic (f a))
      → (continue r f w).0 ≡ err e
      → (continue r f w).1.tables ≡ w.tables
  continue_known (ok a) w e q h = (q a refl).at w e h
  continue_known (err _) w e q h = refl

  -- The same, where what follows relies on what the first part returned.
  pub Atomic-bind_known :
      {m : M A} {f : A → M B}
      → Quiet m
      → ((w : World) (a : A) (t : World) → m w ≡ (ok a, t) → Atomic (f a))
      → Atomic (m >>= f)
  unfolding ◌>>=◌
  Atomic-bind_known {m} qm qf = record {
    at = λ w e h.
        continue_known (m w).0 (m w).1 e (λ a k. qf w a (m w).1 (λ i. (k i, (m w).1))) h
        ∙ ap (λ (p : Tables × Time). p.0) (qm.at w);
  }

  continue_total :
      (r : Result A) (f : A → M B) (w : World) (e : Error)
      → ((a : A) → r ≡ ok a → (b : B) × ((f a w).0 ≡ ok b))
      → (continue r f w).0 ≡ err e
      → (r ≡ err e) × ((continue r f w).1.tables ≡ w.tables)
  continue_total (ok a) f w e total h = cc ((total a refl).1, h)
  continue_total (err _) f w e total h = (cc, refl)

  -- What comes after the write does not fail.
  pub Atomic-bind_total :
      {m : M A} (f : A → M B)
      → Atomic m
      → ((w : World) (a : A) (t : World) → m w ≡ (ok a, t) → (b : B) × ((f a t).0 ≡ ok b))
      → Atomic (m >>= f)
  unfolding ◌>>=◌
  Atomic-bind_total {m} f q total = record {
    at = λ w e h.
        let (k, same) =
          continue_total (m w).0 f (m w).1 e (λ a k. total w a (m w).1 (λ i. (k i, (m w).1))) h in
        same ∙ q.at w e k;
  }

module _ {A : Type 0} where
  pub Atomic-of_Quiet : {m : M A} → Quiet m → Atomic m
  Atomic-of_Quiet {m} q = record { at = λ w e h. lasting-tables w (m w).1 (q.at w) }

  rethrow-err :
      (f : Error → Error) (r : Result A) (w : World) (e : Error)
      → (rethrow f r w).0 ≡ err e
      → (e' : Error) × (r ≡ err e')
  rethrow-err f (ok a) w e h = cc
  rethrow-err f (err e') w e h = (e', refl)

  pub Atomic-or_else : {m : M A} (f : Error → Error) → Atomic m → Atomic (or_else m f)
  unfolding or_else
  Atomic-or_else {m} f q = record {
    at = λ w e h.
        let (e', k) = rethrow-err f (m w).0 (m w).1 e h in
        ap (λ (p : Tables × Time). p.0) (rethrow-lasting f (m w).0 (m w).1) ∙ q.at w e' k;
  }

  run_exec-Atomic :
      (r : Result (A × Tables)) (w : World) (e : Error)
      → (run_exec r w).0 ≡ err e
      → (run_exec r w).1.tables ≡ w.tables
  run_exec-Atomic (ok (a, t)) w e h = cc
  run_exec-Atomic (err _) w e h = refl

  close_tx-Atomic :
      (t : Tables) (r : Result A) (w : World) (e : Error)
      → (close_tx t r w).0 ≡ err e
      → (close_tx t r w).1.tables ≡ t
  close_tx-Atomic t (err _) w e h = refl
  close_tx-Atomic t (ok a) w e h = ground arith

  pub Atomic-exec : (f : World → Result (A × Tables)) → Atomic (exec f)
  unfolding exec
  Atomic-exec f =
      Atomic-bind Quiet-reach (λ _. record { at = λ w e h. run_exec-Atomic (f w) w e h })

  -- A transaction changes no table unless it commits.
  pub Atomic-with_tx : (fn : M A) → Atomic (with_tx fn)
  unfolding with_tx
  Atomic-with_tx fn =
      Atomic-bind Quiet-reach
        (λ _. record { at = λ w e h. close_tx-Atomic w.tables (fn w).0 (fn w).1 e h })
