-- ===== src/Etl/Settled.antt =====
-- What an action returns, and actions that change nothing over given tables.
use esppdv.Base.{◌≡◌, refl, ◌∙◌, String, Option, List}
use esppdv.Outcome.{Result, ok, err}
use esppdv.Exec.{pure, lift, continue, ◌>>=◌}
use esppdv.Exec.Rules.{bind-elim}
use esppdv.World.{World, Tables}
use esppdv.World.Sql.{M, next_fault, run_exec, exec, commit, close_tx, with_tx}
use esppdv.World.Quiet.{Quiet, lasting-tables, Quiet-reach}
use esppdv.World.Inversion.{lift-elim}

-- What an action returns satisfies Q.
pub record Yields {A : Type 0} (Q : A → Type 0) (m : M A) : Type 0 where
  pub at : (w : World) (a : A) (t : World) → m w ≡ (ok a, t) → Q a

module _ {A B : Type 0} {Q : B → Type 0} where
  pub Yields-bind : (m : M A) {f : A → M B} → ((a : A) → Yields Q (f a)) → Yields Q (m >>= f)
  Yields-bind m {f} q = record {
    at = λ w b t h. bind-elim m f w h λ a w' _ rest. (q a).at w' b t rest;
  }

  pub Yields-lift :
      (r : Result A) {f : A → M B} → ((a : A) → r ≡ ok a → Yields Q (f a)) → Yields Q (lift r >>= f)
  Yields-lift r {f} q = record {
    at = λ w b t h. lift-elim f w r h λ a e rest. (q a e).at w b t rest;
  }

pub Yields-pure : {B : Type 0} {Q : B → Type 0} (b : B) → Q b → Yields Q (pure b)
Yields-pure {Q = Q} b q = record { at = λ w a t h. let e : b ≡ a = cc h in rw (← e) q }

-- Over the tables `t`, `m` changes nothing, whether it ends in an error or not.
pub record Settles {A : Type 0} (m : M A) (t : Tables) : Type 0 where
  pub at : (v : World) → v.tables ≡ t → (m v).1.tables ≡ t

module _ {A B : Type 0} where
  continue-Settles :
      (r : Result A) {f : A → M B} {t : Tables} (v : World)
      → v.tables ≡ t
      → ((a : A) → r ≡ ok a → Settles (f a) t)
      → (continue r f v).1.tables ≡ t
  continue-Settles (ok a) v e q = (q a refl).at v e
  continue-Settles (err _) v e q = e

  pub Settles-bind :
      {m : M A} {f : A → M B} {t : Tables}
      → Settles m t
      → ((a : A) → Settles (f a) t)
      → Settles (m >>= f) t
  unfolding ◌>>=◌
  Settles-bind {m} q k = record {
    at = λ v e. continue-Settles (m v).0 (m v).1 (q.at v e) (λ a _. k a);
  }

  pub Settles-known :
      {m : M A} {f : A → M B} {t : Tables} {Q : A → Type 0}
      → Settles m t
      → Yields Q m
      → ((a : A) → Q a → Settles (f a) t)
      → Settles (m >>= f) t
  unfolding ◌>>=◌
  Settles-known {m} q y k = record {
    at = λ v e.
        continue-Settles (m v).0 (m v).1 (q.at v e)
          (λ a h. k a (y.at v a (m v).1 (λ i. (h i, (m v).1))));
  }

pub Settles-of_Quiet : {A : Type 0} {m : M A} {t : Tables} → Quiet m → Settles m t
Settles-of_Quiet {m = m} q = record { at = λ v e. lasting-tables v (m v).1 (q.at v) ∙ e }

module _ {A : Type 0} where
  commit-Settles :
      (t u : Tables) (a : A) (p : Result (Unit {0}) × List (Option String)) (w : World)
      → t ≡ u
      → w.tables ≡ u
      → (commit t a p w).1.tables ≡ u
  commit-Settles t u a (ok _, fs) w e h = h
  commit-Settles t u a (err _, fs) w e h = e

  close_tx-Settles :
      (t u : Tables) (r : Result A) (w : World)
      → t ≡ u
      → w.tables ≡ u
      → (close_tx t r w).1.tables ≡ u
  close_tx-Settles t u (err _) w e h = e
  close_tx-Settles t u (ok a) w e h = commit-Settles t u a (next_fault w.faults) w e h

  pub Settles-with_tx : {fn : M A} {t : Tables} → Settles fn t → Settles (with_tx fn) t
  unfolding with_tx
  Settles-with_tx {fn} {t} q =
      Settles-bind (Settles-of_Quiet Quiet-reach)
        λ _. record { at = λ v e. close_tx-Settles v.tables t (fn v).0 (fn v).1 e (q.at v e) }

  run_exec-Settles :
      (r : Result (A × Tables)) (w : World) {t : Tables}
      → w.tables ≡ t
      → ((a : A) (u : Tables) → r ≡ ok (a, u) → u ≡ t)
      → (run_exec r w).1.tables ≡ t
  run_exec-Settles (ok (a, u)) w e h = h a u refl
  run_exec-Settles (err _) w e h = e

  pub Settles-exec :
      (f : World → Result (A × Tables)) {t : Tables}
      → ((w : World) (a : A) (u : Tables) → w.tables ≡ t → f w ≡ ok (a, u) → u ≡ t)
      → Settles (exec f) t
  unfolding exec
  Settles-exec f h =
      Settles-bind (Settles-of_Quiet Quiet-reach)
        λ _. record { at = λ v e. run_exec-Settles (f v) v e (λ a u k. h v a u e k) }
