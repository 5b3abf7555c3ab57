-- ===== src/Life/Bystander.antt =====
-- Actions that leave SPDs and approvals as they are and publish no spd.submitted, by a rule for each
-- way to build an action.
use mathlib.Core.List.{append_assoc}
use esppdv.Base.{
  ℕ, ◌≤◌, String, false, List, [], ◌∷◌, ◌++◌, Option, ◌≡◌, refl, ap, sym, ◌∙◌, All, ◌⊎◌, inl, inr,
  arith,
}
use esppdv.Outcome.{Error, Result, ok, err}
use esppdv.Exec.{continue, ◌>>=◌, or_else, rethrow, forget, attempt}
use esppdv.World.{World, Tables}
use esppdv.World.Rows.{Message}
use esppdv.World.Sql.{M, reach, exec, run_exec, next_fault, commit, close_tx, with_tx, publish}
use esppdv.World.Quiet.{Quiet, lasting-tables}
use esppdv.World.Calm.{Calm}
use esppdv.Life.Effect.{Aside, is_submission}

pub record Bystander {A : Type 0} (m : M A) : Type 0 where
  pub at : (w : World) → Aside w (m w).1

append-nil : {A : Type 0} (l : List A) → l ++ [] ≡ l
append-nil [] = refl
append-nil (x ∷ l) = ap (λ r. x ∷ r) (append-nil l)

All-append_all :
    {A : Type 0} (P : A → Type 0) (l l' : List A) → All P l → All P l' → All P (l ++ l')
All-append_all P [] l' h k = k
All-append_all P (x ∷ l) l' (p, h) k = (p, All-append_all P l l' h k)

le_trans : {a b c : ℕ} → a ≤ b → b ≤ c → a ≤ c
le_trans p q = omega arith

-- A step to a world that has the same SPDs, approvals, messages and sequences.
same-Aside :
    (w v : World)
    → v.tables.spds ≡ w.tables.spds
    → v.tables.approvals ≡ w.tables.approvals
    → v.published ≡ w.published
    → w.serial "spds" ≤ v.serial "spds"
    → Aside w v
same-Aside w v es ea ep le = record {
  spds = es;
  approvals = ea;
  messages = [];
  published = ep ∙ sym (append-nil w.published);
  others = tt;
  serial = le;
}

Aside-trans : (u v w : World) → Aside u v → Aside v w → Aside u w
Aside-trans u v w p q = record {
  spds = q.spds ∙ p.spds;
  approvals = q.approvals ∙ p.approvals;
  messages = p.messages ++ q.messages;
  published =
      q.published
      ∙ ap (λ (l : List Message). l ++ q.messages) p.published
      ∙ append_assoc u.published p.messages q.messages;
  others = All-append_all (λ m. is_submission m ≡ false) p.messages q.messages p.others q.others;
  serial = le_trans p.serial q.serial;
}

module _ {A : Type 0} where
  pub Bystander-Quiet : {m : M A} → Quiet m → Calm m → Bystander m
  Bystander-Quiet {m} q c = record {
    at = λ w.
        let e = lasting-tables w (m w).1 (q.at w) in
        same-Aside w (m w).1 (ap (λ (t : Tables). t.spds) e) (ap (λ (t : Tables). t.approvals) e)
          (c.at w).published ((c.at w).serial "spds");
  }

  Aside-rethrow :
      (f : Error → Error) (r : Result A) (u w : World) → Aside u w → Aside u (rethrow f r w).1
  Aside-rethrow f (ok a) u w h = h
  Aside-rethrow f (err e) u w h = h

  Aside-forget : (r : Result A) (u w : World) → Aside u w → Aside u (forget r w).1
  Aside-forget (ok a) u w h = h
  Aside-forget (err e) u w h = h

  pub Bystander-or_else : {m : M A} (f : Error → Error) → Bystander m → Bystander (or_else m f)
  unfolding or_else
  Bystander-or_else {m} f q = record { at = λ w. Aside-rethrow f (m w).0 w (m w).1 (q.at w) }

  pub Bystander-attempt : {m : M A} → Bystander m → Bystander (attempt m)
  unfolding attempt
  Bystander-attempt {m} q = record { at = λ w. Aside-forget (m w).0 w (m w).1 (q.at w) }

module _ {A B : Type 0} where
  Aside-continue :
      (r : Result A) {f : A → M B} (u w : World)
      → Aside u w
      → ((a : A) → Bystander (f a))
      → Aside u (continue r f w).1
  Aside-continue (ok a) {f} u w h q = Aside-trans u w (f a w).1 h ((q a).at w)
  Aside-continue (err e) u w h q = h

  pub Bystander-bind :
      {m : M A} {f : A → M B} → Bystander m → ((a : A) → Bystander (f a)) → Bystander (m >>= f)
  unfolding ◌>>=◌
  Bystander-bind {m} qm qf = record { at = λ w. Aside-continue (m w).0 w (m w).1 (qm.at w) qf }

Bystander-reach : Bystander reach
unfolding reach
Bystander-reach = record { at = λ w. same-Aside w (reach w).1 refl refl refl (omega arith) }

pub Bystander-publish : (m : Message) → is_submission m ≡ false → Bystander (publish m)
unfolding publish
Bystander-publish m other = Bystander-bind Bystander-reach λ _. record {
  at = λ w. record {
    spds = refl;
    approvals = refl;
    messages = m ∷ [];
    published = refl;
    others = (other, tt);
    serial = omega arith;
  };
}

-- The end of a transaction leaves the tables that its body has left, or those from its start.
Aside-ended :
    (u v w : World)
    → Aside u v
    → (w.tables ≡ v.tables) ⊎ (w.tables ≡ u.tables)
    → w.published ≡ v.published
    → w.serial ≡ v.serial
    → Aside u w
Aside-ended u v w h (inl e) p s = record {
  spds = rw e h.spds;
  approvals = rw e h.approvals;
  messages = h.messages;
  published = p ∙ h.published;
  others = h.others;
  serial = rw s h.serial;
}
Aside-ended u v w h (inr e) p s = record {
  spds = rw e refl;
  approvals = rw e refl;
  messages = h.messages;
  published = p ∙ h.published;
  others = h.others;
  serial = rw s h.serial;
}

module _ {A : Type 0} where
  -- A statement that keeps the two tables.
  pub record Spares (f : World → Result (A × Tables)) : Type 0 where
    pub at :
        (w : World) (a : A) (t : Tables)
        → f w ≡ ok (a, t)
        → (t.spds ≡ w.tables.spds) × (t.approvals ≡ w.tables.approvals)

  Aside-exec :
      (r : Result (A × Tables)) (w : World)
      → ((a : A) (t : Tables)
          → r ≡ ok (a, t)
          → (t.spds ≡ w.tables.spds) × (t.approvals ≡ w.tables.approvals))
      → Aside w (run_exec r w).1
  Aside-exec (ok (a, t)) w h = let (es, ea) = h a t refl in same-Aside w _ es ea refl (omega arith)
  Aside-exec (err e) w h = same-Aside w w refl refl refl (omega arith)

  pub Bystander-exec : {f : World → Result (A × Tables)} → Spares f → Bystander (exec f)
  unfolding exec
  Bystander-exec {f} s =
      Bystander-bind Bystander-reach (λ _. record { at = λ w. Aside-exec (f w) w (s.at w) })

  Aside-commit :
      (a : A) (p : Result (Unit {0}) × List (Option String)) (u w : World)
      → Aside u w
      → Aside u (commit u.tables a p w).1
  Aside-commit a (ok _, fs) u w h = Aside-ended u w _ h (inl refl) refl refl
  Aside-commit a (err e, fs) u w h = Aside-ended u w _ h (inr refl) refl refl

  Aside-close : (r : Result A) (u w : World) → Aside u w → Aside u (close_tx u.tables r w).1
  Aside-close (err e) u w h = Aside-ended u w _ h (inr refl) refl refl
  Aside-close (ok a) u w h = Aside-commit a (next_fault w.faults) u w h

  pub Bystander-with_tx : {fn : M A} → Bystander fn → Bystander (with_tx fn)
  unfolding with_tx
  Bystander-with_tx {fn} q =
      Bystander-bind Bystander-reach
        (λ _. record { at = λ w. Aside-close (fn w).0 w (fn w).1 (q.at w) })

-- To prove by `search` that an action is a bystander.
pub ruleset bystander_rules = (
  Bystander-bind, Bystander-attempt, Bystander-or_else, Bystander-with_tx, Bystander-publish,
  Bystander-Quiet,
)
