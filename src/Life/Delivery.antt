-- ===== src/Life/Delivery.antt =====
-- What the delivery of the event spd.submitted comes to.
use esppdv.Base.{
  ℤ, pos, some, [], ◌∷◌, ◌++◌, ◌≡◌, ◌⊎◌, inl, inr, refl, ap, sym, ◌∙◌, any, eqb_ℤ, Bool-cases,
  arith,
}
use esppdv.Outcome.{Result, ok, err}
use esppdv.Exec.{pure, forget, continue, attempt, ◌>>=◌, ◌>>◌}
use esppdv.Exec.Rules.{bind-elim}
use esppdv.World.{World, Tables}
use esppdv.World.Rows.{ApprovalRow}
use esppdv.World.Sql.{M}
use esppdv.World.Quiet.{Quiet-nextval}
use esppdv.World.Atomic.{Atomic, Atomic-bind, Atomic-exec}
use esppdv.World.Calm.{After, Calm, calm_rules}
use esppdv.World.Inversion.{exec-ok}
use esppdv.World.Tx.{returned}
use esppdv.Spd.Stored.{nextval-ok}
use esppdv.Approval.Repo.{pending, has_spd_id, opened_for, create_pending_approval}
use esppdv.Approval.Handler.{on_spd_submitted}
use esppdv.Life.Effect.{Idle, Opened}
use esppdv.Life.Outcomes.{outcome}

-- What CreatePendingApproval has added.
opened_for-ok :
    (a : ApprovalRow) (t : Tables) {u : Tables}
    → opened_for a t ≡ ok (tt, u)
    → record t { approvals = t.approvals ++ a ∷ [] } ≡ u
opened_for-ok a t h = elim (Bool-cases (any (has_spd_id a.spd_id) t.spds)) [
  | inl e ↦ (returned tt tt _ _ (rw e at h)).1
  | inr e ↦ cc (rw e at h)
]

create_pending-Opened :
    (spd_id step : ℤ) (w v : World)
    → create_pending_approval spd_id step w ≡ (ok tt, v)
    → After w v
    → Opened spd_id w v
unfolding create_pending_approval
create_pending-Opened spd_id step w v k a = bind-elim _ _ w k λ id w1 k1 k.
    let (_, e) = nextval-ok "approvals" w k1 in
    let (ran, _) = exec-ok _ w1 k in
    let t = opened_for-ok (pending id spd_id step w1.now) w1.tables ran in
    let same : w1.tables ≡ w.tables = rw (← e) refl in
    record {
      id = id;
      step = step;
      now = w1.now;
      spds = ap (λ (u : Tables). u.spds) (sym t) ∙ ap (λ (u : Tables). u.spds) same;
      approvals =
          ap (λ (u : Tables). u.approvals) (sym t)
          ∙ ap (λ (u : Tables). u.approvals ++ pending id spd_id step w1.now ∷ []) same;
      published = a.published;
      serial = a.serial "spds";
    }

Calm-create_pending : (spd_id step : ℤ) → Calm (create_pending_approval spd_id step)
unfolding create_pending_approval
Calm-create_pending spd_id step = search calm_rules

Atomic-create_pending : (spd_id step : ℤ) → Atomic (create_pending_approval spd_id step)
unfolding create_pending_approval
Atomic-create_pending spd_id step = Atomic-bind (Quiet-nextval _) (λ _. Atomic-exec _)

create_pending-cases :
    (spd_id : ℤ) (w : World)
    → Idle w (create_pending_approval spd_id (pos 1) w).1
      ⊎ Opened spd_id w (create_pending_approval spd_id (pos 1) w).1
create_pending-cases spd_id w =
    outcome (create_pending_approval spd_id (pos 1)) (Opened spd_id) w
      (Calm-create_pending spd_id (pos 1)) (Atomic-create_pending spd_id (pos 1))
      (λ _ k.
        create_pending-Opened spd_id (pos 1) w _ k ((Calm-create_pending spd_id (pos 1)).at w))

-- A dropped error leaves what the call wrote.
world_forget :
    (r : Result (Unit {0})) (v : World)
    → (continue (forget r v).0 (λ _. pure tt) (forget r v).1).1 ≡ v
world_forget (ok a) v = refl
world_forget (err e) v = refl

pub attempt-world : (m : M (Unit {0})) (w : World) → ((attempt m >> pure tt) w).1 ≡ (m w).1
unfolding ◌>>=◌ attempt
attempt-world m w = world_forget (m w).0 (m w).1

pub unmoved : (w : World) → Idle w w
unmoved w = record { spds = refl; approvals = refl; published = refl; serial = omega arith }

pub deliver_outcome :
    (id : ℤ) (w : World)
    → Idle w (on_spd_submitted (some id) w).1 ⊎ Opened id w (on_spd_submitted (some id) w).1
unfolding on_spd_submitted
deliver_outcome id w = elim (Bool-cases (eqb_ℤ id (pos 0))) [
  | inl e ↦ inl (rw e (unmoved w))
  | inr e ↦ rw (e, attempt-world (create_pending_approval id (pos 1)) w) (create_pending-cases id w)
]
