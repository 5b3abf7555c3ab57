-- ===== src/World/Tx.antt =====
-- What the body of a successful transaction has worked on.
use esppdv.Base.{ℤ, String, List, Option, ◌≡◌, refl, ap}
use esppdv.Outcome.{Error, Result, ok, err}
use esppdv.Exec.{◌>>◌, or_else}
use esppdv.Exec.Rules.{bind-elim, or_else-ok}
use esppdv.World.{World, Tables}
use esppdv.World.Sql.{M, next_fault, reach, set_rls_context, commit, close_tx, with_tx, no_setting}
use esppdv.World.Inversion.{reached, reach-ok}

-- `s` is a state of a transaction that was opened at `w`, for the user and the role.
pub record InTx (w : World) (user_id : ℤ) (role : String) (s : World) : Type 0 where
  pub tables : s.tables ≡ w.tables
  pub now : s.now ≡ w.now
  pub rls : s.rls ≡ w.rls
  pub serial : s.serial ≡ w.serial
  pub setting : s.setting ≡ record { current_user_id = user_id; user_role = role }

-- What a transaction hands on when it commits.
pub record Committed (v t : World) : Type 0 where
  pub tables : t.tables ≡ v.tables
  pub now : t.now ≡ v.now
  pub rls : t.rls ≡ v.rls
  pub serial : t.serial ≡ v.serial

-- What a statement returns and the tables that it leaves.
pub returned :
    {A : Type 0} (a b : A) (s t : Tables)
    → ◌≡◌ {A = Result (A × Tables)} (ok (a, s)) (ok (b, t))
    → (a ≡ b) × (s ≡ t)
returned a b s t h = (cc h, cc h)

reached_by :
    (f : Error → Error) (w : World) {s : World} → or_else reach f w ≡ (ok tt, s) → s ≡ reached w
unfolding reach
reached_by f w h = cc (or_else-ok reach f w h)

abbrev user_set : ℤ → World → World
user_set user_id w = record w { setting = record (w.setting) { current_user_id = user_id } }

abbrev role_set : String → World → World
role_set role w = record w { setting = record (w.setting) { user_role = role } }

world_of :
    {A : Type 0} {r r' : Result A} {w w' : World}
    → ◌≡◌ {A = Result A × World} (r, w) (r', w')
    → w ≡ w'
world_of h = ap (λ (p : Result _ × World). p.1) h

set_rls_context-InTx :
    (user_id : ℤ) (role : String) (w : World) {s : World}
    → set_rls_context user_id role w ≡ (ok tt, s)
    → InTx w user_id role s
unfolding set_rls_context
set_rls_context-InTx user_id role w {s} h = bind-elim _ _ _ h λ _ w1 k1 h.
    bind-elim _ _ _ h λ _ w2 k2 h. bind-elim _ _ _ h λ _ w3 k3 h.
      let e1 = reached_by _ w k1 in
      let e3 = reached_by _ w2 k3 in
      let e2 : user_set user_id w1 ≡ w2 = world_of k2 in
      let e4 : role_set role w3 ≡ s = world_of h in
      let e : role_set role (reached (user_set user_id (reached w))) ≡ s = cc (e1, e2, e3, e4) in
      rw (← e) (record { tables = refl; now = refl; rls = refl; serial = refl; setting = refl })

commit-ok :
    {A : Type 0} (before : Tables) (b : A) (p : Result (Unit {0}) × List (Option String))
    (v : World) {a : A} {t : World}
    → commit before b p v ≡ (ok a, t)
    → (b ≡ a) × Committed v t
commit-ok before b (err e, fs) v h = cc
commit-ok before b (ok _, fs) v {t = t} h =
    let e : record v { faults = fs; setting = no_setting } ≡ t = world_of h in
    (cc h, rw (← e) (record { tables = refl; now = refl; rls = refl; serial = refl }))

close_tx-ok :
    {A : Type 0} (before : Tables) (r : Result A) (v : World) {a : A} {t : World}
    → close_tx before r v ≡ (ok a, t)
    → (r ≡ ok a) × Committed v t
close_tx-ok before (err e) v h = cc
close_tx-ok before (ok b) v h =
    let (e, c) = commit-ok before b (next_fault v.faults) v h in (ap (λ a. ok a) e, c)

-- A transaction that commits has run its body to the end.
pub with_tx-ok :
    {A : Type 0} (fn : M A) (w : World) {a : A} {t : World}
    → with_tx fn w ≡ (ok a, t)
    → (v : World) × (fn (reached w) ≡ (ok a, v)) × Committed v t
unfolding with_tx
with_tx-ok fn w h = bind-elim _ _ w h λ _ w1 k rest.
    let e : reached w ≡ w1 = reach-ok w k in
    let (ran, done) = close_tx-ok w1.tables (fn w1).0 (fn w1).1 rest in
    ((fn w1).1, rw e (λ i. (ran i, (fn w1).1)), done)

-- A transaction that commits has run its body to the end, in a state opened for the user and role.
pub tx-elim :
    {A P : Type 0} (user_id : ℤ) (role : String) (body : M A) (w : World) {a : A} {t : World}
    → with_tx (set_rls_context user_id role >> body) w ≡ (ok a, t)
    → ((s v : World) → InTx w user_id role s → body s ≡ (ok a, v) → Committed v t → P)
    → P
tx-elim user_id role body w h k =
    let (v, ran, done) = with_tx-ok _ w h in
    bind-elim _ _ (reached w) ran λ _ s set rest.
      let i = set_rls_context-InTx user_id role (reached w) set in
      k s v
        (record {
          tables = i.tables;
          now = i.now;
          rls = i.rls;
          serial = i.serial;
          setting = i.setting;
        })
        rest done

-- The world as a transaction for the user and role sees it.
abbrev pub acting : World → ℤ → String → World
acting w user_id role = record w {
  setting = record { current_user_id = user_id; user_role = role };
}
