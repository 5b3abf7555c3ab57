-- ===== src/Life/Outcomes.antt =====
-- What each step comes to, by its outcome: nothing of the tables spds and approvals and of the
-- messages changes, or the one effect of the request.
use esppdv.Base.{
  ℕ, suc, ◌≤◌, ℤ, String, true, Option, none, some, ◌≡◌, ◌⊎◌, inl, inr, refl, ap, eqb_ℤ_iff,
  eq_refl, arith,
}
use esppdv.Outcome.{Error, Result, ok, err}
use esppdv.Exec.{◌>>=◌}
use esppdv.Crypto.{Aead, encrypt_string}
use esppdv.World.{World, Tables}
use esppdv.World.Rows.{SpdRecord, ApprovalRow}
use esppdv.World.Sql.{M, advanced}
use esppdv.World.Quiet.{quiet_rules}
use esppdv.World.Atomic.{Atomic, Atomic-bind, Atomic-or_else, Atomic-with_tx}
use esppdv.World.Calm.{After, Calm, calm_rules}
use esppdv.World.Tx.{acting}
use esppdv.Httpx.{Locals, require_auth, parse_id_param}
use esppdv.Httpx.Guards.{Quiet-require_auth}
use esppdv.Spd.Repo.{Draft, create_spd}
use esppdv.Spd.Handler.{CreateRequest, SpdResponse, create}
use esppdv.Spd.Create.{create-Created, create_fails}
use esppdv.Approval.Repo.{is_reached, approve, reject}
use esppdv.Approval.Handler.{handle_approve, handle_reject}
use esppdv.Approval.Decide.{Handled, approve-Handled, reject-Handled}
use esppdv.Life.Effect.{Idle, Made, Ruled}

pub Result-cases :
    {A : Type 0} (r : Result A) → ((a : A) × (r ≡ ok a)) ⊎ ((e : Error) × (r ≡ err e))
Result-cases (ok a) = inl (a, refl)
Result-cases (err e) = inr (e, refl)

pub idle : (w v : World) → v.tables ≡ w.tables → After w v → Idle w v
idle w v e a = record {
  spds = ap (λ (t : Tables). t.spds) e;
  approvals = ap (λ (t : Tables). t.approvals) e;
  published = a.published;
  serial = a.serial "spds";
}

-- An action that is calm and atomic has its effect or none.
pub outcome :
    {A : Type 0} (m : M A) (E : World → World → Type 0) (w : World)
    → Calm m
    → Atomic m
    → ((a : A) → m w ≡ (ok a, (m w).1) → E w (m w).1)
    → Idle w (m w).1 ⊎ E w (m w).1
outcome m E w calm atomic k = elim (Result-cases (m w).0) [
  | inl (a, e) ↦ inr (k a (λ i. (e i, (m w).1)))
  | inr (e, h) ↦ inl (idle w (m w).1 (atomic.at w e h) (calm.at w))
]

pub Calm-require_auth : (l : Locals) → Calm (require_auth l)
unfolding require_auth
Calm-require_auth l = search calm_rules

pub Calm-encrypt_string : (gcm : Aead) (p aad : String) → Calm (encrypt_string gcm p aad)
unfolding encrypt_string
Calm-encrypt_string gcm p aad = search calm_rules depth 8

Calm-create_spd : (user_id : ℤ) (role : String) (d : Draft) → Calm (create_spd user_id role d)
unfolding create_spd
Calm-create_spd user_id role d = search calm_rules depth 10

Calm-create :
    (gcm : Aead) (locals : Locals) (body : Option CreateRequest) → Calm (create gcm locals body)
unfolding create
Calm-create gcm locals body =
    search (calm_rules, Calm-require_auth, Calm-encrypt_string, Calm-create_spd) depth 15

advanced-suc : (table : String) (f g : String → ℕ) → g ≡ advanced table f → suc (f table) ≤ g table
advanced-suc table f g e = rw (e, eq_refl table) (omega arith)

create-Made :
    (gcm : Aead) (locals : Locals) (req : CreateRequest) (w v : World) (reply : SpdResponse)
    → create gcm locals (some req) w ≡ (ok reply, v)
    → After w v
    → Made w v
create-Made gcm locals req w v reply k a =
    let c = create-Created gcm locals req w v reply k in
    record {
      row = _;
      id = refl;
      status = refl;
      spds = ap (λ (t : Tables). t.spds) c.stored.tables;
      approvals = ap (λ (t : Tables). t.approvals) c.stored.tables;
      published = a.published;
      serial = advanced-suc "spds" w.serial v.serial c.stored.serial;
    }

nothing : (gcm : Aead) (locals : Locals) (w : World) → (create gcm locals none w).1 ≡ w
unfolding create ◌>>=◌
nothing gcm locals w = refl

pub create_outcome :
    (gcm : Aead) (locals : Locals) (body : Option CreateRequest) (w : World)
    → Idle w (create gcm locals body w).1 ⊎ Made w (create gcm locals body w).1
create_outcome gcm locals none w = inl (
    idle w (create gcm locals none w).1 (ap (λ (u : World). u.tables) (nothing gcm locals w))
      ((Calm-create gcm locals none).at w))
create_outcome gcm locals (some req) w =
    outcome (create gcm locals (some req)) Made w (Calm-create gcm locals (some req))
      (record { at = create_fails gcm locals (some req) })
      (λ reply k. create-Made gcm locals req w _ reply k ((Calm-create gcm locals (some req)).at w))

Atomic-approve :
    (locals : Locals) (id : String) (c : Option String) → Atomic (handle_approve locals id c)
unfolding handle_approve approve parse_id_param
Atomic-approve locals id c =
    search (quiet_rules, Atomic-bind, Atomic-or_else, Atomic-with_tx, Quiet-require_auth) depth 12

Atomic-reject :
    (locals : Locals) (id : String) (c : Option String) → Atomic (handle_reject locals id c)
unfolding handle_reject reject parse_id_param
Atomic-reject locals id c =
    search (quiet_rules, Atomic-bind, Atomic-or_else, Atomic-with_tx, Quiet-require_auth) depth 12

Calm-approve :
    (locals : Locals) (id : String) (c : Option String) → Calm (handle_approve locals id c)
unfolding handle_approve approve parse_id_param
Calm-approve locals id c = search (calm_rules, Calm-require_auth) depth 20

Calm-reject : (locals : Locals) (id : String) (c : Option String) → Calm (handle_reject locals id c)
unfolding handle_reject reject parse_id_param
Calm-reject locals id c = search (calm_rules, Calm-require_auth) depth 20

reached_id : (id : ℤ) (w : World) (s : SpdRecord) → is_reached id w s ≡ true → s.id ≡ id
reached_id id w s h = (eqb_ℤ_iff s.id id).0 (ground arith)

Handled-Ruled :
    (status : String) (locals : Locals) (id : String) (c : Option String) (w v : World)
    (row : ApprovalRow)
    → Handled status locals id c w v row
    → After w v
    → Ruled status w v
Handled-Ruled status locals id c w v row h a = record {
  id = h.spd_id;
  user_id = h.auth.user_id;
  comment = c;
  request = h.made.request;
  found = h.made.found;
  picked = is_reached h.spd_id (acting w h.auth.user_id h.auth.role);
  only_id = reached_id h.spd_id (acting w h.auth.user_id h.auth.role);
  now = w.now;
  spds = ap (λ (t : Tables). t.spds) h.made.tables;
  approvals = ap (λ (t : Tables). t.approvals) h.made.tables;
  published = a.published;
  serial = a.serial "spds";
}

pub approve_outcome :
    (locals : Locals) (id : String) (c : Option String) (w : World)
    → Idle w (handle_approve locals id c w).1 ⊎ Ruled "APPROVED" w (handle_approve locals id c w).1
approve_outcome locals id c w =
    outcome (handle_approve locals id c) (Ruled "APPROVED") w (Calm-approve locals id c)
      (Atomic-approve locals id c)
      (λ row k.
        Handled-Ruled "APPROVED" locals id c w _ row (approve-Handled locals id c w _ row k)
          ((Calm-approve locals id c).at w))

pub reject_outcome :
    (locals : Locals) (id : String) (c : Option String) (w : World)
    → Idle w (handle_reject locals id c w).1 ⊎ Ruled "REJECTED" w (handle_reject locals id c w).1
reject_outcome locals id c w =
    outcome (handle_reject locals id c) (Ruled "REJECTED") w (Calm-reject locals id c)
      (Atomic-reject locals id c)
      (λ row k.
        Handled-Ruled "REJECTED" locals id c w _ row (reject-Handled locals id c w _ row k)
          ((Calm-reject locals id c).at w))
