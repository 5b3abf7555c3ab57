-- ===== src/Budget/View.antt =====
-- What a Get of a budget shows, and to whom.
use mathlib.Core.Option
use esppdv.Base.{
  ℤ, String, Bool, true, false, Option, none, some, ◌≡◌, inl, inr, refl, ap, sym, ◌∙◌, find?,
  Bool-cases,
}
use esppdv.Decimal.{parse_int}
use esppdv.Outcome.{Result, ok, err}
use esppdv.Exec.Rules.{bind-elim, or_else-ok, lift-ok}
use esppdv.World.{World}
use esppdv.World.Rows.{BudgetRecord}
use esppdv.World.Quiet.{Quiet, lasting-tables, quiet_rules}
use esppdv.World.Inversion.{quiet-elim, or_raise-elim, one_row-ok, query-ok, Quiet-step}
use esppdv.World.Tx.{tx-elim}
use esppdv.Crypto.{Aead, decrypt_string}
use esppdv.Httpx.{AuthInfo, Locals, auth_from_locals, parse_id_param}
use esppdv.Budget.Repo.{BudgetRow, row_of, is_shown, get_budget}
use esppdv.Budget.Handler.{
  BudgetResponse, response_of, response_with, to_response, can_manage_budget, announce,
  publish_audit, get,
}
use esppdv.World.Tx.{acting}
use esppdv.Httpx.Guards.{auth-elim}

Quiet-announce : (connected : Bool) (evt : _) → Quiet (announce connected evt)
Quiet-announce false evt = search quiet_rules
Quiet-announce true evt = search quiet_rules depth 8

pub Quiet-publish_audit :
    (action : String) (id : ℤ) (a : AuthInfo) (ip agent : String)
    → Quiet (publish_audit action id a ip agent)
unfolding publish_audit
Quiet-publish_audit action id a ip agent = search (quiet_rules, Quiet-announce) depth 10

pub Quiet-get_budget : (user_id : ℤ) (role : String) (id : ℤ) → Quiet (get_budget user_id role id)
unfolding get_budget
Quiet-get_budget user_id role id = search quiet_rules depth 10

map-some :
    (o : Option BudgetRecord) {r : BudgetRow}
    → Option.map row_of o ≡ some r
    → (b : BudgetRecord) × (o ≡ some b) × (row_of b ≡ r)
map-some none h = cc
map-some (some b) h = (b, refl, cc)

pub get_budget-found :
    (user_id : ℤ) (role : String) (id : ℤ) (w w' : World) (row : BudgetRow)
    → get_budget user_id role id w ≡ (ok row, w')
    → (b : BudgetRecord) × (find? (is_shown id (acting w user_id role)) w.tables.budgets ≡ some b)
      × (row_of b ≡ row)
unfolding get_budget
get_budget-found user_id role id w w' row k = tx-elim user_id role _ w k λ s v i k done.
    let (b, found, same) = map-some _ (one_row-ok _ (query-ok _ s k)) in
    (b, rw (i.tables, i.rls, i.setting) at found, same)

-- What a reply shows of the two secret fields.
abbrev pub Shows : Aead → Bool → BudgetRecord → BudgetResponse → Type 0
Shows gcm true b reply =
    (decrypt_string gcm (row_of b).amount_enc "budgets:amount" ≡ ok reply.amount)
    × (decrypt_string gcm (row_of b).source_enc "budgets:source" ≡ ok reply.source)
Shows gcm false b reply = (reply.amount ≡ "***") × (reply.source ≡ "***")

response_with-ok :
    (r : BudgetRow) (amount source : Result String) (reply : BudgetResponse)
    → response_with r amount source ≡ ok reply
    → (amount ≡ ok reply.amount) × (source ≡ ok reply.source)
response_with-ok r (err e) source reply h = (cc, cc)
response_with-ok r (ok a) (err e) reply h = (cc, cc)
response_with-ok r (ok a) (ok s) reply h =
    let e : response_of r a s ≡ reply = cc h in
    (ap (λ (x : BudgetResponse). ok x.amount) e, ap (λ (x : BudgetResponse). ok x.source) e)

to_response-Shows :
    (gcm : Aead) (b : BudgetRecord) (role : String) (reply : BudgetResponse)
    → to_response gcm (row_of b) role ≡ ok reply
    → Shows gcm (can_manage_budget role) b reply
unfolding to_response
to_response-Shows gcm b role reply h = elim (Bool-cases (can_manage_budget role)) [
  | inl e ↦ rw e (response_with-ok (row_of b) _ _ reply (rw e at h))
  | inr e ↦
      let k : response_of (row_of b) "***" "***" ≡ reply = cc (rw e at h) in
      rw e (
        ap (λ (x : BudgetResponse). x.amount) (sym k),
        ap (λ (x : BudgetResponse). x.source) (sym k),
      )
]

-- What a Get has found and shown.
pub record Viewed (gcm : Aead) (locals : Locals) (id_str : String) (w w' : World)
    (reply : BudgetResponse) : Type 0 where
  pub id : ℤ
  pub parsed : parse_int id_str ≡ some id
  pub auth : AuthInfo
  pub logged_in : auth_from_locals locals ≡ some auth
  pub budget : BudgetRecord
  pub found : find? (is_shown id (acting w auth.user_id auth.role)) w.tables.budgets ≡ some budget
  pub shows : Shows gcm (can_manage_budget auth.role) budget reply
  pub tables : w'.tables ≡ w.tables

-- A Get of a budget that replies was called by a logged-in user, for a live budget that the
-- policies show that user; the reply holds the decrypted amount and source if the role manages
-- budgets, and "***" for each if it does not; and no table has changed.
pub get-Viewed :
    (gcm : Aead) (locals : Locals) (ip user_agent id_str : String) (w w' : World)
    (reply : BudgetResponse)
    → get gcm locals ip user_agent id_str w ≡ (ok reply, w')
    → Viewed gcm locals id_str w w' reply
unfolding get parse_id_param
get-Viewed gcm locals ip user_agent id_str w w' reply k = or_raise-elim _ _ _ _ k λ id parsed k.
    auth-elim _ _ _ k λ a logged_in k. bind-elim _ _ _ k λ row w1 k1 k.
      quiet-elim _ _ _ (Quiet-publish_audit _ _ _ _ _) k λ _ w2 k2 same2 k.
        let (sent, ended) = lift-ok _ w2 k in
        let read = or_else-ok _ _ w k1 in
        let (b, found, same) = get_budget-found a.user_id a.role id w w1 row read in
        let same1 = Quiet-step w (Quiet-get_budget a.user_id a.role id) read in
        record {
          id = id;
          parsed = parsed;
          auth = a;
          logged_in = logged_in;
          budget = b;
          found = found;
          shows = to_response-Shows gcm b a.role reply (rw (← same) at sent);
          tables = rw (← ended) (lasting-tables w w2 (same2 ∙ same1));
        }
