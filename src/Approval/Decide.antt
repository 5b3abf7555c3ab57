-- ===== src/Approval/Decide.antt =====
-- What a decision has found and written, and that a user decides an SPD once.
use esppdv.Base.{
  ℤ, String, true, false, Option, none, some, ◌≡◌, refl, ap, sym, ◌∙◌, find?, update, inl, inr, ◌⊎◌,
  find?-update-none, arith, str_eq,
}
use esppdv.Decimal.{parse_int}
use esppdv.Outcome.{ok}
use esppdv.Exec.Rules.{bind-elim, or_else-ok}
use esppdv.World.{World, Tables}
use esppdv.World.Rows.{Time, ApprovalRow}
use esppdv.World.Inversion.{pure-ok, guard-elim, or_raise-elim, exec-ok, exec-serial, reached}
use esppdv.World.Tx.{tx-elim, returned}
use esppdv.Httpx.{AuthInfo, Locals, auth_from_locals, parse_id_param}
use esppdv.Approval.Repo.{
  is_open, decided, decide_rows, is_reached, with_status, decide_tx, approve, reject,
}
use esppdv.Approval.Handler.{can_approve, handle_approve, handle_reject}
use esppdv.World.Tx.{acting}
use esppdv.Httpx.Guards.{auth-elim}

-- The open approval that a decision has found, and the tables and the row after it.
pub record Decided (status : String) (user_id : ℤ) (role : String) (spd_id : ℤ)
    (comment : Option String) (w w' : World) (row : ApprovalRow) : Type 0 where
  pub request : ApprovalRow
  pub found : find? (is_open user_id spd_id) w.tables.approvals ≡ some request
  pub same : row ≡ decided status comment user_id w.now request
  pub tables : w'.tables ≡ record (w.tables) {
    approvals =
        update (is_open user_id spd_id) (decided status comment user_id w.now) w.tables.approvals;
    spds =
        update (is_reached spd_id (acting w user_id role)) (with_status status w.now) w.tables.spds;
  }
  pub now : w'.now ≡ w.now

decide_rows-ok :
    (status : String) (comment : Option String) (user_id spd_id : ℤ) (w : World)
    (o : Option ApprovalRow) {row : ApprovalRow} {t : Tables}
    → decide_rows status comment user_id spd_id w o ≡ ok (row, t)
    → (a : ApprovalRow) × (o ≡ some a)
      × (decided status comment user_id w.now a ≡ row)
      × (record (w.tables) {
        approvals =
            update
              (is_open user_id spd_id)
              (decided status comment user_id w.now)
              w.tables.approvals;
      }
          ≡ t)
decide_rows-ok status comment user_id spd_id w none h = cc
decide_rows-ok status comment user_id spd_id w (some a) h =
    let (same, tables) = returned _ _ _ _ h in (a, refl, same, tables)

pub decide_tx-Decided :
    (status : String) (user_id : ℤ) (role : String) (spd_id : ℤ) (comment : Option String)
    (w w' : World) (row : ApprovalRow)
    → decide_tx status user_id role spd_id comment w ≡ (ok row, w')
    → Decided status user_id role spd_id comment w w' row
decide_tx-Decided status user_id role spd_id comment w w' row k =
    tx-elim user_id role _ w k λ s v i k done. bind-elim _ _ s k λ a s1 k1 k.
      bind-elim _ _ s1 k λ _ s2 k2 k.
        let (ran, now1) = exec-ok _ s k1 in
        let (ran2, now2) = exec-ok _ s1 k2 in
        let (same, ended) = pure-ok _ s2 k in
        let (request, found, first, tables) =
          decide_rows-ok status comment user_id spd_id (reached s) _ ran in
        let (_, rls1, setting1) = exec-serial _ s k1 in
        let (_, second) = returned _ _ _ _ ran2 in
        record {
          request = request;
          found = rw i.tables at found;
          same = sym same ∙ sym first ∙ rw i.now refl;
          tables =
              done.tables
              ∙ ap (λ (v : World). v.tables) (sym ended)
              ∙ sym second
              ∙ rw (rls1, setting1, now1, ← tables, i.tables, i.rls, i.setting, i.now) refl;
          now = done.now ∙ ap (λ (v : World). v.now) (sym ended) ∙ now2 ∙ now1 ∙ i.now;
        }

-- What a decision by request has found, written and returned.
pub record Handled (status : String) (locals : Locals) (spd_id_str : String)
    (comment : Option String) (w w' : World) (row : ApprovalRow) : Type 0 where
  pub spd_id : ℤ
  pub parsed : parse_int spd_id_str ≡ some spd_id
  pub auth : AuthInfo
  pub logged_in : auth_from_locals locals ≡ some auth
  pub entitled : can_approve auth.role ≡ true
  pub made : Decided status auth.user_id auth.role spd_id comment w w' row

-- An Approve that replies was called by a logged-in user with an approver's role, for an SPD with an
-- approval that was pending and open to that user. It has set the approvals that were so to
-- APPROVED, has set the status of the live SPD to that where the policies let that user, has
-- changed nothing else in the tables, and has returned the first of the approvals.
pub approve-Handled :
    (locals : Locals) (spd_id_str : String) (comment : Option String) (w w' : World)
    (row : ApprovalRow)
    → handle_approve locals spd_id_str comment w ≡ (ok row, w')
    → Handled "APPROVED" locals spd_id_str comment w w' row
unfolding handle_approve approve parse_id_param
approve-Handled locals spd_id_str comment w w' row k = or_raise-elim _ _ _ _ k λ id parsed k.
    auth-elim _ _ _ k λ a logged_in k. guard-elim _ _ _ _ k λ entitled k. record {
      spd_id = id;
      parsed = parsed;
      auth = a;
      logged_in = logged_in;
      entitled = entitled;
      made = decide_tx-Decided "APPROVED" a.user_id a.role id comment w w' row (or_else-ok _ _ w k);
    }

-- A Reject that replies was called by a logged-in user with an approver's role, for an SPD with an
-- approval that was pending and open to that user. It has set the approvals that were so to
-- REJECTED, has set the status of the live SPD to that where the policies let that user, has
-- changed nothing else in the tables, and has returned the first of the approvals.
pub reject-Handled :
    (locals : Locals) (spd_id_str : String) (comment : Option String) (w w' : World)
    (row : ApprovalRow)
    → handle_reject locals spd_id_str comment w ≡ (ok row, w')
    → Handled "REJECTED" locals spd_id_str comment w w' row
unfolding handle_reject reject parse_id_param
reject-Handled locals spd_id_str comment w w' row k = or_raise-elim _ _ _ _ k λ id parsed k.
    auth-elim _ _ _ k λ a logged_in k. guard-elim _ _ _ _ k λ entitled k. record {
      spd_id = id;
      parsed = parsed;
      auth = a;
      logged_in = logged_in;
      entitled = entitled;
      made = decide_tx-Decided "REJECTED" a.user_id a.role id comment w w' row (or_else-ok _ _ w k);
    }

closed :
    (status : String) (comment : Option String) (user_id spd_id : ℤ) (now : Time) (a : ApprovalRow)
    → str_eq status "PENDING" ≡ false
    → is_open user_id spd_id (decided status comment user_id now a) ≡ false
closed status comment user_id spd_id now a h = ground arith

none_left :
    (status : String) (user_id spd_id : ℤ) (role : String) (comment : Option String)
    (w w' v : World) (row : ApprovalRow)
    → Decided status user_id role spd_id comment w w' row
    → str_eq status "PENDING" ≡ false
    → v.tables.approvals ≡ w'.tables.approvals
    → find? (is_open user_id spd_id) v.tables.approvals ≡ none
none_left status user_id spd_id role comment w w' v row d other kept =
    let e = kept ∙ ap (λ (t : Tables). t.approvals) d.tables in
    rw e (
      find?-update-none (is_open user_id spd_id) (decided status comment user_id w.now)
        (λ a _. closed status comment user_id spd_id w.now a other) w.tables.approvals)

-- A decision leaves no open approval of that SPD for the user who made it: in any later state with
-- the same approvals, neither Approve nor Reject of the SPD succeeds for that user.
pub decide_once :
    (user_id spd_id : ℤ) (role role' : String) (comment comment' : Option String)
    (w w' v v' : World) (row row' : ApprovalRow)
    → (approve user_id role spd_id comment w ≡ (ok row, w'))
      ⊎ (reject user_id role spd_id comment w ≡ (ok row, w'))
    → v.tables.approvals ≡ w'.tables.approvals
    → (¬ (approve user_id role' spd_id comment' v ≡ (ok row', v')))
      × (¬ (reject user_id role' spd_id comment' v ≡ (ok row', v')))
unfolding approve reject
decide_once user_id spd_id role role' comment comment' w w' v v' row row' first kept =
    let none_open : find? (is_open user_id spd_id) v.tables.approvals ≡ none = elim first [
      | inl k ↦
          none_left "APPROVED" user_id spd_id role comment w w' v row
            (decide_tx-Decided "APPROVED" user_id role spd_id comment w w' row k) refl kept
      | inr k ↦
          none_left "REJECTED" user_id spd_id role comment w w' v row
            (decide_tx-Decided "REJECTED" user_id role spd_id comment w w' row k) refl kept
    ] in
    (
      λ k. cc (
        none_open,
        (decide_tx-Decided "APPROVED" user_id role' spd_id comment' v v' row' k).found,
      ),
      λ k. cc (
        none_open,
        (decide_tx-Decided "REJECTED" user_id role' spd_id comment' v v' row' k).found,
      ),
    )
