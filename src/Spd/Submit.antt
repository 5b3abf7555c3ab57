-- ===== src/Spd/Submit.antt =====
-- What a Submit has found, written and returned.
use esppdv.Base.{
  ℤ, String, Bool, true, false, Option, none, some, ◌≡◌, refl, ap, sym, ◌∙◌, find?, update,
}
use esppdv.Decimal.{parse_int}
use esppdv.Outcome.{ok}
use esppdv.Exec.Rules.{bind-elim, or_else-ok, lift-ok}
use esppdv.World.{World, Tables}
use esppdv.World.Rows.{SpdRecord, SpdSubmittedEvent}
use esppdv.World.Quiet.{
  Quiet, lasting-tables, lasting-now, Quiet-pure, Quiet-bind, Quiet-attempt, Quiet-publish,
}
use esppdv.World.Inversion.{quiet-elim, gets-elim, or_raise-elim, exec-ok, reached}
use esppdv.World.Tx.{tx-elim, returned}
use esppdv.Crypto.{Aead}
use esppdv.Httpx.{AuthInfo, Locals, auth_from_locals, parse_id_param}
use esppdv.Spd.Repo.{SpdRow, row_of, is_submittable, submitted, submit_row, submit_spd}
use esppdv.Spd.Handler.{SpdResponse, to_response, announce, submit}
use esppdv.World.Tx.{acting}
use esppdv.Httpx.Guards.{auth-elim}

-- The draft that submit_spd has found, and the tables and the row after it.
pub record Sent (user_id : ℤ) (role : String) (id : ℤ) (w w' : World) (row : SpdRow) : Type 0 where
  pub draft : SpdRecord
  pub found : find? (is_submittable id (acting w user_id role)) w.tables.spds ≡ some draft
  pub same : row ≡ row_of (submitted w.now draft)
  pub tables : w'.tables ≡ record (w.tables) {
    spds = update (is_submittable id (acting w user_id role)) (submitted w.now) w.tables.spds;
  }
  pub now : w'.now ≡ w.now

submit_row-ok :
    (id : ℤ) (w : World) (o : Option SpdRecord) {row : SpdRow} {t : Tables}
    → submit_row id w o ≡ ok (row, t)
    → (s : SpdRecord) × (o ≡ some s)
      × (row_of (submitted w.now s) ≡ row)
      × (record (w.tables) { spds = update (is_submittable id w) (submitted w.now) w.tables.spds }
          ≡ t)
submit_row-ok id w none h = cc
submit_row-ok id w (some s) h = let (same, tables) = returned _ _ _ _ h in (s, refl, same, tables)

pub submit_spd-Sent :
    (user_id : ℤ) (role : String) (id : ℤ) (w w' : World) (row : SpdRow)
    → submit_spd user_id role id w ≡ (ok row, w')
    → Sent user_id role id w w' row
unfolding submit_spd
submit_spd-Sent user_id role id w w' row k = tx-elim user_id role _ w k λ s v i k done.
    let (ran, now2) = exec-ok _ s k in
    let (draft, found, same, tables) = submit_row-ok id (reached s) _ ran in
    record {
      draft = draft;
      found = rw (i.tables, i.rls, i.setting) at found;
      same = sym same ∙ ap (λ n. row_of (submitted n draft)) i.now;
      tables = done.tables ∙ sym tables ∙ rw (i.tables, i.rls, i.setting, i.now) refl;
      now = done.now ∙ now2 ∙ i.now;
    }

pub Quiet-announce : (connected : Bool) (evt : SpdSubmittedEvent) → Quiet (announce connected evt)
Quiet-announce false evt = Quiet-pure tt
Quiet-announce true evt = Quiet-bind (Quiet-attempt (Quiet-publish _)) λ _. Quiet-pure tt

-- What a Submit has found, written and returned.
pub record Submitted (gcm : Aead) (locals : Locals) (id_str : String) (w w' : World)
    (reply : SpdResponse) : Type 0 where
  pub id : ℤ
  pub parsed : parse_int id_str ≡ some id
  pub auth : AuthInfo
  pub logged_in : auth_from_locals locals ≡ some auth
  pub row : SpdRow
  pub sent : Sent auth.user_id auth.role id w w' row
  pub replied : to_response gcm row ≡ ok reply

-- A Submit that replies was called by a logged-in user with the id of a live draft that the
-- policies let that user update; it has set the status of the rows with that id that are so to
-- SUBMITTED, changed nothing else in the tables, and returned the new row.
pub submit-Submitted :
    (gcm : Aead) (locals : Locals) (id_str : String) (w w' : World) (reply : SpdResponse)
    → submit gcm locals id_str w ≡ (ok reply, w')
    → Submitted gcm locals id_str w w' reply
unfolding submit parse_id_param
submit-Submitted gcm locals id_str w w' reply k = or_raise-elim _ _ _ _ k λ id parsed k.
    auth-elim _ _ _ k λ a logged_in k. bind-elim _ _ _ k λ row w1 k1 k. gets-elim _ _ _ k λ k.
      gets-elim _ _ _ k λ k. quiet-elim _ _ _ (Quiet-announce _ _) k λ _ w2 k2 same2 k.
        let (sent, ended) = lift-ok _ w2 k in
        let c = submit_spd-Sent a.user_id a.role id w w1 row (or_else-ok _ _ w k1) in
        record {
          id = id;
          parsed = parsed;
          auth = a;
          logged_in = logged_in;
          row = row;
          sent = record {
            draft = c.draft;
            found = c.found;
            same = c.same;
            tables = rw (← ended) (lasting-tables w1 w2 same2) ∙ c.tables;
            now = rw (← ended) (lasting-now w1 w2 same2) ∙ c.now;
          };
          replied = sent;
        }
