-- ===== src/Spd/Create.antt =====
-- What a Create has stored, and that it stores nothing if it fails.
use esppdv.Base.{ℤ, String, Option, some, ◌≡◌, refl, ap, ◌∙◌}
use esppdv.Text.{Bytes}
use esppdv.Outcome.{Error, ok, err}
use esppdv.Exec.{lift, ◌>>=◌}
use esppdv.Exec.Rules.{bind-elim, lift-ok}
use esppdv.World.{World}
use esppdv.World.Quiet.{Quiet-or_raise, Quiet-raise_if}
use esppdv.World.Atomic.{Atomic, Atomic-bind, Atomic-bind_known, Atomic-bind_total}
use esppdv.World.Inversion.{quiet-elim, gets-elim, raise_if-elim}
use esppdv.Crypto.{Aead, decrypt_string}
use esppdv.Crypto.Laws.{decrypt-encrypt}
use esppdv.Httpx.{AuthInfo, Locals, auth_from_locals}
use esppdv.Spd.Repo.{SpdRow, Draft, create_spd}
use esppdv.Spd.Handler.{CreateRequest, SpdResponse, response_of, draft_of, to_response, create}
use esppdv.Httpx.Guards.{Quiet-require_auth, auth-elim}
use esppdv.Crypto.Random.{Quiet-encrypt_string, encrypt_string-entropy}
use esppdv.Spd.Stored.{Stored, Atomic-create_spd, create_spd-Stored}

pub to_response-ok :
    (gcm : Aead) (row : SpdRow) (purpose total : String)
    → decrypt_string gcm row.purpose_enc "spds:purpose" ≡ ok purpose
    → decrypt_string gcm row.total_cost_enc "spds:total_cost" ≡ ok total
    → to_response gcm row ≡ ok (response_of row purpose total)
unfolding to_response
to_response-ok gcm row purpose total p q = rw (p, q) refl

-- What follows the INSERT cannot fail: the row's fields were encrypted just before.
stored-Atomic :
    (gcm : Aead) (user_id : ℤ) (role purpose total : String) (d : Draft)
    → decrypt_string gcm d.purpose_enc "spds:purpose" ≡ ok purpose
    → decrypt_string gcm d.total_cost_enc "spds:total_cost" ≡ ok total
    → Atomic (create_spd user_id role d >>= λ row. lift (to_response gcm row))
stored-Atomic gcm user_id role purpose total d p q =
    Atomic-bind_total _ (Atomic-create_spd user_id role d) λ w row t k.
      let same = (create_spd-Stored user_id role d w t row k).same in
      (_, ap (λ r. to_response gcm r) same ∙ to_response-ok gcm _ purpose total p q)

create-Atomic :
    (gcm : Aead) (locals : Locals) (body : Option CreateRequest) → Atomic (create gcm locals body)
unfolding create
create-Atomic gcm locals body = Atomic-bind (Quiet-or_raise _ _) λ req.
    Atomic-bind (Quiet-raise_if _ _) λ _. Atomic-bind (Quiet-require_auth locals) λ a.
      Atomic-bind_known (Quiet-encrypt_string gcm _ _) λ w1 purpose t1 p.
        Atomic-bind_known (Quiet-encrypt_string gcm _ _) λ w2 total t2 q.
          stored-Atomic gcm a.user_id a.role req.purpose req.total_cost _
            (decrypt-encrypt gcm req.purpose "spds:purpose" w1 p)
            (decrypt-encrypt gcm req.total_cost "spds:total_cost" w2 q)

-- A Create that ends in an error has left every table as it was: once the row is committed, its
-- fields can be decrypted and the reply is sent.
pub create_fails :
    (gcm : Aead) (locals : Locals) (body : Option CreateRequest) (w : World) (e : Error)
    → (create gcm locals body w).0 ≡ err e
    → (create gcm locals body w).1.tables ≡ w.tables
create_fails gcm locals body w e k = (create-Atomic gcm locals body).at w e k

-- The random bytes that are left do not matter.
Stored-entropy :
    (user_id : ℤ) (role : String) (d : Draft) (w w' : World) (row : SpdRow) (b : Bytes)
    → Stored user_id role d (record w { entropy = b }) w' row
    → Stored user_id role d w w' row
Stored-entropy user_id role d w w' row b c = record {
  same = c.same;
  tables = c.tables;
  serial = c.serial;
  now = c.now;
  fits = c.fits;
  unique = c.unique;
  permitted = c.permitted;
}

-- What a Create has checked, stored and returned.
pub record Created (locals : Locals) (req : CreateRequest) (w w' : World) (reply : SpdResponse)
    : Type 0 where
  pub auth : AuthInfo
  pub logged_in : auth_from_locals locals ≡ some auth
  pub purpose_enc : Bytes
  pub total_enc : Bytes
  pub row : SpdRow
  pub stored : Stored auth.user_id auth.role (draft_of req purpose_enc total_enc) w w' row
  pub replied : reply ≡ response_of row req.purpose req.total_cost

-- A Create that replies was called by a logged-in user, has added one row, a draft in the
-- request's unit with the next serial number as its id and the request's number, without spaces
-- behind its 50th character, which no other row has and which is at most 50 characters but for such
-- spaces, a row that the policies allow that user, and has returned the row with the request's purpose and cost.
pub create-Created :
    (gcm : Aead) (locals : Locals) (req : CreateRequest) (w w' : World) (reply : SpdResponse)
    → create gcm locals (some req) w ≡ (ok reply, w')
    → Created locals req w w' reply
unfolding create
create-Created gcm locals req w w' reply k =
    gets-elim _ _ (λ _. req) k
      λ k. raise_if-elim _ _ _ _ k λ _ k. auth-elim _ _ _ k λ a logged_in k.
        quiet-elim _ _ _ (Quiet-encrypt_string gcm _ _) k λ purpose w1 p same1 k.
          quiet-elim _ _ _ (Quiet-encrypt_string gcm _ _) k λ total w2 q same2 k.
            bind-elim _ _ _ k λ row w3 k3 k.
              let (sent, ended) = lift-ok _ w3 k in
              let (b1, e1) = encrypt_string-entropy gcm _ _ w p in
              let (b2, e2) = encrypt_string-entropy gcm _ _ w1 q in
              let e : record w { entropy = b2 } ≡ w2 =
                ap {A = World} (λ v. record v { entropy = b2 }) e1 ∙ e2 in
              let d = draft_of req purpose total in
              let c = create_spd-Stored a.user_id a.role d w2 w3 row k3 in
              let opened =
                to_response-ok gcm row req.purpose req.total_cost
                  (ap (λ (r : SpdRow). decrypt_string gcm r.purpose_enc "spds:purpose") c.same
                    ∙ decrypt-encrypt gcm req.purpose "spds:purpose" w p)
                  (ap (λ (r : SpdRow). decrypt_string gcm r.total_cost_enc "spds:total_cost") c.same
                    ∙ decrypt-encrypt gcm req.total_cost "spds:total_cost" w1 q) in
              record {
                auth = a;
                logged_in = logged_in;
                purpose_enc = purpose;
                total_enc = total;
                row = row;
                stored = Stored-entropy a.user_id a.role d w w' row b2 (rw (← e, ended) at c);
                replied = cc (sent, opened);
              }
