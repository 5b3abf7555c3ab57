-- ===== src/Auth/Factor.antt =====
-- What turning the second factor on and off takes.
use esppdv.Base.{ℤ, String, Bool, true, false, Option, none, some, ◌≡◌, refl, sym, ◌∙◌, find?}
use esppdv.Outcome.{Result, ok, err}
use esppdv.World.{World}
use esppdv.World.Rows.{Time, UserRecord}
use esppdv.World.Quiet.{lasting-tables, lasting-now}
use esppdv.World.Inversion.{gets-elim, lift-elim, raise_if-elim, exec-ok}
use esppdv.World.Tx.{returned}
use esppdv.Crypto.{decrypt_string}
use esppdv.Httpx.{AuthInfo, Locals, auth_from_locals}
use esppdv.Auth.Repo.{user_of, has_user_id, update_user, enable_mfa}
use esppdv.Auth.Steps.{user_id-elim}
use esppdv.Auth.Handler.{Handler, is_empty, code_is_valid, secret_checked, verdict}
use esppdv.Auth.Mfa.{aad, invalid_code, mfa_verify}
use esppdv.Httpx.Guards.{auth-elim}

-- A user whose stored secret the code proves.
pub record Proven (h : Handler) (id : ℤ) (code : String) (w : World) : Type 0 where
  pub user : UserRecord
  pub found : find? (has_user_id id) w.tables.users ≡ some user
  pub enrolled : is_empty (user_of user).mfa_secret_enc ≡ false
  pub secret : String
  pub opened : decrypt_string h.gcm (user_of user).mfa_secret_enc aad ≡ ok secret
  pub valid : code_is_valid h secret code w.now ≡ some true

prove_code-ok :
    (h : Handler) (r : Result String) (code : String) (now : Time)
    → secret_checked h r code now invalid_code ≡ ok tt
    → (secret : String) × (r ≡ ok secret) × (code_is_valid h secret code now ≡ some true)
prove_code-ok h (err e) code now k = cc
prove_code-ok h (ok secret) code now k = (secret, refl, verdict-ok _ k)
  where
    verdict-ok : (o : Option Bool) → verdict invalid_code o ≡ ok tt → o ≡ some true
    verdict-ok none h = cc
    verdict-ok (some true) h = refl
    verdict-ok (some false) h = cc

enable_mfa-ok :
    (id : ℤ) (w : World) {t : World}
    → enable_mfa id w ≡ (ok tt, t)
    → t.tables
      ≡ update_user id (λ u. record u { mfa_enabled = true; mfa_enrolled_at = some w.now }) w.tables
unfolding enable_mfa
enable_mfa-ok id w h =
    let (ran, _) = exec-ok _ w h in let (_, tables) = returned _ _ _ _ ran in sym tables

-- An MFAVerify that succeeds was called by a logged-in user who has a stored secret, with a code
-- that is valid for it at that instant, and has turned the second factor of that user on and
-- changed nothing else in the tables.
pub mfa_verify-Proven :
    (h : Handler) (locals : Locals) (code : String) (w w' : World)
    → mfa_verify h locals (some code) w ≡ (ok tt, w')
    → (a : AuthInfo) × (auth_from_locals locals ≡ some a)
      × Proven h a.user_id code w
      × (w'.tables
          ≡ update_user a.user_id
              (λ u. record u { mfa_enabled = true; mfa_enrolled_at = some w.now })
              w.tables)
unfolding mfa_verify
mfa_verify-Proven h locals code w w' k = auth-elim _ _ _ k λ a logged_in k.
    gets-elim _ _ (λ _. code) k
      λ k. raise_if-elim _ _ _ _ k λ _ k. user_id-elim _ _ _ _ k λ u w1 found same1 k.
        raise_if-elim _ _ _ _ k λ enrolled k. gets-elim _ _ _ k λ k. lift-elim _ _ _ k λ _ proved k.
          let (secret, opened, valid) = prove_code-ok h _ code _ proved in
          let now1 = lasting-now w w1 same1 in
          (
            a,
            logged_in,
            record {
              user = u;
              found = found;
              enrolled = enrolled;
              secret = secret;
              opened = opened;
              valid = rw now1 at valid;
            },
            enable_mfa-ok a.user_id w1 k ∙ rw (lasting-tables w w1 same1, now1) refl,
          )
