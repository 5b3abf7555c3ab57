-- ===== src/Spd/Handler.antt =====
-- services/spd-service/internal/http/handler.go. Times in replies stand for their RFC 3339 text,
-- which has whole seconds. A body is `none` if BodyParser refuses it.
use esppdv.Base.{ℤ, pos, String, Bool, true, false, ◌||◌, List, [], ◌∷◌, Option, str_eq, eqb_ℤ}
use esppdv.Text.{Bytes}
use esppdv.Outcome.{Error, http, no_rows, Result, ok, err}
use esppdv.Exec.{pure, lift, gets, raise_if, or_else, or_raise, attempt, ◌>>=◌, ◌>>◌}
use esppdv.Paging.{parse_int_or, clamp_int}
use esppdv.World.Rows.{SpdSubmittedEvent, spd_submitted}
use esppdv.World.Sql.{M, publish}
use esppdv.Crypto.{Aead, encrypt_string, decrypt_string}
use esppdv.Totp.{unix}
use esppdv.Httpx.{Locals, require_auth, parse_id_param}
use esppdv.Spd.Repo.{SpdRow, Draft, create_spd, get_spd, list_spds, submit_spd}

pub record CreateRequest : Type 0 where
  pub nomor_surat : String
  pub employee_id : Option ℤ
  pub unit_id : ℤ
  pub purpose : String
  pub total_cost : String

pub record SpdResponse : Type 0 where
  pub id : ℤ
  pub nomor_surat : String
  pub employee_id : Option ℤ
  pub unit_id : ℤ
  pub purpose : String
  pub total_cost : String
  pub status : String
  pub created_by : ℤ
  pub created_at : ℤ
  pub updated_at : ℤ

pub record SpdPage : Type 0 where
  pub items : List SpdResponse
  pub limit : ℤ
  pub offset : ℤ

abbrev pub no_spd : Error → Error
no_spd no_rows = http 404 "not found"
no_spd e = e

abbrev pub no_draft : Error → Error
no_draft no_rows = http 400 "cannot submit"
no_draft e = e

abbrev pub response_of : SpdRow → String → String → SpdResponse
response_of r purpose total = record {
  id = r.id;
  nomor_surat = r.nomor_surat;
  employee_id = r.employee_id;
  unit_id = r.unit_id;
  purpose = purpose;
  total_cost = total;
  status = r.status;
  created_by = r.created_by;
  created_at = unix r.created_at;
  updated_at = unix r.updated_at;
}

abbrev pub response_with : SpdRow → Result String → Result String → Result SpdResponse
response_with r (err e) _ = err e
response_with r (ok purpose) (err e) = err e
response_with r (ok purpose) (ok total) = ok (response_of r purpose total)

abbrev pub draft_of : CreateRequest → Bytes → Bytes → Draft
draft_of req purpose_enc total_enc = record {
  nomor_surat = req.nomor_surat;
  unit_id = req.unit_id;
  employee_id = req.employee_id;
  purpose_enc = purpose_enc;
  total_cost_enc = total_enc;
}

-- The event of Submit; an error of Publish is dropped.
abbrev pub announce : Bool → SpdSubmittedEvent → M (Unit {0})
announce false evt = pure tt
announce true evt = attempt (publish (spd_submitted evt)) >> pure tt

module _ (gcm : Aead) where
  -- toResponse
  unfoldable pub to_response : SpdRow → Result SpdResponse
  to_response r =
      response_with r (decrypt_string gcm r.purpose_enc "spds:purpose")
        (decrypt_string gcm r.total_cost_enc "spds:total_cost")

  unfoldable pub create : Locals → Option CreateRequest → M SpdResponse
  create locals body = do
    req ← or_raise body (http 400 "invalid json")
    raise_if (str_eq req.nomor_surat "" || eqb_ℤ req.unit_id (pos 0))
        (http 400 "nomor_surat and unit_id required")
    a ← require_auth locals
    purpose_enc ← encrypt_string gcm req.purpose "spds:purpose"
    total_enc ← encrypt_string gcm req.total_cost "spds:total_cost"
    row ← create_spd a.user_id a.role (draft_of req purpose_enc total_enc)
    lift (to_response row)

  unfoldable pub get : Locals → String → M SpdResponse
  get locals id_str = do
    id ← parse_id_param id_str
    a ← require_auth locals
    row ← or_else (get_spd a.user_id a.role id) no_spd
    lift (to_response row)

  abbrev pub add_response :
      Result SpdResponse → Result (List SpdResponse) → Result (List SpdResponse)
  add_response (err e) rest = err e
  add_response (ok r) (err e) = err e
  add_response (ok r) (ok rs) = ok (r ∷ rs)

  -- The loop of List, ended by the first row that cannot be decrypted.
  unfoldable pub to_responses : List SpdRow → Result (List SpdResponse)
  to_responses [] = ok []
  to_responses (r ∷ rows) = add_response (to_response r) (to_responses rows)

  unfoldable pub list : Locals → String → String → M SpdPage
  list locals limit_str offset_str = do
    limit ← pure (clamp_int (parse_int_or limit_str (pos 20)) (pos 1) (pos 100))
    offset ← pure (clamp_int (parse_int_or offset_str (pos 0)) (pos 0) (pos 10000))
    a ← require_auth locals
    rows ← list_spds a.user_id a.role limit offset
    items ← lift (to_responses rows)
    pure (record { items = items; limit = limit; offset = offset })

  unfoldable pub submit : Locals → String → M SpdResponse
  submit locals id_str = do
    id ← parse_id_param id_str
    a ← require_auth locals
    row ← or_else (submit_spd a.user_id a.role id) no_draft
    now ← gets (λ w. w.now)
    connected ← gets (λ w. w.nc)
    announce connected
        (record { spd_id = row.id; unit_id = row.unit_id; user_id = a.user_id; submitted_at = now })
    lift (to_response row)
