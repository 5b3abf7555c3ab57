-- ===== src/Spd/Tests.antt =====
-- Runs of the SPD service on sample data.
use esppdv.Base.{refl, ◌≡◌, some, none, String, pos, [], ◌∷◌, false}
use esppdv.Text.{exceeds, varchar}
use esppdv.Outcome.{http, Result, ok, err}
use esppdv.World.{World}
use esppdv.World.Rows.{SpdRecord}
use esppdv.World.Sql.{reach, exec, rand_read, nextval, set_rls_context, with_tx, publish}
use esppdv.Exec.{◌>>=◌, or_else, attempt}
use esppdv.Decimal.{parse_int}
use esppdv.Crypto.{encrypt_string, decrypt_string}
use esppdv.Httpx.{require_auth, parse_id_param}
use esppdv.Spd.Repo.{create_spd, submit_spd}
use esppdv.Spd.Handler.{CreateRequest, SpdResponse, create, submit, to_response}
use esppdv.Spd.Create.{Created, create-Created, create_fails}
use esppdv.Spd.Submit.{Submitted, submit-Submitted}
use esppdv.Sample.Cipher.{toy_gcm}
use esppdv.Sample.Data.{sample_world, sample_locals}

abbrev trip : CreateRequest
trip = record {
  nomor_surat = "001/SPD";
  employee_id = none;
  unit_id = pos 3;
  purpose = "rapat";
  total_cost = "1500000";
}

abbrev trip_reply : String → SpdResponse
trip_reply status = record {
  id = pos 42;
  nomor_surat = "001/SPD";
  employee_id = none;
  unit_id = pos 3;
  purpose = "rapat";
  total_cost = "1500000";
  status = status;
  created_by = pos 7;
  created_at = pos 1000000000;
  updated_at = pos 1000000000;
}

abbrev after_create : World
after_create = (create toy_gcm sample_locals (some trip) sample_world).1

create_runs :
    ◌≡◌ {A = Result SpdResponse × World}
      (create toy_gcm sample_locals (some trip) sample_world)
      (ok (trip_reply "DRAFT"), after_create)
unfolding create ◌>>=◌ or_else require_auth encrypt_string rand_read create_spd with_tx reach
    set_rls_context nextval exec to_response decrypt_string exceeds varchar
create_runs = refl

create-Created_example : Created sample_locals trip sample_world after_create (trip_reply "DRAFT")
create-Created_example =
    create-Created toy_gcm sample_locals trip sample_world after_create (trip_reply "DRAFT")
      create_runs

no_name :
    (create toy_gcm sample_locals (some (record trip { nomor_surat = "" })) sample_world).0
    ≡ err (http 400 "nomor_surat and unit_id required")
unfolding create ◌>>=◌
no_name = refl

create_fails_example :
    (create toy_gcm sample_locals (some (record trip { nomor_surat = "" })) sample_world).1.tables
    ≡ sample_world.tables
create_fails_example =
    create_fails toy_gcm sample_locals (some (record trip { nomor_surat = "" })) sample_world
      (http 400 "nomor_surat and unit_id required") no_name

-- A world in which the draft is there.
abbrev draft : SpdRecord
draft = record {
  id = pos 42;
  nomor_surat = "001/SPD";
  employee_id = none;
  unit_id = pos 3;
  purpose_enc = some (1 ∷ 114 ∷ 97 ∷ 112 ∷ 97 ∷ 116 ∷ []);
  total_cost_enc = some (2 ∷ 49 ∷ 53 ∷ 48 ∷ 48 ∷ 48 ∷ 48 ∷ 48 ∷ []);
  status = "DRAFT";
  created_by = pos 7;
  created_at = pos 1000000000000000000;
  updated_at = pos 1000000000000000000;
  deleted = false;
}

abbrev draft_world : World
draft_world = record sample_world { tables = record (sample_world.tables) { spds = draft ∷ [] } }

abbrev after_submit : World
after_submit = (submit toy_gcm sample_locals "42" draft_world).1

submit_runs :
    ◌≡◌ {A = Result SpdResponse × World}
      (submit toy_gcm sample_locals "42" draft_world)
      (ok (trip_reply "SUBMITTED"), after_submit)
unfolding submit ◌>>=◌ or_else attempt require_auth parse_id_param parse_int submit_spd with_tx
    reach set_rls_context exec publish to_response decrypt_string
submit_runs = refl

submit-Submitted_example :
    Submitted toy_gcm sample_locals "42" draft_world after_submit (trip_reply "SUBMITTED")
submit-Submitted_example =
    submit-Submitted toy_gcm sample_locals "42" draft_world after_submit (trip_reply "SUBMITTED")
      submit_runs
