-- ===== src/Reporting/Tests.antt =====
-- Runs of the reporting service on sample data.
use esppdv.Base.{refl, ◌≡◌, ◌∷◌, [], some, none, Option, String, pos, length, filter, false, List}
use esppdv.Outcome.{Result, ok}
use esppdv.Exec.{◌>>=◌, or_else, attempt}
use esppdv.Decimal.{parse_int, format_int}
use esppdv.Paging.{parse_int_or, clamp_int}
use esppdv.World.{World}
use esppdv.World.Rows.{SpdRecord}
use esppdv.World.Sql.{reach, query, set_rls_context, with_tx}
use esppdv.World.Tx.{acting}
use esppdv.Httpx.{require_auth}
use esppdv.Cachex
use esppdv.Cachex.{RedisLib}
use esppdv.Spd.Repo.{is_listed}
use esppdv.Reporting.Repo.{StatusCount, ReportLib, spd_counts_by_status, spd_monthly_counts}
use esppdv.Reporting.Handler.{Summary, TextLib, summary}
use esppdv.Reporting.Counts.{total, has_status, counts_by_status-total}
use esppdv.Sample.Data.{sample_world, sample_locals, start}

abbrev toy_report : ReportLib
toy_report = record {
  trunc_month = λ t. pos 0;
  less_interval = λ t s. pos 0;
  int_as_text = λ n. some (format_int n);
  text_before = λ a b. false;
}

abbrev toy_texts : TextLib
toy_texts = record {
  marshal = λ s. ok "counts";
  unmarshal = λ s. none;
  csv = λ rows. "";
  year_month = λ t. "2026-01";
}

-- A Redis with one place, that holds what was set last.
abbrev toy_redis : RedisLib (Option String)
toy_redis = record {
  get = λ k r. (ok r, r);
  set = λ k v ttl r. (ok tt, some v);
  del = λ ks r. (ok tt, none);
}

abbrev shown : SpdRecord
shown = record {
  id = pos 42;
  nomor_surat = "001/SPD";
  employee_id = none;
  unit_id = pos 3;
  purpose_enc = none;
  total_cost_enc = none;
  status = "DRAFT";
  created_by = pos 7;
  created_at = start;
  updated_at = start;
  deleted = false;
}

-- Two drafts, one of another user and unit.
abbrev two_drafts : World
two_drafts = record sample_world {
  tables = record sample_world.tables {
    spds = shown ∷ record shown { id = pos 43; unit_id = pos 4; created_by = pos 8 } ∷ [];
  };
}

abbrev one_draft : List StatusCount
one_draft = record { status = "DRAFT"; count = 1 } ∷ []

abbrev after_counts : World
after_counts = (spd_counts_by_status toy_report (pos 7) "APPROVER" two_drafts).1

counts_run :
    ◌≡◌ {A = Result (List StatusCount) × World}
      (spd_counts_by_status toy_report (pos 7) "APPROVER" two_drafts)
      (ok one_draft, after_counts)
unfolding spd_counts_by_status ◌>>=◌ or_else with_tx reach set_rls_context query
counts_run = refl

counts_by_status-total_example :
    total "DRAFT" one_draft
    ≡ length (
        filter
          (has_status "DRAFT")
          (filter (is_listed (acting two_drafts (pos 7) "APPROVER")) two_drafts.tables.spds))
counts_by_status-total_example =
    counts_by_status-total toy_report (pos 7) "APPROVER" two_drafts after_counts one_draft "DRAFT"
      counts_run

abbrev asked : Result Summary × (World × Option String)
asked =
    summary toy_report toy_texts toy_redis (some "reports") sample_locals "12" (two_drafts, none)

abbrev one_month : Summary
one_month = record {
  by_status = one_draft;
  by_month = record { month = pos 0; status = "DRAFT"; count = 1 } ∷ [];
}

summary_runs :
    ◌≡◌ {A = Result Summary × (World × Option String)}
      (summary toy_report toy_texts toy_redis
        (some "reports")
        sample_locals
        "12"
        (two_drafts, none))
      (ok one_month, (asked.1.0, some "counts"))
unfolding summary spd_counts_by_status spd_monthly_counts ◌>>=◌ or_else with_tx reach
    set_rls_context query require_auth parse_int_or parse_int clamp_int attempt Cachex.get
    Cachex.set Cachex.get_json Cachex.set_json
summary_runs = refl
