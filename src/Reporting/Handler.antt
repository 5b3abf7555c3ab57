-- ===== src/Reporting/Handler.antt =====
-- services/reporting-service/internal/http/handler.go, on a world and the state of a Redis. The
-- headers of a reply are left out.
use esppdv.Base.{ℤ, pos, String, List, [], ◌∷◌, Option, none, some}
use esppdv.Text.{◌+++◌}
use esppdv.Decimal.{format_int, format_nat}
use esppdv.Outcome.{Result}
use esppdv.Exec.{Exec, pure, attempt, ◌>>=◌, ◌>>◌}
use esppdv.Paging.{parse_int_or, clamp_int}
use esppdv.World.{World}
use esppdv.World.Rows.{Time, Duration}
use esppdv.World.Sql.{M}
use esppdv.Httpx.{AuthInfo, Locals, require_auth}
use esppdv.Cachex
use esppdv.Cachex.{RedisLib}
use esppdv.Reporting.Repo.{
  StatusCount, MonthlyStatusCount, ReportLib, spd_counts_by_status, spd_monthly_counts,
}

pub record Summary : Type 0 where
  pub by_status : List StatusCount
  pub by_month : List MonthlyStatusCount

-- encoding/json for a summary, encoding/csv, and the format "2006-01" of a month in UTC.
pub record TextLib : Type 0 where
  pub marshal : Summary → Result String
  pub unmarshal : String → Option Summary
  pub csv : List (List String) → String
  pub year_month : Time → String

module _ {R A : Type 0} where
  -- A step on one part of the state.
  abbrev pub on_world : M A → Exec (World × R) A
  on_world m (w, r) = let (a, w') = m w in (a, (w', r))

  abbrev pub on_redis : Exec R A → Exec (World × R) A
  on_redis m (w, r) = let (a, r') = m r in (a, (w, r'))

abbrev pub months_of : String → ℤ
months_of s = clamp_int (parse_int_or s (pos 6)) (pos 1) (pos 36)

abbrev pub summary_key : AuthInfo → ℤ → String
summary_key a months =
    "spds:summary:uid:"
    +++ format_int a.user_id
    +++ ":role:"
    +++ a.role
    +++ ":months:"
    +++ format_int months

abbrev pub csv_key : AuthInfo → ℤ → String
csv_key a months =
    "spds:summarycsv:uid:"
    +++ format_int a.user_id
    +++ ":role:"
    +++ a.role
    +++ ":months:"
    +++ format_int months

-- 15 seconds.
abbrev pub lifetime : Duration
lifetime = pos 15000000000

-- `if …; err == nil && ok`: an error of the cache counts as a miss.
abbrev pub hit {ℓ} : {A : Type ℓ} → Option (Option A) → Option A
hit none = none
hit (some o) = o

module _ {R : Type 0} (lib : ReportLib) (texts : TextLib) (redis : RedisLib R)
    (cache : Option String) where
  abbrev pub fresh_summary : AuthInfo → ℤ → Exec (World × R) Summary
  fresh_summary a months = do
    by_status ← on_world (spd_counts_by_status lib a.user_id a.role)
    by_month ← on_world (spd_monthly_counts lib a.user_id a.role months)
    out ← pure (record { by_status = by_status; by_month = by_month })
    on_redis
        (attempt (Cachex.set_json redis texts.marshal cache (summary_key a months) out lifetime))
    pure out

  abbrev pub summary_or : AuthInfo → ℤ → Option Summary → Exec (World × R) Summary
  summary_or a months none = fresh_summary a months
  summary_or a months (some cached) = pure cached

  -- Summary
  unfoldable pub summary : Locals → String → Exec (World × R) Summary
  summary locals months_str = do
    a ← on_world (require_auth locals)
    months ← pure (months_of months_str)
    cached ← on_redis (attempt (Cachex.get_json redis texts.unmarshal cache (summary_key a months)))
    summary_or a months (hit cached)

  abbrev line_of : MonthlyStatusCount → List String
  line_of c = texts.year_month c.month ∷ c.status ∷ format_nat c.count ∷ []

  abbrev lines_of : List MonthlyStatusCount → List (List String)
  lines_of [] = []
  lines_of (c ∷ cs) = line_of c ∷ lines_of cs

  abbrev pub csv_of : List MonthlyStatusCount → String
  csv_of rows = texts.csv (("month" ∷ "status" ∷ "count" ∷ []) ∷ lines_of rows)

  abbrev csv_or : AuthInfo → ℤ → Option String → Exec (World × R) String
  csv_or a months (some cached) = pure cached
  csv_or a months none = do
    rows ← on_world (spd_monthly_counts lib a.user_id a.role months)
    out ← pure (csv_of rows)
    on_redis (attempt (Cachex.set redis cache (csv_key a months) out lifetime))
    pure out

  -- SummaryCSV
  unfoldable pub summary_csv : Locals → String → Exec (World × R) String
  summary_csv locals months_str = do
    a ← on_world (require_auth locals)
    months ← pure (months_of months_str)
    cached ← on_redis (attempt (Cachex.get redis cache (csv_key a months)))
    csv_or a months (hit cached)
