-- ===== src/Reporting/Repo.antt =====
-- services/reporting-service/internal/repo/repo.go: counts of the SPDs that the policies show.
use esppdv.Base.{
  ℕ, suc, ℤ, leb_ℤ, eqb_ℤ, ltb_ℤ, String, Bool, ◌&&◌, ◌||◌, List, [], ◌∷◌, Option, none, some,
  str_eq, filter, if◌then◌else◌,
}
use esppdv.Text.{◌+++◌}
use esppdv.Outcome.{failure, Result, ok, err}
use esppdv.Exec.{lift, ◌>>=◌, ◌>>◌}
use esppdv.Paging.{order_by}
use esppdv.World.{World}
use esppdv.World.Rows.{Time, SpdRecord}
use esppdv.World.Sql.{M, query, set_rls_context, with_tx}
use esppdv.Spd.Repo.{is_listed}

pub record StatusCount : Type 0 where
  pub status : String
  pub count : ℕ

pub record MonthlyStatusCount : Type 0 where
  pub month : Time
  pub status : String
  pub count : ℕ

-- What PostgreSQL, the driver and the collation do: date_trunc('month', …), NOW() less the interval
-- of a text, an int as an argument of type text, `none` if the driver has no encoding for it, and
-- the order of texts.
pub record ReportLib : Type 0 where
  pub trunc_month : Time → Time
  pub less_interval : Time → String → Time
  pub int_as_text : ℤ → Option String
  pub text_before : String → String → Bool

-- GROUP BY status with COUNT(*): the row of one more SPD.
abbrev pub counted : String → List StatusCount → List StatusCount
counted status [] = record { status = status; count = 1 } ∷ []
counted status (c ∷ cs) =
    let rest = counted status cs in
    if str_eq c.status status then record c { count = suc c.count } ∷ cs else c ∷ rest

abbrev pub group_status : List SpdRecord → List StatusCount
group_status [] = []
group_status (s ∷ l) = counted s.status (group_status l)

abbrev counted_month : Time → String → List MonthlyStatusCount → List MonthlyStatusCount
counted_month month status [] = record { month = month; status = status; count = 1 } ∷ []
counted_month month status (c ∷ cs) =
    let rest = counted_month month status cs in
    if eqb_ℤ c.month month && str_eq c.status status
    then record c { count = suc c.count } ∷ cs
    else c ∷ rest

module _ (lib : ReportLib) where
  abbrev pub status_before : StatusCount → StatusCount → Bool
  status_before a b = lib.text_before a.status b.status

  -- SPDCountsByStatus
  unfoldable pub spd_counts_by_status : ℤ → String → M (List StatusCount)
  spd_counts_by_status user_id role = with_tx (do
    set_rls_context user_id role
    query (λ w. ok (order_by status_before (group_status (filter (is_listed w) w.tables.spds)))))

  abbrev pub group_month : List SpdRecord → List MonthlyStatusCount
  group_month [] = []
  group_month (s ∷ l) = counted_month (lib.trunc_month s.created_at) s.status (group_month l)

  -- ORDER BY 1 DESC, 2
  abbrev month_before : MonthlyStatusCount → MonthlyStatusCount → Bool
  month_before a b =
      ltb_ℤ b.month a.month || (eqb_ℤ a.month b.month && lib.text_before a.status b.status)

  abbrev pub is_recent : String → World → SpdRecord → Bool
  is_recent months w s =
      is_listed w s && leb_ℤ (lib.less_interval w.now (months +++ " months")) s.created_at

  abbrev encoded : Option String → Result String
  encoded none = err (failure "failed to encode args: cannot find encode plan")
  encoded (some t) = ok t

  -- SPDMonthlyCounts
  unfoldable pub spd_monthly_counts : ℤ → String → ℤ → M (List MonthlyStatusCount)
  spd_monthly_counts user_id role months = with_tx (do
    set_rls_context user_id role
    months_text ← lift (encoded (lib.int_as_text months))
    query (λ w.
        ok (order_by month_before (group_month (filter (is_recent months_text w) w.tables.spds)))))
