-- ===== src/Reporting/Counts.antt =====
-- The counts of a report are those of the SPDs that the policies show its reader.
use esppdv.Base.{
  ℕ, ◌+◌, ℤ, String, Bool, true, false, List, [], ◌∷◌, ◌≡◌, refl, ap, sym, ◌∙◌, str_eq, eq_iff,
  filter, length, Bool-cases, inl, inr, arith, if◌then◌else◌,
}
use esppdv.Outcome.{ok}
use esppdv.Paging.{insert_by, order_by}
use esppdv.World.{World}
use esppdv.World.Rows.{SpdRecord}
use esppdv.World.Inversion.{query-ok}
use esppdv.World.Tx.{tx-elim, acting}
use esppdv.Spd.Repo.{is_listed}
use esppdv.Reporting.Repo.{
  StatusCount, ReportLib, counted, status_before, group_status, spd_counts_by_status,
}

-- The total of the counts for a status.
abbrev pub total : String → List StatusCount → ℕ
total status [] = 0
total status (c ∷ cs) =
    let rest = total status cs in if str_eq c.status status then c.count + rest else rest

abbrev pub has_status : String → SpdRecord → Bool
has_status status s = str_eq s.status status

-- One for a row with the status, and none for another.
abbrev one_if : Bool → ℕ
one_if true = 1
one_if false = 0

total-counted :
    (status s : String) (cs : List StatusCount)
    → total status (counted s cs) ≡ one_if (str_eq s status) + total status cs
total-counted status s [] = elim (Bool-cases (str_eq s status)) [
  | inl e ↦ rw e (omega arith)
  | inr e ↦ rw e (omega arith)
]
total-counted status s (c ∷ cs) = elim (Bool-cases (str_eq c.status s)) [
  | inl e ↦
      let same : c.status ≡ s = (eq_iff c.status s).0 e in
      elim (Bool-cases (str_eq s status)) [
        | inl k ↦ rw (e, same, k) (omega arith)
        | inr k ↦ rw (e, same, k) (omega arith)
      ]
  | inr e ↦ elim (Bool-cases (str_eq c.status status)) [
    | inl k ↦ rw (e, k, total-counted status s cs) (omega arith)
    | inr k ↦ rw (e, k) (total-counted status s cs)
  ]
]

total-group_status :
    (status : String) (l : List SpdRecord)
    → total status (group_status l) ≡ length (filter (has_status status) l)
total-group_status status [] = refl
total-group_status status (s ∷ l) = elim (Bool-cases (str_eq s.status status)) [
  | inl e ↦
      total-counted status s.status (group_status l)
      ∙ rw (e, total-group_status status l) (omega arith)
  | inr e ↦
      total-counted status s.status (group_status l)
      ∙ rw (e, total-group_status status l) (omega arith)
]

module _ (before : StatusCount → StatusCount → Bool) where
  total-insert_by :
      (status : String) (c : StatusCount) (cs : List StatusCount)
      → total status (insert_by before c cs) ≡ total status (c ∷ cs)
  total-insert_by status c [] = refl
  total-insert_by status c (d ∷ cs) = elim (Bool-cases (before d c)) [
    | inr e ↦ rw e refl
    | inl e ↦ elim (Bool-cases (str_eq d.status status)) [
      | inl k ↦ elim (Bool-cases (str_eq c.status status)) [
        | inl n ↦ rw (e, k, total-insert_by status c cs, n) (omega arith)
        | inr n ↦ rw (e, k, total-insert_by status c cs, n) refl
      ]
      | inr k ↦ rw (e, k, total-insert_by status c cs) (refl)
    ]
  ]

  total-order_by :
      (status : String) (cs : List StatusCount)
      → total status (order_by before cs) ≡ total status cs
  total-order_by status [] = refl
  total-order_by status (c ∷ cs) =
      total-insert_by status c (order_by before cs)
      ∙ ap (λ n. if str_eq c.status status then c.count + n else n) (total-order_by status cs)

-- What SPDCountsByStatus counts for a status is the number of the live SPDs with that status that
-- the policies show the user.
pub counts_by_status-total :
    (lib : ReportLib) (user_id : ℤ) (role : String) (w w' : World) (counts : List StatusCount)
    (status : String)
    → spd_counts_by_status lib user_id role w ≡ (ok counts, w')
    → total status counts
      ≡ length
          (filter (has_status status) (filter (is_listed (acting w user_id role)) w.tables.spds))
unfolding spd_counts_by_status
counts_by_status-total lib user_id role w w' counts status k =
    tx-elim user_id role _ w k λ s v i ran _.
      let found = query-ok _ s ran in
      let rows : group_status (filter (is_listed s) s.tables.spds)
          ≡ group_status (filter (is_listed (acting w user_id role)) w.tables.spds) =
        rw (i.tables, i.rls, i.setting) refl in
      let listed : order_by (status_before lib) (group_status (filter (is_listed s) s.tables.spds))
          ≡ counts =
        cc found in
      ap (total status) (sym listed)
      ∙ total-order_by (status_before lib) status _
      ∙ ap (total status) rows
      ∙ total-group_status status (filter (is_listed (acting w user_id role)) w.tables.spds)
