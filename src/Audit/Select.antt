-- ===== src/Audit/Select.antt =====
-- Query returns the page of the rows that its input describes, newest first.
use mathlib.Core.Option
use mathlib.Core.List.{append_assoc}
use esppdv.Base.{
  ◌≤ℤ◌, ltb_ℤ, false, ℕ, suc, ◌<◌, pos, leb_ℤ, eqb_ℤ, String, Bool, true, ◌&&◌, List, [], ◌∷◌, ◌++◌,
  Option, none, some, ◌≡◌, refl, ap, ◌∙◌, str_eq, filter, map, length, length-append, Bool-cases,
  inl, inr, arith,
}
use esppdv.Outcome.{Result, ok}
use esppdv.Paging.{order_by, page}
use esppdv.World.Rows.{AuditRow}
use esppdv.Audit.Query.{
  QueryInput, Arg, text_arg, int_arg, time_arg, Condition, action_is, resource_type_is, user_id_is,
  timestamp_from, timestamp_to, Where, everything, add, text_filter, build, Statement, statement,
  test, arg_at, meets, select_where, later, shown, run_statement,
}
use esppdv.Audit.Filter.{
  unless_empty, if_some, matches, read_back, arg_at-append, Reads, Reads-placed, Reads-skipped,
}

Reads-everything : Reads (ok everything) 0 (λ r. true)
Reads-everything = record {
  filter_by = everything;
  built = refl;
  short = omega arith;
  selects = λ r rest. refl;
}

-- A text of the request, by the column that it has to equal.
Reads-text :
    (c : Condition) (s : String) (column : AuditRow → String) (q : Result Where) (k : ℕ)
    (p : AuditRow → Bool)
    → k < 8
    → ((r : AuditRow) → test c (some (text_arg s)) r ≡ ok (str_eq (column r) s))
    → Reads q k p
    → Reads (add c (text_filter s) q) (suc k) (λ r. p r && unless_empty s (column r))
Reads-text c s column q k p small holds h = elim (Bool-cases (str_eq s "")) [
  | inl e ↦ rw e (Reads-skipped c q k p h)
  | inr e ↦ rw e (Reads-placed c (text_arg s) q k p (λ r. str_eq (column r) s) small holds h)
]

Reads-value :
    {A : Type 0} (c : Condition) (f : A → Arg) (o : Option A) (t : A → AuditRow → Bool)
    (q : Result Where) (k : ℕ) (p : AuditRow → Bool)
    → k < 8
    → ((a : A) (r : AuditRow) → test c (some (f a)) r ≡ ok (t a r))
    → Reads q k p
    → Reads (add c (Option.map f o) q) (suc k) (λ r. p r && if_some (λ a. t a r) o)
Reads-value c f none t q k p small holds h = Reads-skipped c q k p h
Reads-value c f (some a) t q k p small holds h = Reads-placed c (f a) q k p (t a) small (holds a) h

build-Reads : (q : QueryInput) → Reads (build q) 5 (matches q)
build-Reads q =
    Reads-value timestamp_to time_arg q.until (λ t r. leb_ℤ r.timestamp t) _ 4 _ (omega arith)
      (λ t r. refl)
      (Reads-value timestamp_from time_arg q.since (λ t r. leb_ℤ t r.timestamp) _ 3 _ (omega arith)
        (λ t r. refl)
        (Reads-value user_id_is int_arg q.user_id (λ i r. eqb_ℤ r.user_id i) _ 2 _ (omega arith)
          (λ i r. refl)
          (Reads-text resource_type_is q.resource (λ r. r.resource_type) _ 1 _ (omega arith)
            (λ r. refl)
            (Reads-text action_is q.action (λ r. r.action) _ 0 _ (omega arith) (λ r. refl)
              Reads-everything))))

select_where-filter :
    (p : AuditRow → Result Bool) (f : AuditRow → Bool) (rows : List AuditRow)
    → ((r : AuditRow) → p r ≡ ok (f r))
    → select_where p rows ≡ ok (filter f rows)
select_where-filter p f [] h = refl
select_where-filter p f (r ∷ rows) h = elim (Bool-cases (f r)) [
  | inl e ↦ rw (h r, e, select_where-filter p f rows h) refl
  | inr e ↦ rw (h r, e, select_where-filter p f rows h) refl
]

-- The page of the rows that match, newest first.
abbrev pub log_page : (String → String) → QueryInput → List AuditRow → List AuditRow
log_page inet_text q rows =
    map (shown inet_text) (page q.limit q.offset (order_by later (filter (matches q) rows)))

-- For a limit and an offset of zero or more the filter builder comes to a statement, and PostgreSQL, which takes `$n` for the n-th
-- argument, runs it to the page, at the limit and the offset, of the rows that have the action and
-- the resource type asked for, unless these are empty, and the user and a timestamp in the range,
-- where these are given; the newest row comes first.
pub statement_lem :
    (inet_text : String → String) (q : QueryInput)
    → pos 0 ≤ℤ q.limit
    → pos 0 ≤ℤ q.offset
    → (s : Statement) × (statement q ≡ ok s)
      × ((rows : List AuditRow) → run_statement inet_text s rows ≡ ok (log_page inet_text q rows))
statement_lem inet_text q from_0 skip_0 =
    let whole : ltb_ℤ q.limit (pos 0) ≡ false = ground arith in
    let ahead : ltb_ℤ q.offset (pos 0) ≡ false = ground arith in
    let b = build-Reads q in
    let w = b.filter_by in
    let (l, el, back_l) = read_back (length w.args) (omega (arith, b.short)) in
    let (o, eo, back_o) = read_back (suc (length w.args)) (omega (arith, b.short)) in
    let limit = int_arg q.limit in
    let offset = int_arg q.offset in
    let tail = limit ∷ offset ∷ [] in
    let joined : (w.args ++ limit ∷ []) ++ offset ∷ [] ≡ w.args ++ tail =
      append_assoc w.args (limit ∷ []) (offset ∷ []) in
    let at_limit : arg_at l (w.args ++ tail) ≡ some limit =
      arg_at-append w.args limit (offset ∷ []) l back_l in
    let at_offset : arg_at o ((w.args ++ limit ∷ []) ++ offset ∷ []) ≡ some offset =
      arg_at-append (w.args ++ limit ∷ []) offset [] o (
        rw (length-append w.args (limit ∷ []))
          (back_o ∙ ap (λ (n : ℕ). some (pos n)) (omega arith))) in
    (
      record {
        args = (w.args ++ limit ∷ []) ++ offset ∷ [];
        conditions = w.conditions;
        limit_pos = l;
        offset_pos = o;
      },
      rw (b.built, el, eo) refl,
      λ rows.
          rw
            (
              at_offset,
              joined,
              at_limit,
              select_where-filter (meets (w.args ++ tail) w.conditions) (matches q) rows
                  (λ r. b.selects r tail),
              whole,
              ahead,
            )
            refl,
    )
