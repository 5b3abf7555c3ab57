-- ===== src/Audit/Query.antt =====
-- Query of services/audit-service/internal/repo/repo.go: the filter builder, and what PostgreSQL
-- makes of its statement. `inet_text` is the cast of an INET to text.
use esppdv.Base.{
  zero, suc, ℤ, pos, negsuc, ltb_ℤ, leb_ℤ, eqb_ℤ, String, Bool, true, false, ◌&&◌, List, [], ◌∷◌,
  ◌++◌, Option, none, some, str_eq, length, get_elem?, map, if◌then◌else◌,
}
use mathlib.Core.Option
use esppdv.Outcome.{Error, failure, Result, ok, err}
use esppdv.Exec.{lift, raise_if, ◌>>=◌, ◌>>◌}
use esppdv.Decimal.{parse_int}
use esppdv.Paging.{order_by, page}
use esppdv.World.Rows.{Time, AuditRow}
use esppdv.World.Sql.{M, query, set_rls_context, with_tx}
use esppdv.Audit.Itoa.{itoa}

pub record QueryInput : Type 0 where
  pub action : String
  pub user_id : Option ℤ
  pub since : Option Time
  pub until : Option Time
  pub limit : ℤ
  pub offset : ℤ
  pub resource : String

pub data Arg : Type 0 where
  text_arg : String → Arg
  int_arg : ℤ → Arg
  time_arg : Time → Arg

-- The conditions `action =`, `resource_type =`, `user_id =`, `timestamp >=` and `timestamp <=`.
pub data Condition : Type 0 where
  action_is : Condition
  resource_type_is : Condition
  user_id_is : Condition
  timestamp_from : Condition
  timestamp_to : Condition

-- The arguments, and each condition of the WHERE with the text behind its `$`.
pub record Where : Type 0 where
  pub args : List Arg
  pub conditions : List (Condition × String)

abbrev pub everything : Where
everything = record { args = []; conditions = [] }

abbrev index_out_of_range : Error
index_out_of_range = failure "runtime error: index out of range"

abbrev placed : Arg → Condition → Where → Option String → Result Where
placed a c q none = err index_out_of_range
placed a c q (some n) =
    ok (record { args = q.args ++ a ∷ []; conditions = q.conditions ++ (c, n) ∷ [] })

-- One `if` of the filter builder.
abbrev pub add : Condition → Option Arg → Result Where → Result Where
add c none q = q
add c (some a) (err e) = err e
add c (some a) (ok q) = placed a c q (itoa (pos (suc (length q.args))))

abbrev pub text_filter : String → Option Arg
text_filter s = if str_eq s "" then none else some (text_arg s)

abbrev pub build : QueryInput → Result Where
build q = add timestamp_to (Option.map time_arg q.until) (
    add timestamp_from (Option.map time_arg q.since) (
      add user_id_is (Option.map int_arg q.user_id) (
        add resource_type_is (text_filter q.resource)
          (add action_is (text_filter q.action) (ok everything)))))

pub record Statement : Type 0 where
  pub args : List Arg
  pub conditions : List (Condition × String)
  pub limit_pos : String
  pub offset_pos : String

abbrev numbered : Where → ℤ → ℤ → Option String → Option String → Result Statement
numbered q limit offset none _ = err index_out_of_range
numbered q limit offset (some l) none = err index_out_of_range
numbered q limit offset (some l) (some o) = ok (record {
  args = (q.args ++ int_arg limit ∷ []) ++ int_arg offset ∷ [];
  conditions = q.conditions;
  limit_pos = l;
  offset_pos = o;
})

abbrev pub with_page : ℤ → ℤ → Result Where → Result Statement
with_page limit offset (err e) = err e
with_page limit offset (ok q) =
    numbered q limit offset (itoa (pos (suc (length q.args))))
      (itoa (pos (suc (suc (length q.args)))))

abbrev pub statement : QueryInput → Result Statement
statement q = with_page q.limit q.offset (build q)

-- What PostgreSQL makes of `$n`: the n-th argument.
abbrev arg_of : Option ℤ → List Arg → Option Arg
arg_of none args = none
arg_of (some (negsuc n)) args = none
arg_of (some (pos zero)) args = none
arg_of (some (pos (suc n))) args = get_elem? args n

abbrev pub arg_at : String → List Arg → Option Arg
arg_at n args = arg_of (parse_int n) args

abbrev no_parameter : Error
no_parameter = failure "there is no parameter of that number and type"

-- A condition on a row, by its argument.
abbrev pub test : Condition → Option Arg → AuditRow → Result Bool
test action_is (some (text_arg s)) r = ok (str_eq r.action s)
test resource_type_is (some (text_arg s)) r = ok (str_eq r.resource_type s)
test user_id_is (some (int_arg i)) r = ok (eqb_ℤ r.user_id i)
test timestamp_from (some (time_arg t)) r = ok (leb_ℤ t r.timestamp)
test timestamp_to (some (time_arg t)) r = ok (leb_ℤ r.timestamp t)
test _ _ r = err no_parameter

abbrev pub both : Result Bool → Result Bool → Result Bool
both (err e) _ = err e
both (ok a) (err e) = err e
both (ok a) (ok b) = ok (a && b)

abbrev pub meets : List Arg → List (Condition × String) → AuditRow → Result Bool
meets args [] r = ok true
meets args ((c, n) ∷ cs) r = both (test c (arg_at n args) r) (meets args cs r)

abbrev kept : AuditRow → Result Bool → Result (List AuditRow) → Result (List AuditRow)
kept r (err e) _ = err e
kept r (ok b) (err e) = err e
kept r (ok true) (ok rows) = ok (r ∷ rows)
kept r (ok false) (ok rows) = ok rows

abbrev pub select_where : (AuditRow → Result Bool) → List AuditRow → Result (List AuditRow)
select_where p [] = ok []
select_where p (r ∷ rows) = kept r (p r) (select_where p rows)

abbrev pub later : AuditRow → AuditRow → Bool
later a b = ltb_ℤ b.timestamp a.timestamp

abbrev pub shown : (String → String) → AuditRow → AuditRow
shown inet_text r = record r { ip_address = Option.map inet_text r.ip_address }

-- PostgreSQL refuses a negative LIMIT or OFFSET.
abbrev page_or_error : (String → String) → ℤ → ℤ → List AuditRow → Result (List AuditRow)
page_or_error inet_text l o rows =
    if ltb_ℤ l (pos 0)
    then err (failure "LIMIT must not be negative")
    else if ltb_ℤ o (pos 0)
    then err (failure "OFFSET must not be negative")
    else ok (map (shown inet_text) (page l o (order_by later rows)))

abbrev paged :
    (String → String) → Option Arg → Option Arg → Result (List AuditRow) → Result (List AuditRow)
paged inet_text (some (int_arg l)) (some (int_arg o)) (ok rows) = page_or_error inet_text l o rows
paged inet_text (some (int_arg l)) (some (int_arg o)) (err e) = err e
paged inet_text _ _ rows = err no_parameter

abbrev pub run_statement : (String → String) → Statement → List AuditRow → Result (List AuditRow)
run_statement inet_text s rows =
    paged inet_text (arg_at s.limit_pos s.args) (arg_at s.offset_pos s.args)
      (select_where (meets s.args s.conditions) rows)

-- Query; `make` panics for a negative capacity, before the transaction begins.
unfoldable pub query_logs : (String → String) → ℤ → String → QueryInput → M (List AuditRow)
query_logs inet_text user_id role q = do
  raise_if (ltb_ℤ q.limit (pos 0)) (failure "runtime error: makeslice: cap out of range")
  with_tx (do
    set_rls_context user_id role
    s ← lift (statement q)
    query (λ w. run_statement inet_text s w.tables.audit_logs))
