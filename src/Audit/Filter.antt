-- ===== src/Audit/Filter.antt =====
-- The statement that the filter builder makes selects the rows that its input describes.
use esppdv.Base.{
  pos, leb_ℤ, eqb_ℤ, String, Bool, true, false, ◌&&◌, ◌||◌, List, [], ◌∷◌, Option, none, some, ℕ,
  zero, suc, ◌<◌, ◌≤◌, ◌++◌, length, length-append, get_elem?, ◌≡◌, refl, ap, sym, ◌∙◌, str_eq,
  arith,
}
use mathlib.Core.List.{append_assoc}
use esppdv.Outcome.{Result, ok, err}
use esppdv.Decimal.{parse_int}
use esppdv.Text.{hex_digit}
use esppdv.World.Rows.{AuditRow}
use esppdv.Audit.Itoa.{itoa, itoa_from}
use esppdv.Audit.Query.{QueryInput, Arg, Condition, Where, add, test, both, arg_at, meets}

-- The filter: an empty text and a missing value admit every row.
abbrev pub unless_empty : String → String → Bool
unless_empty s v = str_eq s "" || str_eq v s

abbrev pub if_some {ℓ} : {A : Type ℓ} → (A → Bool) → Option A → Bool
if_some p none = true
if_some p (some a) = p a

abbrev pub matches : QueryInput → AuditRow → Bool
matches q r =
    (((unless_empty q.action r.action && unless_empty q.resource r.resource_type)
        && if_some (λ i. eqb_ℤ r.user_id i) q.user_id)
      && if_some (λ t. leb_ℤ t r.timestamp) q.since)
    && if_some (λ t. leb_ℤ r.timestamp t) q.until

-- The text behind `$` is read back as the position.
pub read_back :
    (k : ℕ)
    → k < 8
    → (n : String) × (itoa (pos (suc k)) ≡ some n) × (parse_int n ≡ some (pos (suc k)))
unfolding itoa itoa_from parse_int hex_digit
read_back zero h = ("1", refl, refl)
read_back (suc zero) h = ("2", refl, refl)
read_back (suc (suc zero)) h = ("3", refl, refl)
read_back (suc (suc (suc zero))) h = ("4", refl, refl)
read_back (suc (suc (suc (suc zero)))) h = ("5", refl, refl)
read_back (suc (suc (suc (suc (suc zero))))) h = ("6", refl, refl)
read_back (suc (suc (suc (suc (suc (suc zero)))))) h = ("7", refl, refl)
read_back (suc (suc (suc (suc (suc (suc (suc zero))))))) h = ("8", refl, refl)
read_back (suc (suc (suc (suc (suc (suc (suc (suc k)))))))) h = absurd (omega (arith, h))

get_elem?-append :
    (args : List Arg) (a : Arg) (rest : List Arg)
    → get_elem? (args ++ a ∷ rest) (length args) ≡ some a
get_elem?-append [] a rest = refl
get_elem?-append (x ∷ args) a rest = get_elem?-append args a rest

pub arg_at-append :
    (args : List Arg) (a : Arg) (rest : List Arg) (n : String)
    → parse_int n ≡ some (pos (suc (length args)))
    → arg_at n (args ++ a ∷ rest) ≡ some a
arg_at-append args a rest n h = rw h (get_elem?-append args a rest)

and_true : (b : Bool) → b && true ≡ b
and_true true = refl
and_true false = refl

both-true : (b : Bool) → both (ok b) (ok true) ≡ ok b
both-true b = ap (λ c. ok c) (and_true b)

both_assoc : (x y b : Bool) → both (ok x) (ok (y && b)) ≡ ok ((x && y) && b)
both_assoc true y b = refl
both_assoc false y b = refl

both-ok :
    (s t : Result Bool) {b : Bool}
    → both s t ≡ ok b
    → (x y : Bool) × (s ≡ ok x) × (t ≡ ok y) × (x && y ≡ b)
both-ok (err e) t h = cc
both-ok (ok x) (err e) h = cc
both-ok (ok x) (ok y) h = (x, y, refl, refl, cc)

meets-append :
    (args : List Arg) (cs : List (Condition × String)) (c : Condition) (n : String) (r : AuditRow)
    (b b' : Bool)
    → meets args cs r ≡ ok b
    → test c (arg_at n args) r ≡ ok b'
    → meets args (cs ++ (c, n) ∷ []) r ≡ ok (b && b')
meets-append args [] c n r true b' h k = rw k (both-true b')
meets-append args [] c n r false b' h k = cc
meets-append args ((d, m) ∷ cs) c n r b b' h k =
    let (x, y, e, f, g) = both-ok (test d (arg_at m args) r) (meets args cs r) h in
    rw (e, meets-append args cs c n r y b' f k, ← g) (both_assoc x y b')

-- A filter, whatever arguments come behind its own.
pub record Reads (q : Result Where) (k : ℕ) (p : AuditRow → Bool) : Type 0 where
  pub filter_by : Where
  pub built : q ≡ ok filter_by
  pub short : length filter_by.args ≤ k
  pub selects :
      (r : AuditRow) (rest : List Arg)
      → meets (filter_by.args ++ rest) filter_by.conditions r ≡ ok (p r)

pub Reads-placed :
    (c : Condition) (a : Arg) (q : Result Where) (k : ℕ) (p t : AuditRow → Bool)
    → k < 8
    → ((r : AuditRow) → test c (some a) r ≡ ok (t r))
    → Reads q k p
    → Reads (add c (some a) q) (suc k) (λ r. p r && t r)
Reads-placed c a q k p t small holds s =
    let w = s.filter_by in
    let (n, e, back) = read_back (length w.args) (omega (arith, small, s.short)) in
    record {
      filter_by = record { args = w.args ++ a ∷ []; conditions = w.conditions ++ (c, n) ∷ [] };
      built = rw (s.built, e) refl;
      short = omega (arith, s.short, length-append w.args (a ∷ []));
      selects = λ r rest. rw (append_assoc w.args (a ∷ []) rest) (
          meets-append (w.args ++ a ∷ rest) w.conditions c n r (p r) (t r) (s.selects r (a ∷ rest))
            (rw (arg_at-append w.args a rest n back) (holds r)));
    }

pub Reads-skipped :
    (c : Condition) (q : Result Where) (k : ℕ) (p : AuditRow → Bool)
    → Reads q k p
    → Reads (add c none q) (suc k) (λ r. p r && true)
Reads-skipped c q k p s = record {
  filter_by = s.filter_by;
  built = s.built;
  short = omega (arith, s.short);
  selects = λ r rest. s.selects r rest ∙ ap (λ b. ok b) (sym (and_true (p r)));
}
