-- ===== src/Paging.antt =====
-- parseInt and clampInt, which the handlers of the SPD, approval and audit services each declare,
-- and the LIMIT and OFFSET of the statements they call.
use esppdv.Base.{
  ℤ, pos_part, ltb_ℤ, ◌≤ℤ◌, String, Bool, List, [], ◌∷◌, Option, none, some, str_eq, take, drop,
  arith, if◌then◌else◌,
}
use esppdv.Decimal.{parse_int}

abbrev parsed_or : Option ℤ → ℤ → ℤ
parsed_or none default = default
parsed_or (some i) default = i

-- parseInt
unfoldable pub parse_int_or : String → ℤ → ℤ
parse_int_or s default = if str_eq s "" then default else parsed_or (parse_int s) default

-- clampInt
unfoldable pub clamp_int : ℤ → ℤ → ℤ → ℤ
clamp_int v min max = if ltb_ℤ v min then min else if ltb_ℤ max v then max else v

-- What a row comes before, of the rows that are in order already: a later row stays behind an
-- earlier one that compares equal.
abbrev pub insert_by {ℓ} : {A : Type ℓ} → (A → A → Bool) → A → List A → List A
insert_by before x [] = x ∷ []
insert_by before x (y ∷ ys) =
    let rest = insert_by before x ys in if before y x then y ∷ rest else x ∷ y ∷ ys

-- ORDER BY, for the strict order `before`.
abbrev pub order_by {ℓ} : {A : Type ℓ} → (A → A → Bool) → List A → List A
order_by before [] = []
order_by before (x ∷ xs) = insert_by before x (order_by before xs)

-- LIMIT and OFFSET, which are not negative here.
abbrev pub page {ℓ} : {A : Type ℓ} → ℤ → ℤ → List A → List A
page limit offset rows = take (pos_part limit) (drop (pos_part offset) rows)

pub clamp_int-bounds :
    (v min max : ℤ) → min ≤ℤ max → (min ≤ℤ clamp_int v min max) × (clamp_int v min max ≤ℤ max)
unfolding clamp_int
clamp_int-bounds v min max h = ground arith
