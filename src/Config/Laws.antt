-- ===== src/Config/Laws.antt =====
-- The limit of connections, which is the one setting that is converted to a narrower integer.
use esppdv.Base.{
  ℤ, pos, negsuc, ◌+ℤ◌, ◌*◌, ℕ, leb_ℤ, String, Bool, true, ◌&&◌, Option, none, some, ◌≡◌, ◌⊎◌, ◌^◌,
  ◌-◌,
}
use esppdv.Decimal.{parse_int}
use esppdv.Config.{Env, load_postgres}

abbrev pub is_int32 : ℤ → Bool
is_int32 i = leb_ℤ (negsuc (2 ^ 31 - 1)) i && leb_ℤ i (pos (2 ^ 31 - 1))

-- A number in 32 bits that differs from another by a multiple of 2 ^ 32.
pub record Wrapped (m n : ℤ) : Type 0 where
  pub in_range : is_int32 m ≡ true
  pub below : ℕ
  pub above : ℕ
  pub same : n +ℤ pos (below * 2 ^ 32) ≡ m +ℤ pos (above * 2 ^ 32)

-- The number of turns that a number in 32 bits is short of, or beyond, a number.
Turns : ℤ → ℤ → Type 0
Turns m n = (k : ℕ) × (l : ℕ) × (n +ℤ pos (k * 2 ^ 32) ≡ m +ℤ pos (l * 2 ^ 32))

abbrev pub limit : Env → ℤ
limit env = (load_postgres env).max_conns

-- The variable is not set, or it is no number; or the limit is that number, wrapped.
abbrev pub Limited : Option String → ℤ → Type 0
Limited setting m =
    ((setting ≡ none) × (m ≡ pos 20))
    ⊎ (((v : String) × (setting ≡ some v) × (parse_int v ≡ none) × (m ≡ pos 20))
        ⊎ ((v : String) × (n : ℤ) × (setting ≡ some v) × (parse_int v ≡ some n) × Wrapped m n))
