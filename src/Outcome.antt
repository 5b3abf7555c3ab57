-- ===== src/Outcome.antt =====
-- The error values that the handlers return, and results that carry one.
use esppdv.Base.{ℕ, String}

-- `http` is a *fiber.Error (code and message), `no_rows` is pgx.ErrNoRows, and `failure` is any
-- other error value, by its text.
pub data Error : Type 0 where
  http : ℕ → String → Error
  no_rows : Error
  failure : String → Error

pub data Result {ℓ} (A : Type ℓ) : Type ℓ where
  ok : A → Result A
  err : Error → Result A
