-- ===== src/Decimal.antt =====
-- Python's `Decimal` as an interface. Its results depend on the precision and rounding of the context, so
-- the arithmetic is a parameter: a theorem says of it only what the comparisons guarantee.
use project_stock.Base.{ℕ, String, Bool, true, false, ◌≡◌}

pub record Decimals : Type 1 where
  pub D : Type 0
  pub of_ℕ : ℕ → D
  pub add : D → D → D
  pub sub : D → D → D
  pub mul : D → D → D
  -- `a / b`; the program divides by no zero
  pub div : D → D → D
  pub abs : D → D
  pub less : D → D → Bool
  pub equal : D → D → Bool
  -- `Decimal("a") / Decimal("10") ** b`, for the constants of the source
  pub scaled : ℕ → ℕ → D
  -- `f"{a:.2%}"`
  pub percent : D → String
  -- the order of finite decimals
  pub less_irrefl : (a : D) → less a a ≡ false
  pub less_trans : (a b c : D) → less a b ≡ true → less b c ≡ true → less a c ≡ true
