-- ===== src/Backtest/Arith.antt =====
-- The arithmetic of Python's floats that the backtest uses, and the behaviour of it that the
-- theorems rely on.
use stock_statistic.Common.{ℕ, ◌≡◌, Bool, true, not, Option, List, [], ◌∷◌, ◌⊎◌, if◌then◌else◌}
use stock_statistic.Common.Text.{Text}

-- `literal n k` is the float of the decimal literal n / 10 ^ k.
pub record Arith (N : Type 0) : Type 0 where
  pub literal : ℕ → ℕ → N
  pub infinity : N
  pub add : N → N → N
  pub sub : N → N → N
  pub mul : N → N → N
  pub div : N → N → N
  pub neg : N → N
  pub magnitude : N → N
  pub eq : N → N → Bool
  pub le : N → N → Bool
  pub lt : N → N → Bool
  -- `float(text)`, where it does not raise
  pub parse : Text → Option N
  -- the text of a float in an f-string
  pub show : N → Text

module _ {N : Type 0} ⦃a : Arith N⦄ where
  infixl 65 ◌⊕◌ ◌⊖◌
  infixl 70 ◌⊗◌ ◌⊘◌
  infix 50 ◌≼◌
  abbrev pub ◌⊕◌ : N → N → N
  x ⊕ y = a.add x y

  abbrev pub ◌⊖◌ : N → N → N
  x ⊖ y = a.sub x y

  abbrev pub ◌⊗◌ : N → N → N
  x ⊗ y = a.mul x y

  abbrev pub ◌⊘◌ : N → N → N
  x ⊘ y = a.div x y

  abbrev pub nought : N
  nought = a.literal 0 0

  -- `min(x, y)` and `max(x, y)`, which give the first where neither is less.
  abbrev pub least_of : N → N → N
  least_of x y = if a.lt y x then y else x

  abbrev pub most_of : N → N → N
  most_of x y = if a.lt x y then y else x

  -- `max([*xs, x])`, with the first of the equal ones.
  unfoldable pub most_in : List N → N → N
  most_in [] x = x
  most_in (y ∷ ys) x = let rest = most_in ys x in most_of y rest

  abbrev pub ◌≼◌ : N → N → Type 0
  x ≼ y = a.le x y ≡ true

-- What holds of floats as long as none is an infinity or NaN: the comparisons are a total order,
-- and rounding does not take a sum or a difference across zero.
pub record IsOrdered (N : Type 0) ⦃a : Arith N⦄ : Type 0 where
  pub nought_refl : a.literal 0 0 ≼ a.literal 0 0
  pub lt-eq-not-le : (x y : N) → a.lt x y ≡ not (a.le y x)
  pub le_total : (x y : N) → (x ≼ y) ⊎ (y ≼ x)
  pub le_trans : (x y z : N) → x ≼ y → y ≼ z → x ≼ z
  pub add_nonneg : (x y : N) → nought ≼ x → nought ≼ y → nought ≼ (x ⊕ y)
  pub add-neg_nonneg : (x y : N) → y ≼ x → nought ≼ (x ⊕ a.neg y)
