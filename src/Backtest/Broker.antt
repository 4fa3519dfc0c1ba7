-- ===== src/Backtest/Broker.antt =====
-- Signals, trades and the broker
-- (packages/compute/stockstat_compute/backtest/strategy.py, result.py and broker.py).
use stock_statistic.Common.{ℕ, Option, none, some, List, [], ◌∷◌, ◌++◌, if◌then◌else◌}
use stock_statistic.Common.Text.{Text}
use stock_statistic.Backtest.Arith.{Arith, ◌⊗◌, ◌⊘◌, nought}
use stock_statistic.Backtest.Portfolio.{Portfolio, execute_buy, execute_sell, reset}
use stock_statistic.Backtest.Models.{
  CostModel, FillModel, Bar, Side, buy, sell, hold, fee_of, get_fill_price,
}

pub record Signal (N : Type 0) : Type 0 where
  pub timestamp : Option ℕ
  pub symbol : Text
  pub side : Side
  pub quantity : Option N
  pub strength : N
  pub notes : Text

pub record Trade (N : Type 0) : Type 0 where
  pub timestamp : Option ℕ
  pub symbol : Text
  pub side : Side
  pub quantity : N
  pub price : N
  pub cost : N
  pub fill_model : Text
  pub notes : Text

pub record Broker (N : Type 0) : Type 0 where
  pub portfolio : Portfolio N
  pub cost_model : CostModel N
  pub fill_model : FillModel N
  pub trades : List (Trade N)

-- `x` for a hold, and else `y`.
abbrev pub if_hold {ℓ} : {A : Type ℓ} → Side → (x y : A) → A
if_hold hold x y = x
if_hold _ x y = y

module _ {N : Type 0} ⦃a : Arith N⦄ where
  abbrev against : Side → N → N
  against sell q = a.neg q
  against _ q = q

  -- The signed quantity of an order; `none` is the ZeroDivisionError.
  unfoldable pub order_quantity : Signal N → (price equity : N) → Option N
  order_quantity s price equity = elim s.quantity [
    | none ↦
        if a.eq price nought then none else some (against s.side ((equity ⊗ s.strength) ⊘ price))
    | some q ↦ some (elim s.side [ buy ↦ q | _ ↦ a.neg q ])
  ]

  -- The order of a signal, with its signed quantity, at a price.
  unfoldable pub place : Signal N → (price qty : N) → Broker N → Broker N
  place s price qty b =
      let size = a.magnitude qty in
      let cost = fee_of b.cost_model size price in
      record b {
        portfolio =
            if a.lt nought qty
            then execute_buy s.symbol size price cost b.portfolio
            else execute_sell s.symbol size price cost b.portfolio;
        trades =
            b.trades
            ++ record {
              timestamp = s.timestamp;
              symbol = s.symbol;
              side = s.side;
              quantity = size;
              price = price;
              cost = cost;
              fill_model = b.fill_model.name;
              notes = s.notes;
            }
              ∷ [];
      }

  abbrev pub place_at : Signal N → (price : N) → Option N → Broker N → Option (Broker N)
  place_at s price none b = none
  place_at s price (some qty) b = some (place s price qty b)

  abbrev pub priced : Signal N → (equity : N) → Option N → Broker N → Option (Broker N)
  priced s equity none b = none
  priced s equity (some price) b = place_at s price (order_quantity s price equity) b

  -- `none` is an IndexError of the data or a ZeroDivisionError.
  unfoldable pub execute_signal :
      Signal N → (i : ℕ) → List (Bar N) → (equity : N) → Broker N → Option (Broker N)
  unfolding place order_quantity
  execute_signal s i bars equity b =
      if_hold s.side (some b) (priced s equity (get_fill_price b.fill_model i bars s.side none) b)

  unfoldable pub reset_broker : Broker N → Broker N
  reset_broker b = record b { portfolio = reset b.portfolio; trades = [] }
