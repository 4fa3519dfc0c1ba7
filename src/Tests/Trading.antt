-- ===== src/Tests/Trading.antt =====
-- A backtest over whole numbers.
use stock_statistic.Common.{
  ℕ, zero, suc, ◌+◌, ◌*◌, ◌≤◌, ◌/◌, ◌-◌, ◌≡◌, refl, Bool, false, none, some, List, [], ◌∷◌, map,
  if◌then◌else◌, leb, arith,
}
use Prim.Native.Nat.{◌^◌}
use stock_statistic.Common.Integer.{ℤ, pos, negsuc, pos_part, neg_part, ltb_ℤ}
use stock_statistic.Common.Lists.{length}
use stock_statistic.Common.Text.{text_eq, codes}
use stock_statistic.Backtest.Arith.{Arith, IsOrdered}
use stock_statistic.Backtest.Models.{
  Side, Bar, buy, sell, get_fill_price, get_fill_model, fee_of, get_cost_model,
}
use stock_statistic.Backtest.Metrics.{trade_stats}
use stock_statistic.Backtest.Metrics.Rounds.{winning_bounds}
use stock_statistic.Backtest.Broker.{Trade, execute_signal, reset_broker}
use stock_statistic.Backtest.Portfolio.{total_value, execute_buy, execute_sell, reset}
use stock_statistic.Common.Dict.{get, put}
use stock_statistic.Backtest.Engine.{
  Engine, Strategy, Answer, answered, new_engine, run, Outcome, finished, failed, point_of,
}
use stock_statistic.Backtest.Engine.Safety.{IsSafe, run-IsSafe}

abbrev difference : ℕ → ℕ → ℤ
difference p q = if leb q p then pos (p - q) else negsuc (q - suc p)

abbrev product_parts : ℤ → ℤ → ℕ
product_parts x y = pos_part x * pos_part y + neg_part x * neg_part y

abbrev opposite : ℤ → ℤ
opposite x = difference (neg_part x) (pos_part x)

abbrev leb_ℤ : ℤ → ℤ → Bool
leb_ℤ x y = leb (pos_part x + neg_part y) (pos_part y + neg_part x)

abbrev sum : ℤ → ℤ → ℤ
sum x y = difference (pos_part x + pos_part y) (neg_part x + neg_part y)

abbrev quotient : ℤ → ℤ → ℤ
quotient x y =
    let square = product_parts y y in
    difference (product_parts x y / square) (product_parts x (opposite y) / square)

instance pub whole : Arith ℤ
whole = record {
  literal = λ n k. pos (n / (10 ^ k));
  infinity = pos 1000000000000;
  add = sum;
  sub = λ x y. sum x (opposite y);
  mul = λ x y. difference (product_parts x y) (product_parts x (opposite y));
  div = quotient;
  neg = opposite;
  magnitude = λ x. pos (pos_part x + neg_part x);
  eq = λ x y. if leb_ℤ x y then leb_ℤ y x else false;
  le = leb_ℤ;
  lt = ltb_ℤ;
  parse = λ t. none;
  show = λ x. [];
}

whole-IsOrdered : IsOrdered ℤ
unfolding whole
whole-IsOrdered = record {
  nought_refl = refl;
  lt-eq-not-le = λ x y. ground arith;
  le_total = λ x y. ground arith;
  le_trans = λ x y z h k. ground (arith, h, k);
  add_nonneg = λ x y h k. ground (arith, h, k);
  add-neg_nonneg = λ x y h. ground (arith, h);
}

abbrev bar_of : ℕ → ℕ → Bar ℤ
bar_of t price = record {
  timestamp = t;
  open_price = pos price;
  high_price = pos price;
  low_price = pos price;
  close_price = pos price;
}

abbrev pub three_bars : List (Bar ℤ)
three_bars = bar_of 1 10 ∷ bar_of 2 12 ∷ bar_of 3 9 ∷ []

-- Buys five, sells eight, and keeps what is left.
abbrev answer_at : ℕ → Answer ℤ
answer_at zero = answered (
    some (record {
      timestamp = none;
      symbol = codes "A";
      side = buy;
      quantity = some (pos 5);
      strength = pos 1;
      notes = [];
    }))
answer_at (suc zero) = answered (
    some (record {
      timestamp = none;
      symbol = codes "A";
      side = sell;
      quantity = some (pos 8);
      strength = pos 1;
      notes = [];
    }))
answer_at _ = answered none

abbrev in_and_out : Strategy ℤ ℕ
in_and_out = record {
  on_init = λ s. (none, s);
  on_bar = λ i s. (answer_at i, suc s);
  on_finish = λ s. (none, s);
}

abbrev whole_engine : Engine ℤ
whole_engine = new_engine three_bars (pos 100) false (some (codes "zero")) none (codes "A")

run-IsSafe_example : IsSafe ℕ (length whole_engine.bars) (run whole_engine in_and_out 0)
unfolding new_engine
run-IsSafe_example = run-IsSafe whole-IsOrdered whole_engine in_and_out 0 refl

abbrev outcome_equity : Outcome ℤ ℕ → List ℤ
outcome_equity (finished l) = map (λ p. p.equity) l.points
outcome_equity (failed m l) = []

equity_of_run : outcome_equity (run whole_engine in_and_out 0) ≡ pos 90 ∷ pos 85 ∷ pos 85 ∷ []
unfolding run new_engine whole execute_signal get_fill_price text_eq reset_broker get_fill_model
    point_of total_value execute_buy reset get fee_of get_cost_model put execute_sell
equity_of_run = refl

abbrev trade_of : Side → ℕ → Trade ℤ
trade_of side price = record {
  timestamp = none;
  symbol = codes "A";
  side = side;
  quantity = pos 5;
  price = pos price;
  cost = pos 0;
  fill_model = codes "next_open";
  notes = [];
}

abbrev three_trades : List (Trade ℤ)
three_trades = trade_of buy 10 ∷ trade_of sell 12 ∷ trade_of buy 9 ∷ []

abbrev first_value : List ℤ → ℤ
first_value [] = pos 0
first_value (x ∷ xs) = x

winning_bounds_example :
    2 * (trade_stats first_value three_trades).n_winning
    ≤ (trade_stats first_value three_trades).n_trades
winning_bounds_example = winning_bounds first_value three_trades
