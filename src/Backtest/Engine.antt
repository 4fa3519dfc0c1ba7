-- ===== src/Backtest/Engine.antt =====
-- BacktestEngine (packages/compute/stockstat_compute/backtest/engine.py), from its sorted data to
-- the equity curve and the trades, which the metrics are computed of. The strategy is the user's:
-- it has a state of its own, and may raise.
pub mod Safety
use stock_statistic.Common.{
  ℕ, ◌+◌, ◌*◌, Bool, true, false, ◌||◌, Option, none, some, List, [], ◌∷◌, ◌++◌, map, if◌then◌else◌,
}
use stock_statistic.Common.Text.{Text, codes, text_mem}
use stock_statistic.Common.Dict.{Dict}
use stock_statistic.Backtest.Arith.{Arith, ◌⊖◌, ◌⊘◌, nought, most_in}
use stock_statistic.Backtest.Portfolio.{Portfolio, total_value, new_portfolio}
use stock_statistic.Backtest.Models.{
  CostModel, FillModel, Bar, Side, buy, sell, hold, get_cost_model, get_fill_model,
}
use stock_statistic.Backtest.Broker.{if_hold, Signal, Broker, execute_signal, reset_broker}

pub record EquityPoint (N : Type 0) : Type 0 where
  pub timestamp : ℕ
  pub equity : N
  pub cash : N
  pub position_value : N
  pub drawdown : N

-- What `on_bar` does.
pub data Answer (N : Type 0) : Type 0 where
  answered : Option (Signal N) → Answer N
  -- an exception that is no ComputeError; `run` raises a ComputeError again, which is not followed
  raised : (message : Text) → Answer N

-- `some` is the message of what `on_init` and `on_finish` raise.
pub record Strategy (N S : Type 0) : Type 0 where
  pub on_init : S → Option Text × S
  pub on_bar : ℕ → S → Answer N × S
  pub on_finish : S → Option Text × S

pub record Engine (N : Type 0) : Type 0 where
  pub bars : List (Bar N)
  pub initial_cash : N
  pub symbol : Text
  pub broker : Broker N

-- The variables of the loop.
pub record Loop (N S : Type 0) : Type 0 where
  pub broker : Broker N
  pub points : List (EquityPoint N)
  pub memory : S

-- `failed` has the message of what the strategy raised, `none` stands for that of an order's
-- ZeroDivisionError or IndexError.
pub data Outcome (N S : Type 0) : Type 0 where
  finished : Loop N S → Outcome N S
  failed : (message : Option Text) → Loop N S → Outcome N S

-- `tf in (...)` in the order of the tests.
abbrev daily : List Text
daily = codes "1d" ∷ codes "d" ∷ codes "daily" ∷ codes "day" ∷ []

abbrev weekly : List Text
weekly = codes "1w" ∷ codes "w" ∷ codes "weekly" ∷ []

abbrev hourly : List Text
hourly = codes "1h" ∷ codes "h" ∷ codes "hourly" ∷ []

abbrev minutely : List Text
minutely = codes "1m" ∷ codes "m" ∷ codes "min" ∷ codes "minute" ∷ []

abbrev periods_of : Text → ℕ
periods_of tf =
    if text_mem tf daily
    then 252
    else if text_mem tf weekly
    then 52
    else if text_mem tf hourly
    then 252 * 24
    else if text_mem tf (codes "4h" ∷ [])
    then 252 * 6
    else if text_mem tf minutely
    then 252 * 24 * 60
    else 252

-- `lower` is `str.lower`.
unfoldable pub infer_periods_per_year : (lower : Text → Text) → Text → ℕ
infer_periods_per_year lower [] = 252
infer_periods_per_year lower (c ∷ t) = periods_of (lower (c ∷ t))

module _ {N : Type 0} ⦃a : Arith N⦄ where
  -- The engine of a run with the names of its models.
  unfoldable pub new_engine :
      List (Bar N)
      → (initial_cash : N) (allow_short : Bool) (cost fill : Option Text) (symbol : Text) → Engine N
  new_engine bars initial_cash allow_short cost fill symbol = record {
    bars = bars;
    initial_cash = initial_cash;
    symbol = elim symbol [ [] ↦ codes "default" | c ∷ t ↦ c ∷ t ];
    broker = record {
      portfolio = new_portfolio initial_cash allow_short;
      cost_model = get_cost_model cost;
      fill_model = get_fill_model fill;
      trades = [];
    };
  }

  module _ {S : Type 0} where
    -- The outcome so far, and `f` where nothing was raised.
    abbrev pub proceed : Outcome N S → (Loop N S → Outcome N S) → Outcome N S
    proceed (finished l) f = f l
    proceed (failed message l) f = failed message l

  module _ {S : Type 0} (e : Engine N) (strategy : Strategy N S) where
    abbrev pub prices : Bar N → Dict N
    prices bar = (e.symbol, bar.close_price) ∷ []

    -- The signal with the engine's symbol, and the bar's time where it has none.
    abbrev pub adopted : Bar N → Signal N → Signal N
    adopted bar s = record s {
      symbol = e.symbol;
      timestamp = elim s.timestamp [ none ↦ some bar.timestamp | some t ↦ some t ];
    }

    -- The signal's execution; a missing signal and a hold change nothing.
    abbrev pub act :
        (i : ℕ) (bar : Bar N) (equity : N) → Option (Signal N) → Broker N → Option (Broker N)
    act i bar equity none b = some b
    act i bar equity (some s) b =
        if_hold s.side (some b) (execute_signal (adopted bar s) i e.bars equity b)

    abbrev drawdown_of : N → N → N
    drawdown_of equity high = if a.lt nought high then (equity ⊖ high) ⊘ high else nought

    -- The point of a bar, after the signal.
    unfoldable pub point_of : Bar N → Broker N → List (EquityPoint N) → EquityPoint N
    point_of bar b points =
        let equity = total_value (prices bar) b.portfolio in
        let high = most_in (map (λ (p : EquityPoint N). p.equity) points) e.initial_cash in
        record {
          timestamp = bar.timestamp;
          equity = equity;
          cash = b.portfolio.cash;
          position_value = equity ⊖ b.portfolio.cash;
          drawdown = drawdown_of equity high;
        }

    -- A round of the loop, after the strategy's answer.
    abbrev pub after_answer : (i : ℕ) (bar : Bar N) → Answer N × S → Loop N S → Outcome N S
    after_answer i bar (raised message, m) l = failed (some message) (record l { memory = m })
    after_answer i bar (answered s, m) l =
        elim (act i bar (total_value (prices bar) l.broker.portfolio) s l.broker) [
          | none ↦ failed none (record l { memory = m })
          | some b ↦
              finished (record {
                broker = b;
                points = l.points ++ point_of bar b l.points ∷ [];
                memory = m;
              })
        ]

    unfoldable pub bars_loop : (i : ℕ) → List (Bar N) → Loop N S → Outcome N S
    bars_loop i [] l = finished l
    bars_loop i (bar ∷ bars) l =
        proceed (after_answer i bar (strategy.on_bar i l.memory) l) (bars_loop (i + 1) bars)

    abbrev pub remembered : Option Text × S → Loop N S → Outcome N S
    remembered (none, m) l = finished (record l { memory = m })
    remembered (some message, m) l = failed (some message) (record l { memory = m })

    unfoldable pub run : S → Outcome N S
    unfolding bars_loop
    run memory =
        let start : Loop N S = record {
          broker = reset_broker e.broker;
          points = [];
          memory = memory;
        } in
        proceed (proceed (remembered (strategy.on_init memory) start) (bars_loop 0 e.bars))
          (λ l. remembered (strategy.on_finish l.memory) l)
