-- ===== src/Backtest/Searches/Fresh.antt =====
-- A strategy that begins anew runs each backtest of a search as if it were alone
-- (packages/compute/stockstat_compute/backtest/batch_runner.py and walkforward.py).
use mathlib.Core.Path.{ap₂}
use stock_statistic.Common.{
  ℕ, zero, suc, ◌+◌, ◌*◌, ◌≡◌, arith, refl, sym, ap, ◌∙◌, Option, none, some, List, [], ◌∷◌, ◌++◌,
  map,
}
use stock_statistic.Common.Text.{Text}
use stock_statistic.Common.Dict
use stock_statistic.Common.Dict.{Dict}
use stock_statistic.Common.Lists.{concat, length, length-append, length-map, All}
use stock_statistic.Backtest.Arith.{Arith}
use stock_statistic.Backtest.Models.{Bar}
use stock_statistic.Backtest.Engine.{
  Strategy, Engine, Loop, run, remembered, proceed, bars_loop, new_engine,
}
use stock_statistic.Backtest.Broker.{reset_broker}
use stock_statistic.Backtest.Results.{run_backtest}
use stock_statistic.Backtest.Searches.{Cell, Settings, engine_run, progress_calls}
use stock_statistic.Backtest.Searches.BatchRunner.{
  FeeModels, fees_of, batch_row, fees_loop, strategies_loop, batch_backtest,
}

-- What `on_init` does and leaves does not depend on what the strategy remembers.
abbrev pub BeginsAnew : {N S : Type 0} → Strategy N S → Type 0
BeginsAnew {S = S} strategy = (m m' : S) → strategy.on_init m ≡ strategy.on_init m'

progress_calls-append :
    (i total m n : ℕ)
    → progress_calls i total (m + n) ≡ progress_calls i total m ++ progress_calls (i + m) total n
progress_calls-append i total zero n =
    let here : i + 0 ≡ i = omega arith in let all : 0 + n ≡ n = omega arith in rw (here, all) refl
progress_calls-append i total (suc m) n =
    let more : suc m + n ≡ suc (m + n) = omega arith in
    let later : i + suc m ≡ (i + 1) + m = omega arith in
    rw (more, later)
      (ap (λ calls. (i + 1, total) ∷ calls) (progress_calls-append (i + 1) total m n))

length-progress_calls : (i total rows : ℕ) → length (progress_calls i total rows) ≡ rows
length-progress_calls i total zero = refl
length-progress_calls i total (suc rows) = ap suc (length-progress_calls (i + 1) total rows)

module _ {N S : Type 0} ⦃a : Arith N⦄ where
  remembered-eq :
      (e : Engine N) (strategy : Strategy N S) (x : Option Text × S) (l l' : Loop N S)
      → l.broker ≡ l'.broker
      → l.points ≡ l'.points
      → remembered e strategy x l ≡ remembered e strategy x l'
  remembered-eq e strategy (none, m) l l' p q = rw (p, q) refl
  remembered-eq e strategy (some message, m) l l' p q = rw (p, q) refl

  run-BeginsAnew :
      (e : Engine N) (strategy : Strategy N S) (m m' : S)
      → BeginsAnew strategy
      → run e strategy m ≡ run e strategy m'
  unfolding run
  run-BeginsAnew e strategy m m' h =
      let start = λ (q : S). first_loop e q in
      ap
        (λ r.
          proceed (proceed r (bars_loop e strategy 0 e.bars))
            (λ l. remembered e strategy (strategy.on_finish l.memory) l))
        (ap (λ x. remembered e strategy x (start m)) (h m m')
          ∙ remembered-eq e strategy (strategy.on_init m') (start m) (start m') refl refl)
    where
      first_loop : Engine N → S → Loop N S
      first_loop e q = record { broker = reset_broker e.broker; points = []; memory = q }

  engine_run-BeginsAnew :
      (settings : Settings N) (name : Text) (cost : Option Text) (bars : List (Bar N))
      (strategy : Strategy N S) (m m' : S)
      → BeginsAnew strategy
      → (engine_run settings name cost bars strategy m).0
        ≡ (engine_run settings name cost bars strategy m').0
  unfolding engine_run run_backtest
  engine_run-BeginsAnew settings name cost [] strategy m m' h = refl
  engine_run-BeginsAnew settings name cost (bar ∷ bars) strategy m m' h =
      rw
        (run-BeginsAnew
          (new_engine (bar ∷ bars) settings.initial_cash settings.allow_short cost
            settings.fill_model settings.symbol)
          strategy m m' h)
        refl

  -- The rows of a strategy, each of a backtest from the same state.
  abbrev pub rows_alone :
      Settings N
      → List (Bar N)
      → (fees : List Text) → Text × (Strategy N S × S)
      → List (Dict (Cell N))
  rows_alone settings bars fees (name, (strategy, memory)) =
      map
        (λ fee.
          batch_row settings name fee (engine_run settings name (some fee) bars strategy memory).0)
        fees

  fees_loop-BeginsAnew :
      (settings : Settings N) (bars : List (Bar N)) (total : ℕ) (name : Text)
      (strategy : Strategy N S) (i : ℕ) (fees : List Text) (m memory : S)
      → BeginsAnew strategy
      → (fees_loop settings bars total name strategy i fees m).0
        ≡ rows_alone settings bars fees (name, (strategy, memory))
  fees_loop-BeginsAnew settings bars total name strategy i [] m memory h = refl
  fees_loop-BeginsAnew settings bars total name strategy i (fee ∷ fees) m memory h =
      ap₂ (λ t rows. batch_row settings name fee t ∷ rows)
        (engine_run-BeginsAnew settings name (some fee) bars strategy m memory h)
        (fees_loop-BeginsAnew settings bars total name strategy (i + 1) fees
          (engine_run settings name (some fee) bars strategy m).1 memory h)

  calls-fees_loop :
      (settings : Settings N) (bars : List (Bar N)) (total : ℕ) (name : Text)
      (strategy : Strategy N S) (i : ℕ) (fees : List Text) (m : S)
      → ((fees_loop settings bars total name strategy i fees m).1.0
          ≡ progress_calls i total (length fees))
        × ((fees_loop settings bars total name strategy i fees m).1.1 ≡ i + length fees)
  calls-fees_loop settings bars total name strategy i [] m = (refl, omega arith)
  calls-fees_loop settings bars total name strategy i (fee ∷ fees) m =
      let (calls, last) =
        calls-fees_loop settings bars total name strategy (i + 1) fees
          (engine_run settings name (some fee) bars strategy m).1 in
      (ap (λ cs. (i + 1, total) ∷ cs) calls, omega (arith, last))

  strategies_loop-BeginsAnew :
      (settings : Settings N) (bars : List (Bar N)) (total : ℕ) (fees : List Text) (i : ℕ)
      (strategies : Dict (Strategy N S × S))
      → All (λ s. BeginsAnew s.0) (Dict.values strategies)
      → (strategies_loop settings bars total fees i strategies).0
        ≡ concat (map (rows_alone settings bars fees) strategies)
  strategies_loop-BeginsAnew settings bars total fees i [] h = refl
  strategies_loop-BeginsAnew settings bars total fees i ((name, (strategy, memory)) ∷ strategies)
        h =
      ap₂ (λ rows rows'. rows ++ rows')
        (fees_loop-BeginsAnew settings bars total name strategy i fees memory memory h.0)
        (strategies_loop-BeginsAnew settings bars total fees
          (fees_loop settings bars total name strategy i fees memory).1.1 strategies h.1)

  calls-strategies_loop :
      (settings : Settings N) (bars : List (Bar N)) (total : ℕ) (fees : List Text) (i : ℕ)
      (strategies : Dict (Strategy N S × S))
      → (strategies_loop settings bars total fees i strategies).1
        ≡ progress_calls i total (length strategies * length fees)
  calls-strategies_loop settings bars total fees i [] =
      let none_left : 0 * length fees ≡ 0 = omega arith in rw none_left refl
  calls-strategies_loop settings bars total fees i ((name, (strategy, memory)) ∷ strategies) =
      let (calls, last) = calls-fees_loop settings bars total name strategy i fees memory in
      let rest =
        calls-strategies_loop settings bars total fees
          (fees_loop settings bars total name strategy i fees memory).1.1 strategies in
      let n = length strategies * length fees in
      ap₂ (λ cs cs'. cs ++ cs') calls (rest ∙ ap (λ j. progress_calls j total n) last)
      ∙ sym (progress_calls-append i total (length fees) n)
      ∙ ap (λ k. progress_calls i total k) (grind arith)

  length-rows_alone :
      (settings : Settings N) (bars : List (Bar N)) (fees : List Text)
      (strategies : Dict (Strategy N S × S))
      → length (concat (map (rows_alone settings bars fees) strategies))
        ≡ length strategies * length fees
  length-rows_alone settings bars fees [] = omega arith
  length-rows_alone settings bars fees ((name, (strategy, memory)) ∷ strategies) =
      let one = rows_alone settings bars fees (name, (strategy, memory)) in
      let rest = concat (map (rows_alone settings bars fees) strategies) in
      length-append one rest
      ∙ grind (
        arith,
        length-rows_alone settings bars fees strategies,
        length-map
            (λ fee.
              batch_row settings name fee
                (engine_run settings name (some fee) bars strategy memory).0)
            fees,
      )

  -- Where each strategy begins anew, a batch has for each strategy and each fee model, in order,
  -- the row of a backtest of it alone, and reports its progress after each row, out of their number.
  pub batch_backtest-BeginsAnew :
      (settings : Settings N) (bars : List (Bar N)) (strategies : Dict (Strategy N S × S))
      (fee_models : FeeModels)
      → All (λ s. BeginsAnew s.0) (Dict.values strategies)
      → ((batch_backtest settings bars strategies fee_models).0
          ≡ concat (map (rows_alone settings bars (fees_of fee_models)) strategies))
        × ((batch_backtest settings bars strategies fee_models).1
            ≡ progress_calls 0
                (length strategies * length (fees_of fee_models))
                (length strategies * length (fees_of fee_models)))
        × (length (batch_backtest settings bars strategies fee_models).0
            ≡ length (batch_backtest settings bars strategies fee_models).1)
  unfolding batch_backtest
  batch_backtest-BeginsAnew settings bars strategies fee_models h =
      let fees = fees_of fee_models in
      let total = length strategies * length fees in
      let e = strategies_loop-BeginsAnew settings bars total fees 0 strategies h in
      let calls = calls-strategies_loop settings bars total fees 0 strategies in
      (
        e,
        calls,
        ap length e
            ∙ length-rows_alone settings bars fees strategies
            ∙ sym (ap length calls ∙ length-progress_calls 0 total total),
      )
