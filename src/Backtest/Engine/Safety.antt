-- ===== src/Backtest/Engine/Safety.antt =====
-- What every backtest keeps (packages/compute/stockstat_compute/backtest/engine.py).
use mathlib.Core.Path.{subst}
use mathlib.Core.Option.{some-injective}
use stock_statistic.Common.{
  ℕ, ◌+◌, ◌≤◌, ◌≡◌, refl, false, Option, none, some, List, [], ◌∷◌, arith, Bool-cases, Option-cases,
  inl, inr,
}
use stock_statistic.Common.Lists.{length, length-append}
use stock_statistic.Common.Text.{Text}
use stock_statistic.Backtest.Arith.{Arith, IsOrdered, nought}
use stock_statistic.Backtest.Portfolio.{total_value}
use stock_statistic.Backtest.Portfolio.Long.{
  IsLong, reset-IsLong, execute_buy-IsLong, execute_sell-IsLong,
}
use stock_statistic.Backtest.Models.{Bar, Side, buy, sell, hold}
use stock_statistic.Backtest.Broker.{
  Signal, Broker, place, place_at, priced, if_hold, order_quantity, execute_signal, reset_broker,
}
use stock_statistic.Backtest.Engine.{
  Engine, Strategy, Loop, Outcome, finished, failed, act, after_answer, bars_loop, run, Answer,
  answered, raised, adopted, remembered, proceed, prices, point_of,
}

module _ {N : Type 0} ⦃a : Arith N⦄ where
  -- After `k` rounds.
  pub record IsSound (S : Type 0) (k : ℕ) (l : Loop N S) : Type 0 where
    pub long : IsLong l.broker.portfolio
    pub points : length l.points ≡ k
    pub trades : length l.broker.trades ≤ k

  -- A run over `n` bars: all of them were gone through, unless something was raised.
  abbrev pub IsSafe : (S : Type 0) (n : ℕ) → Outcome N S → Type 0
  IsSafe S n (finished l) = IsSound S n l
  IsSafe S n (failed message l) = (k : ℕ) × (k ≤ n) × IsSound S k l

  -- A round, from a state after `k` of them.
  abbrev IsRound : (S : Type 0) (k : ℕ) → Outcome N S → Type 0
  IsRound S k (finished l) = IsSound S (k + 1) l
  IsRound S k (failed message l) = IsSound S k l

module _ {N : Type 0} ⦃a : Arith N⦄ (o : IsOrdered N) where
  place-IsLong :
      (s : Signal N) (price qty : N) (b : Broker N)
      → IsLong b.portfolio
      → IsLong (place s price qty b).portfolio
  unfolding place
  place-IsLong s price qty b h = elim (Bool-cases (a.lt nought qty)) [
    | inl above ↦ rw above (execute_buy-IsLong o s.symbol _ price _ b.portfolio h)
    | inr below ↦ rw below (execute_sell-IsLong o s.symbol _ price _ b.portfolio h)
  ]

  trades-place :
      (s : Signal N) (price qty : N) (b : Broker N)
      → length (place s price qty b).trades ≡ length b.trades + 1
  unfolding place
  trades-place s price qty b = length-append b.trades _

  -- An order leaves the positions long and adds at most one trade.
  abbrev pub Follows : Broker N → Broker N → Type 0
  Follows b b' = IsLong b'.portfolio × (length b'.trades ≤ length b.trades + 1)

  Follows-stay : (b : Broker N) → IsLong b.portfolio → Follows b b
  Follows-stay b h = (h, omega arith)

  Follows-place_at :
      (s : Signal N) (price : N) (qty : Option N) (b b' : Broker N)
      → IsLong b.portfolio
      → place_at s price qty b ≡ some b'
      → Follows b b'
  Follows-place_at s price none b b' h e = cc e
  Follows-place_at s price (some qty) b b' h e =
      subst (Follows b) (some-injective _ _ e)
        (place-IsLong s price qty b h, omega (arith, trades-place s price qty b))

  Follows-priced :
      (s : Signal N) (equity : N) (price : Option N) (b b' : Broker N)
      → IsLong b.portfolio
      → priced s equity price b ≡ some b'
      → Follows b b'
  Follows-priced s equity none b b' h e = cc e
  Follows-priced s equity (some price) b b' h e =
      Follows-place_at s price (order_quantity s price equity) b b' h e

  -- What holds of a broker that stays, and of one that goes on, holds after `if_hold`.
  Follows-if_hold :
      (s : Side) (other : Option (Broker N)) (b b' : Broker N)
      → IsLong b.portfolio
      → (other ≡ some b' → Follows b b')
      → if_hold s (some b) other ≡ some b'
      → Follows b b'
  Follows-if_hold buy other b b' h f e = f e
  Follows-if_hold sell other b b' h f e = f e
  Follows-if_hold hold other b b' h f e =
      subst (Follows b) (some-injective _ _ e) (Follows-stay b h)

  Follows-execute_signal :
      (s : Signal N) (i : ℕ) (bars : List (Bar N)) (equity : N) (b b' : Broker N)
      → IsLong b.portfolio
      → execute_signal s i bars equity b ≡ some b'
      → Follows b b'
  unfolding execute_signal
  Follows-execute_signal s i bars equity b b' h e =
      Follows-if_hold s.side _ b b' h (Follows-priced s equity _ b b' h) e

  -- The rest of a run after a round.
  proceed-IsSafe :
      {S : Type 0} (k n : ℕ) (x : Outcome N S) (f : Loop N S → Outcome N S)
      → k ≤ n
      → IsRound S k x
      → ((l : Loop N S) → IsSound S (k + 1) l → IsSafe S n (f l))
      → IsSafe S n (proceed x f)
  proceed-IsSafe k n (finished l) f b h g = g l h
  proceed-IsSafe k n (failed message l) f b h g = (k, b, h)

  -- A part of a run after a part that is safe.
  proceed-IsSafe_after :
      {S : Type 0} (m n : ℕ) (x : Outcome N S) (f : Loop N S → Outcome N S)
      → m ≤ n
      → IsSafe S m x
      → ((l : Loop N S) → IsSound S m l → IsSafe S n (f l))
      → IsSafe S n (proceed x f)
  proceed-IsSafe_after m n (finished l) f b h g = g l h
  proceed-IsSafe_after m n (failed message l) f b (k, c, h) g = (k, omega (arith, b, c), h)

  module _ {S : Type 0} (e : Engine N) (strategy : Strategy N S) where
    Follows-act :
        (i : ℕ) (bar : Bar N) (equity : N) (s : Option (Signal N)) (b b' : Broker N)
        → IsLong b.portfolio
        → act e strategy i bar equity s b ≡ some b'
        → Follows b b'
    Follows-act i bar equity none b b' h p =
        subst (Follows b) (some-injective _ _ p) (Follows-stay b h)
    Follows-act i bar equity (some s) b b' h p =
        Follows-if_hold s.side _ b b' h
          (Follows-execute_signal (adopted e strategy bar s) i e.bars equity b b' h) p

    -- A round that is finished makes a state after `k` rounds one after `k + 1`.
    after_answer-IsSafe :
        (i k : ℕ) (bar : Bar N) (x : Answer N × S) (l : Loop N S)
        → IsSound S k l
        → IsRound S k (after_answer e strategy i bar x l)
    after_answer-IsSafe i k bar (raised message, m) l h = record {
      long = h.long;
      points = h.points;
      trades = h.trades;
    }
    after_answer-IsSafe i k bar (answered s, m) l h =
        let o' =
          act e strategy i bar (total_value (prices e strategy bar) l.broker.portfolio) s
            l.broker in
        elim (Option-cases o') [
          | inl nothing ↦
              rw (nothing, IsRound, after_answer)
                (record { long = h.long; points = h.points; trades = h.trades })
          | inr (b, some_b) ↦
              let (long, more) = Follows-act i bar _ s l.broker b h.long some_b in
              rw (some_b, IsRound, after_answer)
                (record {
                  long = long;
                  points = omega (
                    arith,
                    h.points,
                    length-append l.points (point_of e strategy bar b l.points ∷ []),
                  );
                  trades = omega (arith, more, h.trades);
                })
        ]

    bars_loop-IsSafe :
        (i k n : ℕ) (bars : List (Bar N)) (l : Loop N S)
        → length bars + k ≡ n
        → IsSound S k l
        → IsSafe S n (bars_loop e strategy i bars l)
    unfolding bars_loop
    bars_loop-IsSafe i k n [] l q h = subst (λ j. IsSound S j l) (omega (arith, q)) h
    bars_loop-IsSafe i k n (bar ∷ bars) l q h =
        proceed-IsSafe k n _ (bars_loop e strategy (i + 1) bars) (omega (arith, q))
          (after_answer-IsSafe i k bar (strategy.on_bar i l.memory) l h)
          (λ l' h'. bars_loop-IsSafe (i + 1) (k + 1) n bars l' (omega (arith, q)) h')

    remembered-IsSafe :
        (n : ℕ) (x : Option Text × S) (l : Loop N S)
        → IsSound S n l
        → IsSafe S n (remembered e strategy x l)
    remembered-IsSafe n (none, m) l h = record {
      long = h.long;
      points = h.points;
      trades = h.trades;
    }
    remembered-IsSafe n (some message, m) l h =
        (n, omega arith, record { long = h.long; points = h.points; trades = h.trades })

    start-IsSound :
        (memory : S)
        → e.broker.portfolio.allow_short ≡ false
        → IsSound S 0 (record { broker = reset_broker e.broker; points = []; memory = memory })
    unfolding reset_broker
    start-IsSound memory h = record {
      long = reset-IsLong e.broker.portfolio h;
      points = refl;
      trades = omega arith;
    }

    -- Without short positions, and whatever the strategy answers or raises, no position is below
    -- zero at the end of a run, finished or failed; a finished run has an equity point for every
    -- bar and at most one trade for each, and a failed one for the bars before it stopped.
    pub run-IsSafe :
        (memory : S)
        → e.broker.portfolio.allow_short ≡ false
        → IsSafe S (length e.bars) (run e strategy memory)
    unfolding run
    run-IsSafe memory h =
        let n = length e.bars in
        proceed-IsSafe_after n n _ (λ l. remembered e strategy (strategy.on_finish l.memory) l)
          (omega arith)
          (proceed-IsSafe_after 0 n _ (bars_loop e strategy 0 e.bars) (omega arith)
            (remembered-IsSafe 0 (strategy.on_init memory) _ (start-IsSound memory h))
            (λ l k. bars_loop-IsSafe 0 0 n e.bars l (omega arith) k))
          (λ l k. remembered-IsSafe n (strategy.on_finish l.memory) l k)
