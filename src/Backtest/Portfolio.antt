-- ===== src/Backtest/Portfolio.antt =====
-- Position and Portfolio (packages/compute/stockstat_compute/backtest/portfolio.py).
pub mod Long
use stock_statistic.Common.{
  ℕ, Bool, true, false, not, ◌&&◌, ◌||◌, Option, none, some, List, [], ◌∷◌, if◌then◌else◌,
}
use stock_statistic.Common.Text.{Text}
use stock_statistic.Common.Dict.{Dict, get, put}
use stock_statistic.Backtest.Arith.{Arith, ◌⊕◌, ◌⊖◌, ◌⊗◌, ◌⊘◌, nought, least_of, most_of}

pub record Position (N : Type 0) : Type 0 where
  pub symbol : Text
  pub quantity : N
  pub avg_price : N
  pub realized_pnl : N

pub record Portfolio (N : Type 0) : Type 0 where
  pub initial_cash : N
  pub cash : N
  pub allow_short : Bool
  pub positions : Dict (Position N)

module _ {N : Type 0} ⦃a : Arith N⦄ where
  abbrev pub new_position : Text → Position N
  new_position symbol = record {
    symbol = symbol;
    quantity = nought;
    avg_price = nought;
    realized_pnl = nought;
  }

  abbrev pub new_portfolio : N → Bool → Portfolio N
  new_portfolio initial_cash allow_short = record {
    initial_cash = initial_cash;
    cash = initial_cash;
    allow_short = allow_short;
    positions = [];
  }

  unfoldable pub is_flat : Position N → Bool
  is_flat p = a.lt (a.magnitude p.quantity) (a.literal 1 10)

  abbrev pub market_value : Position N → N → N
  market_value p price = p.quantity ⊗ price

  unfoldable pub unrealized_pnl : Position N → N → N
  unrealized_pnl p price = (price ⊖ p.avg_price) ⊗ p.quantity

  -- The average price after a trade that leaves `new_qty`.
  abbrev new_price : Position N → (quantity price new_qty : N) → N
  new_price p quantity price new_qty =
      if a.lt nought (new_qty ⊗ p.quantity)
      then (if not (a.eq new_qty nought)
          then ((p.avg_price ⊗ p.quantity) ⊕ (price ⊗ quantity)) ⊘ new_qty
          else price)
      else if a.eq new_qty nought || a.lt (a.magnitude new_qty) (a.literal 1 10)
      then nought
      else price

  unfoldable pub update_on_buy : (quantity price cost : N) → Position N → Position N
  update_on_buy quantity price cost p =
      let new_qty = p.quantity ⊕ quantity in
      record p {
        realized_pnl =
            if a.le new_qty nought && a.lt nought p.quantity
            then p.realized_pnl ⊕ (((price ⊖ p.avg_price) ⊗ p.quantity) ⊖ cost)
            else p.realized_pnl;
        avg_price = new_price p quantity price new_qty;
        quantity = new_qty;
      }

  unfoldable pub update_on_sell : (quantity price cost : N) → Position N → Position N
  unfolding update_on_buy
  update_on_sell quantity price cost p = update_on_buy (a.neg quantity) price cost p

  -- The position, which is made where there is none.
  unfoldable pub get_position : Text → Portfolio N → Position N × Portfolio N
  get_position symbol f = elim (get symbol f.positions) [
    | some p ↦ (p, f)
    | none ↦ let p = new_position symbol in (p, record f { positions = put symbol p f.positions })
  ]

  -- The loop of `total_value`.
  unfoldable pub add_values : Dict N → Dict (Position N) → N → N
  add_values prices [] total = total
  add_values prices ((symbol, p) ∷ rest) total = elim (get symbol prices) [
    | none ↦ add_values prices rest total
    | some price ↦ add_values prices rest (total ⊕ market_value p price)
  ]

  unfoldable pub total_value : Dict N → Portfolio N → N
  unfolding add_values
  total_value prices f = add_values prices f.positions f.cash

  -- An amount that is traded, if it is above 0.
  abbrev pub positive : N → Option N
  positive q = if a.le q nought then none else some q

  -- The amount of a purchase: without short positions, no more than closes one.
  abbrev pub buy_amount : Bool → (held quantity : N) → Option N
  buy_amount allow_short held quantity =
      if not allow_short && a.lt held nought
      then positive (least_of quantity (a.neg held))
      else some quantity

  -- What the cash is enough for.
  abbrev pub affordable : (cash quantity price cost : N) → Option N
  affordable cash quantity price cost =
      if a.lt cash ((quantity ⊗ price) ⊕ cost)
      then positive (if a.lt nought price then most_of nought ((cash ⊖ cost) ⊘ price) else nought)
      else some quantity

  -- The writes of a trade.
  abbrev pub book : Text → Position N → N → Portfolio N → Portfolio N
  book symbol p cash f = record f { cash = cash; positions = put symbol p f.positions }

  -- A purchase of the amount that `buy_amount` gave.
  unfoldable pub buy : Text → (price cost : N) → Position N → Portfolio N → Option N → Portfolio N
  unfolding update_on_buy
  buy symbol price cost p f none = f
  buy symbol price cost p f (some quantity) =
      if a.le nought p.quantity
      then (elim (affordable f.cash quantity price cost) [
        | none ↦ f
        | some q ↦ book symbol (update_on_buy q price cost p) (f.cash ⊖ ((q ⊗ price) ⊕ cost)) f
      ])
      else book symbol (update_on_buy quantity price cost p) (f.cash ⊕ ((quantity ⊗ price) ⊖ cost))
          f

  unfoldable pub execute_buy : Text → (quantity price cost : N) → Portfolio N → Portfolio N
  unfolding get_position buy
  execute_buy symbol quantity price cost f =
      if a.le quantity nought
      then f
      else (let (p, f') = get_position symbol f in
          buy symbol price cost p f' (buy_amount f.allow_short p.quantity quantity))

  -- The amount of a sale: without short positions, no more than is held.
  abbrev pub sell_amount : Bool → (held quantity : N) → Option N
  sell_amount allow_short held quantity =
      if not allow_short && a.le nought held
      then positive (least_of quantity held)
      else some quantity

  unfoldable pub sell : Text → (price cost : N) → Position N → Portfolio N → Option N → Portfolio N
  unfolding update_on_sell
  sell symbol price cost p f none = f
  sell symbol price cost p f (some quantity) =
      book symbol (update_on_sell quantity price cost p)
        (if a.lt nought p.quantity
          then f.cash ⊕ ((quantity ⊗ price) ⊖ cost)
          else f.cash ⊖ ((quantity ⊗ price) ⊕ cost))
        f

  unfoldable pub execute_sell : Text → (quantity price cost : N) → Portfolio N → Portfolio N
  unfolding get_position sell
  execute_sell symbol quantity price cost f =
      if a.le quantity nought
      then f
      else (let (p, f') = get_position symbol f in
          sell symbol price cost p f' (sell_amount f.allow_short p.quantity quantity))

  -- `none` is the ZeroDivisionError, after which a position that was made stays.
  unfoldable pub execute_target_pct :
      Text → (target_pct price total_equity cost : N) → Portfolio N → Option (Portfolio N)
  unfolding execute_buy execute_sell get_position
  execute_target_pct symbol target_pct price total_equity cost f =
      let (p, f') = get_position symbol f in
      let diff = (target_pct ⊗ total_equity) ⊖ market_value p price in
      if a.lt (a.magnitude diff) (a.literal 1 6)
      then some f'
      else if a.eq price nought
      then none
      else if a.lt nought (diff ⊘ price)
      then some (execute_buy symbol (diff ⊘ price) price cost f')
      else some (execute_sell symbol (a.neg (diff ⊘ price)) price cost f')

  unfoldable pub reset : Portfolio N → Portfolio N
  reset f = record f { cash = f.initial_cash; positions = [] }
