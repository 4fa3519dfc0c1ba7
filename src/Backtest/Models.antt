-- ===== src/Backtest/Models.antt =====
-- The models of fees, fills and execution
-- (packages/compute/stockstat_compute/backtest/cost_model.py, fill_model.py and
-- execution_model.py). A price at an index out of range is `none`, the IndexError.
pub mod Fees
use stock_statistic.Common.{
  ℕ, zero, suc, ◌+◌, Bool, true, false, Option, none, some, List, [], ◌∷◌, ◌++◌, ltb, if◌then◌else◌,
}
use stock_statistic.Common.Integer.{pos}
use stock_statistic.Common.Lists.{length}
use stock_statistic.Common.Text.{Text, codes, text_eq}
use stock_statistic.Common.Dict.{Dict, get}
use stock_statistic.Backtest.Arith.{Arith, ◌⊕◌, ◌⊖◌, ◌⊗◌, ◌⊘◌, nought, least_of, most_of}

pub record CostModel (N : Type 0) : Type 0 where
  pub name : Text
  pub fee_rate : N
  pub min_fee : N
  pub max_fee : N

pub record FillModel (N : Type 0) : Type 0 where
  pub name : Text
  pub slippage_bps : N

pub record ExecutionModel (N : Type 0) : Type 0 where
  pub name : Text
  pub allow_partial_fill : Bool
  pub max_slippage_bps : N

-- A row of the data.
pub record Bar (N : Type 0) : Type 0 where
  pub timestamp : ℕ
  pub open_price : N
  pub high_price : N
  pub low_price : N
  pub close_price : N

-- The sides that a signal may have.
pub data Side : Type 0 where
  buy sell hold : Side

-- `data.iloc[i]`
unfoldable pub bar_at : {N : Type 0} → ℕ → List (Bar N) → Option (Bar N)
bar_at i [] = none
bar_at zero (b ∷ bs) = some b
bar_at (suc i) (b ∷ bs) = bar_at i bs

abbrev known_or {ℓ} : {A : Type ℓ} → A → Option A → A
known_or other none = other
known_or other (some x) = x

module _ {N : Type 0} ⦃a : Arith N⦄ where
  -- `calculate`
  unfoldable pub fee_of : CostModel N → (quantity price : N) → N
  fee_of m quantity price =
      most_of m.min_fee (least_of (a.magnitude (quantity ⊗ price) ⊗ m.fee_rate) m.max_fee)

  -- A fee model of a name and a rate.
  abbrev pub at_rate : Text → N → CostModel N
  at_rate name rate = record {
    name = name;
    fee_rate = rate;
    min_fee = nought;
    max_fee = a.infinity;
  }

  abbrev pub named_rate : Text → ℕ → ℕ → Text × CostModel N
  named_rate name n k = (name, at_rate name (a.literal n k))

  abbrev pub fee_models : Dict (CostModel N)
  fee_models =
      named_rate (codes "default") 1 3
      ∷ named_rate (codes "zero") 0 0
      ∷ named_rate (codes "F1_SpotNoBNB") 1 3
      ∷ named_rate (codes "F2_SpotBNB") 75 5
      ∷ named_rate (codes "F3_FutNoBNB") 4 4
      ∷ named_rate (codes "F4_FutBNB") 18 5
      ∷ named_rate (codes "binance_spot") 1 3
      ∷ named_rate (codes "binance_futures_bnb") 18 5
      ∷ named_rate (codes "binance_futures") 4 4
      ∷ (
        codes "stock",
        record (at_rate (codes "stock") (a.literal 5 4)) { min_fee = a.literal 5 0 },
      )
      ∷ []

  abbrev pub default_cost_model : CostModel N
  default_cost_model = at_rate (codes "default") (a.literal 1 3)

  -- A name that is no model's is read as a rate.
  abbrev custom_rate : Option N → CostModel N
  custom_rate none = default_cost_model
  custom_rate (some rate) = at_rate (codes "custom_" ++ a.show rate) rate

  unfoldable pub get_cost_model : Option Text → CostModel N
  get_cost_model none = default_cost_model
  get_cost_model (some []) = default_cost_model
  get_cost_model (some (c ∷ t)) = elim (get (c ∷ t) fee_models) [
    | some m ↦ m
    | none ↦ custom_rate (a.parse (c ∷ t))
  ]

  abbrev close_of : Option (Bar N) → Option N
  close_of none = none
  close_of (some b) = some b.close_price

  abbrev open_of : Option (Bar N) → Option N
  open_of none = none
  open_of (some b) = some b.open_price

  abbrev typical_of : Option (Bar N) → Option N
  typical_of none = none
  typical_of (some b) = some (((b.high_price ⊕ b.low_price) ⊕ b.close_price) ⊘ a.literal 3 0)

  -- From the next bar where there is one, and else the close of this one.
  abbrev next_or_close : (Option (Bar N) → Option N) → (i : ℕ) → List (Bar N) → Option N
  next_or_close f i bars =
      if ltb (i + 1) (length bars) then f (bar_at (i + 1) bars) else close_of (bar_at i bars)

  -- The price before slippage.
  unfoldable pub base_price : Text → (i : ℕ) → List (Bar N) → Option N → Option N
  unfolding bar_at
  base_price name i bars signal_price =
      if text_eq name (codes "next_open")
      then next_or_close open_of i bars
      else if text_eq name (codes "this_close")
      then close_of (bar_at i bars)
      else if text_eq name (codes "next_close")
      then next_or_close close_of i bars
      else if text_eq name (codes "intrabar_fill")
      then next_or_close typical_of i bars
      else if text_eq name (codes "signal_price")
      then (elim signal_price [ some p ↦ some p | none ↦ close_of (bar_at i bars) ])
      else close_of (bar_at i bars)

  -- The price with its slippage: dearer to buy, cheaper to sell.
  abbrev pub slipped : FillModel N → Side → N → N
  slipped m side price =
      let slip = (m.slippage_bps ⊗ a.literal 1 4) ⊗ price in
      elim side [ buy ↦ price ⊕ slip | sell ↦ price ⊖ slip | hold ↦ price ]

  abbrev with_slippage : FillModel N → Side → Option N → Option N
  with_slippage m side none = none
  with_slippage m side (some price) = some (slipped m side price)

  unfoldable pub get_fill_price : FillModel N → (i : ℕ) → List (Bar N) → Side → Option N → Option N
  unfolding base_price
  get_fill_price m i bars side signal_price =
      with_slippage m side (base_price m.name i bars signal_price)

  abbrev pub fill_model_of : Text → FillModel N
  fill_model_of name = record { name = name; slippage_bps = nought }

  abbrev pub fill_models : Dict (FillModel N)
  fill_models =
      (codes "next_open", fill_model_of (codes "next_open"))
      ∷ (codes "this_close", fill_model_of (codes "this_close"))
      ∷ (codes "next_close", fill_model_of (codes "next_close"))
      ∷ (codes "intrabar_fill", fill_model_of (codes "intrabar_fill"))
      ∷ (codes "signal_price", fill_model_of (codes "signal_price"))
      ∷ (codes "market", fill_model_of (codes "next_open"))
      ∷ (codes "limit", fill_model_of (codes "signal_price"))
      ∷ []

  unfoldable pub get_fill_model : Option Text → FillModel N
  get_fill_model none = fill_model_of (codes "next_open")
  get_fill_model (some []) = fill_model_of (codes "next_open")
  get_fill_model (some (c ∷ t)) =
      known_or (fill_model_of (codes "next_open")) (get (c ∷ t) fill_models)

  abbrev pub execution_model_of : Text → ExecutionModel N
  execution_model_of name = record {
    name = name;
    allow_partial_fill = true;
    max_slippage_bps = nought;
  }

  abbrev pub execution_models : Dict (ExecutionModel N)
  execution_models =
      (codes "next_bar", execution_model_of (codes "next_bar"))
      ∷ (codes "intrabar", execution_model_of (codes "intrabar"))
      ∷ (codes "market", execution_model_of (codes "next_bar"))
      ∷ (codes "limit", execution_model_of (codes "intrabar"))
      ∷ []

  unfoldable pub get_execution_model : Option Text → ExecutionModel N
  get_execution_model none = execution_model_of (codes "next_bar")
  get_execution_model (some []) = execution_model_of (codes "next_bar")
  get_execution_model (some (c ∷ t)) =
      known_or (execution_model_of (codes "next_bar")) (get (c ∷ t) execution_models)
