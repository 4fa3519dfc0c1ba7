-- ===== src/Backtest/Models/Fees.antt =====
-- Fees stay between their bounds
-- (packages/compute/stockstat_compute/backtest/cost_model.py).
use stock_statistic.Common.{arith}
use stock_statistic.Backtest.Arith.{Arith, IsOrdered, ◌≼◌, ◌⊗◌}
use stock_statistic.Backtest.Models.{CostModel, fee_of}

module _ {N : Type 0} ⦃a : Arith N⦄ where
  -- A fee lies between the least and the greatest of its model, whatever is traded.
  pub fee_of_bounds :
      (o : IsOrdered N) (m : CostModel N) (quantity price : N)
      → m.min_fee ≼ m.max_fee
      → (m.min_fee ≼ fee_of m quantity price) × (fee_of m quantity price ≼ m.max_fee)
  unfolding fee_of
  fee_of_bounds o m quantity price h =
      let fee = a.magnitude (quantity ⊗ price) ⊗ m.fee_rate in
      ground (
        arith,
        h,
        o.lt-eq-not-le m.max_fee fee,
        o.le_total m.max_fee fee,
        o.le_total m.min_fee m.min_fee,
        o.le_total m.max_fee m.max_fee,
        o.lt-eq-not-le m.min_fee m.max_fee,
        o.lt-eq-not-le m.min_fee fee,
        o.le_total m.min_fee fee,
      )
