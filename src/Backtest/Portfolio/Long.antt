-- ===== src/Backtest/Portfolio/Long.antt =====
-- Without short positions, no trade takes a position below zero
-- (packages/compute/stockstat_compute/backtest/portfolio.py).
use mathlib.Core.Path.{subst}
use stock_statistic.Common.{
  ◌≡◌, refl, sym, Bool, true, false, Option, none, some, Bool-cases, Option-cases, inl, inr,
  if◌then◌else◌, arith,
}
use stock_statistic.Common.Lists.{All}
use stock_statistic.Common.Text.{Text}
use stock_statistic.Common.Dict.{get, values, All-put, All-get}
use stock_statistic.Backtest.Arith.{
  Arith, IsOrdered, ◌≼◌, ◌⊕◌, ◌⊖◌, ◌⊗◌, ◌⊘◌, nought, least_of, most_of,
}
use stock_statistic.Backtest.Portfolio.{
  Position, Portfolio, new_position, update_on_buy, update_on_sell, get_position, positive,
  buy_amount, affordable, buy, execute_buy, sell_amount, sell, execute_sell, book, reset,
}

module _ {N : Type 0} ⦃a : Arith N⦄ where
  abbrev pub IsHeld : Position N → Type 0
  IsHeld p = nought ≼ p.quantity

  -- Short positions are not allowed, and there are none.
  pub record IsLong (f : Portfolio N) : Type 0 where
    pub forbidden : f.allow_short ≡ false
    pub held : All IsHeld (values f.positions)

module _ {N : Type 0} ⦃a : Arith N⦄ (o : IsOrdered N) where
  IsHeld-get_position :
      (symbol : Text) (f : Portfolio N)
      → IsLong f
      → IsHeld (get_position symbol f).0 × IsLong (get_position symbol f).1
  unfolding get_position
  IsHeld-get_position symbol f h = elim (Option-cases (get symbol f.positions)) [
    | inl missing ↦
        rw (missing, get_position)
          (
            o.nought_refl,
            record {
              forbidden = h.forbidden;
              held = All-put IsHeld symbol (new_position symbol) f.positions o.nought_refl h.held;
            },
          )
    | inr (p, there) ↦
        rw (there, get_position) (All-get IsHeld symbol f.positions p h.held there, h)
  ]

  IsLong-book :
      (symbol : Text) (p : Position N) (cash : N) (f : Portfolio N)
      → IsLong f
      → IsHeld p
      → IsLong (book symbol p cash f)
  IsLong-book symbol p cash f h k = record {
    forbidden = h.forbidden;
    held = All-put IsHeld symbol p f.positions k h.held;
  }

  le_of_lt : (x y : N) → a.lt x y ≡ true → x ≼ y
  le_of_lt x y h = ground (arith, h, o.lt-eq-not-le x y, o.le_total x y)

  le_of_not : (x y : N) → a.le x y ≡ false → y ≼ x
  le_of_not x y h = ground (arith, h, o.le_total x y)

  not_lt : (x y : N) → y ≼ x → a.lt x y ≡ false
  not_lt x y h = ground (arith, h, o.lt-eq-not-le x y)

  le_refl : (x : N) → x ≼ x
  le_refl x = ground (arith, o.le_total x x)

  not_lt_le : (x y : N) → a.lt x y ≡ false → y ≼ x
  not_lt_le x y h = ground (arith, h, o.lt-eq-not-le x y)

  -- An amount that passes the test is the one that was tested, and is not negative.
  positive_lem : (q r : N) → positive q ≡ some r → (r ≡ q) × (nought ≼ r)
  positive_lem q r h = elim (Bool-cases (a.le q nought)) [
    | inl none_left ↦ absurd (cc (h, none_left))
    | inr left ↦ ground (arith, h, left, le_of_not q nought left)
  ]

  affordable_lem :
      (cash quantity price cost q : N)
      → nought ≼ quantity
      → affordable cash quantity price cost ≡ some q
      → nought ≼ q
  affordable_lem cash quantity price cost q k h =
      elim (Bool-cases (a.lt cash ((quantity ⊗ price) ⊕ cost))) [
        | inl dear ↦ ground (
          arith,
          h,
          dear,
          positive_lem
              (if a.lt nought price then most_of nought ((cash ⊖ cost) ⊘ price) else nought) q,
        )
        | inr cheap ↦ ground (arith, h, cheap, k)
      ]

  buy-IsLong :
      (symbol : Text) (price cost : N) (p : Position N) (f : Portfolio N) (quantity : N)
      → IsLong f
      → IsHeld p
      → nought ≼ quantity
      → IsLong (buy symbol price cost p f (some quantity))
  unfolding buy update_on_buy
  buy-IsLong symbol price cost p f quantity h k n =
      elim (Option-cases (affordable f.cash quantity price cost)) [
        | inl none_left ↦ rw (k, none_left) h
        | inr (q, left) ↦
            rw (k, left)
              (IsLong-book symbol (update_on_buy q price cost p) (f.cash ⊖ ((q ⊗ price) ⊕ cost)) f h
                (o.add_nonneg p.quantity q k (affordable_lem f.cash quantity price cost q n left)))
      ]

  buy_amount_long :
      (allowed : Bool) (held quantity : N)
      → allowed ≡ false
      → nought ≼ held
      → buy_amount allowed held quantity ≡ some quantity
  buy_amount_long allowed held quantity f k = rw (f, not_lt held nought k) refl

  pub execute_buy-IsLong :
      (symbol : Text) (quantity price cost : N) (f : Portfolio N)
      → IsLong f
      → IsLong (execute_buy symbol quantity price cost f)
  unfolding execute_buy
  execute_buy-IsLong symbol quantity price cost f h = elim (Bool-cases (a.le quantity nought)) [
    | inl nothing ↦ rw nothing h
    | inr some_of_it ↦
        let (k, h') = IsHeld-get_position symbol f h in
        let p = (get_position symbol f).0 in
        let whole = buy_amount_long f.allow_short p.quantity quantity h.forbidden k in
        rw some_of_it (
          subst (λ o. IsLong (buy symbol price cost p (get_position symbol f).1 o)) (sym whole)
            (buy-IsLong symbol price cost p (get_position symbol f).1 quantity h' k
              (le_of_not quantity nought some_of_it)))
  ]

  least_le : (q held : N) → least_of q held ≼ held
  least_le q held = elim (Bool-cases (a.lt held q)) [
    | inl less ↦ rw less (le_refl held)
    | inr more ↦ rw more (not_lt_le held q more)
  ]

  sell_amount_le :
      (allowed : Bool) (held quantity : N)
      → allowed ≡ false
      → nought ≼ held
      → (q : N) → sell_amount allowed held quantity ≡ some q
      → q ≼ held
  sell_amount_le true held quantity f k q e = cc f
  sell_amount_le false held quantity f k q e =
      let e' : positive (least_of quantity held) ≡ some q = cc (e, k) in
      rw ((positive_lem (least_of quantity held) q e').0) (least_le quantity held)

  sell-IsLong :
      (symbol : Text) (price cost : N) (p : Position N) (f : Portfolio N) (amount : Option N)
      → IsLong f
      → ((q : N) → amount ≡ some q → q ≼ p.quantity)
      → IsLong (sell symbol price cost p f amount)
  unfolding sell update_on_buy update_on_sell
  sell-IsLong symbol price cost p f none h n = h
  sell-IsLong symbol price cost p f (some q) h n =
      IsLong-book symbol (update_on_sell q price cost p) _ f h
        (o.add-neg_nonneg p.quantity q (n q refl))

  pub execute_sell-IsLong :
      (symbol : Text) (quantity price cost : N) (f : Portfolio N)
      → IsLong f
      → IsLong (execute_sell symbol quantity price cost f)
  unfolding execute_sell
  execute_sell-IsLong symbol quantity price cost f h = elim (Bool-cases (a.le quantity nought)) [
    | inl nothing ↦ rw nothing h
    | inr some_of_it ↦
        let (k, h') = IsHeld-get_position symbol f h in
        let p = (get_position symbol f).0 in
        rw some_of_it (
          sell-IsLong symbol price cost p (get_position symbol f).1 _ h'
            (sell_amount_le f.allow_short p.quantity quantity h.forbidden k))
  ]

module _ {N : Type 0} ⦃a : Arith N⦄ where
  pub reset-IsLong : (f : Portfolio N) → f.allow_short ≡ false → IsLong (reset f)
  unfolding reset
  reset-IsLong f h = record { forbidden = h; held = tt }
