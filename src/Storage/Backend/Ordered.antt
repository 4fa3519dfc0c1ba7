-- ===== src/Storage/Backend/Ordered.antt =====
-- Rows in the order of time (packages/storage/stockstat_backend/storage/backend.py).
use mathlib.Core.List.{Memᴰ}
use mathlib.Core.List.Memᴰ
use stock_statistic.Common.{◌<◌, ◌≡◌, ◌≢◌, refl, sym, ◌∙◌, List, [], ◌∷◌, arith, inl, inr}
use stock_statistic.Common.Text.{Text}
use stock_statistic.Common.Lists.{All}
use stock_statistic.Common.Members.{Pairwise, All-mem}
use stock_statistic.Storage.Tables.{Ohlcv, StandsBefore}

abbrev pub Earlier : Ohlcv → Ohlcv → Type 0
Earlier a b = a.bar.timestamp < b.bar.timestamp

-- ListsCandles in the order of time with the same rows are the same.
pub eq_of_members :
    (xs ys : List Ohlcv)
    → Pairwise Earlier xs
    → Pairwise Earlier ys
    → ((r : Ohlcv) → Memᴰ r xs → Memᴰ r ys)
    → ((r : Ohlcv) → Memᴰ r ys → Memᴰ r xs)
    → xs ≡ ys
eq_of_members [] [] h k to from = refl
eq_of_members [] (y ∷ ys) h k to from = absurd (Memᴰ.not-nil (from y (Memᴰ.head refl)))
eq_of_members (x ∷ xs) [] h k to from = absurd (Memᴰ.not-nil (to x (Memᴰ.head refl)))
eq_of_members (x ∷ xs) (y ∷ ys) h k to from = ap2 same (eq_of_members xs ys h.1 k.1 to' from')
  where
    later : (z : Ohlcv) {zs : List Ohlcv} {w : Ohlcv} → All (Earlier z) zs → w ≡ z → Memᴰ w zs → ⊥
    later z below e m = omega (arith, rw e at (All-mem (Earlier z) below m))

    same : x ≡ y
    same = elim (Memᴰ.cases_cons (to x (Memᴰ.head refl))) [
      | inl e ↦ e
      | inr m ↦ elim (Memᴰ.cases_cons (from y (Memᴰ.head refl))) [
        | inl e ↦ sym e
        | inr n ↦ absurd (omega (arith, All-mem (Earlier y) k.0 m, All-mem (Earlier x) h.0 n))
      ]
    ]

    ap2 : x ≡ y → xs ≡ ys → x ∷ xs ≡ y ∷ ys
    ap2 e f = rw (e, f) refl

    to' : (r : Ohlcv) → Memᴰ r xs → Memᴰ r ys
    to' r m = elim (Memᴰ.cases_cons (to r (Memᴰ.tail m))) [
      | inl e ↦ absurd (later x h.0 (e ∙ sym same) m)
      | inr n ↦ n
    ]

    from' : (r : Ohlcv) → Memᴰ r ys → Memᴰ r xs
    from' r m = elim (Memᴰ.cases_cons (from r (Memᴰ.tail m))) [
      | inl e ↦ absurd (later y k.0 (e ∙ same) m)
      | inr n ↦ n
    ]

-- Rows of one symbol and one time frame, as a query orders them.
abbrev pub IsOf : Text → Text → Ohlcv → Type 0
IsOf symbol timeframe r = (r.symbol ≡ symbol) × (r.timeframe ≡ timeframe)

Earlier-StandsBefore :
    (symbol timeframe : Text) (a b : Ohlcv)
    → IsOf symbol timeframe a
    → IsOf symbol timeframe b
    → StandsBefore a b
    → Earlier a b
Earlier-StandsBefore symbol timeframe a b h k (apart, le) =
    let ordered = le (h.0 ∙ sym k.0) in
    let differ : a.bar.timestamp ≢ b.bar.timestamp = λ e. apart (cc (h.0, h.1, k.0, k.1, e)) in
    omega (arith, ordered, differ)

All-Earlier :
    (symbol timeframe : Text) (a : Ohlcv) (xs : List Ohlcv)
    → IsOf symbol timeframe a
    → ((r : Ohlcv) → Memᴰ r xs → IsOf symbol timeframe r)
    → All (StandsBefore a) xs
    → All (Earlier a) xs
All-Earlier symbol timeframe a [] h k p = tt
All-Earlier symbol timeframe a (x ∷ xs) h k p = (
  Earlier-StandsBefore symbol timeframe a x h (k x (Memᴰ.head refl)) p.0,
  All-Earlier symbol timeframe a xs h (λ r m. k r (Memᴰ.tail m)) p.1,
)

pub Pairwise-Earlier :
    (symbol timeframe : Text) (xs : List Ohlcv)
    → ((r : Ohlcv) → Memᴰ r xs → IsOf symbol timeframe r)
    → Pairwise StandsBefore xs
    → Pairwise Earlier xs
Pairwise-Earlier symbol timeframe [] k p = tt
Pairwise-Earlier symbol timeframe (x ∷ xs) k p =
    let rest = λ (r : Ohlcv) (m : Memᴰ r xs). k r (Memᴰ.tail m) in
    (
      All-Earlier symbol timeframe x xs (k x (Memᴰ.head refl)) rest p.0,
      Pairwise-Earlier symbol timeframe xs rest p.1,
    )
