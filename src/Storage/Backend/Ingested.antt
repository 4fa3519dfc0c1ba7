-- ===== src/Storage/Backend/Ingested.antt =====
-- What was ingested is what a query finds
-- (packages/storage/stockstat_backend/storage/backend.py).
use mathlib.Core.List.{Memᴰ}
use stock_statistic.Common.{
  ◌==◌, ℕ, ◌<◌, ◌≡◌, ◌↔◌, refl, sym, ap, ◌∙◌, Bool, true, false, ◌&&◌, Option, none, some, List, [],
  ◌∷◌, map, if◌then◌else◌, arith, inl, inr, Bool-cases,
}
use mathlib.Core.Path.{subst, fun_ext}
use stock_statistic.Common.Text.{Text, text_eq, text_eq_iff}
use stock_statistic.Common.Lists.{length, All}
use stock_statistic.Common.Members.{Pairwise, mem-map, mem_of_map}
use stock_statistic.Storage.Tables.{
  Candle, Ohlcv, Session, Pandas, Key, primary_key, IsDatabase, IsPandas,
}
use stock_statistic.Storage.Backend.Ordered.{Earlier, Pairwise-Earlier}
use stock_statistic.Storage.Backend.Queries.{
  bars_for, InRange, matches_one, matches_of_IsOf, bars_for-frames_for_one,
}
use stock_statistic.Storage.Incoming.{Incoming, normalize_ohlcv_records, Conversions}
use stock_statistic.Storage.Backend.{ingest_ohlcv, merge_all, write_records, matches, query_ohlcv}

abbrev pub key_eq : Key → Key → Bool
key_eq (a, b, t) (c, d, u) = text_eq a c && text_eq b d && (t == u)

pub key_eq_iff : (j k : Key) → (key_eq j k ≡ true) ↔ (j ≡ k)
key_eq_iff (a, b, t) (c, d, u) = ground (arith, text_eq_iff a c, text_eq_iff b d)

-- The last record with a key.
abbrev pub latest : Key → List Ohlcv → Option Ohlcv
latest k [] = none
latest k (r ∷ rs) = elim (latest k rs) [
  | some q ↦ some q
  | none ↦ if key_eq (primary_key r) k then some r else none
]

-- A record of the list, or else what there was.
abbrev pub newest : Option Ohlcv → Option Ohlcv → Option Ohlcv
newest none old = old
newest (some r) old = some r

-- The bars of a symbol within the bounds, in the order of time, where `row` has the row at a time.
pub record ListsCandles (t timeframe : Text) (start end : Option ℕ) (row : ℕ → Option Ohlcv)
    (bs : List Candle) : Type 0 where
  pub increasing : Pairwise (λ (a b : Candle). a.timestamp < b.timestamp) bs
  pub sound :
      (b : Candle)
      → Memᴰ b bs
      → (row b.timestamp ≡ some (record { symbol = t; timeframe = timeframe; bar = b }))
        × InRange start end b.timestamp
  pub complete :
      (b : Candle)
      → row b.timestamp ≡ some (record { symbol = t; timeframe = timeframe; bar = b })
      → InRange start end b.timestamp
      → Memᴰ b bs

All-map :
    (P : Candle → Type 0) (rs : List Ohlcv) → All (λ r. P r.bar) rs → All P (map (λ r. r.bar) rs)
All-map P [] h = tt
All-map P (r ∷ rs) h = (h.0, All-map P rs h.1)

Pairwise-map :
    (rs : List Ohlcv)
    → Pairwise Earlier rs
    → Pairwise (λ (a b : Candle). a.timestamp < b.timestamp) (map (λ r. r.bar) rs)
Pairwise-map [] h = tt
Pairwise-map (r ∷ rs) h = (All-map (λ b. r.bar.timestamp < b.timestamp) rs h.0, Pairwise-map rs h.1)

module _ {S F : Type 0} (db : Session S) (row_at : Key → S → Option Ohlcv)
    (documented : IsDatabase db row_at) (pd : Pandas F) (rows : F → List (Text × Candle))
    (bars : F → List Candle) (pandas : IsPandas pd rows bars) where
  row_at-merge :
      (r : Ohlcv) (k : Key) (s : S)
      → row_at k (db.merge r s) ≡ (if key_eq (primary_key r) k then some r else row_at k s)
  row_at-merge r k s = elim (Bool-cases (key_eq (primary_key r) k)) [
    | inl same ↦
        let e : primary_key r ≡ k = (key_eq_iff (primary_key r) k).0 same in
        rw same (subst (λ j. row_at j (db.merge r s) ≡ some r) e (documented.row_at_merge_self r s))
    | inr other ↦
        rw other
          (documented.row_at_merge_ne r k s (λ e. cc (other, (key_eq_iff (primary_key r) k).1 e)))
  ]

  row_at-merge_all :
      (k : Key) (rs : List Ohlcv) (s : S)
      → row_at k (merge_all db rs s) ≡ newest (latest k rs) (row_at k s)
  row_at-merge_all k [] s = refl
  row_at-merge_all k (r ∷ rs) s =
      row_at-merge_all k rs (db.merge r s)
      ∙ ap (newest (latest k rs)) (row_at-merge r k s)
      ∙ regroup (latest k rs) (key_eq (primary_key r) k)
    where
      regroup :
          (found : Option Ohlcv) (b : Bool)
          → newest found (if b then some r else row_at k s)
            ≡ newest
                (elim found [ some q ↦ some q | none ↦ if b then some r else none ])
                (row_at k s)
      regroup none true = refl
      regroup none false = refl
      regroup (some q) b = refl

  row_at-write_records :
      (k : Key) (rs : List Ohlcv) (s : S)
      → row_at k (write_records db rs s).1 ≡ newest (latest k rs) (row_at k s)
  row_at-write_records k [] s = refl
  row_at-write_records k (r ∷ rs) s =
      documented.row_at_commit k (db.commit (merge_all db (r ∷ rs) s))
      ∙ documented.row_at_commit k (merge_all db (r ∷ rs) s)
      ∙ row_at-merge_all k (r ∷ rs) s

  ListsCandles-query_ohlcv :
      (t timeframe : Text) (start end : Option ℕ) (s : S)
      → ListsCandles t timeframe start end
          (λ u. row_at (t, timeframe, u) s)
          (map (λ r. r.bar) (db.select_rows (matches (t ∷ []) timeframe start end) s))
  ListsCandles-query_ohlcv t timeframe start end s =
      let p = matches (t ∷ []) timeframe start end in
      let rs = db.select_rows p s in
      let one = λ (r : Ohlcv) (m : Memᴰ r rs).
        matches_one t timeframe start end r (documented.selected p r s m).1 in
      record {
        increasing =
            Pairwise-map rs
              (Pairwise-Earlier t timeframe rs (λ r m. (one r m).0) (documented.ordered p s));
        sound = λ b m.
            let (r, there, e) = mem_of_map (λ (r : Ohlcv). r.bar) rs m in
            let (kept, within) = one r there in
            let stored = (documented.selected p r s there).0 in
            let whole : r ≡ record { symbol = t; timeframe = timeframe; bar = b } =
              cc (kept.0, kept.1, e) in
            (
              subst (λ q. row_at (primary_key q) s ≡ some q) (whole) stored,
              subst (λ (x : Candle). InRange start end x.timestamp) (sym e) within,
            );
        complete = λ b stored within.
            let r : Ohlcv = record { symbol = t; timeframe = timeframe; bar = b } in
            mem-map (λ (q : Ohlcv). q.bar)
              (documented.selects p r s stored
                (matches_of_IsOf t timeframe start end r (refl, refl) within));
      }

  ingest_ohlcv-eq :
      (c : Conversions) (now : ℕ) (symbol timeframe : Text) (given : Incoming) (rs : List Ohlcv)
      (s : S)
      → normalize_ohlcv_records c now symbol timeframe given ≡ some rs
      → ingest_ohlcv db c now symbol timeframe given s ≡ write_records db rs s
  unfolding ingest_ohlcv
  ingest_ohlcv-eq c now symbol timeframe given rs s e = rw (e, ingest_ohlcv) refl

  count-write_records : (rs : List Ohlcv) (s : S) → (write_records db rs s).0 ≡ some (length rs)
  count-write_records [] s = refl
  count-write_records (r ∷ rs) s = refl

  -- Whatever was ingested, if its records were read: the count is that of the records, and a query
  -- of any symbol lists, in the order of time and within the bounds, the last record of each time
  -- that was given, and the old row where none was.
  pub query_ohlcv-ingest_ohlcv :
      (c : Conversions) (now : ℕ) (symbol timeframe' : Text) (given : Incoming) (rs : List Ohlcv)
      (s : S) (t timeframe : Text) (start end : Option ℕ)
      → normalize_ohlcv_records c now symbol timeframe' given ≡ some rs
      → ((ingest_ohlcv db c now symbol timeframe' given s).0 ≡ some (length rs))
        × ((bs : List Candle) × (bars_for bars t (
                query_ohlcv pd db
                  (t ∷ [])
                  timeframe
                  start
                  end
                  (ingest_ohlcv db c now symbol timeframe' given s).1)
              ≡ some bs)
            × ListsCandles t timeframe start end
                (λ u. newest (latest (t, timeframe, u) rs) (row_at (t, timeframe, u) s))
                bs)
  query_ohlcv-ingest_ohlcv c now symbol timeframe' given rs s t timeframe start end e =
      let s' = (write_records db rs s).1 in
      rw (ingest_ohlcv-eq c now symbol timeframe' given rs s e) (
        count-write_records rs s,
        (
          map (λ r. r.bar) (db.select_rows (matches (t ∷ []) timeframe start end) s'),
          bars_for-frames_for_one db row_at documented pd rows bars pandas t
              (db.select_rows (matches (t ∷ []) timeframe start end) s'),
          subst
              (λ row.
                ListsCandles t timeframe start end row
                  (map (λ r. r.bar) (db.select_rows (matches (t ∷ []) timeframe start end) s')))
              (fun_ext (λ u. row_at-write_records (t, timeframe, u) rs s))
              (ListsCandles-query_ohlcv t timeframe start end s'),
        ),
      )
