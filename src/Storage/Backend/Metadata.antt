-- ===== src/Storage/Backend/Metadata.antt =====
-- The metadata of a symbol (packages/storage/stockstat_backend/storage/backend.py).

use stock_statistic.Common.{
  ℕ, ◌≡◌, ◌≢◌, refl, ◌∙◌, true, Option, none, some, [], ◌∷◌, inl, inr, Bool-cases,
}
use mathlib.Core.Path.{subst}
use mathlib.Core.Logic.{◌⊎◌}
use stock_statistic.Common.Text.{Text}
use stock_statistic.Storage.Tables.{Ohlcv, SymbolMetadata, Session, Key, IsDatabase}
use stock_statistic.Storage.Backend.{
  Json, Described, described, get_metadata, upsert_metadata, upserted, newer, dumps_if_any,
  read_metadata,
}

-- What is read for a dictionary that was written: no text stands for the empty one.
abbrev pub ReadsAs : {J : Type 0} → Json J → Option J → J → Type 0
ReadsAs json read m = (read ≡ some m) ⊎ ((read ≡ none) × (json.is_empty m ≡ true))

-- What stands after an update of what stood before: what the update gives, if anything, also an
-- empty text.
abbrev pub Stands : (given before after : Option Text) → Type 0
Stands none before after = after ≡ before
Stands (some v) before after = after ≡ some v

-- What `get_metadata` gives of a symbol.
pub record Updated {J : Type 0} (json : Json J) (now now' : ℕ) (symbol : Text)
    (name exchange asset_class name' exchange' class' : Option Text) (m : J)
    (result : Option (Described J)) : Type 0 where
  pub last_name : Option Text
  pub last_exchange : Option Text
  pub last_class : Option Text
  pub read : Option J
  pub result_is :
      result
      ≡ some (described symbol last_name last_exchange last_class (some now) (some now') read)
  pub name_stands : Stands name' name last_name
  pub exchange_stands : Stands exchange' exchange last_exchange
  pub class_stands : Stands class' asset_class last_class
  pub reads : ReadsAs json read m

module _ {S J : Type 0} (db : Session S) (row_at : Key → S → Option Ohlcv)
    (documented : IsDatabase db row_at) (json : Json J)
    (loads-dumps : (m : J) → json.loads (json.dumps m) ≡ some m)
    (dumps_some : (m : J) → json.dumps m ≢ []) where
  read_metadata-dumps : (m : J) → read_metadata db json (some (json.dumps m)) ≡ some (some m)
  read_metadata-dumps m = go (json.dumps m) (dumps_some m) (loads-dumps m)
    where
      go :
          (t : Text)
          → t ≢ []
          → json.loads t ≡ some m
          → read_metadata db json (some t) ≡ some (some m)
      go [] ne e = absurd (ne refl)
      go (d ∷ ds) ne e = rw e refl

  read_metadata-dumps_if_any :
      (m : J)
      → (read : Option J) × (read_metadata db json (dumps_if_any db json (some m)) ≡ some read)
        × ReadsAs json read m
  read_metadata-dumps_if_any m = elim (Bool-cases (json.is_empty m)) [
    | inl empty ↦ (none, rw empty refl, inr (refl, empty))
    | inr full ↦ (some m, rw full (read_metadata-dumps m), inl refl)
  ]

  metadata_of-upsert_metadata :
      (now : ℕ) (symbol : Text) (name exchange asset_class : Option Text) (metadata : Option J)
      (s : S)
      → db.metadata_of symbol
          (upsert_metadata db json now symbol name exchange asset_class metadata s)
        ≡ some (
            upserted db json now symbol name exchange asset_class metadata
              (db.metadata_of symbol s))
  unfolding upsert_metadata
  metadata_of-upsert_metadata now symbol name exchange asset_class metadata s =
      let row =
        upserted db json now symbol name exchange asset_class metadata (db.metadata_of symbol s) in
      let named : row.symbol ≡ symbol =
        symbol-upserted (db.metadata_of symbol s)
          (λ m e. documented.metadata_symbol symbol s m e) in
      documented.metadata_commit symbol (db.commit (db.merge_metadata row s))
      ∙ documented.metadata_commit symbol (db.merge_metadata row s)
      ∙ subst (λ t. db.metadata_of t (db.merge_metadata row s) ≡ some row) (named)
          (documented.metadata_merge_self row s)
    where
      symbol-upserted :
          (old : Option SymbolMetadata)
          → ((m : SymbolMetadata) → old ≡ some m → m.symbol ≡ symbol)
          → (upserted db json now symbol name exchange asset_class metadata old).symbol ≡ symbol
      symbol-upserted none h = refl
      symbol-upserted (some m) h = h m refl

  newer-Stands : (given before : Option Text) → Stands given before (newer db json given before)
  newer-Stands none before = refl
  newer-Stands (some v) before = refl

  -- The metadata of a new symbol, read after an update that gives no dictionary: a name, exchange
  -- or class that the update gives, be it empty, stands for that of the first write, and one that it
  -- does not give is that of the first write; the first date is that of the first write and the last
  -- that of the update; the dictionary of the first write is read back, an empty one as none.
  pub get_metadata-upsert_metadata :
      (now now' : ℕ) (symbol : Text)
      (name exchange asset_class name' exchange' class' : Option Text) (m : J) (s : S)
      → db.metadata_of symbol s ≡ none
      → Updated json now now' symbol name exchange asset_class name' exchange' class' m (
          get_metadata db json symbol (
            upsert_metadata db json now' symbol name' exchange' class' none
              (upsert_metadata db json now symbol name exchange asset_class (some m) s)))
  unfolding get_metadata
  get_metadata-upsert_metadata now now' symbol name exchange asset_class name' exchange' class' m s
        new =
      let s' = upsert_metadata db json now symbol name exchange asset_class (some m) s in
      let (read, e, reads) = read_metadata-dumps_if_any m in
      let first = metadata_of-upsert_metadata now symbol name exchange asset_class (some m) s in
      let second = metadata_of-upsert_metadata now' symbol name' exchange' class' none s' in
      record {
        last_name = newer db json name' name;
        last_exchange = newer db json exchange' exchange;
        last_class = newer db json class' asset_class;
        read = read;
        result_is = rw (second, get_metadata) (rw first (rw new (rw e refl)));
        name_stands = newer-Stands name' name;
        exchange_stands = newer-Stands exchange' exchange;
        class_stands = newer-Stands class' asset_class;
        reads = reads;
      }
