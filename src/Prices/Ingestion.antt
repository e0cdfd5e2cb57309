-- ===== src/Prices/Ingestion.antt =====
-- app/domains/prices/ingestion_service.py: `PriceIngestionService.collect_and_save`.
pub mod Accounts
use project_stock.Base.{
  ℕ, ◌+◌, String, Bool, true, false, Option, none, some, List, [], ◌∷◌, length, is_some,
  if◌then◌else◌,
}
use project_stock.Base.Exec.{Result, ok, err}
use project_stock.Store.{Table}
use project_stock.Decimal.{Decimals}
use project_stock.RawPrices.{RawPrice, save_raw}
use project_stock.Prices.{PriceBar}
use project_stock.Prices.Validator.{PriceValidationResult, validate_bars}
use project_stock.Prices.Repository.{Bars, upsert_bars}

pub record IngestionResult : Type 0 where
  pub target_count : ℕ
  pub success_count : ℕ
  pub failure_count : ℕ
  pub raw_saved_count : ℕ
  pub raw_skipped_count : ℕ
  pub received_bar_count : ℕ
  pub saved_bar_count : ℕ
  pub dropped_bar_count : ℕ
  pub warning_count : ℕ

-- the payload that is stored: the provider's own, or one made up of the bars
pub data Payload (d : Decimals) (P : Type 0) : Type 0 where
  own : P → Payload d P
  rows : String → String → String → List (PriceBar d) → Payload d P

-- A price provider. A call that raises is `err`; `payload` is its `last_payload` after a call, if that is a
-- dictionary, and `source` its attribute, if that is a text.
pub record Provider (d : Decimals) (P : Type 0) : Type 0 where
  pub get_daily_bars : String → String → Result String (List (PriceBar d))
  pub payload : String → String → Option P
  pub source : Option String
  pub class_name : String

-- What a step of the database does for a reason outside the model: it goes on, it raises, or it raises in a flush,
-- after which the session refuses every statement until a rollback.
pub data Outcome : Type 0 where
  passes raises breaks : Outcome

-- the outcome of storing the payload of a target and of storing bars, and whether their validation raises
pub record Faults (d : Decimals) : Type 0 where
  pub raw_write : String → String → Outcome
  pub validation_raises : List (PriceBar d) → Bool
  pub bars_write : List (PriceBar d) → Outcome

module _ (d : Decimals) (P : Type 0) (upper : String → String)
    (hash_payload : Payload d P → String) where
  -- `_provider_source`
  provider_source : Provider d P → List (PriceBar d) → String
  provider_source p bars = elim p.source [ some source ↦ source | none ↦ of_bars bars ]
    where
      of_bars : List (PriceBar d) → String
      of_bars [] = p.class_name
      of_bars (bar ∷ bars) = bar.source

  -- `_provider_payload`
  provider_payload : Provider d P → String → String → List (PriceBar d) → Payload d P
  unfolding provider_source
  provider_payload p symbol market bars = elim (p.payload symbol market) [
    | some own_payload ↦ own own_payload
    | none ↦ rows symbol market (provider_source p bars) bars
  ]

  -- the two tables that a collection changes, and whether the session waits for a rollback, which nobody calls
  pub record Stored : Type 0 where
    pub raw : Table (RawPrice (Payload d P))
    pub bars : Bars d
    pub needs_rollback : Bool

  abbrev pub broken : Stored → Stored
  broken s = record s { needs_rollback = true }

  abbrev count_failure : IngestionResult → IngestionResult
  count_failure r = record r { failure_count = r.failure_count + 1 }

  abbrev pub count_success :
      Bool → ℕ → ℕ → PriceValidationResult d upper → IngestionResult → IngestionResult
  count_success raw_saved received saved v r = record r {
    success_count = r.success_count + 1;
    raw_saved_count = r.raw_saved_count + (if raw_saved then 1 else 0);
    raw_skipped_count = r.raw_skipped_count + (if raw_saved then 0 else 1);
    received_bar_count = r.received_bar_count + received;
    saved_bar_count = r.saved_bar_count + saved;
    dropped_bar_count = r.dropped_bar_count + v.dropped_count;
    warning_count = r.warning_count + v.warning_count;
  }

  module _ (faults : Faults d) (provider : Provider d P) (now today : ℕ) where
    -- the answer of `upsert_bars`, where `none` is the error of its commit
    bars_saved :
        Bool
        → List (PriceBar d)
        → PriceValidationResult d upper
        → IngestionResult
        → Stored
        → Option (ℕ × Bars d)
        → IngestionResult × Stored
    bars_saved raw_saved received v r s none = (count_failure r, broken s)
    bars_saved raw_saved received v r s (some (saved, bars)) =
        (count_success raw_saved (length received) saved v r, record s { bars = bars })

    -- `self.price_repo.upsert_bars(valid_bars) if valid_bars else 0`, and the result
    save_bars :
        Bool
        → List (PriceBar d)
        → PriceValidationResult d upper
        → IngestionResult
        → Stored
        → List (PriceBar d)
        → IngestionResult × Stored
    unfolding bars_saved
    save_bars raw_saved received v r s [] = (count_success raw_saved (length received) 0 v r, s)
    save_bars raw_saved received v r s (bar ∷ bars) = elim (faults.bars_write (bar ∷ bars)) [
      | passes ↦ bars_saved raw_saved received v r s (upsert_bars d (bar ∷ bars) s.bars)
      | raises ↦ (count_failure r, s)
      | breaks ↦ (count_failure r, broken s)
    ]

    -- the validation, and what follows it
    validated :
        String → Bool → List (PriceBar d) → IngestionResult → Stored → IngestionResult × Stored
    unfolding save_bars
    validated market raw_saved bars r s =
        if faults.validation_raises bars
        then (count_failure r, s)
        else (let v = validate_bars d upper today bars market in
            save_bars raw_saved bars v r s v.valid_bars)

    -- from the stored payload on
    raw_saved :
        String
        → String
        → List (PriceBar d)
        → IngestionResult
        → Stored
        → Outcome
        → IngestionResult × Stored
    unfolding validated provider_payload provider_source
    raw_saved symbol market bars r s raises = (count_failure r, s)
    raw_saved symbol market bars r s breaks = (count_failure r, broken s)
    raw_saved symbol market bars r s passes =
        let raw =
          save_raw upper hash_payload now symbol market
            (provider_payload provider symbol market bars) "1d" (provider_source provider bars)
            s.raw in
        validated market (is_some raw.0) bars r (record s { raw = raw.1 })

    -- the `try` block with its `except`
    collected :
        String
        → String
        → Result String (List (PriceBar d))
        → IngestionResult × Stored
        → IngestionResult × Stored
    unfolding raw_saved
    collected symbol market (err _) (r, s) = (count_failure r, s)
    collected symbol market (ok bars) (r, s) =
        if s.needs_rollback
        then (count_failure r, s)
        else raw_saved symbol market bars r s (faults.raw_write symbol market)

    -- `PriceIngestionService._collect_target`
    unfoldable pub collect_target :
        String × String → IngestionResult × Stored → IngestionResult × Stored
    unfolding collected
    collect_target (symbol, market) s =
        collected (upper symbol) (upper market)
          (provider.get_daily_bars (upper symbol) (upper market)) s

    abbrev pub initial : ℕ → IngestionResult
    initial target_count = record {
      target_count = target_count;
      success_count = 0;
      failure_count = 0;
      raw_saved_count = 0;
      raw_skipped_count = 0;
      received_bar_count = 0;
      saved_bar_count = 0;
      dropped_bar_count = 0;
      warning_count = 0;
    }

    collect_all : List (String × String) → IngestionResult × Stored → IngestionResult × Stored
    collect_all [] s = s
    collect_all (target ∷ targets) s = collect_all targets (collect_target target s)

    -- `PriceIngestionService.collect_and_save`
    unfoldable pub collect_and_save : List (String × String) → Stored → IngestionResult × Stored
    unfolding collect_all
    collect_and_save targets s = collect_all targets (initial (length targets), s)
