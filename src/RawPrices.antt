-- ===== src/RawPrices.antt =====
-- app/domains/raw_prices: the rows of `raw_prices` (model.py), `RawPriceRepository` (repository.py) and
-- `RawPriceService` (service.py). A payload is of any type; its SHA-256 digest is a parameter.
pub mod Once
use project_stock.Base.{ℕ, String, Bool, Option, none, some, str_eq, any, if◌then◌else◌}
use project_stock.Store.{Table, add_unique}

pub record RawPrice (P : Type 0) : Type 0 where
  pub symbol : String
  pub market : String
  pub interval : String
  pub source : String
  pub payload : P
  pub payload_hash : String
  pub fetched_at : ℕ

module _ {P : Type 0} where
  -- `uq_raw_prices_payload_hash`
  abbrev pub same_hash : RawPrice P → RawPrice P → Bool
  same_hash a b = str_eq a.payload_hash b.payload_hash

  -- `RawPriceRepository.exists_by_hash`
  abbrev pub exists_by_hash : String → Table (RawPrice P) → Bool
  exists_by_hash payload_hash t = any (λ e. str_eq e.1.payload_hash payload_hash) t.rows

  saved :
      Table (RawPrice P)
      → Option ((ℕ × RawPrice P) × Table (RawPrice P))
      → Option (ℕ × RawPrice P) × Table (RawPrice P)
  saved t none = (none, t)
  saved t (some (row, t')) = (some row, t')

  -- `RawPriceRepository.save`
  unfoldable pub save :
      RawPrice P → Table (RawPrice P) → Option (ℕ × RawPrice P) × Table (RawPrice P)
  unfolding saved
  save r t = saved t (add_unique same_hash r t)

  module _ (upper : String → String) (hash_payload : P → String) where
    abbrev pub raw_price : ℕ → String → String → P → String → String → RawPrice P
    raw_price now symbol market payload interval source = record {
      symbol = upper symbol;
      market = upper market;
      interval = interval;
      source = source;
      payload = payload;
      payload_hash = hash_payload payload;
      fetched_at = now;
    }

    -- `RawPriceService.save_raw`
    unfoldable pub save_raw :
        ℕ
        → String
        → String
        → P
        → String
        → String
        → Table (RawPrice P)
        → Option (ℕ × RawPrice P) × Table (RawPrice P)
    save_raw now symbol market payload interval source t =
        if exists_by_hash (hash_payload payload) t
        then (none, t)
        else save (raw_price now symbol market payload interval source) t
