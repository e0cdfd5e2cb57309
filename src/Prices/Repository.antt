-- ===== src/Prices/Repository.antt =====
-- app/domains/prices/repository.py: `PriceBarRepository`, on the rows of `stock_price_bars` (model.py).
pub mod Keys
pub mod Latest
use project_stock.Base.{
  ℕ, String, Bool, ◌&&◌, Option, none, some, List, [], ◌∷◌, ◌++◌, str_eq, ltb, leb, ◌==◌, ◌||◌,
  head?, filter, length,
}
use project_stock.Store.{Table, add_unique, update, where_rows}
use project_stock.Store.Order.{order_by, offset_limit, newest_first}
use project_stock.Decimal.{Decimals}
use project_stock.Prices.{PriceBar}

module _ (d : Decimals) where
  abbrev pub Bars : Type 0
  Bars = Table (PriceBar d)

  -- `uq_price_bars_symbol_market_interval_ts`
  abbrev pub same_bar : PriceBar d → PriceBar d → Bool
  same_bar a b =
      str_eq a.symbol b.symbol
      && (str_eq a.market b.market && (str_eq a.interval b.interval && a.timestamp == b.timestamp))

  -- `PriceBarRepository.get_by_unique_key`, with the key of a bar
  abbrev pub get_by_unique_key : PriceBar d → Bars → Option (ℕ × PriceBar d)
  get_by_unique_key bar t = head? (where_rows (λ e. same_bar e.1 bar) t)

  -- the attributes that `upsert_bars` sets on a bar that is there
  abbrev pub overwrite : PriceBar d → PriceBar d → PriceBar d
  overwrite bar row = record row {
    open_price = bar.open_price;
    high_price = bar.high_price;
    low_price = bar.low_price;
    close_price = bar.close_price;
    adjusted_close_price = bar.adjusted_close_price;
    volume = bar.volume;
    currency = bar.currency;
    source = bar.source;
  }

  abbrev pub with_pending : PriceBar d → List (PriceBar d) × Bars → List (PriceBar d) × Bars
  with_pending bar (pending, t) = (bar ∷ pending, t)

  -- One round of the loop, before the others. The session does not flush by itself (db/session.py), so a lookup
  -- sees the changes to the stored rows, but none of the rows that are added: they are pending until the commit.
  unfoldable pub put :
      PriceBar d
      → Bars
      → Option (ℕ × PriceBar d)
      → (Bars → List (PriceBar d) × Bars)
      → List (PriceBar d) × Bars
  put bar t none rest = with_pending bar (rest t)
  put bar t (some (i, row)) rest = rest (update i (overwrite bar) t)

  -- the loop: the added rows, and the table with the changed ones
  unfoldable pub upsert_all : List (PriceBar d) → Bars → List (PriceBar d) × Bars
  upsert_all [] t = ([], t)
  upsert_all (bar ∷ bars) t = put bar t (get_by_unique_key bar t) (upsert_all bars)

  -- one pending row that the commit writes
  unfoldable pub insert : Option ((ℕ × PriceBar d) × Bars) → (Bars → Option Bars) → Option Bars
  insert none rest = none
  insert (some (row, t)) rest = rest t

  -- the commit; `none` is the `IntegrityError` of the unique constraint
  unfoldable pub commit : List (PriceBar d) → Bars → Option Bars
  commit [] t = some t
  commit (bar ∷ pending) t = insert (add_unique same_bar bar t) (commit pending)

  abbrev pub counted : ℕ → Option Bars → Option (ℕ × Bars)
  counted n none = none
  counted n (some t) = some (n, t)

  -- `PriceBarRepository.upsert_bars`; where it raises, nothing of the batch is stored
  unfoldable pub upsert_bars : List (PriceBar d) → Bars → Option (ℕ × Bars)
  upsert_bars bars t =
      let (pending, changed) = upsert_all bars t in counted (length bars) (commit pending changed)

  unfoldable pub reversed : List (ℕ × PriceBar d) → List (ℕ × PriceBar d)
  reversed [] = []
  reversed (x ∷ xs) = reversed xs ++ x ∷ []

  -- `PriceBarRepository.list_recent`
  unfoldable pub list_recent : String → String → String → ℕ → Bars → List (ℕ × PriceBar d)
  unfolding reversed
  list_recent symbol market interval limit t = reversed (
      offset_limit 0 (some limit) (
        order_by (newest_first (λ (b : PriceBar d). b.timestamp)) (
          where_rows
            (λ e.
              str_eq e.1.symbol symbol
              && (str_eq e.1.market market && str_eq e.1.interval interval))
            t)))
