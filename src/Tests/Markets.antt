-- ===== src/Tests/Markets.antt =====
-- Prices, positions and their concentration, with decimals of two places that are never negative.
use project_stock.Base.{
  ℕ, ◌+◌, ◌*◌, ◌/◌, ◌-◌, ◌^◌, ◌≡◌, String, true, false, Option, none, some, List, [], ◌∷◌, filter,
  length, ltb, str_eq, if◌then◌else◌, ◌==◌, arith,
}
use project_stock.Base.Exec.{ok}
use project_stock.Base.Text.{str_int}
use project_stock.Int.{ℤ, pos}
use project_stock.Store.{empty_table}
use project_stock.Store.Order.{order_by}
use project_stock.Store.Children.Laws.{Inserts}
use project_stock.Decimal.{Decimals}
use project_stock.Assets.{Asset, Assets}
use project_stock.Signals.{Signals}
use project_stock.Prices.{PriceBar}
use project_stock.Prices.Validator.{by_timestamp, validate_bars}
use project_stock.Prices.Validator.Report.{is_acceptable, validate_bars_exact}
use project_stock.Prices.Repository.{Bars}
use project_stock.Prices.Ingestion.{
  Faults, passes, breaks, Payload, Provider, Stored, collect_and_save,
}
use project_stock.Prices.Ingestion.Accounts.{HasConstraints, AddsUp, collect_and_save-AddsUp}
use project_stock.Portfolios.{
  Portfolio, Portfolios, Positions, portfolio_errors, portfolio_of, asset_of, new_position,
  add_position,
}
use project_stock.Portfolios.Positions.{add_position_exact}
use project_stock.Portfolios.Weights.{Quote, PositionWeight}

pub ltb_irrefl : (a : ℕ) → ltb a a ≡ false
ltb_irrefl a = ground arith

pub ltb_trans : (a b c : ℕ) → ltb a b ≡ true → ltb b c ≡ true → ltb a c ≡ true
ltb_trans a b c h k = ground arith

abbrev pub cents : Decimals
cents = record {
  D = ℕ;
  of_ℕ = λ n. n * 100;
  add = λ a b. a + b;
  sub = λ a b. a - b;
  mul = λ a b. a * b / 100;
  div = λ a b. a * 100 / b;
  abs = λ a. a;
  less = ltb;
  equal = λ a b. a == b;
  scaled = λ a b. a * 100 / 10 ^ b;
  percent = λ a. str_int a;
  less_irrefl = ltb_irrefl;
  less_trans = ltb_trans;
}

abbrev pub same_text : String → String
same_text s = s

abbrev pub bar : ℕ → Option ℕ → PriceBar cents
bar time close = record {
  symbol = "AAPL";
  market = "NASDAQ";
  interval = "1d";
  timestamp = time;
  open_price = some 10000;
  high_price = some 10100;
  low_price = some 9900;
  close_price = close;
  adjusted_close_price = close;
  volume = 1;
  currency = "USD";
  source = "yfinance";
}

abbrev series : List (PriceBar cents)
series = bar 86400 (some 20000) ∷ bar 0 (some 10000) ∷ bar 172800 none ∷ []

validate_bars_exact_example :
    ((validate_bars cents same_text 2 series "NASDAQ").valid_bars
      ≡ filter
          (is_acceptable cents same_text 2 "NASDAQ")
          (order_by (by_timestamp cents same_text) series))
    × (length (validate_bars cents same_text 2 series "NASDAQ").valid_bars
          + (validate_bars cents same_text 2 series "NASDAQ").dropped_count
        ≡ 3)
    × (length (validate_bars cents same_text 2 series "NASDAQ").reasons
        ≡ (validate_bars cents same_text 2 series "NASDAQ").dropped_count
          + (validate_bars cents same_text 2 series "NASDAQ").warning_count)
validate_bars_exact_example = validate_bars_exact cents same_text 2 "NASDAQ" series

abbrev pub no_bars : Bars cents
no_bars = empty_table

abbrev one_digest : Payload cents String → String
one_digest p = "digest"

abbrev yfinance : Provider cents String
yfinance = record {
  get_daily_bars = λ symbol market. ok series;
  payload = λ symbol market. some "{}";
  source = some "yfinance";
  class_name = "YFinanceProvider";
}

-- every write goes on but that of the second target's payload
abbrev one_fault : Faults cents
one_fault = record {
  raw_write = λ symbol market. if str_eq symbol "MSFT" then breaks else passes;
  validation_raises = λ bars. false;
  bars_write = λ bars. passes;
}

abbrev nothing_stored : Stored cents String same_text one_digest
nothing_stored = record { raw = empty_table; bars = empty_table; needs_rollback = false }

collect_and_save-AddsUp_example :
    AddsUp cents String same_text one_digest one_fault yfinance 100 2 2
      (collect_and_save cents String same_text one_digest one_fault yfinance 100 2
        (("AAPL", "NASDAQ") ∷ ("MSFT", "NASDAQ") ∷ [])
        nothing_stored).0
    × HasConstraints cents String same_text one_digest one_fault yfinance 100 2
        (collect_and_save cents String same_text one_digest one_fault yfinance 100 2
          (("AAPL", "NASDAQ") ∷ ("MSFT", "NASDAQ") ∷ [])
          nothing_stored).1
collect_and_save-AddsUp_example =
    collect_and_save-AddsUp cents String same_text one_digest one_fault yfinance 100 2
      (("AAPL", "NASDAQ") ∷ ("MSFT", "NASDAQ") ∷ []) nothing_stored (((tt, tt), tt), ((tt, tt), tt))

abbrev growth : Portfolio cents
growth = record { user_id = 5; name = "Growth"; concentration_threshold = 40; cash_balance = 1000 }

abbrev portfolios : Portfolios cents
portfolios = record { rows = (1, growth) ∷ []; next_id = 2 }

abbrev apple : Asset
apple = record {
  symbol = "AAPL";
  name = "Apple";
  market = "NASDAQ";
  sector = some "Technology";
  industry = none;
  description = none;
  is_active = true;
}

abbrev assets : Assets
assets = record { rows = (1, apple) ∷ []; next_id = 2 }

abbrev no_positions : Positions cents
no_positions = empty_table

add_position_exact_example :
    Inserts portfolio_errors
      (portfolio_of cents)
      (asset_of cents)
      true
      true
      1
      1
      (new_position cents 1 200 10000 1)
      no_positions
      (add_position cents portfolios assets 1 5 1 200 10000 no_positions)
add_position_exact_example =
    add_position_exact cents portfolios assets 1 5 1 200 10000 no_positions ((tt, tt), tt)

abbrev one_position : Positions cents
one_position = record { rows = (1, new_position cents 1 200 10000 1) ∷ []; next_id = 2 }

abbrev quotes : List String → List (Quote cents same_text)
quotes symbols = record { symbol = "AAPL"; price = 12000; change_percent = 100 } ∷ []

abbrev whole : ℕ → ℤ
whole n = pos (n / 100)

abbrev printed : ℕ → String
printed n = "n"

abbrev no_signals : Signals
no_signals = empty_table

abbrev heavy : PositionWeight cents same_text
heavy = record {
  asset_id = 1;
  quantity = 200;
  avg_buy_price = 10000;
  cost_value = 20000;
  market_value = 24000;
  cost_weight = 100;
  weight = 96;
  exceeds_threshold = true;
}
