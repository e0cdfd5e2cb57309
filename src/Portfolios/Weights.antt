-- ===== src/Portfolios/Weights.antt =====
-- app/domains/portfolios/service.py: `_build_summary` with the weights and the risk exposures it computes.
use Prim.Native.Nat.{Ordering}
use Prim.Native.String.{◌++◌ as str_append, compare as compare_text}
use project_stock.Base.{
  ℕ, String, Bool, true, false, ◌&&◌, ◌||◌, Option, none, some, List, [], ◌∷◌, ◌++◌, map, filter,
  any, head?, str_eq, ◌==◌, not, if◌then◌else◌,
}
use project_stock.Base.Text.{str_int}
use project_stock.Store.{get}
use project_stock.Store.Order.{order_by}
use project_stock.Assets.{Asset, Assets}
use project_stock.Decimal.{Decimals}
use project_stock.Portfolios.{Portfolio, Position, Positions, list_by_portfolio}

-- `a <= b` on texts, which Python compares by code points
abbrev pub text_leb : String → String → Bool
text_leb a b = elim (compare_text a b) [ Ordering.gt ↦ false | _ ↦ true ]

-- a list without repetitions
pub distinct : {A : Type 0} → (A → A → Bool) → List A → List A
distinct same [] = []
distinct same (x ∷ xs) = let rest = distinct same xs in if any (same x) rest then rest else x ∷ rest

is_there : {A : Type 0} → Option A → List A
is_there none = []
is_there (some x) = x ∷ []

flat : {A : Type 0} → List (List A) → List A
flat [] = []
flat (xs ∷ xss) = xs ++ flat xss

pub last_match : {A : Type 0} → (A → Bool) → List A → Option A
last_match p [] = none
last_match p (x ∷ xs) = elim (last_match p xs) [
  | some y ↦ some y
  | none ↦ if p x then some x else none
]

module _ (d : Decimals) (upper : String → String) where
  open d use {D, of_ℕ, add, sub, mul, div, less, equal, scaled, percent}

  -- the fields of `QuoteResult` that are read
  pub record Quote : Type 0 where
    pub symbol : String
    pub price : D
    pub change_percent : D

  pub record PositionWeight : Type 0 where
    pub asset_id : ℕ
    pub quantity : D
    pub avg_buy_price : D
    pub cost_value : D
    pub market_value : D
    pub cost_weight : D
    pub weight : D
    pub exceeds_threshold : Bool

  pub record SectorWeight : Type 0 where
    pub sector : String
    pub market_value : D
    pub weight : D
    pub exceeds_threshold : Bool

  pub record RiskExposure : Type 0 where
    pub code : String
    pub label : String
    pub level : String
    pub description : String

  sum : List D → D
  sum xs = go (of_ℕ 0) xs
    where
      go : D → List D → D
      go total [] = total
      go total (x ∷ xs) = go (add total x) xs

  -- `_calculate_weight`
  unfoldable pub calculate_weight : D → D → D
  calculate_weight value total_value =
      if equal total_value (of_ℕ 0) then of_ℕ 0 else div value total_value

  -- `_calculate_position_day_change`
  unfoldable pub calculate_position_day_change : D → D → D → D
  calculate_position_day_change market_value price change_percent =
      let denominator = add (of_ℕ 1) (div change_percent (of_ℕ 100)) in
      if equal price (of_ℕ 0) || equal denominator (of_ℕ 0)
      then of_ℕ 0
      else sub market_value (div market_value denominator)

  -- `_get_assets_by_position`, in the order of the positions
  assets_by_position : Assets → List (Position d) → List (ℕ × Asset)
  unfolding flat is_there distinct
  assets_by_position assets positions = flat (
      map (λ id. is_there (get id assets))
        (distinct (λ a b. a == b) (map (λ p. p.asset_id) positions)))

  -- `_get_quotes_by_symbol`; of two quotes for one symbol the later one counts
  quotes_by_symbol : (List String → List Quote) → List (ℕ × Asset) → List Quote
  unfolding distinct
  quotes_by_symbol get_quote [] = []
  quotes_by_symbol get_quote (a ∷ assets) =
      get_quote (order_by text_leb (distinct str_eq (map (λ e. upper e.1.symbol) (a ∷ assets))))

  quote_of : List Quote → Asset → Option Quote
  unfolding last_match
  quote_of quotes a = last_match (λ q. str_eq (upper q.symbol) (upper a.symbol)) quotes

  -- the price, the day's change and the sector of a position
  pub record Priced : Type 0 where
    pub position : Position d
    pub market_value : D
    pub day_change : D
    pub sector : String

  -- `asset.sector or "UNKNOWN"`
  sector_of : Option String → String
  sector_of none = "UNKNOWN"
  sector_of (some s) = if str_eq s "" then "UNKNOWN" else s

  quoted : Position d → String → Option Quote → Priced
  quoted p sector none = record {
    position = p;
    market_value = mul p.quantity (of_ℕ 0);
    day_change = calculate_position_day_change (mul p.quantity (of_ℕ 0)) (of_ℕ 0) (of_ℕ 0);
    sector = sector;
  }
  quoted p sector (some q) = record {
    position = p;
    market_value = mul p.quantity q.price;
    day_change = calculate_position_day_change (mul p.quantity q.price) q.price q.change_percent;
    sector = sector;
  }

  price_position : List (ℕ × Asset) → List Quote → Position d → Priced
  unfolding quoted quote_of sector_of
  price_position assets quotes p =
      elim (head? (filter (λ (e : ℕ × Asset). e.0 == p.asset_id) assets)) [
        | none ↦ quoted p "UNKNOWN" none
        | some (id, a) ↦ quoted p (sector_of a.sector) (quote_of quotes a)
      ]

  -- `sector_market_values`, by the first position of each sector
  add_to_sector : String → D → List (String × D) → List (String × D)
  add_to_sector sector value [] = (sector, add (of_ℕ 0) value) ∷ []
  add_to_sector sector value ((s, v) ∷ rest) =
      let later = add_to_sector sector value rest in
      if str_eq s sector then (s, add v value) ∷ rest else (s, v) ∷ later

  sector_values : List Priced → List (String × D) → List (String × D)
  unfolding add_to_sector
  sector_values [] values = values
  sector_values (p ∷ ps) values = sector_values ps (add_to_sector p.sector p.market_value values)

  pub record Summary : Type 0 where
    pub portfolio_id : ℕ
    pub concentration_threshold : D
    pub total_cost_value : D
    pub total_value : D
    pub cash_balance : D
    pub cash_weight : D
    pub has_sector_concentration : Bool
    pub positions : List PositionWeight
    pub sector_weights : List SectorWeight
    pub day_change_value : D
    pub day_change_percent : D
    pub risk_exposures : List RiskExposure

  abbrev cost : Position d → D
  cost p = mul p.quantity p.avg_buy_price

  unfoldable pub position_weight : D → D → D → Priced → PositionWeight
  position_weight threshold total_cost_value total_value p =
      let weight = calculate_weight p.market_value total_value in
      record {
        asset_id = p.position.asset_id;
        quantity = p.position.quantity;
        avg_buy_price = p.position.avg_buy_price;
        cost_value = cost p.position;
        market_value = p.market_value;
        cost_weight = calculate_weight (cost p.position) total_cost_value;
        weight = weight;
        exceeds_threshold = less threshold weight;
      }

  sector_weight : D → D → String × D → SectorWeight
  sector_weight threshold total_value (sector, value) =
      let weight = calculate_weight value total_value in
      record {
        sector = sector;
        market_value = value;
        weight = weight;
        exceeds_threshold = less threshold weight;
      }

  -- `_risk_level`
  unfoldable pub risk_level : D → D → String
  risk_level weight high_threshold = if less weight high_threshold then "MEDIUM" else "HIGH"

  -- `RISK_LEVEL_HIGH_MULTIPLIER`, `CASH_FLOOR_HIGH`, `CASH_FLOOR_MEDIUM`
  abbrev pub cash_floor_high : D
  cash_floor_high = scaled 5 2

  abbrev pub cash_floor_medium : D
  cash_floor_medium = scaled 15 2

  abbrev high_threshold : D → D
  high_threshold threshold = mul threshold (scaled 15 1)

  -- the key `(-weight, name)`
  heaviest_first : {A : Type 0} → (A → D) → (A → String) → A → A → Bool
  heaviest_first weight name a b =
      less (weight b) (weight a) || (not (less (weight a) (weight b)) && text_leb (name a) (name b))

  -- `f"{weight:.2%}로 임계값 {threshold:.2%}을 초과합니다."` after a beginning
  abbrev over_threshold : String → D → D → String
  over_threshold start weight threshold = str_append start (
      str_append (percent weight) (str_append "로 임계값 " (str_append (percent threshold) "을 초과합니다.")))

  sector_exposure : D → SectorWeight → RiskExposure
  sector_exposure threshold s = record {
    code = str_append "SECTOR_CONCENTRATION:" s.sector;
    label = str_append s.sector " 섹터 쏠림";
    level = risk_level s.weight (high_threshold threshold);
    description = over_threshold (str_append s.sector " 섹터 비중이 ") s.weight threshold;
  }

  symbol_of : List (ℕ × Asset) → PositionWeight → String
  symbol_of assets p = elim (head? (filter (λ (e : ℕ × Asset). e.0 == p.asset_id) assets)) [
    | none ↦ str_int p.asset_id
    | some (id, a) ↦ a.symbol
  ]

  position_exposure : D → List (ℕ × Asset) → PositionWeight → RiskExposure
  unfolding symbol_of
  position_exposure threshold assets p = record {
    code = str_append "SINGLE_NAME_CONCENTRATION:" (symbol_of assets p);
    label = str_append (symbol_of assets p) " 단일 종목 쏠림";
    level = risk_level p.weight (high_threshold threshold);
    description = over_threshold (str_append (symbol_of assets p) " 비중이 ") p.weight threshold;
  }

  abbrev cash_exposure : D → String → RiskExposure
  cash_exposure cash_weight level = record {
    code = "CASH_SHORTAGE";
    label = "현금 비중 부족";
    level = level;
    description =
        str_append "현금 비중이 " (str_append (percent cash_weight) "로 낮아 변동성 대응 여력이 제한될 수 있습니다.");
  }

  -- the exposure to a shortage of cash
  unfoldable pub cash_exposures : D → D → List RiskExposure
  cash_exposures cash_weight total_value =
      if equal total_value (of_ℕ 0)
      then []
      else if less cash_weight cash_floor_high
      then cash_exposure cash_weight "HIGH" ∷ []
      else if less cash_weight cash_floor_medium
      then cash_exposure cash_weight "MEDIUM" ∷ []
      else []

  abbrev pub is_concentrated_sector : SectorWeight → Bool
  is_concentrated_sector s = s.exceeds_threshold && not (str_eq s.sector "UNKNOWN")

  -- `_calculate_risk_exposures`
  unfoldable pub calculate_risk_exposures :
      List SectorWeight → List PositionWeight → List (ℕ × Asset) → D → D → D → List RiskExposure
  unfolding sector_exposure position_exposure symbol_of heaviest_first
  calculate_risk_exposures sectors positions assets cash_weight total_value threshold =
      map (sector_exposure threshold) (
        order_by (heaviest_first (λ s. s.weight) (λ s. s.sector))
          (filter is_concentrated_sector sectors))
      ++ (map (position_exposure threshold assets) (
            order_by (heaviest_first (λ p. p.weight) (symbol_of assets))
              (filter (λ p. p.exceeds_threshold) positions))
          ++ cash_exposures cash_weight total_value)

  -- `_build_summary` with `_calculate_weights`
  unfoldable pub build_summary :
      (List String → List Quote) → Assets → Positions d → ℕ × Portfolio d → Summary
  unfolding assets_by_position quotes_by_symbol price_position sector_values position_weight
      sector_weight sum flat is_there distinct quoted quote_of sector_of add_to_sector last_match
  build_summary get_quote assets positions (id, portfolio) =
      let held = map (λ (e : ℕ × Position d). e.1) (list_by_portfolio d id positions) in
      let by_id = assets_by_position assets held in
      let priced = map (price_position by_id (quotes_by_symbol get_quote by_id)) held in
      let total_cost_value = sum (map cost held) in
      let total_value = add (sum (map (λ p. p.market_value) priced)) portfolio.cash_balance in
      let day_change_value = sum (map (λ p. p.day_change) priced) in
      let prev_total_value = sub total_value day_change_value in
      let threshold = portfolio.concentration_threshold in
      let weights = map (position_weight threshold total_cost_value total_value) priced in
      let sectors =
        map (sector_weight threshold total_value)
          (order_by (λ a b. text_leb a.0 b.0) (sector_values priced [])) in
      let cash_weight = calculate_weight portfolio.cash_balance total_value in
      record {
        portfolio_id = id;
        concentration_threshold = threshold;
        total_cost_value = total_cost_value;
        total_value = total_value;
        cash_balance = portfolio.cash_balance;
        cash_weight = cash_weight;
        has_sector_concentration = any (λ s. s.exceeds_threshold) sectors;
        positions = weights;
        sector_weights = sectors;
        day_change_value = day_change_value;
        day_change_percent =
            if equal prev_total_value (of_ℕ 0)
            then of_ℕ 0
            else mul (div day_change_value prev_total_value) (of_ℕ 100);
        risk_exposures =
            calculate_risk_exposures sectors weights by_id cash_weight total_value threshold;
      }
