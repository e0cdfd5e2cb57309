-- ===== src/Briefings/Snapshots.antt =====
-- The snapshots of portfolios, dashboards and watchlists in app/adapters/llm/privacy.py, which are what a
-- model is told of them.
use project_stock.Base.{
  ℕ, String, Bool, Option, List, [], ◌∷◌, map, filter, leb, length, ◌≡◌, refl, ap, if◌then◌else◌,
}
use project_stock.Decimal.{Decimals}
use project_stock.Portfolios.{Portfolio, Position}
use project_stock.Portfolios.Weights.{PositionWeight, SectorWeight, RiskExposure, Summary}
use project_stock.Briefings.{WatchlistHighlight}

-- `_position_count_band`
unfoldable pub position_count_band : ℕ → String
position_count_band n = if leb n 5 then "1-5" else if leb n 15 then "6-15" else "16+"

module _ (d : Decimals) (upper : String → String) where
  open d use {D, of_ℕ, add, mul, div, less, scaled}

  -- `PortfolioConcentrationSnapshot`
  pub record ConcentrationSnapshot : Type 0 where
    pub position_count_band : String
    pub largest_position_band : String
    pub cash_band : String
    pub is_concentrated : Bool

  -- `_share`
  unfoldable pub share : D → D → D
  share value total = if less (of_ℕ 0) total then div value total else of_ℕ 0

  -- `_share_band`, with `LOW_SHARE_MAX` and `MEDIUM_SHARE_MAX`
  unfoldable pub share_band : D → String
  share_band value =
      if less value (scaled 25 2)
      then "0-25%"
      else if less value (scaled 40 2)
      then "25-40%"
      else "40%+"

  total : D → List D → D
  total sum [] = sum
  total sum (x ∷ xs) = total (add sum x) xs

  -- `max(values, default=ZERO)` from a first value on
  largest : D → List D → D
  largest most [] = most
  largest most (x ∷ xs) = largest (if less most x then x else most) xs

  largest_or_zero : List D → D
  unfolding largest
  largest_or_zero [] = of_ℕ 0
  largest_or_zero (x ∷ xs) = largest x xs

  -- `to_concentration_snapshot`
  unfoldable pub to_concentration_snapshot : Portfolio d → List (Position d) → ConcentrationSnapshot
  unfolding total largest_or_zero largest
  to_concentration_snapshot portfolio positions =
      let values =
        filter (λ v. less (of_ℕ 0) v)
          (map (λ (p : Position d). mul p.quantity p.avg_buy_price) positions) in
      let cash = if less portfolio.cash_balance (of_ℕ 0) then of_ℕ 0 else portfolio.cash_balance in
      let total_value = add cash (total (of_ℕ 0) values) in
      let largest_share = share (largest_or_zero values) total_value in
      record {
        position_count_band = position_count_band (length positions);
        largest_position_band = share_band largest_share;
        cash_band = share_band (share cash total_value);
        is_concentrated = less portfolio.concentration_threshold largest_share;
      }

  -- `PortfolioBriefingPosition`
  pub record BriefingPosition : Type 0 where
    pub symbol : String
    pub sector : String
    pub weight : D
    pub daily_change_percent : D

  -- `SectorWeightView`
  pub record SectorWeightView : Type 0 where
    pub sector : String
    pub weight : D

  -- `RiskExposureView`
  pub record RiskExposureView : Type 0 where
    pub code : String
    pub label : String
    pub level : String
    pub description : String

  -- `PortfolioBriefingSnapshot`
  pub record PortfolioBriefingSnapshot : Type 0 where
    pub positions : List BriefingPosition
    pub sector_weights : List SectorWeightView
    pub largest_position_weight : D
    pub is_concentrated : Bool
    pub concentration_threshold : D
    pub cash_weight : D
    pub day_change_percent : D
    pub risk_exposures : List RiskExposureView

  module _ (symbol_of sector_of : ℕ → String) (daily_change_of : ℕ → D) where
    briefing_position : PositionWeight d upper → BriefingPosition
    briefing_position p = record {
      symbol = symbol_of p.asset_id;
      sector = sector_of p.asset_id;
      weight = p.weight;
      daily_change_percent = daily_change_of p.asset_id;
    }

    sector_view : SectorWeight d upper → SectorWeightView
    sector_view s = record { sector = s.sector; weight = s.weight }

    exposure_view : RiskExposure d upper → RiskExposureView
    exposure_view e = record {
      code = e.code;
      label = e.label;
      level = e.level;
      description = e.description;
    }

    -- `to_briefing_snapshot`, with the three mappings and their defaults
    unfoldable pub to_briefing_snapshot : Summary d upper → PortfolioBriefingSnapshot
    unfolding briefing_position sector_view exposure_view largest_or_zero largest
    to_briefing_snapshot summary =
        let largest_weight =
          largest_or_zero (map (λ (p : PositionWeight d upper). p.weight) summary.positions) in
        record {
          positions = map briefing_position summary.positions;
          sector_weights = map sector_view summary.sector_weights;
          largest_position_weight = largest_weight;
          is_concentrated = less summary.concentration_threshold largest_weight;
          concentration_threshold = summary.concentration_threshold;
          cash_weight = summary.cash_weight;
          day_change_percent = summary.day_change_percent;
          risk_exposures = map exposure_view summary.risk_exposures;
        }

    -- a position with another quantity and other amounts
    abbrev pub reprice_position : (D → D) → PositionWeight d upper → PositionWeight d upper
    reprice_position f p = record p {
      quantity = f p.quantity;
      avg_buy_price = f p.avg_buy_price;
      cost_value = f p.cost_value;
      market_value = f p.market_value;
    }

    abbrev pub reprice_sector : (D → D) → SectorWeight d upper → SectorWeight d upper
    reprice_sector f s = record s { market_value = f s.market_value }

    -- The summary with every absolute amount changed: quantities, prices, values, cash and the day's change.
    abbrev pub reprice_summary : (D → D) → Summary d upper → Summary d upper
    reprice_summary f s = record s {
      total_cost_value = f s.total_cost_value;
      total_value = f s.total_value;
      cash_balance = f s.cash_balance;
      day_change_value = f s.day_change_value;
      positions = map (reprice_position f) s.positions;
      sector_weights = map (reprice_sector f) s.sector_weights;
    }

    positions-reprice :
        (f : D → D) (ps : List (PositionWeight d upper))
        → map briefing_position (map (reprice_position f) ps) ≡ map briefing_position ps
    unfolding briefing_position
    positions-reprice f [] = refl
    positions-reprice f (p ∷ ps) = ap (λ rest. briefing_position p ∷ rest) (positions-reprice f ps)

    weights-reprice :
        (f : D → D) (ps : List (PositionWeight d upper))
        → map (λ (p : PositionWeight d upper). p.weight) (map (reprice_position f) ps)
          ≡ map (λ (p : PositionWeight d upper). p.weight) ps
    weights-reprice f [] = refl
    weights-reprice f (p ∷ ps) = ap (λ rest. p.weight ∷ rest) (weights-reprice f ps)

    sectors-reprice :
        (f : D → D) (ss : List (SectorWeight d upper))
        → map sector_view (map (reprice_sector f) ss) ≡ map sector_view ss
    unfolding sector_view
    sectors-reprice f [] = refl
    sectors-reprice f (s ∷ ss) = ap (λ rest. sector_view s ∷ rest) (sectors-reprice f ss)

    -- What a model is told of a portfolio depends on no absolute amount: summaries that differ in their
    -- quantities, prices, values, cash or the day's change in money only have one snapshot.
    pub briefing_snapshot-reprice :
        (f : D → D) (summary : Summary d upper)
        → to_briefing_snapshot (reprice_summary f summary) ≡ to_briefing_snapshot summary
    unfolding to_briefing_snapshot
    briefing_snapshot-reprice f summary =
        rw
          (
            positions-reprice f summary.positions,
            weights-reprice f summary.positions,
            sectors-reprice f summary.sector_weights,
          )
          refl

  -- the counts and the cash weight of a `DashboardSummaryResponse`
  pub record DashboardSummary : Type 0 where
    pub risk_alert_count : ℕ
    pub important_news_count : ℕ
    pub review_signal_count : ℕ
    pub cash_weight : Option D

  -- `DashboardBriefingSnapshot`
  pub record DashboardBriefingSnapshot : Type 0 where
    pub risk_alert_count : ℕ
    pub important_news_count : ℕ
    pub review_signal_count : ℕ
    pub cash_weight : Option D
    pub watchlist_highlights : List (WatchlistHighlight d upper)

  -- `to_dashboard_snapshot`
  unfoldable pub to_dashboard_snapshot :
      DashboardSummary → List (WatchlistHighlight d upper) → DashboardBriefingSnapshot
  to_dashboard_snapshot summary highlights = record {
    risk_alert_count = summary.risk_alert_count;
    important_news_count = summary.important_news_count;
    review_signal_count = summary.review_signal_count;
    cash_weight = summary.cash_weight;
    watchlist_highlights = highlights;
  }

  -- `WatchlistObservationSnapshot`
  pub record WatchlistObservationSnapshot : Type 0 where
    pub watchlist_id : ℕ
    pub item_count : ℕ
    pub items : List (WatchlistHighlight d upper)

  -- `to_watchlist_observation_snapshot`
  unfoldable pub to_watchlist_observation_snapshot :
      ℕ → List (WatchlistHighlight d upper) → WatchlistObservationSnapshot
  to_watchlist_observation_snapshot watchlist_id items = record {
    watchlist_id = watchlist_id;
    item_count = length items;
    items = items;
  }
