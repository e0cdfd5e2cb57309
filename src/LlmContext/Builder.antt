-- ===== src/LlmContext/Builder.antt =====
-- `ContextBuilder` of app/domains/llm_context/context_builder.py with the rules of user_rules.py. All lookups
-- of one bundle have one time. The summary of the portfolio is fetched anew for each card, for the bundle and for
-- the data quality, and each fetch may fail.
pub mod Quality
use project_stock.Base.{
  ℕ, suc, String, Bool, true, false, ◌&&◌, Option, none, some, List, [], ◌∷◌, ◌++◌, map, filter,
  any, str_eq, ◌==◌, leb, length, is_some, head?, ltb, take, if◌then◌else◌,
}
use project_stock.Base.Exec.{Result, ok, err}
use project_stock.Store.{where_rows}
use project_stock.Store.Order.{order_by, newest_first}
use project_stock.Llm.{
  TaskType, news_summary, thesis_conflict, portfolio_briefing, dashboard_briefing, watchlist_note,
  tag_sentiment, agent,
}
use project_stock.Errors.{AppException}
use project_stock.Decimal.{Decimals}
use project_stock.Assets.{Asset, Assets, get_by_symbol_market}
use project_stock.Prices.{PriceBar}
use project_stock.Prices.Repository.{Bars, list_recent}
use project_stock.Features.{StockPriceBar, PriceFeatureSet, build}
use project_stock.News.{NewsItem, NewsItems}
use project_stock.Signals.{Signal, Signals, list_by_asset}
use project_stock.DecisionLogs.{DecisionLog, DecisionLogs}
use project_stock.DecisionLogs.Stats.{list_decision_logs}
use project_stock.Portfolios.{Portfolio, Portfolios, Positions, list_by_user, get_owned_portfolio}
use project_stock.Portfolios.Weights.{Quote, PositionWeight, Summary, build_summary}
use project_stock.LlmContext.{
  DataQualityStatus, valid, partial, missing, DataQualitySection, RecentNewsItem, SignalItem,
  RecentDecision, OutputContract, PriceSnapshot, PortfolioContext, SymbolCard, PortfolioSummary,
  LlmContextBundle,
}

-- `DEFAULT_USER_RULES`
abbrev pub default_user_rules : List String
default_user_rules =
    "단일 종목 비중 20% 초과 금지" ∷ "하루 10% 이상 급등한 종목은 당일 신규 매수 금지" ∷ "5일 수익률 15% 이상 급등 시 추격 매수 금지"
    ∷ "실적 발표 직전 신규 매수 금지" ∷ "손실 중인 종목에 추가 매수하기 전 기존 thesis 재검토" ∷ "뉴스 하나만 보고 매수 판단 금지"
    ∷ "AI 의견만으로 매수, 매도하지 않기" ∷ []

-- `_OUTPUT_REQUIRED_FIELDS`
abbrev pub output_required_fields : List String
output_required_fields =
    "summary" ∷ "risk_level" ∷ "suggested_action" ∷ "reasons" ∷ "watch_points" ∷ "counter_arguments"
    ∷ "data_limitations" ∷ "confidence" ∷ []

-- `_USER_INTENT_BY_TASK_TYPE`
abbrev pub user_intent : TaskType → String
user_intent news_summary = "관련 뉴스 흐름을 요약하고 투자 판단에 필요한 제한 사항을 확인한다."
user_intent thesis_conflict = "기존 투자 thesis와 충돌하는 근거가 있는지 점검한다."
user_intent portfolio_briefing = "포트폴리오 상태와 주요 리스크를 점검한다."
user_intent dashboard_briefing = "대시보드 요약에 필요한 핵심 시장·보유 정보를 점검한다."
user_intent watchlist_note = "관심 종목의 점검 포인트와 데이터 한계를 정리한다."
user_intent tag_sentiment = "태그별 분위기와 판단 제한 사항을 정리한다."
user_intent agent = "사용자 요청에 맞춰 투자 판단에 필요한 맥락을 점검한다."

or_else : {A : Type 0} → Option A → A → A
or_else none a = a
or_else (some b) a = b

-- `text or other`: an empty text counts as none
or_other : Option String → String → String
or_other none other = other
or_other (some s) other = if str_eq s "" then other else s

flat_map : {A B : Type 0} → (A → List B) → List A → List B
flat_map f [] = []
flat_map f (x ∷ xs) = f x ++ flat_map f xs

-- `NewsItemRepository.list_by_asset`
unfoldable pub list_news : ℕ → NewsItems → List (ℕ × NewsItem)
list_news asset_id t =
    order_by (newest_first (λ (i : NewsItem). i.created_at))
      (where_rows (λ e. e.1.asset_id == asset_id) t)

-- `_recent_news_item_from_model`
unfoldable pub recent_news_item : ℕ × NewsItem → RecentNewsItem
unfolding or_else or_other
recent_news_item (i, item) = record {
  title = item.title;
  summary = or_other item.summary "";
  source = item.source;
  published_at = or_else item.published_at item.created_at;
  trust_level = or_else item.trust_level "unknown";
}

-- `_severity_from_score`
unfoldable pub severity_from_score : ℕ → String
severity_from_score score =
    if leb 70 score then "high" else if leb 40 score then "medium" else "low"

-- `_signal_item_from_model`
unfoldable pub signal_item : ℕ × Signal → SignalItem
unfolding or_other
signal_item (i, s) = record {
  signal_type = s.signal_type;
  severity = or_other s.risk_level (severity_from_score s.score);
  reason = s.reason;
}

-- `build_recent_decision_context`
unfoldable pub build_recent_decision_context : ℕ → String → DecisionLogs → List RecentDecision
unfolding or_other
build_recent_decision_context user_id symbol t =
    map
      (λ e. record {
        symbol = e.1.notes.ticker;
        decision_type = e.1.decision_type;
        reason = or_other e.1.notes.reason "";
        created_at = e.1.decided_at;
      })
      (filter (λ e. str_eq e.1.notes.ticker symbol)
        (list_decision_logs user_id 0 (some 5) "-decided_at" t))

module _ {F : Type 0} where
  -- `_has_any_price_data`
  abbrev pub has_any_price_data : SymbolCard F → Bool
  has_any_price_data card = is_some card.price_snapshot.close

  -- `_has_complete_price_data`
  abbrev pub has_complete_price_data : SymbolCard F → Bool
  has_complete_price_data card =
      is_some card.price_snapshot.close
      && (is_some card.price_snapshot.return_1d
          && (is_some card.price_snapshot.return_5d
              && (is_some card.price_snapshot.return_20d
                  && (is_some card.price_snapshot.drawdown_from_52w_high
                      && is_some card.price_snapshot.volume_vs_20d_avg))))

  abbrev pub all_complete : List (SymbolCard F) → Bool
  all_complete [] = true
  all_complete (card ∷ cards) = has_complete_price_data card && all_complete cards

  -- `_price_data_status`
  unfoldable pub price_data_status : List (SymbolCard F) → DataQualityStatus
  price_data_status [] = missing
  price_data_status (card ∷ cards) =
      let all_cards = card ∷ cards in
      let with_price = length (filter has_any_price_data all_cards) in
      if with_price == length all_cards
      then (if all_complete all_cards then valid else partial)
      else if ltb 0 with_price
      then partial
      else missing

  has_news : SymbolCard F → Bool
  has_news card = is_some (head? card.recent_news)

  -- `_news_data_status`
  unfoldable pub news_data_status : List (SymbolCard F) → DataQualityStatus
  unfolding has_news
  news_data_status cards = if any has_news cards then valid else missing

-- the fetches of a portfolio summary: that of each card, by its place, that of the bundle and that of its status
pub data Fetch : Type 0 where
  of_card : ℕ → Fetch
  of_summary of_status : Fetch

-- the warnings of `_build_data_quality`
unfoldable pub quality_warnings :
    DataQualityStatus → DataQualityStatus → DataQualityStatus → List String
quality_warnings price news portfolio =
    price_warning price ++ (news_warning news ++ portfolio_warning portfolio)
  where
    price_warning : DataQualityStatus → List String
    price_warning missing = "가격 데이터가 없습니다." ∷ []
    price_warning partial = "일부 종목의 가격 데이터가 부족합니다." ∷ []
    price_warning _ = []

    news_warning : DataQualityStatus → List String
    news_warning missing = "뉴스 데이터는 아직 포함되지 않았습니다." ∷ []
    news_warning _ = []

    portfolio_warning : DataQualityStatus → List String
    portfolio_warning missing = "포트폴리오 데이터가 없습니다." ∷ []
    portfolio_warning _ = []

module _ (d : Decimals) (upper : String → String) (F : Type 0) (to_float : d.D → F) where
  open d use {D, of_ℕ, sub, div, less, equal}

  -- The tables that are read, and the quotes of each fetch of a summary: `none` where `get_summary` raises.
  pub record Sources : Type 0 where
    pub assets : Assets
    pub bars : Bars d
    pub portfolios : Portfolios d
    pub positions : Positions d
    pub decisions : DecisionLogs
    pub news : NewsItems
    pub signals : Signals
    pub quotes : Fetch → Option (List String → List (Quote d upper))

  -- `_to_float`
  float_of : Option D → Option F
  float_of none = none
  float_of (some value) = some (to_float value)

  -- A row with its prices. The columns are not null, so every stored row has them.
  stored_prices : PriceBar d → Option D → Option D → List (StockPriceBar d)
  stored_prices bar (some high) (some close) =
      record {
        timestamp = bar.timestamp;
        high_price = high;
        close_price = close;
        volume = bar.volume;
      }
      ∷ []
  stored_prices bar none close = []
  stored_prices bar (some high) none = []

  recent_bars : String → String → Sources → List (StockPriceBar d)
  unfolding flat_map stored_prices
  recent_bars symbol market s =
      flat_map (λ (e : ℕ × PriceBar d). stored_prices e.1 e.1.high_price e.1.close_price)
        (list_recent d symbol market "1d" 252 s.bars)

  latest_close : StockPriceBar d → List (StockPriceBar d) → D
  latest_close bar [] = bar.close_price
  latest_close bar (next ∷ bars) = latest_close next bars

  -- `_build_price_snapshot` with `_snapshot_from_features`
  unfoldable pub build_price_snapshot : List (StockPriceBar d) → PriceSnapshot F
  unfolding latest_close float_of
  build_price_snapshot [] = record {
    close = none;
    return_1d = none;
    return_5d = none;
    return_20d = none;
    drawdown_from_52w_high = none;
    volume_vs_20d_avg = none;
  }
  build_price_snapshot (bar ∷ bars) =
      let features = build d (bar ∷ bars) in
      record {
        close = some (to_float (latest_close bar bars));
        return_1d = float_of features.return_1d;
        return_5d = float_of features.return_5d;
        return_20d = float_of features.return_20d;
        drawdown_from_52w_high = float_of features.drawdown_from_52w_high;
        volume_vs_20d_avg = float_of features.volume_vs_20d_avg;
      }

  summary_of :
      Option (List String → List (Quote d upper))
      → Sources
      → Result AppException (ℕ × Portfolio d)
      → Option (Summary d upper)
  summary_of quotes s (err e) = none
  summary_of none s (ok p) = none
  summary_of (some get_quote) s (ok p) =
      some (build_summary d upper get_quote s.assets s.positions p)

  of_first :
      Option (List String → List (Quote d upper))
      → ℕ
      → Sources
      → Option (ℕ × Portfolio d)
      → Option (Summary d upper)
  unfolding summary_of
  of_first quotes user_id s none = none
  of_first quotes user_id s (some p) =
      summary_of quotes s (get_owned_portfolio d p.0 user_id s.portfolios)

  -- `_get_first_portfolio_summary`, with its `except Exception`
  unfoldable pub get_first_portfolio_summary : Fetch → ℕ → Sources → Option (Summary d upper)
  unfolding of_first
  get_first_portfolio_summary fetch user_id s =
      of_first (s.quotes fetch) user_id s (head? (list_by_user d user_id 0 (some 1) s.portfolios))

  -- `_calculate_unrealized_return`
  unfoldable pub calculate_unrealized_return : PositionWeight d upper → Option F
  calculate_unrealized_return p =
      if equal p.cost_value (of_ℕ 0)
      then none
      else some (to_float (div (sub p.market_value p.cost_value) p.cost_value))

  context_of : Option (PositionWeight d upper) → Option (PortfolioContext F)
  context_of none = none
  context_of (some p) = some (record {
    holding = true;
    weight = some (to_float p.weight);
    avg_buy_price = some (to_float p.avg_buy_price);
    unrealized_return = calculate_unrealized_return p;
  })

  position_in : ℕ → Option (Summary d upper) → Option (PortfolioContext F)
  unfolding context_of
  position_in asset_id none = none
  position_in asset_id (some summary) =
      context_of
        (head? (filter (λ (p : PositionWeight d upper). p.asset_id == asset_id) summary.positions))

  -- `_build_position_context`
  unfoldable pub build_position_context : Fetch → ℕ → ℕ → Sources → Option (PortfolioContext F)
  unfolding position_in
  build_position_context fetch user_id asset_id s =
      position_in asset_id (get_first_portfolio_summary fetch user_id s)

  -- `_build_recent_news`
  unfoldable pub build_recent_news : ℕ → Sources → List RecentNewsItem
  build_recent_news asset_id s = map recent_news_item (take 5 (list_news asset_id s.news))

  -- `_build_signals`
  unfoldable pub build_signals : ℕ → ℕ → Sources → List SignalItem
  build_signals now asset_id s =
      map signal_item (list_by_asset now asset_id false 0 (some 5) s.signals)

  card_of : Fetch → ℕ → ℕ → String → String → Sources → Option (ℕ × Asset) → SymbolCard F
  unfolding recent_bars
  card_of fetch now user_id symbol market s none = record {
    symbol = symbol;
    market = market;
    display_name = "";
    price_snapshot = build_price_snapshot (recent_bars symbol market s);
    portfolio_context = none;
    recent_news = [];
    signals = [];
  }
  card_of fetch now user_id symbol market s (some (asset_id, asset)) = record {
    symbol = symbol;
    market = market;
    display_name = asset.name;
    price_snapshot = build_price_snapshot (recent_bars symbol market s);
    portfolio_context = build_position_context fetch user_id asset_id s;
    recent_news = build_recent_news asset_id s;
    signals = build_signals now asset_id s;
  }

  -- `build_symbol_context`
  unfoldable pub build_symbol_context : Fetch → ℕ → ℕ → String × String → Sources → SymbolCard F
  unfolding card_of
  build_symbol_context fetch now user_id (symbol, market) s =
      card_of fetch now user_id symbol market s (get_by_symbol_market symbol market s.assets)

  -- `_concentration_risk`
  unfoldable pub concentration_risk : Summary d upper → String
  concentration_risk summary =
      if any (λ (p : PositionWeight d upper). p.exceeds_threshold) summary.positions
      then "high"
      else if summary.has_sector_concentration
      then "medium"
      else "low"

  top_weight : D → List (PositionWeight d upper) → D
  top_weight weight [] = weight
  top_weight weight (p ∷ ps) = top_weight (if less weight p.weight then p.weight else weight) ps

  portfolio_of : Summary d upper → List (PositionWeight d upper) → Option (PortfolioSummary F)
  unfolding top_weight
  portfolio_of summary [] = none
  portfolio_of summary (p ∷ ps) = some (record {
    cash_ratio = some (to_float summary.cash_weight);
    top_holding_weight = some (to_float (top_weight p.weight ps));
    concentration_risk = concentration_risk summary;
  })

  portfolio_in : Option (Summary d upper) → Option (PortfolioSummary F)
  unfolding portfolio_of
  portfolio_in none = none
  portfolio_in (some summary) = portfolio_of summary summary.positions

  -- `build_portfolio_context`
  unfoldable pub build_portfolio_context : ℕ → Sources → Option (PortfolioSummary F)
  unfolding portfolio_in
  build_portfolio_context user_id s =
      portfolio_in (get_first_portfolio_summary of_summary user_id s)

  status_of : Option (Summary d upper) → DataQualityStatus
  status_of none = missing
  status_of (some summary) = if is_some (head? summary.positions) then valid else missing

  -- `_portfolio_data_status`
  unfoldable pub portfolio_data_status : ℕ → Sources → DataQualityStatus
  unfolding status_of
  portfolio_data_status user_id s = status_of (get_first_portfolio_summary of_status user_id s)

  -- `_build_data_quality`
  unfoldable pub build_data_quality : List (SymbolCard F) → ℕ → Sources → DataQualitySection
  build_data_quality cards user_id s =
      let price = price_data_status cards in
      let news = news_data_status cards in
      let portfolio = portfolio_data_status user_id s in
      record {
        price_data_status = price;
        news_data_status = news;
        portfolio_data_status = portfolio;
        warnings = quality_warnings price news portfolio;
      }

  -- the card of each symbol, from the place `n` on
  unfoldable pub build_cards : ℕ → ℕ → ℕ → List (String × String) → Sources → List (SymbolCard F)
  build_cards n now user_id [] s = []
  build_cards n now user_id (symbol ∷ symbols) s =
      build_symbol_context (of_card n) now user_id symbol s
      ∷ build_cards (suc n) now user_id symbols s

  -- `build_context_bundle`
  unfoldable pub build_context_bundle :
      ℕ → TaskType → ℕ → List (String × String) → Sources → LlmContextBundle F
  unfolding flat_map
  build_context_bundle now task user_id symbols s =
      let cards = build_cards 0 now user_id symbols s in
      record {
        task_type = task;
        as_of = now;
        user_intent = user_intent task;
        symbols = map (λ symbol. symbol.0) symbols;
        data_quality = build_data_quality cards user_id s;
        symbol_cards = cards;
        portfolio_summary = build_portfolio_context user_id s;
        user_rules = default_user_rules;
        recent_decisions =
            flat_map (λ symbol. build_recent_decision_context user_id symbol.0 s.decisions) symbols;
        output_contract = record { format = "json"; required_fields = output_required_fields };
      }
