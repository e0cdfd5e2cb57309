-- ===== src/Portfolios/Concentration.antt =====
-- app/domains/portfolios/service.py: `check_concentration`.
pub mod Alerts
use project_stock.Base.{
  ℕ, String, Bool, true, false, Option, none, some, List, [], ◌∷◌, ◌++◌, ltb, if◌then◌else◌,
}
use project_stock.Base.Exec.{Result, ok, err, Exec}
use project_stock.Int.{ℤ, pos, negsuc}
use project_stock.Errors.{AppException}
use project_stock.Signals.{
  Signal, SignalCreate, Signals, risk_alert, value, number, words, create, exists_active,
}
use project_stock.Assets.{Assets}
use project_stock.Decimal.{Decimals}
use project_stock.Portfolios.{Portfolio, Portfolios, Positions, get_owned_portfolio}
use project_stock.Portfolios.Weights.{Quote, PositionWeight, Summary, build_summary}

-- `max(0, min(100, n))`
unfoldable pub clamped : ℤ → ℕ
clamped (negsuc n) = 0
clamped (pos n) = if ltb 100 n then 100 else n

-- `truncated` is `int` and `str_decimal` is `str` of a decimal
module _ (d : Decimals) (upper : String → String) (truncated : d.D → ℤ)
    (str_decimal : d.D → String) where
  -- `_score_from_weight`
  unfoldable pub score_from_weight : d.D → ℕ
  score_from_weight weight = clamped (truncated (d.mul weight (d.of_ℕ 100)))

  unfoldable pub risk_signal : ℕ → d.D → PositionWeight d upper → SignalCreate
  risk_signal portfolio_id threshold p = record {
    asset_id = p.asset_id;
    thesis_id = none;
    news_item_id = none;
    signal_type = risk_alert;
    score = score_from_weight p.weight;
    risk_level = some "HIGH";
    reason = "포트폴리오 단일 종목 비중이 임계치를 초과했습니다.";
    evidence = some (
        ("portfolio_id", number portfolio_id)
        ∷ ("weight", words (str_decimal p.weight))
        ∷ ("threshold", words (str_decimal threshold))
        ∷ ("cost_value", words (str_decimal p.cost_value))
        ∷ ("market_value", words (str_decimal p.market_value))
        ∷ []);
    expires_at = none;
  }

  -- one round of the loop
  unfoldable pub check_position :
      ℕ → ℕ → d.D → PositionWeight d upper → Signals → List (ℕ × Signal) × Signals
  check_position now portfolio_id threshold p t =
      if p.exceeds_threshold
      then (if exists_active now p.asset_id (value risk_alert) none t
          then ([], t)
          else (let (s, t') = create now (risk_signal portfolio_id threshold p) t in (s ∷ [], t')))
      else ([], t)

  unfoldable pub check_positions :
      ℕ → ℕ → d.D → List (PositionWeight d upper) → Signals → List (ℕ × Signal) × Signals
  check_positions now portfolio_id threshold [] t = ([], t)
  check_positions now portfolio_id threshold (p ∷ ps) t =
      let (made, t') = check_position now portfolio_id threshold p t in
      let (rest, t'') = check_positions now portfolio_id threshold ps t' in (made ++ rest, t'')

  checked :
      ℕ
      → (ℕ × Portfolio d → Summary d upper)
      → Result AppException (ℕ × Portfolio d)
      → Exec AppException Signals (Summary d upper × List (ℕ × Signal))
  checked now summarize (err e) t = (err e, t)
  checked now summarize (ok p) t =
      let summary = summarize p in
      let (made, t') =
        check_positions now p.0 summary.concentration_threshold summary.positions t in
      (ok (summary, made), t')

  -- `PortfolioService.check_concentration`
  unfoldable pub check_concentration :
      (List String → List (Quote d upper))
      → Assets
      → Portfolios d
      → Positions d
      → ℕ
      → ℕ
      → ℕ
      → Exec AppException Signals (Summary d upper × List (ℕ × Signal))
  unfolding checked
  check_concentration get_quote assets portfolios positions now portfolio_id user_id =
      checked now (build_summary d upper get_quote assets positions)
        (get_owned_portfolio d portfolio_id user_id portfolios)
