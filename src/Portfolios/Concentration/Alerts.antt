-- ===== src/Portfolios/Concentration/Alerts.antt =====
-- The risk alerts that a check of the concentration leaves behind.
use project_stock.Base.{
  ℕ, ◌≤◌, String, true, Option, none, some, List, [], ◌≡◌, map, filter, All, arith,
}
use project_stock.Base.Exec.{Result, ok, err, Exec}
use project_stock.Int.{ℤ, pos, negsuc}
use project_stock.Errors.{AppException}
use project_stock.Signals.{Signal, SignalCreate, Signals, risk_alert, value, exists_active}
use project_stock.Signals.Active.{NoActiveDuplicate}
use project_stock.Assets.{Assets}
use project_stock.Decimal.{Decimals}
use project_stock.Portfolios.{Portfolios}
use project_stock.Portfolios.Weights.{PositionWeight, Summary}
use project_stock.Portfolios.Concentration.{clamped, score_from_weight, risk_signal}

at_most : (n : ℤ) → clamped n ≤ 100
unfolding clamped
at_most (negsuc n) = omega arith
at_most (pos n) = ground arith

module _ (d : Decimals) (upper : String → String) (truncated : d.D → ℤ)
    (str_decimal : d.D → String) where
  -- what the check proposes: a risk alert for each position above the threshold
  abbrev pub proposals : ℕ → d.D → List (PositionWeight d upper) → List SignalCreate
  proposals portfolio_id threshold ps =
      map (risk_signal d upper truncated str_decimal portfolio_id threshold)
        (filter (λ (p : PositionWeight d upper). p.exceeds_threshold) ps)

  -- Every position above the threshold has an active risk alert.
  abbrev pub IsAlerted : ℕ → List (PositionWeight d upper) → Signals → Type 0
  IsAlerted now ps t =
      All
        (λ (p : PositionWeight d upper).
          p.exceeds_threshold ≡ true
          → exists_active now p.asset_id (value risk_alert) none t ≡ true)
        ps

  -- Every position whose weight is above the threshold has an active risk alert.
  abbrev pub IsCovered : ℕ → d.D → List (PositionWeight d upper) → Signals → Type 0
  IsCovered now threshold ps t =
      All
        (λ (p : PositionWeight d upper).
          d.less threshold p.weight ≡ true
          → exists_active now p.asset_id (value risk_alert) none t ≡ true)
        ps

  -- the summary of an answer
  abbrev pub summary_in :
      Result AppException (Summary d upper × List (ℕ × Signal)) → Option (Summary d upper)
  summary_in (err e) = none
  summary_in (ok (summary, made)) = some summary

  -- What a check leaves behind, by the summary of the portfolio.
  abbrev pub Checked :
      ℕ
      → d.D
      → Summary d upper
      → Exec AppException Signals (Summary d upper × List (ℕ × Signal))
      → Signals
      → Type 0
  Checked now threshold summary check t =
      (summary_in (check t).0 ≡ some summary)
      × IsCovered now threshold summary.positions (check t).1
      × NoActiveDuplicate now (check t).1
      × (check (check t).1 ≡ (ok (summary, []), (check t).1))

  -- The score of a risk alert is at most 100, whatever the weight.
  pub risk_signal_score :
      (portfolio_id : ℕ) (threshold : d.D) (p : PositionWeight d upper)
      → (risk_signal d upper truncated str_decimal portfolio_id threshold p).score ≤ 100
  unfolding risk_signal score_from_weight
  risk_signal_score portfolio_id threshold p = at_most (truncated (d.mul p.weight (d.of_ℕ 100)))
