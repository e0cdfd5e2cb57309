-- ===== src/Prices/Validator/Report.antt =====
-- What the validation of a series reports.
use project_stock.Base.{
  ℕ, ◌+◌, String, Bool, true, false, ◌&&◌, List, [], ◌∷◌, ◌++◌, ◌≡◌, ◌↔◌, refl, ap, ◌∙◌, append-nil,
  append_assoc, ltb, not, arith, filter, length, length-append, inl, inr, Bool-cases, if◌then◌else◌,
}
use project_stock.Store.Order.{order_by, length-order_by}
use project_stock.Decimal.{Decimals}
use project_stock.Prices.{
  valid, invalid, ValidationErrorReason, currency_mismatch, outlier_return, PriceBar,
}
use project_stock.Prices.Validator.{
  Scan, start, warn_if, is_outlier, currency_differs, expected_currency, has_missing_required_price,
  is_future, scan_bar, scan_bars, by_timestamp, validate_bars, status_for_counts,
}

status_for_counts-exact :
    (dropped warnings : ℕ)
    → (status_for_counts dropped warnings ≡ invalid ↔ ltb 0 dropped ≡ true)
      × (status_for_counts dropped warnings ≡ valid ↔ dropped + warnings ≡ 0)
unfolding status_for_counts
status_for_counts-exact dropped warnings =
    (((λ p. ground arith), (λ p. ground arith)), ((λ p. ground arith), (λ p. ground arith)))

module _ (d : Decimals) (upper : String → String) (today : ℕ) (market : String) where
  -- A bar is acceptable if it has its five prices and is not dated after today.
  abbrev pub is_acceptable : PriceBar d → Bool
  is_acceptable bar =
      not (has_missing_required_price d upper bar) && not (is_future d upper today bar)

  abbrev scanned : List (PriceBar d) → Scan d upper → Scan d upper
  scanned = scan_bars d upper market today

  -- A warning changes the count of warnings, by one together with the reasons, and nothing else.
  abbrev Warned : Scan d upper → Scan d upper → Type 0
  Warned s s' =
      (s'.valid_bars ≡ s.valid_bars)
      × (s'.dropped_count ≡ s.dropped_count)
      × (length s'.reasons + s.warning_count ≡ length s.reasons + s'.warning_count)

  warn_if-Warned :
      (b : Bool) (reason : ValidationErrorReason) (s : Scan d upper)
      → Warned s (warn_if d upper b reason s)
  warn_if-Warned true reason s = (refl, refl, rw length-append (omega arith))
  warn_if-Warned false reason s = (refl, refl, omega arith)

  -- What one round does to the bars that are kept and to the counts.
  abbrev Scanned : PriceBar d → Scan d upper → Scan d upper → Type 0
  Scanned bar s s' =
      (s'.valid_bars ≡ s.valid_bars ++ (if is_acceptable bar then bar ∷ [] else []))
      × (s'.dropped_count ≡ s.dropped_count + (if is_acceptable bar then 0 else 1))
      × (length s'.reasons + s.dropped_count + s.warning_count
          ≡ length s.reasons + s'.dropped_count + s'.warning_count)

  scan_bar-Scanned :
      (bar : PriceBar d) (s : Scan d upper) → Scanned bar s (scan_bar d upper market today bar s)
  unfolding scan_bar
  scan_bar-Scanned bar s = elim (Bool-cases (has_missing_required_price d upper bar)) [
    | inl missing ↦ rw missing (rw append-nil refl, omega arith, rw length-append (omega arith))
    | inr priced ↦ rw priced (elim (Bool-cases (is_future d upper today bar)) [
      | inl later ↦ rw later (rw append-nil refl, omega arith, rw length-append (omega arith))
      | inr past ↦ rw past (
          let s₁ =
            warn_if d upper (currency_differs upper (expected_currency market) bar.currency)
              currency_mismatch s in
          let first =
            warn_if-Warned (currency_differs upper (expected_currency market) bar.currency)
              currency_mismatch s in
          let second =
            warn_if-Warned (is_outlier d upper s.previous_close bar.close_price) outlier_return
              s₁ in
          (
            ap (λ vs. vs ++ bar ∷ []) (second.0 ∙ first.0),
            omega (arith, first.1, second.1),
            omega (arith, first.1, second.1, first.2, second.2),
          ))
    ])
  ]

  by_kept :
      (bar : PriceBar d) (s : Scan d upper)
      → is_acceptable bar ≡ true
      → (scan_bar d upper market today bar s).dropped_count
        ≡ s.dropped_count + (if is_acceptable bar then 0 else 1)
      → (scan_bar d upper market today bar s).dropped_count ≡ s.dropped_count
  by_kept bar s kept p = p ∙ rw kept (omega arith)

  by_dropped :
      (bar : PriceBar d) (s : Scan d upper)
      → is_acceptable bar ≡ false
      → (scan_bar d upper market today bar s).dropped_count
        ≡ s.dropped_count + (if is_acceptable bar then 0 else 1)
      → (scan_bar d upper market today bar s).dropped_count ≡ s.dropped_count + 1
  by_dropped bar s dropped p = p ∙ rw dropped refl

  scan_bars-valid_bars :
      (bars : List (PriceBar d)) (s : Scan d upper)
      → (scanned bars s).valid_bars ≡ s.valid_bars ++ filter is_acceptable bars
  unfolding scan_bars
  scan_bars-valid_bars [] s = rw append-nil
  scan_bars-valid_bars (bar ∷ bars) s =
      rw
        (
          scan_bars-valid_bars bars (scan_bar d upper market today bar s),
          (scan_bar-Scanned bar s).0,
        )
        (elim (Bool-cases (is_acceptable bar)) [
          | inl kept ↦ rw kept (rw append_assoc refl)
          | inr dropped ↦ rw dropped (rw append-nil refl)
        ])

  scan_bars-counts :
      (bars : List (PriceBar d)) (s : Scan d upper)
      → (length (filter is_acceptable bars) + (scanned bars s).dropped_count
          ≡ length bars + s.dropped_count)
        × (length (scanned bars s).reasons + s.dropped_count + s.warning_count
            ≡ length s.reasons + (scanned bars s).dropped_count + (scanned bars s).warning_count)
  unfolding scan_bars
  scan_bars-counts [] s = (omega arith, omega arith)
  scan_bars-counts (bar ∷ bars) s =
      let one = scan_bar-Scanned bar s in
      let rest = scan_bars-counts bars (scan_bar d upper market today bar s) in
      (
        elim (Bool-cases (is_acceptable bar)) [
          | inl kept ↦ rw kept (omega (arith, by_kept bar s kept one.1, rest.0))
          | inr dropped ↦ rw dropped (omega (arith, by_dropped bar s dropped one.1, rest.0))
        ],
        omega (arith, one.2, rest.1),
      )

  -- Validating a series keeps exactly the bars that have their five prices and are not dated after today, in
  -- the order of their timestamps; the bars kept and the bars dropped add up to the series, and there is one
  -- reason for each dropped bar and for each warning.
  pub validate_bars_exact :
      (bars : List (PriceBar d))
      → ((validate_bars d upper today bars market).valid_bars
          ≡ filter is_acceptable (order_by (by_timestamp d upper) bars))
        × (length (validate_bars d upper today bars market).valid_bars
              + (validate_bars d upper today bars market).dropped_count
            ≡ length bars)
        × (length (validate_bars d upper today bars market).reasons
            ≡ (validate_bars d upper today bars market).dropped_count
              + (validate_bars d upper today bars market).warning_count)
  unfolding validate_bars
  validate_bars_exact bars =
      let sorted = order_by (by_timestamp d upper) bars in
      let kept = scan_bars-valid_bars sorted (start d upper) in
      let counts = scan_bars-counts sorted (start d upper) in
      (
        kept,
        omega (arith, ap length kept, counts.0, length-order_by (by_timestamp d upper) bars),
        omega (arith, counts.1),
      )

  -- The status of a validated series is invalid exactly if a bar was dropped, and it is valid exactly if there
  -- is nothing to report.
  pub validate_bars_status :
      (bars : List (PriceBar d))
      → ((validate_bars d upper today bars market).status ≡ invalid
          ↔ ltb 0 (validate_bars d upper today bars market).dropped_count ≡ true)
        × ((validate_bars d upper today bars market).status ≡ valid
            ↔ (length (validate_bars d upper today bars market).reasons ≡ 0))
  unfolding validate_bars
  validate_bars_status bars =
      let end = scanned (order_by (by_timestamp d upper) bars) (start d upper) in
      let counts = scan_bars-counts (order_by (by_timestamp d upper) bars) (start d upper) in
      let status = status_for_counts-exact end.dropped_count end.warning_count in
      (
        status.0,
        (
          (λ is_valid. omega (arith, counts.1, status.1.0 is_valid)),
          (λ silent. status.1.1 (omega (arith, counts.1, silent))),
        ),
      )
