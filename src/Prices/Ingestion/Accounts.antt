-- ===== src/Prices/Ingestion/Accounts.antt =====
-- The counters of a collection add up, and its tables keep their constraints.
use project_stock.Base.{
  ℕ, suc, ◌+◌, String, Bool, true, false, Option, none, some, List, [], ◌∷◌, ◌≡◌, refl, ap, ◌∙◌,
  length, is_some, inl, inr, Bool-cases, arith, if◌then◌else◌,
}
use project_stock.Base.Exec.{Result, ok, err}
use project_stock.Decimal.{Decimals}
use project_stock.RawPrices.{save_raw}
use project_stock.RawPrices.Once.{StoredOnce, save_raw-StoredOnce}
use project_stock.Prices.{PriceBar}
use project_stock.Prices.Validator.{validate_bars}
use project_stock.Prices.Validator.Report.{validate_bars_exact}
use project_stock.Prices.Repository.{Bars, upsert_bars}
use project_stock.Prices.Repository.Keys.{HasUniqueBars, IfSome}
use project_stock.Prices.Repository.Latest.{Upserts, upsert_bars-put_bars}
use project_stock.Prices.Ingestion.{
  IngestionResult, Payload, Provider, Stored, Faults, Outcome, passes, raises, breaks, broken,
  provider_source, provider_payload, count_success, bars_saved, save_bars, validated, raw_saved,
  collected, collect_target, collect_all, collect_and_save, initial,
}

module _ (d : Decimals) (P : Type 0) (upper : String → String) (hash_payload : Payload d P → String)
    (faults : Faults d) (provider : Provider d P) (now today : ℕ) where
  abbrev pub HasConstraints : Stored d P upper hash_payload → Type 0
  HasConstraints s = StoredOnce upper hash_payload s.raw × HasUniqueBars d s.bars

  -- What the counters say about the targets that are done.
  abbrev pub AddsUp : ℕ → IngestionResult → Type 0
  AddsUp done r =
      (r.success_count + r.failure_count ≡ done)
      × (r.raw_saved_count + r.raw_skipped_count ≡ r.success_count)
      × (r.saved_bar_count + r.dropped_bar_count ≡ r.received_bar_count)

  abbrev Goes : ℕ → ℕ → IngestionResult × Stored d P upper hash_payload → Type 0
  Goes total done (r, s) = (r.target_count ≡ total) × AddsUp done r × HasConstraints s

  saved_or_skipped :
      (b : Bool) (m n : ℕ) → (m + (if b then 1 else 0)) + (n + (if b then 0 else 1)) ≡ m + n + 1
  saved_or_skipped true m n = omega arith
  saved_or_skipped false m n = omega arith

  -- a target that fails is counted, and leaves the tables as they are
  fails-Goes :
      (total done : ℕ) (r : IngestionResult) (s t : Stored d P upper hash_payload)
      → Goes total done (r, s)
      → HasConstraints t
      → Goes total (done + 1) (record r { failure_count = r.failure_count + 1 }, t)
  fails-Goes total done r s t h kept = (h.0, (omega (arith, h.1.0), h.1.1, h.1.2), kept)

  -- a target that succeeds, after `saved` of its bars were stored
  succeeds-Goes :
      (raw_saved : Bool) (bars : List (PriceBar d)) (market : String) (total done saved : ℕ)
      (r : IngestionResult) (s t : Stored d P upper hash_payload)
      → Goes total done (r, s)
      → saved ≡ length (validate_bars d upper today bars market).valid_bars
      → HasConstraints t
      → Goes total (done + 1) (
        count_success d P upper hash_payload raw_saved
            (length bars)
            saved
            (validate_bars d upper today bars market)
            r,
        t,
      )
  succeeds-Goes raw_saved bars market total done saved r s t h all kept = (
    h.0,
    (
      omega (arith, h.1.0),
      saved_or_skipped raw_saved r.raw_saved_count r.raw_skipped_count ∙ ap (λ n. n + 1) h.1.1,
      omega (arith, h.1.2, all, (validate_bars_exact d upper today market bars).1),
    ),
    kept,
  )

  bars_saved-Goes :
      (raw_saved : Bool) (bars : List (PriceBar d)) (market : String) (total done : ℕ)
      (r : IngestionResult) (s : Stored d P upper hash_payload) (stored : Option (ℕ × Bars d))
      → Goes total done (r, s)
      → IfSome d
          (λ u.
            (u.0 ≡ length (validate_bars d upper today bars market).valid_bars)
            × HasUniqueBars d u.1)
          stored
      → Goes total (done + 1) (
          bars_saved d P upper hash_payload faults provider now today raw_saved bars
            (validate_bars d upper today bars market)
            r
            s
            stored)
  unfolding bars_saved
  bars_saved-Goes raw_saved bars market total done r s none h ok_bars =
      fails-Goes total done r s (broken d P upper hash_payload s) h h.2
  bars_saved-Goes raw_saved bars market total done r s (some (saved, u)) h ok_bars =
      succeeds-Goes raw_saved bars market total done saved r s (record s { bars = u }) h ok_bars.0
        (h.2.0, ok_bars.1)

  upserted :
      (bars : List (PriceBar d)) (u : Bars d) (stored : Option (ℕ × Bars d))
      → Upserts d bars u stored
      → IfSome d (λ r. (r.0 ≡ length bars) × HasUniqueBars d r.1) stored
  upserted bars u none h = tt
  upserted bars u (some r) h = (h.0.0, h.0.2)

  save_bars-Goes :
      (is_new : Bool) (bars : List (PriceBar d)) (market : String) (total done : ℕ)
      (r : IngestionResult) (s : Stored d P upper hash_payload) (valid_bars : List (PriceBar d))
      → Goes total done (r, s)
      → valid_bars ≡ (validate_bars d upper today bars market).valid_bars
      → Goes total (done + 1) (
          save_bars d P upper hash_payload faults provider now today is_new bars
            (validate_bars d upper today bars market)
            r
            s
            valid_bars)
  unfolding save_bars
  save_bars-Goes is_new bars market total done r s [] h e =
      succeeds-Goes is_new bars market total done 0 r s s h (ap length e) h.2
  save_bars-Goes is_new bars market total done r s (bar ∷ rest) h e =
      by_outcome (faults.bars_write (bar ∷ rest))
    where
      of_these :
          (o : Option (ℕ × Bars d))
          → IfSome d (λ u. (u.0 ≡ length (bar ∷ rest)) × HasUniqueBars d u.1) o
          → IfSome d
              (λ u.
                (u.0 ≡ length (validate_bars d upper today bars market).valid_bars)
                × HasUniqueBars d u.1)
              o
      of_these none k = tt
      of_these (some u) k = (k.0 ∙ ap length e, k.1)

      by_outcome :
          (o : Outcome)
          → Goes total (done + 1) (elim o [
            | passes ↦
                bars_saved d P upper hash_payload faults provider now today is_new bars
                  (validate_bars d upper today bars market)
                  r
                  s
                  (upsert_bars d (bar ∷ rest) s.bars)
            | raises ↦ (record r { failure_count = r.failure_count + 1 }, s)
            | breaks ↦
                (record r { failure_count = r.failure_count + 1 }, broken d P upper hash_payload s)
          ])
      by_outcome raises = fails-Goes total done r s s h h.2
      by_outcome breaks = fails-Goes total done r s (broken d P upper hash_payload s) h h.2
      by_outcome passes =
          let stored = upsert_bars d (bar ∷ rest) s.bars in
          bars_saved-Goes is_new bars market total done r s stored h (
            of_these stored (
              upserted (bar ∷ rest) s.bars stored
                (upsert_bars-put_bars d (bar ∷ rest) s.bars h.2.1)))

  validated-Goes :
      (market : String) (is_new : Bool) (bars : List (PriceBar d)) (total done : ℕ)
      (r : IngestionResult) (s : Stored d P upper hash_payload)
      → Goes total done (r, s)
      → Goes total
          (done + 1)
          (validated d P upper hash_payload faults provider now today market is_new bars r s)
  unfolding validated
  validated-Goes market is_new bars total done r s h =
      elim (Bool-cases (faults.validation_raises bars)) [
        | inl e ↦ rw e (fails-Goes total done r s s h h.2)
        | inr e ↦ rw e (
            save_bars-Goes is_new bars market total done r s
              (validate_bars d upper today bars market).valid_bars h refl)
      ]

  raw_saved-Goes :
      (symbol market : String) (bars : List (PriceBar d)) (total done : ℕ) (r : IngestionResult)
      (s : Stored d P upper hash_payload) (o : Outcome)
      → Goes total done (r, s)
      → Goes total
          (done + 1)
          (raw_saved d P upper hash_payload faults provider now today symbol market bars r s o)
  unfolding raw_saved
  raw_saved-Goes symbol market bars total done r s raises h = fails-Goes total done r s s h h.2
  raw_saved-Goes symbol market bars total done r s breaks h =
      fails-Goes total done r s (broken d P upper hash_payload s) h h.2
  raw_saved-Goes symbol market bars total done r s passes h =
      let payload = provider_payload d P upper hash_payload provider symbol market bars in
      let source = provider_source d P upper hash_payload provider bars in
      let raw = save_raw upper hash_payload now symbol market payload "1d" source s.raw in
      validated-Goes market (is_some raw.0) bars total done r (record s { raw = raw.1 })
        (
          h.0,
          h.1,
          (
            (save_raw-StoredOnce upper hash_payload now symbol market payload "1d" source s.raw
                h.2.0).3,
            h.2.1,
          ),
        )

  collected-Goes :
      (symbol market : String) (bars : Result String (List (PriceBar d))) (total done : ℕ)
      (r : IngestionResult) (s : Stored d P upper hash_payload)
      → Goes total done (r, s)
      → Goes total
          (done + 1)
          (collected d P upper hash_payload faults provider now today symbol market bars (r, s))
  unfolding collected
  collected-Goes symbol market (err e) total done r s h = fails-Goes total done r s s h h.2
  collected-Goes symbol market (ok bars) total done r s h =
      by_state s.needs_rollback _ _ (fails-Goes total done r s s h h.2)
        (raw_saved-Goes symbol market bars total done r s (faults.raw_write symbol market) h)
    where
      by_state :
          (b : Bool) (x y : IngestionResult × Stored d P upper hash_payload)
          → Goes total (done + 1) x
          → Goes total (done + 1) y
          → Goes total (done + 1) (if b then x else y)
      by_state true x y h k = h
      by_state false x y h k = k

  no_more : (m : ℕ) → m + 0 ≡ m
  no_more m = omega arith

  one_more : (m n : ℕ) → m + suc n ≡ (m + 1) + n
  one_more m n = omega arith

  collect_all-Goes :
      (targets : List (String × String)) (total done : ℕ)
      (s : IngestionResult × Stored d P upper hash_payload)
      → Goes total done s
      → Goes total
          (done + length targets)
          (collect_all d P upper hash_payload faults provider now today targets s)
  unfolding collect_all collect_target
  collect_all-Goes [] total done s h = rw (no_more done) h
  collect_all-Goes ((symbol, market) ∷ targets) total done (r, s) h =
      rw (one_more done (length targets)) (
        collect_all-Goes targets total (done + 1) _ (
          collected-Goes (upper symbol) (upper market)
            (provider.get_daily_bars (upper symbol) (upper market)) total done r s h))

  none_before : (m : ℕ) → 0 + m ≡ m
  none_before m = omega arith

  -- A collection counts each target as a success or a failure, each success as a payload stored or skipped,
  -- and each received bar as saved or dropped, and it keeps the unique constraints of the payloads and the bars.
  pub collect_and_save-AddsUp :
      (targets : List (String × String)) (s : Stored d P upper hash_payload)
      → HasConstraints s
      → AddsUp
          (length targets)
          (collect_and_save d P upper hash_payload faults provider now today targets s).0
        × HasConstraints
            (collect_and_save d P upper hash_payload faults provider now today targets s).1
  unfolding collect_and_save
  collect_and_save-AddsUp targets s h =
      let end =
        collect_all-Goes targets (length targets) 0
          (initial d P upper hash_payload faults provider now today (length targets), s)
          (refl, (refl, refl, refl), h) in
      ((end.1.0 ∙ none_before (length targets), end.1.1, end.1.2), end.2)
