-- ===== src/LlmContext/Builder/Quality.antt =====
-- What the data quality of a context bundle says of the rest of the bundle.
use project_stock.Base.{
  ℕ, suc, ◌≤◌, ◌++◌, ◌∙◌, Bool, String, true, false, Option, none, some, List, [], ◌∷◌, ◌≡◌, refl,
  any, filter, length, ltb, is_some, head?, arith, if◌then◌else◌, ap,
}
use project_stock.Llm.{TaskType}
use project_stock.Decimal.{Decimals}
use project_stock.Portfolios.Weights.{PositionWeight, Summary}
use project_stock.Portfolios.{list_by_user}
use project_stock.LlmContext.{
  DataQualityStatus, valid, partial, missing, SymbolCard, LlmContextBundle,
}
use project_stock.LlmContext.Builder.{
  has_any_price_data, price_data_status, all_complete, Sources, status_of, portfolio_in,
  portfolio_of, portfolio_data_status, build_portfolio_context, build_data_quality,
  build_context_bundle, build_cards, get_first_portfolio_summary, of_first, of_status, of_summary,
  quality_warnings, news_data_status, has_news,
}

module _ {F : Type 0} where
  count_any :
      (cards : List (SymbolCard F))
      → ltb 0 (length (filter has_any_price_data cards)) ≡ any has_any_price_data cards
  count_any [] = refl
  count_any (card ∷ cards) = ground (arith, count_any cards)

  count_bound :
      (cards : List (SymbolCard F)) → length (filter has_any_price_data cards) ≤ length cards
  count_bound [] = omega arith
  count_bound (card ∷ cards) = ground (arith, count_bound cards)

  count_complete :
      (cards : List (SymbolCard F))
      → all_complete cards ≡ true
      → length (filter has_any_price_data cards) ≡ length cards
  count_complete [] h = refl
  count_complete (card ∷ cards) h = ground (arith, h, count_complete cards)

  -- The status of the prices, read off the cards.
  abbrev pub expected_price_status : List (SymbolCard F) → DataQualityStatus
  expected_price_status cards =
      if any has_any_price_data cards
      then (if all_complete cards then valid else partial)
      else missing

  price_data_status_lem :
      (cards : List (SymbolCard F)) → price_data_status cards ≡ expected_price_status cards
  unfolding price_data_status
  price_data_status_lem [] = refl
  price_data_status_lem (card ∷ cards) =
      ground (arith, count_any (card ∷ cards), count_bound cards, count_complete (card ∷ cards))

module _ (d : Decimals) (upper : String → String) (F : Type 0) (to_float : d.D → F) where
  status_of-portfolio :
      (summary : Summary d upper) (positions : List (PositionWeight d upper))
      → (if is_some (head? positions) then valid else missing)
        ≡ (if is_some (portfolio_of d upper F to_float summary positions) then valid else missing)
  unfolding portfolio_of
  status_of-portfolio summary [] = refl
  status_of-portfolio summary (p ∷ ps) = refl

  status_of-portfolio_in :
      (o : Option (Summary d upper))
      → status_of d upper F to_float o
        ≡ (if is_some (portfolio_in d upper F to_float o) then valid else missing)
  unfolding status_of portfolio_in
  status_of-portfolio_in none = refl
  status_of-portfolio_in (some summary) = status_of-portfolio summary summary.positions

  -- The status of the news, read off the cards.
  abbrev pub expected_news_status : List (SymbolCard F) → DataQualityStatus
  expected_news_status cards =
      if any (λ card. is_some (head? card.recent_news)) cards then valid else missing

  -- The warnings, by whether a card has a close, all cards have all prices, a card has news, and there is a
  -- portfolio summary.
  abbrev pub expected_warnings : Bool → Bool → Bool → Bool → List String
  expected_warnings priced complete news portfolio =
      (if priced
        then (if complete then [] else "일부 종목의 가격 데이터가 부족합니다." ∷ [])
        else "가격 데이터가 없습니다." ∷ [])
      ++ ((if news then [] else "뉴스 데이터는 아직 포함되지 않았습니다." ∷ [])
          ++ (if portfolio then [] else "포트폴리오 데이터가 없습니다." ∷ []))

  -- The quality section agrees with the cards and with the portfolio's summary, and there is a card for each
  -- symbol.
  abbrev pub IsTrueTo : List (String × String) → LlmContextBundle F → Type 0
  IsTrueTo symbols bundle =
      let quality = bundle.data_quality in
      let price = expected_price_status bundle.symbol_cards in
      let news = expected_news_status bundle.symbol_cards in
      let portfolio = (if is_some bundle.portfolio_summary then valid else missing) in
      (quality.price_data_status ≡ price)
      × (quality.news_data_status ≡ news)
      × (quality.portfolio_data_status ≡ portfolio)
      × (quality.warnings
          ≡ expected_warnings (any has_any_price_data bundle.symbol_cards)
              (all_complete bundle.symbol_cards)
              (any (λ card. is_some (head? card.recent_news)) bundle.symbol_cards)
              (is_some bundle.portfolio_summary))
      × (length bundle.symbol_cards ≡ length symbols)

  length-build_cards :
      (n now user_id : ℕ) (symbols : List (String × String)) (s : Sources d upper F to_float)
      → length (build_cards d upper F to_float n now user_id symbols s) ≡ length symbols
  unfolding build_cards
  length-build_cards n now user_id [] s = refl
  length-build_cards n now user_id (symbol ∷ symbols) s =
      ap suc (length-build_cards (suc n) now user_id symbols s)

  quality_warnings_lem :
      (priced complete news portfolio : Bool)
      → quality_warnings
          (if priced then (if complete then valid else partial) else missing)
          (if news then valid else missing)
          (if portfolio then valid else missing)
        ≡ expected_warnings priced complete news portfolio
  unfolding quality_warnings
  quality_warnings_lem true true true true = refl
  quality_warnings_lem true true true false = refl
  quality_warnings_lem true true false true = refl
  quality_warnings_lem true true false false = refl
  quality_warnings_lem true false true true = refl
  quality_warnings_lem true false true false = refl
  quality_warnings_lem true false false true = refl
  quality_warnings_lem true false false false = refl
  quality_warnings_lem false true true true = refl
  quality_warnings_lem false true true false = refl
  quality_warnings_lem false true false true = refl
  quality_warnings_lem false true false false = refl
  quality_warnings_lem false false true true = refl
  quality_warnings_lem false false true false = refl
  quality_warnings_lem false false false true = refl
  quality_warnings_lem false false false false = refl

  quality-IsTrueTo :
      (cards : List (SymbolCard F)) (user_id : ℕ) (s : Sources d upper F to_float)
      → s.quotes of_status ≡ s.quotes of_summary
      → (let quality = build_data_quality d upper F to_float cards user_id s in
          let summary = build_portfolio_context d upper F to_float user_id s in
          (quality.price_data_status ≡ expected_price_status cards)
          × (quality.news_data_status ≡ expected_news_status cards)
          × (quality.portfolio_data_status ≡ (if is_some summary then valid else missing))
          × (quality.warnings
              ≡ expected_warnings
                  (any has_any_price_data cards)
                  (all_complete cards)
                  (any (λ card. is_some (head? card.recent_news)) cards)
                  (is_some summary)))
  unfolding build_data_quality portfolio_data_status build_portfolio_context news_data_status
      has_news get_first_portfolio_summary
  quality-IsTrueTo cards user_id s same =
      let summary = get_first_portfolio_summary d upper F to_float of_summary user_id s in
      let status =
        ap
          (λ quotes. status_of d upper F to_float (
            of_first d upper F to_float quotes user_id s
              (head? (list_by_user d user_id 0 (some 1) s.portfolios))))
          same
        ∙ status_of-portfolio_in summary in
      (
        price_data_status_lem cards,
        refl,
        status,
        rw (price_data_status_lem cards, status)
            (quality_warnings_lem (any has_any_price_data cards) (all_complete cards)
              (any (λ card. is_some (head? card.recent_news)) cards)
              (is_some (build_portfolio_context d upper F to_float user_id s))),
      )

  -- If the fetches of the portfolio's summary for the bundle and for its status get the same quotes, or both fail,
  -- the data quality of a bundle is true to the bundle: the prices are valid if each card has all of them and there
  -- is a card with a close, missing if no card has a close, and else partial; the news are valid if a card has some,
  -- and the portfolio if the bundle has a portfolio summary, and else missing; there is a warning for each status
  -- that is not valid. There are as many cards as symbols.
  pub build_context_bundle-IsTrueTo :
      (now : ℕ) (task : TaskType) (user_id : ℕ) (symbols : List (String × String))
      (s : Sources d upper F to_float)
      → s.quotes of_status ≡ s.quotes of_summary
      → IsTrueTo symbols (build_context_bundle d upper F to_float now task user_id symbols s)
  unfolding build_context_bundle
  build_context_bundle-IsTrueTo now task user_id symbols s same =
      let q =
        quality-IsTrueTo (build_cards d upper F to_float 0 now user_id symbols s) user_id s same in
      (q.0, q.1, q.2, q.3, length-build_cards 0 now user_id symbols s)
