-- ===== src/Watchlists/Expanded/Joins.antt =====
-- The expanded listings show for each row the asset that the row names.
use project_stock.Base.{
  ℕ, Bool, true, String, Option, none, some, List, [], ◌∷◌, ◌≡◌, refl, ap, ◌∙◌, any, map, ◌==◌,
  arith, if◌then◌else◌,
}
use project_stock.Store.{get, find_row}
use project_stock.Store.Joined.{dict_of, find_row-dict_of}
use project_stock.Decimal.{Decimals}
use project_stock.Assets.{Assets}
use project_stock.Signals.{Signal, Signals}
use project_stock.Signals as S
use project_stock.Candidates.{AlertCandidate, Candidates, Filters}
use project_stock.Candidates as C
use project_stock.Watchlists.Expanded.{
  Quote, Expanded, named, keys_of, quotes_for, at_key, expand_row, expand, list_signals_expanded,
  list_candidates_expanded,
}

module _ {R : Type 0} (asset_key : R → Option ℕ) where
  -- whether a row names one of the keys
  abbrev Listed : List ℕ → Option ℕ → Type 0
  Listed ks none = Unit {0}
  Listed ks (some k) = any (λ i. i == k) ks ≡ true

  Listed-named : (key : Option ℕ) (ks : List ℕ) → Listed (named asset_key key ks) key
  unfolding named
  Listed-named none ks = tt
  Listed-named (some k) ks = ground arith

  Listed-weaken :
      (other key : Option ℕ) (ks : List ℕ) → Listed ks key → Listed (named asset_key other ks) key
  unfolding named
  Listed-weaken none key ks h = h
  Listed-weaken (some j) none ks h = tt
  Listed-weaken (some j) (some k) ks h = ground (arith, h)

module _ (d : Decimals) (get_quote : List String → List (Quote d)) (str : d.D → String) where
  module _ {R : Type 0} (asset_key : R → Option ℕ) (assets : Assets) (keys : List ℕ) where
    at_key-same :
        (key : Option ℕ)
        → Listed asset_key keys key
        → at_key d get_quote str asset_key (λ k. find_row k (dict_of assets keys)) key
          ≡ at_key d get_quote str asset_key (λ k. get k assets) key
    unfolding at_key
    at_key-same none h = refl
    at_key-same (some k) h =
        find_row-dict_of k assets keys ∙ ap (λ b. if b then get k assets else none) h

    rows-same :
        (quotes : List (Quote d)) (rows : List (ℕ × R))
        → ((key : Option ℕ)
            → Listed asset_key (keys_of asset_key rows) key
            → Listed asset_key keys key)
        → map
            (expand_row d get_quote str asset_key quotes (λ k. find_row k (dict_of assets keys)))
            rows
          ≡ map (expand_row d get_quote str asset_key quotes (λ k. get k assets)) rows
    unfolding keys_of expand_row
    rows-same quotes [] within = refl
    rows-same quotes (e ∷ rows) within =
        let rest = keys_of asset_key rows in
        rw
          (
            at_key-same (asset_key e.1)
                (within (asset_key e.1) (Listed-named asset_key (asset_key e.1) rest)),
            rows-same quotes rows
                (λ key h. within key (Listed-weaken asset_key (asset_key e.1) key rest h)),
          )
          refl

  module _ {R : Type 0} (asset_key : R → Option ℕ) (assets : Assets) (rows : List (ℕ × R)) where
    -- each row with the asset that the table has under its key, at the quotes of all of them
    abbrev pub expand_each : List (Expanded R)
    expand_each =
        map
          (expand_row d get_quote str asset_key
            (quotes_for d get_quote str (dict_of assets (keys_of asset_key rows)))
            (λ k. get k assets))
          rows

    expand-each : expand d get_quote str asset_key assets rows ≡ expand_each
    unfolding expand
    expand-each =
        rows-same asset_key assets (keys_of asset_key rows)
          (quotes_for d get_quote str (dict_of assets (keys_of asset_key rows))) rows (λ key h. h)

  -- The expanded listings of signals and of a user's alert candidates show the rows of the plain listings in
  -- their order, each with the asset that the table has under the key that the row names, if any.
  pub listings-expand_each :
      (now asset_id user_id offset : ℕ) (include_expired : Bool) (limit : Option ℕ) (f : Filters)
      (sort : String) (signals : Signals) (candidates : Candidates) (assets : Assets)
      → (list_signals_expanded d get_quote str now asset_id include_expired offset limit signals
            assets
          ≡ expand_each
              (λ (s : Signal). some s.asset_id)
              assets
              (S.list_by_asset now asset_id include_expired offset limit signals))
        × (list_candidates_expanded d get_quote str user_id f offset limit sort candidates assets
            ≡ expand_each
                (λ (c : AlertCandidate). c.asset_id)
                assets
                (C.list_by_user user_id f offset limit sort candidates))
  unfolding list_signals_expanded list_candidates_expanded
  listings-expand_each now asset_id user_id offset include_expired limit f sort signals candidates
        assets =
      (
        expand-each (λ (s : Signal). some s.asset_id) assets
            (S.list_by_asset now asset_id include_expired offset limit signals),
        expand-each (λ (c : AlertCandidate). c.asset_id) assets
            (C.list_by_user user_id f offset limit sort candidates),
      )
