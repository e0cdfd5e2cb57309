-- ===== src/Briefings/Top.antt =====
-- Which items of a watchlist are selected.
use project_stock.Base.{
  ℕ, suc, zero, ◌-◌, ◌≤◌, true, false, List, [], ◌∷◌, ◌≡◌, refl, ap, take, length, length-take,
  ◌==◌, any, arith, inl, inr, Bool-cases,
}
use project_stock.Watchlists.{WatchlistItem}
use project_stock.Briefings.{dedupe_top, is_seen}

-- The first item of each asset that was not seen, in the order of the list.
abbrev pub first_of_each : List ℕ → List (ℕ × WatchlistItem) → List (ℕ × WatchlistItem)
first_of_each seen [] = []
first_of_each seen (item ∷ items) = elim (any (λ id. id == item.1.asset_id) seen) [
  | true ↦ first_of_each seen items
  | false ↦ item ∷ first_of_each (item.1.asset_id ∷ seen) items
]

one_less : (n : ℕ) → suc (suc n) - 1 ≡ suc n
one_less n = omega arith

not_one : (n : ℕ) → (suc (suc n) == 1) ≡ false
not_one n = ground arith

dedupe_top-take :
    (left : ℕ) (seen : List ℕ) (items : List (ℕ × WatchlistItem))
    → dedupe_top (suc left) seen items ≡ take (suc left) (first_of_each seen items)
unfolding dedupe_top
dedupe_top-take left seen [] = refl
dedupe_top-take zero seen (item ∷ items) = elim (Bool-cases (is_seen seen item)) [
  | inl e ↦ rw (dedupe_top, first_of_each, e) (dedupe_top-take zero seen items)
  | inr e ↦ rw (dedupe_top, first_of_each, e) refl
]
dedupe_top-take (suc left) seen (item ∷ items) = elim (Bool-cases (is_seen seen item)) [
  | inl e ↦ rw (dedupe_top, first_of_each, e) (dedupe_top-take (suc left) seen items)
  | inr e ↦
      rw (dedupe_top, first_of_each, e)
        (rw (not_one left) (
          rw (one_less left)
            (ap (λ xs. item ∷ xs) (dedupe_top-take left (item.1.asset_id ∷ seen) items))))
]

-- No asset stands twice, and none that was seen.
abbrev pub HasNoRepeats : List ℕ → List (ℕ × WatchlistItem) → Type 0
HasNoRepeats seen [] = Unit
HasNoRepeats seen (item ∷ items) =
    (any (λ id. id == item.1.asset_id) seen ≡ false) × HasNoRepeats (item.1.asset_id ∷ seen) items

first_of_each-HasNoRepeats :
    (seen : List ℕ) (items : List (ℕ × WatchlistItem))
    → HasNoRepeats seen (first_of_each seen items)
first_of_each-HasNoRepeats seen [] = tt
first_of_each-HasNoRepeats seen (item ∷ items) = elim (Bool-cases (is_seen seen item)) [
  | inl e ↦ rw (first_of_each, e) (first_of_each-HasNoRepeats seen items)
  | inr e ↦ rw (first_of_each, e) (e, first_of_each-HasNoRepeats (item.1.asset_id ∷ seen) items)
]

take-HasNoRepeats :
    (n : ℕ) (seen : List ℕ) (items : List (ℕ × WatchlistItem))
    → HasNoRepeats seen items
    → HasNoRepeats seen (take n items)
take-HasNoRepeats zero seen items h = tt
take-HasNoRepeats (suc n) seen [] h = tt
take-HasNoRepeats (suc n) seen (item ∷ items) h =
    (h.0, take-HasNoRepeats n (item.1.asset_id ∷ seen) items h.1)

-- The selection is the first item of each asset, in the order of the list, cut off at the limit: no asset
-- stands twice, and there are at most as many items as the limit, which is at least one.
pub dedupe_top_exact :
    (limit : ℕ) (items : List (ℕ × WatchlistItem))
    → (dedupe_top (suc limit) [] items ≡ take (suc limit) (first_of_each [] items))
      × HasNoRepeats [] (dedupe_top (suc limit) [] items)
      × (length (dedupe_top (suc limit) [] items) ≤ suc limit)
dedupe_top_exact limit items =
    let same = dedupe_top-take limit [] items in
    (
      same,
      rw same (
          take-HasNoRepeats (suc limit) [] (first_of_each [] items)
            (first_of_each-HasNoRepeats [] items)),
      rw same (omega (arith, length-take (suc limit) (first_of_each [] items))),
    )
