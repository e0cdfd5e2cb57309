-- ===== src/Checklist.antt =====
-- app/domains/decision_checklist: the rows of `buy_checklist_notes` (model.py), `BuyChecklistNoteRepository`
-- (repository.py) and `DecisionChecklistService` (service.py).
pub mod Decided
use project_stock.Base.{
  ℕ, String, Bool, true, false, ◌&&◌, Option, none, some, List, [], ◌∷◌, str_eq, ◌==◌, any, filter,
  head?, is_some, not, map, if◌then◌else◌,
}
use project_stock.Base.Exec.{Result, ok, err, Exec}
use project_stock.Store.{Table, get, add, update, where_rows}
use project_stock.Errors.{AppException, not_found, asset_not_found}
use project_stock.Assets.{Assets}

-- `ChecklistItemKey`
pub data ChecklistItemKey : Type 0 where
  valuation news_overheated portfolio_concentration earnings_disclosure : ChecklistItemKey

abbrev pub same_key : ChecklistItemKey → ChecklistItemKey → Bool
same_key valuation valuation = true
same_key news_overheated news_overheated = true
same_key portfolio_concentration portfolio_concentration = true
same_key earnings_disclosure earnings_disclosure = true
same_key _ _ = false

-- `_REQUIRED_KEYS`
abbrev pub required_keys : List ChecklistItemKey
required_keys = valuation ∷ news_overheated ∷ portfolio_concentration ∷ earnings_disclosure ∷ []

pub record BuyChecklistNote : Type 0 where
  pub user_id : ℕ
  pub asset_id : ℕ
  pub memo : Option String
  pub checked_item_keys : List ChecklistItemKey
  pub decided_at : Option ℕ

abbrev pub Notes : Type 0
Notes = Table BuyChecklistNote

-- `BuyChecklistNoteRepository.get_by_user_asset`
abbrev pub get_by_user_asset : ℕ → ℕ → Notes → Option (ℕ × BuyChecklistNote)
get_by_user_asset user_id asset_id t =
    head? (where_rows (λ e. e.1.user_id == user_id && e.1.asset_id == asset_id) t)

-- the attributes that `upsert` sets
abbrev pub set_note :
    Option String → List ChecklistItemKey → Option ℕ → BuyChecklistNote → BuyChecklistNote
set_note memo keys decided_at n = record n {
  memo = memo;
  checked_item_keys = keys;
  decided_at = decided_at;
}

-- `BuyChecklistNoteRepository.upsert`, after its lookup
unfoldable pub upsert :
    ℕ
    → ℕ
    → Option String
    → List ChecklistItemKey
    → Option ℕ
    → Option (ℕ × BuyChecklistNote)
    → Notes
    → (ℕ × BuyChecklistNote) × Notes
upsert user_id asset_id memo keys decided_at none t =
    add
      (record {
        user_id = user_id;
        asset_id = asset_id;
        memo = memo;
        checked_item_keys = keys;
        decided_at = decided_at;
      })
      t
upsert user_id asset_id memo keys decided_at (some (i, n)) t =
    ((i, set_note memo keys decided_at n), update i (set_note memo keys decided_at) t)

-- The label and the description of an item are fixed texts for each key.
pub record BuyChecklistItem : Type 0 where
  pub id : ChecklistItemKey
  pub checked : Bool

pub record BuyChecklistResponse : Type 0 where
  pub asset_id : ℕ
  pub items : List BuyChecklistItem
  pub memo : Option String
  pub checked_item_keys : List ChecklistItemKey
  pub is_complete : Bool
  pub decided_at : Option ℕ

abbrev pub is_checked : List ChecklistItemKey → ChecklistItemKey → Bool
is_checked keys key = any (same_key key) keys

-- `list(dict.fromkeys(keys))`
unfoldable pub unique_keys : List ChecklistItemKey → List ChecklistItemKey
unique_keys [] = []
unique_keys (k ∷ ks) = let rest = unique_keys ks in k ∷ filter (λ j. not (same_key k j)) rest

-- `strip` is Python's `str.strip`
module _ (strip : String → String) where
  abbrev pub is_filled : Option String → Bool
  is_filled none = false
  is_filled (some memo) = not (str_eq memo "") && not (str_eq (strip memo) "")

  -- `_is_complete`
  unfoldable pub is_complete : Option String → List ChecklistItemKey → Bool
  is_complete memo keys =
      is_filled memo
      && (is_checked keys valuation
          && (is_checked keys news_overheated
              && (is_checked keys portfolio_concentration && is_checked keys earnings_disclosure)))

  -- `_next_decided_at`
  unfoldable pub next_decided_at : ℕ → Option BuyChecklistNote → Bool → Option ℕ
  next_decided_at now earlier false = none
  next_decided_at now none true = some now
  next_decided_at now (some n) true = elim n.decided_at [ some t ↦ some t | none ↦ some now ]

  -- `_build_response`
  unfoldable pub build_response : ℕ → Option BuyChecklistNote → BuyChecklistResponse
  build_response asset_id none = record {
    asset_id = asset_id;
    items = map (λ key. record { id = key; checked = false }) required_keys;
    memo = none;
    checked_item_keys = [];
    is_complete = is_complete none [];
    decided_at = none;
  }
  build_response asset_id (some n) = record {
    asset_id = asset_id;
    items =
        map (λ key. record { id = key; checked = is_checked n.checked_item_keys key })
          required_keys;
    memo = n.memo;
    checked_item_keys = filter (is_checked n.checked_item_keys) required_keys;
    is_complete = is_complete n.memo n.checked_item_keys;
    decided_at = n.decided_at;
  }

  abbrev pub note_of : Option (ℕ × BuyChecklistNote) → Option BuyChecklistNote
  note_of none = none
  note_of (some (i, n)) = some n

  -- `get_checklist`
  unfoldable pub get_checklist : Assets → ℕ → ℕ → Notes → Result AppException BuyChecklistResponse
  get_checklist assets asset_id user_id t =
      if is_some (get asset_id assets)
      then ok (build_response asset_id (note_of (get_by_user_asset user_id asset_id t)))
      else err (not_found asset_not_found)

  saved :
      ℕ
      → ℕ
      → ℕ
      → Option String
      → List ChecklistItemKey
      → Option (ℕ × BuyChecklistNote)
      → Notes
      → BuyChecklistResponse × Notes
  saved now asset_id user_id memo keys found t =
      let (row, t') =
        upsert user_id asset_id memo keys
          (next_decided_at now (note_of found) (is_complete memo keys)) found t in
      (build_response asset_id (some row.1), t')

  -- `save_note`
  unfoldable pub save_note :
      Assets
      → ℕ
      → ℕ
      → ℕ
      → Option String
      → List ChecklistItemKey
      → Exec AppException Notes BuyChecklistResponse
  unfolding saved
  save_note assets now asset_id user_id memo checked_item_keys t =
      if is_some (get asset_id assets)
      then (let (response, t') =
            saved now asset_id user_id memo (unique_keys checked_item_keys)
              (get_by_user_asset user_id asset_id t) t in
          (ok response, t'))
      else (err (not_found asset_not_found), t)
