-- ===== src/Checklist/Decided.antt =====
-- When a checklist counts as decided.
use project_stock.Base.{
  ℕ, String, Bool, true, false, Option, none, some, List, ◌&&◌, ◌==◌, ◌≡◌, is_some,
}
use project_stock.Base.Exec.{Result, ok, err}
use project_stock.Errors.{AppException, not_found, asset_not_found}
use project_stock.Assets.{Assets}
use project_stock.Checklist.{
  ChecklistItemKey, BuyChecklistNote, Notes, get_by_user_asset, BuyChecklistResponse, unique_keys,
  is_complete,
}

-- the time of the decision that was stored before
abbrev pub decided_before : Option (ℕ × BuyChecklistNote) → Option ℕ
decided_before none = none
decided_before (some (i, n)) = n.decided_at

abbrev is_mine : ℕ → ℕ → ℕ × BuyChecklistNote → Bool
is_mine user_id asset_id e = e.1.user_id == user_id && e.1.asset_id == asset_id

abbrev passes : ℕ → ℕ → Option (ℕ × BuyChecklistNote) → Bool
passes user_id asset_id none = true
passes user_id asset_id (some e) = is_mine user_id asset_id e

abbrev pub stored_note : Option (ℕ × BuyChecklistNote) → Option BuyChecklistNote
stored_note none = none
stored_note (some (i, n)) = some n

-- The table has this note of the user on the asset.
abbrev pub IsStored : ℕ → ℕ → Option String → List ChecklistItemKey → Option ℕ → Notes → Type 0
IsStored user_id asset_id memo keys decided_at t =
    stored_note (get_by_user_asset user_id asset_id t)
    ≡ some (record {
      user_id = user_id;
      asset_id = asset_id;
      memo = memo;
      checked_item_keys = keys;
      decided_at = decided_at;
    })

-- The time of a decision, by whether the list is complete and by what was stored before.
abbrev pub Decides : ℕ → Option (ℕ × BuyChecklistNote) → Bool → Option ℕ → Type 0
Decides now found complete decided_at =
    (is_some decided_at ≡ complete)
    × ((time : ℕ) → complete ≡ true → decided_before found ≡ some time → decided_at ≡ some time)
    × (complete ≡ true → decided_before found ≡ none → decided_at ≡ some now)

-- The answer to a saved note, and the table after it, by whether the asset is there.
abbrev pub Saves :
    (String → String)
    → Bool
    → ℕ
    → ℕ
    → ℕ
    → Option String
    → List ChecklistItemKey
    → Notes
    → Result AppException BuyChecklistResponse × Notes
    → Type 0
Saves strip asset_exists now asset_id user_id memo keys t (err e, t') =
    (asset_exists ≡ false) × (e ≡ not_found asset_not_found) × (t' ≡ t)
Saves strip asset_exists now asset_id user_id memo keys t (ok r, t') =
    (asset_exists ≡ true)
    × IsStored user_id asset_id memo (unique_keys keys) r.decided_at t'
    × (r.memo ≡ memo)
    × (r.is_complete ≡ is_complete strip memo (unique_keys keys))
    × Decides now (get_by_user_asset user_id asset_id t) r.is_complete r.decided_at
