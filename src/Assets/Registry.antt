-- ===== src/Assets/Registry.antt =====
-- What registering an asset does.
use project_stock.Base.{
  ℕ, Bool, true, false, some, ◌≡◌, refl, any, head?-filter, inl, inr, Bool-cases,
}
use project_stock.Base.Exec.{Result, ok, err}
use project_stock.Store.{get, add, add_unique}
use project_stock.Store.Laws.{Unique, IsKeyed, add-IsKeyed, add-Unique}
use project_stock.Store.Lookup.{get-add}
use project_stock.Errors.{AppException, bad_request, asset_duplicate}
use project_stock.Assets.{
  Asset, AssetCreate, Assets, same_listing, new_asset, create, committed, register,
}

-- The table is keyed, and no symbol stands twice in one market.
abbrev pub IsRegistry : Assets → Type 0
IsRegistry t = IsKeyed t × Unique same_listing t.rows

abbrev is_listed : AssetCreate → Assets → Bool
is_listed d t = any (λ e. same_listing e.1 (new_asset d)) t.rows

-- What registering an asset returns, and what the table holds then.
abbrev pub Registered : AssetCreate → Assets → Result AppException (ℕ × Asset) × Assets → Type 0
Registered d t (ok (i, a), t') =
    (is_listed d t ≡ false) × (a ≡ new_asset d) × (get i t' ≡ some (i, a)) × IsRegistry t'
Registered d t (err e, t') = (is_listed d t ≡ true) × (e ≡ bad_request asset_duplicate) × (t' ≡ t)

-- Registering an asset succeeds exactly if its symbol is not listed in its market. Then the new row is read
-- back under its key, and no symbol stands twice in a market. Otherwise the answer is the duplicate error and
-- nothing changes.
pub register_exact : (d : AssetCreate) (t : Assets) → IsRegistry t → Registered d t (register d t)
unfolding register create add_unique committed add
register_exact d t h = elim (Bool-cases (is_listed d t)) [
  | inl listed ↦ rw head?-filter (rw listed (listed, refl, refl))
  | inr free ↦ rw head?-filter (
      rw free (
        free,
        refl,
        get-add (new_asset d) t h.0,
        (add-IsKeyed (new_asset d) t h.0, add-Unique same_listing (new_asset d) t h.1 free),
      ))
]
