-- ===== src/Store.antt =====
-- The relational tables behind the repositories (app/domains/*/repository.py with the tables of
-- app/domains/*/model.py). A table holds its committed rows with their primary keys, oldest first;
-- `commit` of an `add` gives the row the next value of the key's sequence.
pub mod Laws
pub mod Lookup
pub mod Joined
pub mod Owned
pub mod Order
pub mod Children
pub mod Guarded
use project_stock.Base.{
  ℕ, ◌+◌, Bool, Option, none, some, List, [], ◌∷◌, ◌++◌, ◌==◌, any, filter, length, if◌then◌else◌,
}

pub record Table {ℓ} (R : Type ℓ) : Type ℓ where
  pub rows : List (ℕ × R)
  pub next_id : ℕ

abbrev pub empty_table {ℓ} : {R : Type ℓ} → Table R
empty_table = record { rows = []; next_id = 1 }

module _ {ℓ} {R : Type ℓ} where
  abbrev pub find_row : ℕ → List (ℕ × R) → Option (ℕ × R)
  find_row k [] = none
  find_row k ((i, r) ∷ rs) = if i == k then some (i, r) else find_row k rs

  abbrev pub update_rows : ℕ → (R → R) → List (ℕ × R) → List (ℕ × R)
  update_rows k f [] = []
  update_rows k f ((i, r) ∷ rs) = (i, if i == k then f r else r) ∷ update_rows k f rs

  abbrev pub delete_rows : ℕ → List (ℕ × R) → List (ℕ × R)
  delete_rows k [] = []
  delete_rows k ((i, r) ∷ rs) =
      let rest = delete_rows k rs in if i == k then rest else (i, r) ∷ rest

  -- `db.get(Model, key)`
  abbrev pub get : ℕ → Table R → Option (ℕ × R)
  get k t = find_row k t.rows

  -- `db.add(row); db.commit(); db.refresh(row)`
  unfoldable pub add : R → Table R → (ℕ × R) × Table R
  add r t =
      ((t.next_id, r), record t { rows = t.rows ++ (t.next_id, r) ∷ []; next_id = t.next_id + 1 })

  -- The same under a unique constraint: `none` is the `IntegrityError`, after the rollback.
  unfoldable pub add_unique : (R → R → Bool) → R → Table R → Option ((ℕ × R) × Table R)
  add_unique clash r t = if any (λ e. clash e.1 r) t.rows then none else some (add r t)

  -- attributes of one row set and committed
  unfoldable pub update : ℕ → (R → R) → Table R → Table R
  update k f t = record t { rows = update_rows k f t.rows }

  -- `db.delete(row); db.commit()`
  unfoldable pub delete : ℕ → Table R → Table R
  delete k t = record t { rows = delete_rows k t.rows }

  -- `select(Model).where(...)`
  abbrev pub where_rows : (ℕ × R → Bool) → Table R → List (ℕ × R)
  where_rows p t = filter p t.rows

  -- `select(func.count()).where(...)`
  abbrev pub count_rows : (ℕ × R → Bool) → Table R → ℕ
  count_rows p t = length (filter p t.rows)
