-- ===== src/Store/Lookup.antt =====
-- Reading a row by its key, after each update of the table.
use project_stock.Base.{ℕ, ◌≡◌, Option, none, some, List, [], ◌∷◌, ◌++◌, arith, ◌==◌, if◌then◌else◌}
use project_stock.Store.{Table, find_row, update_rows, delete_rows, get, add}
use project_stock.Store.Laws.{KeysBelow, IsKeyed}

module _ {ℓ} {R : Type ℓ} where
  find_row-append :
      (n : ℕ) (r : R) (rs : List (ℕ × R))
      → KeysBelow n rs
      → find_row n (rs ++ (n, r) ∷ []) ≡ some (n, r)
  find_row-append n r [] h = ground arith
  find_row-append n r ((i, s) ∷ rs) h = ground (arith, find_row-append n r rs h.1)

  -- The row that was added is found under the key that it got.
  pub get-add : (r : R) (t : Table R) → IsKeyed t → get t.next_id (add r t).1 ≡ some (t.next_id, r)
  unfolding add
  get-add r t h = find_row-append t.next_id r t.rows h.0

  -- Adding a row changes what is found under its key, and under no other.
  pub find_row-insert :
      (j n : ℕ) (r : R) (rs : List (ℕ × R))
      → KeysBelow n rs
      → find_row j (rs ++ (n, r) ∷ []) ≡ (if j == n then some (n, r) else find_row j rs)
  find_row-insert j n r [] h = ground arith
  find_row-insert j n r ((i, s) ∷ rs) h = ground (arith, h.0, find_row-insert j n r rs h.1)

  abbrev pub map_row : (R → R) → Option (ℕ × R) → Option (ℕ × R)
  map_row f none = none
  map_row f (some (i, r)) = some (i, f r)

  -- An update changes the row under its key, and no other.
  pub find_row-update :
      (k j : ℕ) (f : R → R) (rs : List (ℕ × R))
      → find_row j (update_rows k f rs)
        ≡ (if j == k then map_row f (find_row j rs) else find_row j rs)
  find_row-update k j f [] = ground arith
  find_row-update k j f ((i, r) ∷ rs) = ground (arith, find_row-update k j f rs)

  -- A deleted row is not found; every other row is found as before.
  pub find_row-delete :
      (k j : ℕ) (rs : List (ℕ × R))
      → find_row j (delete_rows k rs) ≡ (if j == k then none else find_row j rs)
  find_row-delete k j [] = ground arith
  find_row-delete k j ((i, r) ∷ rs) = ground (arith, find_row-delete k j rs)

  pub find_row-key : (k i : ℕ) (r : R) (rs : List (ℕ × R)) → find_row k rs ≡ some (i, r) → i ≡ k
  find_row-key k i r [] h = ground arith
  find_row-key k i r ((j, s) ∷ rs) h = ground (arith, find_row-key k i r rs)
