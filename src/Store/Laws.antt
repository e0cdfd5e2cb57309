-- ===== src/Store/Laws.antt =====
-- What the updates of a table keep: primary keys stay distinct, and so do the values under a unique
-- constraint.
use project_stock.Base.{
  ℕ, ◌+◌, ◌<◌, ◌≤◌, ◌≡◌, refl, Bool, false, List, [], ◌∷◌, ◌++◌, arith, ◌==◌, any, any-append, inl,
  inr, Bool-cases, ◌∙◌,
}
use mathlib.Core.Path.{fun_ext}
use project_stock.Store.{Table, update_rows, delete_rows, add, update, delete}

module _ {ℓ} {R : Type ℓ} where
  -- Every key is below the sequence's next value, and no key stands twice.
  abbrev pub KeysBelow : ℕ → List (ℕ × R) → Type 0
  KeysBelow n [] = Unit
  KeysBelow n ((i, r) ∷ rs) = (i < n) × KeysBelow n rs

  abbrev pub KeysDistinct : List (ℕ × R) → Type 0
  KeysDistinct [] = Unit
  KeysDistinct ((i, r) ∷ rs) = (any (λ e. e.0 == i) rs ≡ false) × KeysDistinct rs

  abbrev pub IsKeyed : Table R → Type 0
  IsKeyed t = KeysBelow t.next_id t.rows × KeysDistinct t.rows

  -- No two rows clash under the constraint.
  abbrev pub Unique : (R → R → Bool) → List (ℕ × R) → Type 0
  Unique clash [] = Unit
  Unique clash ((i, r) ∷ rs) = (any (λ e. clash r e.1) rs ≡ false) × Unique clash rs

  fresh_key : (n : ℕ) (rs : List (ℕ × R)) → KeysBelow n rs → any (λ e. e.0 == n) rs ≡ false
  fresh_key n [] h = refl
  fresh_key n ((i, r) ∷ rs) h = ground (arith, fresh_key n rs h.1)

  KeysBelow-mono : {m n : ℕ} (rs : List (ℕ × R)) → m ≤ n → KeysBelow m rs → KeysBelow n rs
  KeysBelow-mono [] le h = tt
  KeysBelow-mono ((i, r) ∷ rs) le h = (omega arith, KeysBelow-mono rs le h.1)

  KeysBelow-append :
      (n : ℕ) (r : R) (rs : List (ℕ × R)) → KeysBelow n rs → KeysBelow (n + 1) (rs ++ (n, r) ∷ [])
  KeysBelow-append n r [] h = (omega arith, tt)
  KeysBelow-append n r ((i, s) ∷ rs) h = (omega arith, KeysBelow-append n r rs h.1)

  KeysDistinct-append :
      (n : ℕ) (r : R) (rs : List (ℕ × R))
      → KeysBelow n rs
      → KeysDistinct rs
      → KeysDistinct (rs ++ (n, r) ∷ [])
  KeysDistinct-append n r [] b h = (refl, tt)
  KeysDistinct-append n r ((i, s) ∷ rs) b h =
      (rw any-append (ground arith), KeysDistinct-append n r rs b.1 h.1)

  pub add-IsKeyed : (r : R) (t : Table R) → IsKeyed t → IsKeyed (add r t).1
  unfolding add
  add-IsKeyed r t h =
      (KeysBelow-append t.next_id r t.rows h.0, KeysDistinct-append t.next_id r t.rows h.0 h.1)

  Unique-append :
      (clash : R → R → Bool) (i : ℕ) (r : R) (rs : List (ℕ × R))
      → Unique clash rs
      → any (λ e. clash e.1 r) rs ≡ false
      → Unique clash (rs ++ (i, r) ∷ [])
  Unique-append clash i r [] h none_clash = (refl, tt)
  Unique-append clash i r ((j, s) ∷ rs) h none_clash =
      (rw any-append (ground arith), Unique-append clash i r rs h.1 (ground arith))

  -- An insert that the constraint lets through keeps it.
  pub add-Unique :
      (clash : R → R → Bool) (r : R) (t : Table R)
      → Unique clash t.rows
      → any (λ e. clash e.1 r) t.rows ≡ false
      → Unique clash (add r t).1.rows
  unfolding add
  add-Unique clash r t h free = Unique-append clash t.next_id r t.rows h free

  any_key-update :
      (k j : ℕ) (f : R → R) (rs : List (ℕ × R))
      → any (λ e. e.0 == j) (update_rows k f rs) ≡ any (λ e. e.0 == j) rs
  any_key-update k j f [] = refl
  any_key-update k j f ((i, r) ∷ rs) = ground (arith, any_key-update k j f rs)

  update_rows-KeysBelow :
      (k n : ℕ) (f : R → R) (rs : List (ℕ × R)) → KeysBelow n rs → KeysBelow n (update_rows k f rs)
  update_rows-KeysBelow k n f [] h = tt
  update_rows-KeysBelow k n f ((i, r) ∷ rs) h = (h.0, update_rows-KeysBelow k n f rs h.1)

  update_rows-KeysDistinct :
      (k : ℕ) (f : R → R) (rs : List (ℕ × R)) → KeysDistinct rs → KeysDistinct (update_rows k f rs)
  update_rows-KeysDistinct k f [] h = tt
  update_rows-KeysDistinct k f ((i, r) ∷ rs) h =
      (any_key-update k i f rs ∙ h.0, update_rows-KeysDistinct k f rs h.1)

  pub update-IsKeyed : (k : ℕ) (f : R → R) (t : Table R) → IsKeyed t → IsKeyed (update k f t)
  unfolding update
  update-IsKeyed k f t h =
      (update_rows-KeysBelow k t.next_id f t.rows h.0, update_rows-KeysDistinct k f t.rows h.1)

  any_clash-update :
      (clash : R → R → Bool) (f : R → R) (k : ℕ) (r : R) (rs : List (ℕ × R))
      → ((s : R) → clash r (f s) ≡ clash r s)
      → any (λ e. clash r e.1) (update_rows k f rs) ≡ any (λ e. clash r e.1) rs
  any_clash-update clash f k r [] same = refl
  any_clash-update clash f k r ((i, s) ∷ rs) same =
      ground (arith, same s, any_clash-update clash f k r rs same)

  -- Setting attributes that the constraint does not read keeps it.
  pub update_rows-Unique :
      (clash : R → R → Bool) (f : R → R) (k : ℕ) (rs : List (ℕ × R))
      → ((r s : R) → clash r (f s) ≡ clash r s)
      → ((r s : R) → clash (f r) s ≡ clash r s)
      → Unique clash rs
      → Unique clash (update_rows k f rs)
  update_rows-Unique clash f k [] right left h = tt
  update_rows-Unique clash f k ((i, r) ∷ rs) right left h = (
    elim (Bool-cases (i == k)) [
      | inl e ↦ rw e (
          any_clash-update clash f k (f r) rs (right (f r))
          ∙ rw (fun_ext (λ (s : ℕ × R). left r s.1)) h.0)
      | inr e ↦ rw e (any_clash-update clash f k r rs (right r) ∙ h.0)
    ],
    update_rows-Unique clash f k rs right left h.1,
  )

  any-delete :
      (p : ℕ × R → Bool) (k : ℕ) (rs : List (ℕ × R))
      → any p rs ≡ false
      → any p (delete_rows k rs) ≡ false
  any-delete p k [] h = refl
  any-delete p k ((i, r) ∷ rs) h = ground (arith, any-delete p k rs)

  delete_rows-KeysBelow :
      (k n : ℕ) (rs : List (ℕ × R)) → KeysBelow n rs → KeysBelow n (delete_rows k rs)
  delete_rows-KeysBelow k n [] h = tt
  delete_rows-KeysBelow k n ((i, r) ∷ rs) h = ground (arith, delete_rows-KeysBelow k n rs h.1)

  delete_rows-KeysDistinct :
      (k : ℕ) (rs : List (ℕ × R)) → KeysDistinct rs → KeysDistinct (delete_rows k rs)
  delete_rows-KeysDistinct k [] h = tt
  delete_rows-KeysDistinct k ((i, r) ∷ rs) h =
      ground (arith, delete_rows-KeysDistinct k rs h.1, any-delete (λ e. e.0 == i) k rs h.0)

  pub delete-IsKeyed : (k : ℕ) (t : Table R) → IsKeyed t → IsKeyed (delete k t)
  unfolding delete
  delete-IsKeyed k t h =
      (delete_rows-KeysBelow k t.next_id t.rows h.0, delete_rows-KeysDistinct k t.rows h.1)

  pub delete_rows-Unique :
      (clash : R → R → Bool) (k : ℕ) (rs : List (ℕ × R))
      → Unique clash rs
      → Unique clash (delete_rows k rs)
  delete_rows-Unique clash k [] h = tt
  delete_rows-Unique clash k ((i, r) ∷ rs) h =
      ground (arith, delete_rows-Unique clash k rs h.1, any-delete (λ e. clash r e.1) k rs h.0)
