-- ===== src/Store/Owned.antt =====
-- The shape that `_update_owned_alert` and `_update_owned_candidate` share: look a row up, refuse it if
-- it is missing or another user's, else set some attributes.
use project_stock.Base.{
  ℕ, Bool, false, ◌&&◌, Option, none, some, ◌≡◌, refl, ◌==◌, arith, inl, inr, Bool-cases,
  if◌then◌else◌,
}
use project_stock.Base.Exec.{Result, ok, err, Exec, or_err}
use project_stock.Store.{Table, get, update}
use project_stock.Store.Lookup.{find_row-update, find_row-key, map_row}

module _ {E R : Type 0} (owner : R → ℕ) (missing : E) where
  update_found : ℕ → (R → R) → Option (ℕ × R) → Exec E (Table R) (ℕ × R)
  update_found user_id f none t = (err missing, t)
  update_found user_id f (some (i, r)) t =
      if owner r == user_id then (ok (i, f r), update i f t) else (err missing, t)

  unfoldable pub update_owned : ℕ → ℕ → (R → R) → Exec E (Table R) (ℕ × R)
  unfolding update_found
  update_owned id user_id f t = update_found user_id f (get id t) t

  -- whether a row that was looked up is there and belongs to the user
  abbrev pub is_owned : ℕ → Option (ℕ × R) → Bool
  is_owned user_id none = false
  is_owned user_id (some (i, r)) = owner r == user_id

  -- What a change by a user returns, and what the table then shows under each key: the owner gets the
  -- changed row, and only that row is another; anybody else gets the error, and nothing changes.
  abbrev pub OwnerChanges : ℕ → ℕ → (R → R) → Table R → Result E (ℕ × R) × Table R → Type 0
  OwnerChanges id user_id f t (result, t') =
      (result ≡ or_err (if is_owned user_id (get id t) then map_row f (get id t) else none) missing)
      × ((j : ℕ)
          → get j t'
            ≡ (if is_owned user_id (get id t) && j == id then map_row f (get j t) else get j t))

  update_found-OwnerChanges :
      (id user_id : ℕ) (f : R → R) (t : Table R) (found : Option (ℕ × R))
      → get id t ≡ found
      → OwnerChanges id user_id f t (update_found user_id f found t)
  unfolding update_found update
  update_found-OwnerChanges id user_id f t none e = rw e (refl, λ j. refl)
  update_found-OwnerChanges id user_id f t (some (i, r)) e =
      let key = find_row-key id i r t.rows e in
      elim (Bool-cases (owner r == user_id)) [
        | inl mine ↦
            rw (mine, e)
              (ground (arith, mine), λ j. ground (arith, mine, find_row-update i j f t.rows, key))
        | inr theirs ↦ rw (theirs, e) (ground (arith, theirs), λ j. ground (arith, theirs))
      ]

  pub update_owned-OwnerChanges :
      (id user_id : ℕ) (f : R → R) (t : Table R)
      → OwnerChanges id user_id f t (update_owned id user_id f t)
  unfolding update_owned
  update_owned-OwnerChanges id user_id f t =
      update_found-OwnerChanges id user_id f t (get id t) refl
