-- ===== src/Store/Guarded.antt =====
-- The shape that `_get_owned_thesis` and `_get_owned_decision_log` share: a missing row is one error, another
-- user's row a second one.
use project_stock.Base.{
  ℕ, Bool, false, ◌&&◌, Option, none, some, ◌≡◌, refl, ◌==◌, arith, inl, inr, Bool-cases,
  if◌then◌else◌,
}
use project_stock.Base.Exec.{Result, ok, err, Exec}
use project_stock.Store.{Table, get, update}
use project_stock.Store.Lookup.{find_row-update, find_row-key, map_row}
use project_stock.Errors.{AppException}

module _ {R : Type 0} (owner : R → ℕ) (missing refused : AppException) where
  guarded : ℕ → Option (ℕ × R) → Result AppException (ℕ × R)
  guarded user_id none = err missing
  guarded user_id (some (i, r)) = if owner r == user_id then ok (i, r) else err refused

  unfoldable pub get_guarded : ℕ → ℕ → Table R → Result AppException (ℕ × R)
  unfolding guarded
  get_guarded id user_id t = guarded user_id (get id t)

  changed : (R → R) → Table R → Result AppException (ℕ × R) → Result AppException (ℕ × R) × Table R
  changed f t (err e) = (err e, t)
  changed f t (ok (i, r)) = (ok (i, f r), update i f t)

  -- the row is looked up, checked and then changed
  unfoldable pub change_guarded : ℕ → ℕ → (R → R) → Exec AppException (Table R) (ℕ × R)
  unfolding changed
  change_guarded id user_id f t = changed f t (get_guarded id user_id t)

  abbrev pub may_change : ℕ → Option (ℕ × R) → Bool
  may_change user_id none = false
  may_change user_id (some (i, r)) = owner r == user_id

  abbrev pub outcome : ℕ → (R → R) → Option (ℕ × R) → Result AppException (ℕ × R)
  outcome user_id f none = err missing
  outcome user_id f (some (i, r)) = if owner r == user_id then ok (i, f r) else err refused

  -- The owner gets the changed row, and only that row is another afterwards; a missing row and another user's
  -- row are refused with their errors, and nothing changes.
  abbrev pub Changes : ℕ → ℕ → (R → R) → Table R → Result AppException (ℕ × R) × Table R → Type 0
  Changes id user_id f t (result, t') =
      (result ≡ outcome user_id f (get id t))
      × ((j : ℕ)
          → get j t'
            ≡ (if may_change user_id (get id t) && j == id then map_row f (get j t) else get j t))

  change_found-Changes :
      (id user_id : ℕ) (f : R → R) (t : Table R) (found : Option (ℕ × R))
      → get id t ≡ found
      → Changes id user_id f t (changed f t (guarded user_id found))
  unfolding changed guarded update
  change_found-Changes id user_id f t none e = rw e (refl, λ j. refl)
  change_found-Changes id user_id f t (some (i, r)) e =
      let key = find_row-key id i r t.rows e in
      elim (Bool-cases (owner r == user_id)) [
        | inl mine ↦
            rw (mine, e)
              (ground (arith, mine), λ j. ground (arith, mine, find_row-update id j f t.rows, key))
        | inr theirs ↦ rw (theirs, e) (ground (arith, theirs), λ j. ground (arith, theirs))
      ]

  pub change_guarded-Changes :
      (id user_id : ℕ) (f : R → R) (t : Table R)
      → Changes id user_id f t (change_guarded id user_id f t)
  unfolding change_guarded get_guarded
  change_guarded-Changes id user_id f t = change_found-Changes id user_id f t (get id t) refl
