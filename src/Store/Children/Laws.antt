-- ===== src/Store/Children/Laws.antt =====
-- What an operation on a row of a user's watchlist or portfolio returns and changes.
use project_stock.Base.{
  ℕ, Bool, true, false, ◌&&◌, Option, none, some, ◌≡◌, refl, ◌==◌, any, not, arith, inl, inr,
  Bool-cases, if◌then◌else◌,
}
use project_stock.Base.Exec.{Result, ok, err}
use project_stock.Store.{Table, get, add, add_unique, update, delete}
use project_stock.Store.Laws.{Unique, IsKeyed, add-IsKeyed, add-Unique}
use project_stock.Store.Lookup.{
  map_row, find_row-insert, find_row-key, find_row-update, find_row-delete,
}
use project_stock.Store.Children.{
  ChildErrors, same_place, add_child, is_child, remove_child, update_child, returned, inserted,
  owned, get_owned,
}
use project_stock.Errors.{AppException}

abbrev pub is_ok : {A : Type 0} → Result AppException A → Bool
is_ok (ok a) = true
is_ok (err e) = false

-- whether the row of a parent is there and the user's
abbrev pub is_users : {P : Type 0} → (P → ℕ) → ℕ → Option (ℕ × P) → Bool
is_users owner user_id none = false
is_users owner user_id (some (i, p)) = owner p == user_id

module _ {C : Type 0} (errors : ChildErrors) (parent_of : C → ℕ) (asset_of : C → ℕ) where
  -- The table is keyed, and no asset stands twice under one parent.
  abbrev pub IsSound : Table C → Type 0
  IsSound t = IsKeyed t × Unique (same_place errors parent_of asset_of) t.rows

  -- An insert into a user's list: whether the list is the user's, whether the asset is there, the keys of the
  -- list and of the asset, and the row. It succeeds exactly if nothing stands in its way; then the answer is the
  -- row, which is in the table under a new key; every other row is as before, and the table stays sound.
  abbrev pub Inserts :
      Bool → Bool → ℕ → ℕ → C → Table C → Result AppException (ℕ × C) × Table C → Type 0
  Inserts mine asset_exists id asset new t (result, t') =
      let goes =
        mine
        && (asset_exists
            && not (any (λ row. parent_of row.1 == id && asset_of row.1 == asset) t.rows)) in
      (is_ok result ≡ goes)
      × (goes ≡ true → result ≡ ok (t.next_id, new))
      × ((j : ℕ) → get j t' ≡ (if goes && j == t.next_id then some (t.next_id, new) else get j t))
      × IsSound t'

  refused-Inserts :
      (mine asset_exists : Bool) (id asset : ℕ) (new : C) (t : Table C) (e : AppException)
      → (mine
          && (asset_exists
              && not (any (λ row. parent_of row.1 == id && asset_of row.1 == asset) t.rows)))
        ≡ false
      → IsSound t
      → Inserts mine asset_exists id asset new t (err e, t)
  refused-Inserts mine asset_exists id asset new t e h sound =
      rw h (refl, (λ p. ground arith), (λ j. refl), sound)

  added-Inserts :
      (id asset : ℕ) (new : C) (t : Table C)
      → parent_of new ≡ id
      → asset_of new ≡ asset
      → IsSound t
      → any (λ row. parent_of row.1 == id && asset_of row.1 == asset) t.rows ≡ false
      → Inserts true true id asset new t (ok (t.next_id, new), (add new t).1)
  unfolding add
  added-Inserts id asset new t is_parent is_asset sound is_free = rw is_free (
    refl,
    (λ _. refl),
    (λ j. find_row-insert j t.next_id new t.rows sound.0.0),
    (
      add-IsKeyed new t sound.0,
      add-Unique (same_place errors parent_of asset_of) new t sound.1
          (rw (is_parent, is_asset) is_free),
    ),
  )

module _ {P C : Type 0} (errors : ChildErrors) (parent_of : C → ℕ) (asset_of : C → ℕ) where
  abbrev pub may_change : ℕ → Result AppException (ℕ × P) → Table C → Bool
  may_change id (err e) t = false
  may_change id (ok (i, p)) t = is_child errors parent_of asset_of i (get id t)

  abbrev pub refusal : Result AppException (ℕ × P) → AppException
  refusal (err e) = e
  refusal (ok p) = errors.no_child

  -- A removal takes exactly one row away, and only for the owner of its parent.
  abbrev pub Removes :
      ℕ → Result AppException (ℕ × P) → Table C → Result AppException Unit × Table C → Type 0
  Removes id parent t (result, t') =
      (result ≡ (if may_change id parent t then ok tt else err (refusal parent)))
      × ((j : ℕ) → get j t' ≡ (if may_change id parent t && j == id then none else get j t))

  pub remove_child-Removes :
      (id : ℕ) (parent : Result AppException (ℕ × P)) (t : Table C)
      → Removes id parent t (remove_child errors parent_of asset_of id parent t)
  unfolding remove_child delete
  remove_child-Removes id (err e) t = (refl, λ j. refl)
  remove_child-Removes id (ok (i, p)) t =
      elim (Bool-cases (is_child errors parent_of asset_of i (get id t))) [
        | inl mine ↦ rw mine (refl, λ j. find_row-delete id j t.rows)
        | inr other ↦ rw other (refl, λ j. refl)
      ]

  add_found-Inserts :
      (i asset : ℕ) (p : P) (new : ℕ → C) (asset_exists : Bool) (t : Table C)
      → parent_of (new i) ≡ i
      → asset_of (new i) ≡ asset
      → IsSound errors parent_of asset_of t
      → Inserts errors parent_of asset_of true asset_exists i asset
          (new i)
          t
          (add_child errors parent_of asset_of new asset_exists (ok (i, p)) t)
  unfolding add_child add_unique inserted add
  add_found-Inserts i asset p new false t is_parent is_asset sound =
      refused-Inserts errors parent_of asset_of true false i asset (new i) t errors.no_asset refl
        sound
  add_found-Inserts i asset p new true t is_parent is_asset sound =
      elim (Bool-cases (any (λ row. parent_of row.1 == i && asset_of row.1 == asset) t.rows)) [
        | inl taken ↦
            rw (is_parent, is_asset, taken) (refl, (λ p. ground arith), (λ j. refl), sound)
        | inr is_free ↦
            let added =
              added-Inserts errors parent_of asset_of i asset (new i) t is_parent is_asset sound
                is_free in
            rw (is_parent, is_asset, is_free)
              (
                refl,
                (λ _. refl),
                (λ j. find_row-insert j t.next_id (new i) t.rows sound.0.0),
                added.3,
              )
      ]

  found-Inserts :
      (owner : P → ℕ) (user_id id asset : ℕ) (new : ℕ → C) (asset_exists : Bool)
      (found : Option (ℕ × P)) (t : Table C)
      → ((i : ℕ) (p : P) → found ≡ some (i, p) → i ≡ id)
      → parent_of (new id) ≡ id
      → asset_of (new id) ≡ asset
      → IsSound errors parent_of asset_of t
      → Inserts errors parent_of asset_of
          (is_users owner user_id found)
          asset_exists
          id
          asset
          (new id)
          t
          (add_child errors parent_of asset_of new asset_exists
            (owned errors owner user_id found)
            t)
  unfolding owned add_child
  found-Inserts owner user_id id asset new asset_exists none t key is_parent is_asset sound =
      refused-Inserts errors parent_of asset_of false asset_exists id asset (new id) t
        errors.no_parent refl sound
  found-Inserts owner user_id id asset new asset_exists (some (i, p)) t key is_parent is_asset
        sound =
      elim (Bool-cases (owner p == user_id)) [
        | inl mine ↦
            rw (mine, key i p refl)
              (add_found-Inserts id asset p new asset_exists t is_parent is_asset sound)
        | inr other ↦ rw other (
            refused-Inserts errors parent_of asset_of false asset_exists id asset (new id) t
              errors.not_owner refl sound)
      ]

  pub add_owned-Inserts :
      (owner : P → ℕ) (user_id id asset : ℕ) (new : ℕ → C) (asset_exists : Bool) (parents : Table P)
      (t : Table C)
      → parent_of (new id) ≡ id
      → asset_of (new id) ≡ asset
      → IsSound errors parent_of asset_of t
      → Inserts errors parent_of asset_of
          (is_users owner user_id (get id parents))
          asset_exists
          id
          asset
          (new id)
          t
          (add_child errors parent_of asset_of new asset_exists
            (get_owned errors owner id user_id parents)
            t)
  unfolding get_owned
  add_owned-Inserts owner user_id id asset new asset_exists parents t is_parent is_asset sound =
      found-Inserts owner user_id id asset new asset_exists (get id parents) t
        (λ i p e. find_row-key id i p parents.rows e) is_parent is_asset sound

  -- An update changes exactly one row, and only for the owner of its parent.
  abbrev pub Updates :
      ℕ
      → (C → C)
      → Result AppException (ℕ × P)
      → Table C
      → Result AppException (ℕ × C) × Table C
      → Type 0
  Updates id f parent t (result, t') =
      (is_ok result ≡ may_change id parent t)
      × ((j : ℕ)
          → get j t' ≡ (if may_change id parent t && j == id then map_row f (get j t) else get j t))

  update_found-Updates :
      (i id : ℕ) (p : P) (f : C → C) (t : Table C) (found : Option (ℕ × C))
      → get id t ≡ found
      → Updates id f (ok (i, p)) t (update_child errors parent_of asset_of id f (ok (i, p)) t)
  unfolding update_child update returned
  update_found-Updates i id p f t none e = rw e (refl, λ j. refl)
  update_found-Updates i id p f t (some (k, c)) e = elim (Bool-cases (parent_of c == i)) [
    | inl mine ↦ rw (e, mine) (refl, λ j. find_row-update id j f t.rows)
    | inr other ↦ rw (e, other) (refl, λ j. refl)
  ]

  pub update_child-Updates :
      (id : ℕ) (f : C → C) (parent : Result AppException (ℕ × P)) (t : Table C)
      → Updates id f parent t (update_child errors parent_of asset_of id f parent t)
  unfolding update_child
  update_child-Updates id f (err e) t = (refl, λ j. refl)
  update_child-Updates id f (ok (i, p)) t = update_found-Updates i id p f t (get id t) refl
