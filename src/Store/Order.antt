-- ===== src/Store/Order.antt =====
-- `order_by`, `offset` and `limit` of a query. The orders of the repositories are total, since the
-- primary key comes last in each, so the sorted list is the only one.
use project_stock.Base.{
  ℕ, suc, ◌≡◌, refl, Bool, ◌&&◌, ◌||◌, Option, none, some, List, [], ◌∷◌, arith, ltb, leb, ◌==◌,
  any, take, drop, length, if◌then◌else◌,
}

module _ {ℓ} {A : Type ℓ} where
  -- `before x y` is that `x` is listed before `y` or has its place.
  abbrev pub insert_by : (A → A → Bool) → A → List A → List A
  insert_by before x [] = x ∷ []
  insert_by before x (y ∷ ys) = if before x y then x ∷ y ∷ ys else y ∷ insert_by before x ys

  abbrev pub order_by : (A → A → Bool) → List A → List A
  order_by before [] = []
  order_by before (x ∷ xs) = insert_by before x (order_by before xs)

  abbrev pub offset_limit : ℕ → Option ℕ → List A → List A
  offset_limit offset none xs = drop offset xs
  offset_limit offset (some limit) xs = take limit (drop offset xs)

  pub length-insert_by :
      (before : A → A → Bool) (x : A) (xs : List A)
      → length (insert_by before x xs) ≡ suc (length xs)
  length-insert_by before x [] = refl
  length-insert_by before x (y ∷ ys) = ground (arith, length-insert_by before x ys)

  pub length-order_by :
      (before : A → A → Bool) (xs : List A) → length (order_by before xs) ≡ length xs
  length-order_by before [] = refl
  length-order_by before (x ∷ xs) =
      omega (arith, length-insert_by before x (order_by before xs), length-order_by before xs)

  pub any-insert_by :
      (p : A → Bool) (before : A → A → Bool) (x : A) (xs : List A)
      → any p (insert_by before x xs) ≡ (p x || any p xs)
  any-insert_by p before x [] = refl
  any-insert_by p before x (y ∷ ys) = ground (arith, any-insert_by p before x ys)

  -- Sorting loses no element and makes none up.
  pub any-order_by :
      (p : A → Bool) (before : A → A → Bool) (xs : List A) → any p (order_by before xs) ≡ any p xs
  any-order_by p before [] = refl
  any-order_by p before (x ∷ xs) =
      ground (arith, any-insert_by p before x (order_by before xs), any-order_by p before xs)

module _ {ℓ} {R : Type ℓ} where
  -- `order_by(time.desc(), id.desc())`
  abbrev pub newest_first : (R → ℕ) → ℕ × R → ℕ × R → Bool
  newest_first time a b = ltb (time b.1) (time a.1) || (time a.1 == time b.1 && leb b.0 a.0)

  -- `order_by(time, id)`
  abbrev pub oldest_first : (R → ℕ) → ℕ × R → ℕ × R → Bool
  oldest_first time a b = ltb (time a.1) (time b.1) || (time a.1 == time b.1 && leb a.0 b.0)

  abbrev pub by_id : ℕ × R → ℕ × R → Bool
  by_id a b = leb a.0 b.0

  abbrev pub by_id_desc : ℕ × R → ℕ × R → Bool
  by_id_desc a b = leb b.0 a.0
