-- ===== src/Store/Joined.antt =====
-- A batch of rows by their keys, as the services read it into a dict before they render a list: a comprehension
-- over `get_by_id` of each key, without the keys that are missing.
use project_stock.Base.{
  ℕ, Bool, true, false, not, Option, none, some, List, [], ◌∷◌, ◌≡◌, refl, sym, ap, ◌∙◌, any,
  filter, ◌==◌, ◌||◌, arith, inl, inr, Bool-cases, if◌then◌else◌,
}
use project_stock.Store.{Table, find_row, get}
use project_stock.Store.Lookup.{find_row-key}

-- the keys in the order in which a dict first meets them
abbrev pub first_seen : List ℕ → List ℕ
first_seen [] = []
first_seen (k ∷ ks) = k ∷ filter (λ j. not (j == k)) (first_seen ks)

any-without :
    (k j : ℕ) (ks : List ℕ)
    → (j == k) ≡ false
    → any (λ i. i == k) (filter (λ i. not (i == j)) ks) ≡ any (λ i. i == k) ks
any-without k j [] h = refl
any-without k j (i ∷ ks) h = ground (arith, h, any-without k j ks h)

any-first_seen : (k : ℕ) (ks : List ℕ) → any (λ i. i == k) (first_seen ks) ≡ any (λ i. i == k) ks
any-first_seen k [] = refl
any-first_seen k (j ∷ ks) = elim (Bool-cases (j == k)) [
  | inl e ↦ rw e refl
  | inr e ↦ rw (e, any-without k j (first_seen ks) e, any-first_seen k ks) refl
]

module _ {R : Type 0} where
  abbrev keep : Option (ℕ × R) → List (ℕ × R) → List (ℕ × R)
  keep none rows = rows
  keep (some e) rows = e ∷ rows

  abbrev pub rows_of : Table R → List ℕ → List (ℕ × R)
  rows_of t [] = []
  rows_of t (k ∷ ks) = keep (get k t) (rows_of t ks)

  -- `{row.id: row for row in [repo.get_by_id(k) for k in keys] if row is not None}`
  abbrev pub dict_of : Table R → List ℕ → List (ℕ × R)
  dict_of t ks = rows_of t (first_seen ks)

  get_same :
      (k j : ℕ) (t : Table R) (found : Option (ℕ × R))
      → get j t ≡ found
      → (j == k) ≡ true
      → get k t ≡ found
  get_same k j t found h e = ap (λ i. get i t) (same_key k j e) ∙ h
    where
      same_key : (k j : ℕ) → (j == k) ≡ true → k ≡ j
      same_key k j e = ground (arith, e)

  find_row-keep :
      (k j : ℕ) (t : Table R) (found : Option (ℕ × R)) (rows : List (ℕ × R)) (later : Bool)
      → get j t ≡ found
      → find_row k rows ≡ (if later then get k t else none)
      → find_row k (keep found rows) ≡ (if j == k || later then get k t else none)
  find_row-keep k j t none rows later h rest = elim (Bool-cases (j == k)) [
    | inl e ↦ rw (e, get_same k j t none h e) (rest ∙ none_either later e)
    | inr e ↦ rw e rest
  ]
    where
      none_either : (later : Bool) → (j == k) ≡ true → (if later then get k t else none) ≡ none
      none_either true e = get_same k j t none h e
      none_either false e = refl
  find_row-keep k j t (some (i, r)) rows later h rest = elim (Bool-cases (j == k)) [
    | inl e ↦ rw (e, key_test ∙ e) (sym (get_same k j t (some (i, r)) h e))
    | inr e ↦ rw (e, key_test ∙ e) rest
  ]
    where
      key_test : (i == k) ≡ (j == k)
      key_test = ap (λ n. n == k) (find_row-key j i r t.rows h)

  find_row-rows_of :
      (k : ℕ) (t : Table R) (ks : List ℕ)
      → find_row k (rows_of t ks) ≡ (if any (λ i. i == k) ks then get k t else none)
  find_row-rows_of k t [] = refl
  find_row-rows_of k t (j ∷ ks) =
      find_row-keep k j t (get j t) (rows_of t ks) (any (λ i. i == k) ks) refl
        (find_row-rows_of k t ks)

  -- A lookup in the dict finds for each of the keys the row that the table has under it.
  pub find_row-dict_of :
      (k : ℕ) (t : Table R) (ks : List ℕ)
      → find_row k (dict_of t ks) ≡ (if any (λ i. i == k) ks then get k t else none)
  find_row-dict_of k t ks =
      find_row-rows_of k t (first_seen ks)
      ∙ ap (λ b. if b then get k t else none) (any-first_seen k ks)
