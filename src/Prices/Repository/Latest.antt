-- ===== src/Prices/Repository/Latest.antt =====
-- The stored bars as a map from the unique key, in which the latest bar of a key counts.
use project_stock.Base.{
  ℕ, Bool, true, false, ◌&&◌, Option, none, some, List, [], ◌∷◌, ◌++◌, ◌≡◌, refl, sym, ap, ◌∙◌, any,
  All, ◌||◌, is_some, length, filter, head?, eq_iff, eq_refl, ◌==◌, arith, inl, inr, Bool-cases,
  if◌then◌else◌,
}
use project_stock.Store.{update_rows, update, add, add_unique}
use project_stock.Store.Laws.{KeysDistinct}
use project_stock.Decimal.{Decimals}
use project_stock.Prices.{PriceBar}
use project_stock.Prices.Repository.{
  Bars, same_bar, get_by_unique_key, overwrite, put, upsert_all, insert, commit, counted,
  upsert_bars,
}
use project_stock.Prices.Repository.Keys.{
  HasUniqueBars, IfSome, changed-HasUniqueBars, upsert_bars-HasUniqueBars,
}

and_left : (a b : Bool) → (a && b) ≡ true → a ≡ true
and_left a b h = ground arith

and_right : (a b : Bool) → (a && b) ≡ true → b ≡ true
and_right a b h = ground arith

or_left : (a b : Bool) → (a || b) ≡ false → a ≡ false
or_left a b h = ground arith

or_right : (a b : Bool) → (a || b) ≡ false → b ≡ false
or_right a b h = ground arith

or_both : (a b : Bool) → a ≡ false → b ≡ false → (a || b) ≡ false
or_both a b h k = ground arith

module _ (d : Decimals) where
  -- Bars with one key have it in common with the same bars.
  same_bar-cong : (a b k : PriceBar d) → same_bar d a b ≡ true → same_bar d a k ≡ same_bar d b k
  same_bar-cong a b k e =
      rw
        (
          (eq_iff a.symbol b.symbol).0 (ground (arith, e)),
          (eq_iff a.market b.market).0 (ground (arith, e)),
          (eq_iff a.interval b.interval).0 (ground (arith, e)),
          same_time a b e,
        )
        refl
    where
      same_time : (a b : PriceBar d) → same_bar d a b ≡ true → a.timestamp ≡ b.timestamp
      same_time a b e = ground (arith, e)

  overwrite-same : (bar row : PriceBar d) → same_bar d row bar ≡ true → overwrite d bar row ≡ bar
  overwrite-same bar row e =
      rw
        (
          (eq_iff row.symbol bar.symbol).0 (ground (arith, e)),
          (eq_iff row.market bar.market).0 (ground (arith, e)),
          (eq_iff row.interval bar.interval).0 (ground (arith, e)),
          same_time row bar e,
        )
        refl
    where
      same_time : (a b : PriceBar d) → same_bar d a b ≡ true → a.timestamp ≡ b.timestamp
      same_time a b e = ground (arith, e)

  same_bar_refl : (a : PriceBar d) → same_bar d a a ≡ true
  same_bar_refl a = ground (arith, eq_refl a.symbol, eq_refl a.market, eq_refl a.interval)

  same_bar-sym : (a b : PriceBar d) → same_bar d a b ≡ true → same_bar d b a ≡ true
  same_bar-sym a b e = sym (same_bar-cong a b a e) ∙ same_bar_refl a

  -- the bar that a lookup found
  abbrev pub bar_of : Option (ℕ × PriceBar d) → Option (PriceBar d)
  bar_of none = none
  bar_of (some (i, bar)) = some bar

  abbrev find : PriceBar d → List (ℕ × PriceBar d) → Option (ℕ × PriceBar d)
  find key rows = head? (filter (λ e. same_bar d e.1 key) rows)

  -- The abstract state: what each key holds.
  abbrev pub BarMap : Type 0
  BarMap = PriceBar d → Option (PriceBar d)

  abbrev pub map_of : Bars d → BarMap
  map_of t key = bar_of (get_by_unique_key d key t)

  -- The abstract operations: a bar is put under its key, and the bars of a list one after the other.
  abbrev pub put_bar : PriceBar d → BarMap → BarMap
  put_bar bar m key = if same_bar d bar key then some bar else m key

  abbrev pub put_bars : List (PriceBar d) → BarMap → BarMap
  put_bars [] m = m
  put_bars (bar ∷ bars) m = put_bars bars (put_bar bar m)

  find_key :
      (key : PriceBar d) (i : ℕ) (row : PriceBar d) (rows : List (ℕ × PriceBar d))
      → find key rows ≡ some (i, row)
      → any (λ e. e.0 == i) rows ≡ true
  find_key key i row [] h = ground arith
  find_key key i row ((j, r) ∷ rows) h = elim (Bool-cases (same_bar d r key)) [
    | inl e ↦ ground (arith, e, h)
    | inr e ↦ ground (arith, e, h, find_key key i row rows)
  ]

  update_absent :
      (i : ℕ) (f : PriceBar d → PriceBar d) (rows : List (ℕ × PriceBar d))
      → any (λ e. e.0 == i) rows ≡ false
      → update_rows i f rows ≡ rows
  update_absent i f [] h = refl
  update_absent i f ((j, r) ∷ rows) h = ground (arith, h, update_absent i f rows)

  -- a bar of another key is under none of the keys that the bar has
  other_key :
      (r bar key : PriceBar d)
      → same_bar d r bar ≡ false
      → same_bar d r key ≡ true
      → same_bar d bar key ≡ false
  other_key r bar key differs e = elim (Bool-cases (same_bar d bar key)) [
    | inl f ↦ ground (arith, differs, same_bar-cong r key bar e, same_bar-sym bar key f)
    | inr f ↦ f
  ]

  find-append :
      (n : ℕ) (bar key : PriceBar d) (rows : List (ℕ × PriceBar d))
      → find bar rows ≡ none
      → bar_of (find key (rows ++ (n, bar) ∷ []))
        ≡ (if same_bar d bar key then some bar else bar_of (find key rows))
  find-append n bar key [] h = elim (Bool-cases (same_bar d bar key)) [
    | inl e ↦ rw e refl
    | inr e ↦ rw e refl
  ]
  find-append n bar key ((j, r) ∷ rows) h = elim (Bool-cases (same_bar d r bar)) [
    | inl e ↦ ground (arith, e, h)
    | inr e ↦ elim (Bool-cases (same_bar d r key)) [
      | inl f ↦ rw (f, other_key r bar key e f) refl
      | inr f ↦ rw f (find-append n bar key rows (ground (arith, e, h)))
    ]
  ]

  find-cons :
      (j : ℕ) (r key : PriceBar d) (rows : List (ℕ × PriceBar d))
      → bar_of (find key ((j, r) ∷ rows))
        ≡ (if same_bar d r key then some r else bar_of (find key rows))
  find-cons j r key rows = elim (Bool-cases (same_bar d r key)) [
    | inl e ↦ rw e refl
    | inr e ↦ rw e refl
  ]

  update_first :
      (i j : ℕ) (f : PriceBar d → PriceBar d) (r : PriceBar d) (rows : List (ℕ × PriceBar d))
      → j ≡ i
      → any (λ e. e.0 == j) rows ≡ false
      → update_rows i f ((j, r) ∷ rows) ≡ (j, f r) ∷ rows
  update_first i j f r rows e h = ground (arith, e, h, update_absent j f rows h)

  update_later :
      (i j : ℕ) (f : PriceBar d → PriceBar d) (r : PriceBar d) (rows : List (ℕ × PriceBar d))
      → (j == i) ≡ false
      → update_rows i f ((j, r) ∷ rows) ≡ (j, r) ∷ update_rows i f rows
  update_later i j f r rows e = rw e refl

  find_overwritten :
      (j : ℕ) (bar r key : PriceBar d) (rows : List (ℕ × PriceBar d))
      → same_bar d r bar ≡ true
      → bar_of (find key ((j, overwrite d bar r) ∷ rows))
        ≡ (if same_bar d bar key then some bar else bar_of (find key ((j, r) ∷ rows)))
  find_overwritten j bar r key rows e =
      ap (λ q. bar_of (find key ((j, q) ∷ rows))) (overwrite-same bar r e)
      ∙ (find-cons j bar key rows ∙ (elim (Bool-cases (same_bar d bar key)) [
        | inl f ↦ rw f refl
        | inr f ↦ rw f (sym (find-cons j r key rows ∙ rw (same_bar-cong r bar key e ∙ f) refl))
      ]))

  key_differs :
      (i j : ℕ) (rows : List (ℕ × PriceBar d))
      → any (λ e. e.0 == j) rows ≡ false
      → any (λ e. e.0 == i) rows ≡ true
      → (j == i) ≡ false
  key_differs i j [] none_j some_i = ground (arith, some_i)
  key_differs i j ((k, r) ∷ rows) none_j some_i =
      ground (arith, none_j, some_i, key_differs i j rows)

  found_first :
      (i j : ℕ) (bar row r : PriceBar d) (rows : List (ℕ × PriceBar d))
      → find bar ((j, r) ∷ rows) ≡ some (i, row)
      → same_bar d r bar ≡ true
      → j ≡ i
  found_first i j bar row r rows h e = ground (arith, h, e)

  find-update :
      (i : ℕ) (bar row key : PriceBar d) (rows : List (ℕ × PriceBar d))
      → KeysDistinct rows
      → find bar rows ≡ some (i, row)
      → bar_of (find key (update_rows i (overwrite d bar) rows))
        ≡ (if same_bar d bar key then some bar else bar_of (find key rows))
  find-update i bar row key [] keys h = ground arith
  find-update i bar row key ((j, r) ∷ rows) keys h = elim (Bool-cases (same_bar d r bar)) [
    | inl e ↦
        ap (λ rs. bar_of (find key rs))
          (update_first i j (overwrite d bar) r rows (found_first i j bar row r rows h e) keys.0)
        ∙ find_overwritten j bar r key rows e
    | inr e ↦
        let later = found_later i j bar row r rows h e in
        ap (λ rs. bar_of (find key rs))
          (update_later i j (overwrite d bar) r rows
            (key_differs i j rows keys.0 (find_key bar i row rows later)))
        ∙ (find-cons j r key (update_rows i (overwrite d bar) rows)
            ∙ kept r (find-update i bar row key rows keys.1 later) e)
  ]
    where
      kept :
          (r : PriceBar d) {new : Option (PriceBar d)}
          → new ≡ (if same_bar d bar key then some bar else bar_of (find key rows))
          → same_bar d r bar ≡ false
          → (if same_bar d r key then some r else new)
            ≡ (if same_bar d bar key then some bar else bar_of (find key ((j, r) ∷ rows)))
      kept r rest e = elim (Bool-cases (same_bar d r key)) [
        | inl f ↦ rw (f, other_key r bar key e f) refl
        | inr f ↦ rw f rest
      ]

      found_later :
          (i j : ℕ) (bar row r : PriceBar d) (rows : List (ℕ × PriceBar d))
          → find bar ((j, r) ∷ rows) ≡ some (i, row)
          → same_bar d r bar ≡ false
          → find bar rows ≡ some (i, row)
      found_later i j bar row r rows h e = ground (arith, h, e)

  add-put_bar :
      (bar key : PriceBar d) (t : Bars d)
      → get_by_unique_key d bar t ≡ none
      → map_of (add bar t).1 key ≡ put_bar bar (map_of t) key
  unfolding add
  add-put_bar bar key t e = find-append t.next_id bar key t.rows e

  update-put_bar :
      (bar key : PriceBar d) (i : ℕ) (row : PriceBar d) (t : Bars d)
      → HasUniqueBars d t
      → get_by_unique_key d bar t ≡ some (i, row)
      → map_of (update i (overwrite d bar) t) key ≡ put_bar bar (map_of t) key
  unfolding update
  update-put_bar bar key i row t h e = find-update i bar row key t.rows h.0.1 e

  put_bars-cong :
      (bars : List (PriceBar d)) (key : PriceBar d) (m n : BarMap)
      → ((k : PriceBar d) → m k ≡ n k)
      → put_bars bars m key ≡ put_bars bars n key
  put_bars-cong [] key m n same = same key
  put_bars-cong (bar ∷ bars) key m n same =
      put_bars-cong bars key (put_bar bar m) (put_bar bar n)
        (λ k. ap (λ o. if same_bar d bar k then some bar else o) (same k))

  -- the last bar of a list with a key
  abbrev pub last_of : List (PriceBar d) → PriceBar d → Option (PriceBar d) → Option (PriceBar d)
  last_of [] key other = other
  last_of (bar ∷ bars) key other = last_of bars key (if same_bar d bar key then some bar else other)

  put_bars-last_of :
      (bars : List (PriceBar d)) (m : BarMap) (key : PriceBar d)
      → put_bars bars m key ≡ last_of bars key (m key)
  put_bars-last_of [] m key = refl
  put_bars-last_of (bar ∷ bars) m key = put_bars-last_of bars (put_bar bar m) key

  or_last : Option (PriceBar d) → Option (PriceBar d) → Option (PriceBar d)
  or_last none other = other
  or_last (some bar) other = some bar

  last_of-or_last :
      (bars : List (PriceBar d)) (key : PriceBar d) (other : Option (PriceBar d))
      → last_of bars key other ≡ or_last (last_of bars key none) other
  unfolding or_last
  last_of-or_last [] key other = refl
  last_of-or_last (bar ∷ bars) key other = elim (Bool-cases (same_bar d bar key)) [
    | inl e ↦
        let found = last_of-or_last bars key (some bar) in
        rw e (found ∙ (some_either (last_of bars key none) ∙ ap (λ o. or_last o other) (sym found)))
    | inr e ↦ rw e (last_of-or_last bars key other)
  ]
    where
      some_either :
          (o : Option (PriceBar d)) → or_last o (some bar) ≡ or_last (or_last o (some bar)) other
      some_either none = refl
      some_either (some b) = refl

  -- lists that agree on the last bar of a key agree from every start
  last_of-same :
      (bars pending : List (PriceBar d)) (key : PriceBar d) (other : Option (PriceBar d))
      → last_of bars key none ≡ last_of pending key none
      → last_of bars key other ≡ last_of pending key other
  last_of-same bars pending key other same =
      last_of-or_last bars key other
      ∙ (ap (λ o. or_last o other) same ∙ sym (last_of-or_last pending key other))

  same_bar-right : (r a b : PriceBar d) → same_bar d a b ≡ true → same_bar d r a ≡ same_bar d r b
  same_bar-right r a b e =
      rw
        (
          (eq_iff a.symbol b.symbol).0 (ground (arith, e)),
          (eq_iff a.market b.market).0 (ground (arith, e)),
          (eq_iff a.interval b.interval).0 (ground (arith, e)),
          same_time a b e,
        )
        refl
    where
      same_time : (a b : PriceBar d) → same_bar d a b ≡ true → a.timestamp ≡ b.timestamp
      same_time a b e = ground (arith, e)

  find-same :
      (a b : PriceBar d) (rows : List (ℕ × PriceBar d))
      → same_bar d a b ≡ true
      → find a rows ≡ find b rows
  find-same a b [] e = refl
  find-same a b ((j, r) ∷ rows) e = elim (Bool-cases (same_bar d r b)) [
    | inl f ↦ rw (same_bar-right r a b e, f) refl
    | inr f ↦ rw (same_bar-right r a b e, f) (find-same a b rows e)
  ]

  not_both :
      {X : Type 0} (found : Option (ℕ × PriceBar d)) (e : ℕ × PriceBar d)
      → found ≡ some e
      → bar_of found ≡ none
      → X
  not_both none e f h = ground (arith, f)
  not_both (some g) e f h = ground (arith, h)

  -- A key that the table does not have stays away from it until the commit.
  put-absent :
      (bar key : PriceBar d) (t : Bars d) (found : Option (ℕ × PriceBar d))
      (rest : Bars d → List (PriceBar d) × Bars d)
      → ((u : Bars d) → HasUniqueBars d u → map_of u key ≡ none → map_of (rest u).1 key ≡ none)
      → HasUniqueBars d t
      → get_by_unique_key d bar t ≡ found
      → map_of t key ≡ none
      → map_of (put d bar t found rest).1 key ≡ none
  unfolding put
  put-absent bar key t none rest stays h e absent = stays t h absent
  put-absent bar key t (some (i, row)) rest stays h e absent =
      stays (update i (overwrite d bar) t) (changed-HasUniqueBars d bar i t h) (
        update-put_bar bar key i row t h e ∙ (elim (Bool-cases (same_bar d bar key)) [
          | inl same ↦
              not_both (find key t.rows) (i, row) (sym (find-same bar key t.rows same) ∙ e) absent
          | inr other ↦ rw other absent
        ]))

  upsert_all-absent :
      (bars : List (PriceBar d)) (key : PriceBar d) (t : Bars d)
      → HasUniqueBars d t
      → map_of t key ≡ none
      → map_of (upsert_all d bars t).1 key ≡ none
  unfolding upsert_all
  upsert_all-absent [] key t h absent = absent
  upsert_all-absent (bar ∷ bars) key t h absent =
      put-absent bar key t (get_by_unique_key d bar t) (upsert_all d bars)
        (upsert_all-absent bars key) h refl absent

  -- The changed rows and the pending ones together hold what the batch says.
  abbrev Agrees : List (PriceBar d) → PriceBar d → Bars d → List (PriceBar d) × Bars d → Type 0
  Agrees bars key t (pending, changed) =
      last_of bars key (map_of t key) ≡ last_of pending key (map_of changed key)

  put-Agrees :
      (bar key : PriceBar d) (bars : List (PriceBar d)) (t : Bars d)
      (found : Option (ℕ × PriceBar d))
      → ((u : Bars d) → HasUniqueBars d u → Agrees bars key u (upsert_all d bars u))
      → HasUniqueBars d t
      → get_by_unique_key d bar t ≡ found
      → Agrees (bar ∷ bars) key t (put d bar t found (upsert_all d bars))
  unfolding put
  put-Agrees bar key bars t none agrees h e =
      either (same_bar d bar key) (upsert_all d bars t)
        (λ same.
          let absent = ap bar_of (sym (find-same bar key t.rows same) ∙ e) in
          ap (last_of bars key) (sym absent)
          ∙ (agrees t h
              ∙ ap (last_of (upsert_all d bars t).0 key) (upsert_all-absent bars key t h absent)))
        (agrees t h)
    where
      either :
          (b : Bool) (s : List (PriceBar d) × Bars d)
          → (b ≡ true → last_of bars key none ≡ last_of s.0 key none)
          → last_of bars key (map_of t key) ≡ last_of s.0 key (map_of s.1 key)
          → last_of bars key (if b then some bar else map_of t key)
            ≡ last_of s.0 key (if b then some bar else map_of s.1 key)
      either true (pending, u) same rest = last_of-same bars pending key (some bar) (same refl)
      either false (pending, u) same rest = rest
  put-Agrees bar key bars t (some (i, row)) agrees h e =
      ap (last_of bars key) (sym (update-put_bar bar key i row t h e))
      ∙ agrees (update i (overwrite d bar) t) (changed-HasUniqueBars d bar i t h)

  upsert_all-Agrees :
      (bars : List (PriceBar d)) (key : PriceBar d) (t : Bars d)
      → HasUniqueBars d t
      → Agrees bars key t (upsert_all d bars t)
  unfolding upsert_all
  upsert_all-Agrees [] key t h = refl
  upsert_all-Agrees (bar ∷ bars) key t h =
      put-Agrees bar key bars t (get_by_unique_key d bar t) (upsert_all-Agrees bars key) h refl

  find_free :
      (bar : PriceBar d) (rows : List (ℕ × PriceBar d))
      → any (λ e. same_bar d e.1 bar) rows ≡ false
      → find bar rows ≡ none
  find_free bar [] h = refl
  find_free bar ((j, r) ∷ rows) h = ground (arith, h, find_free bar rows)

  commit-last_of :
      (pending : List (PriceBar d)) (key : PriceBar d) (t : Bars d)
      → IfSome d (λ u. map_of u key ≡ last_of pending key (map_of t key)) (commit d pending t)
  unfolding commit insert add_unique
  commit-last_of [] key t = refl
  commit-last_of (bar ∷ pending) key t = elim (Bool-cases (any (λ e. same_bar d e.1 bar) t.rows)) [
    | inl taken ↦ rw taken tt
    | inr is_free ↦
        rw (is_free, sym (add-put_bar bar key t (find_free bar t.rows is_free)))
          (commit-last_of pending key (add bar t).1)
  ]

  -- whether two bars of a batch have one key
  abbrev pub repeats : List (PriceBar d) → Bool
  repeats [] = false
  repeats (bar ∷ bars) = any (λ b. same_bar d bar b) bars || repeats bars

  abbrev Fresh : List (PriceBar d) → Bars d → Type 0
  Fresh pending t = All (λ b. any (λ e. same_bar d e.1 b) t.rows ≡ false) pending

  any-snoc :
      (n : ℕ) (bar b : PriceBar d) (rows : List (ℕ × PriceBar d))
      → any (λ e. same_bar d e.1 b) rows ≡ false
      → same_bar d bar b ≡ false
      → any (λ e. same_bar d e.1 b) (rows ++ (n, bar) ∷ []) ≡ false
  any-snoc n bar b [] h k = rw k refl
  any-snoc n bar b ((j, r) ∷ rows) h k = ground (arith, h, any-snoc n bar b rows)

  Fresh-add :
      (bar : PriceBar d) (pending : List (PriceBar d)) (t : Bars d)
      → any (λ b. same_bar d bar b) pending ≡ false
      → Fresh pending t
      → Fresh pending (add bar t).1
  unfolding add
  Fresh-add bar [] t h fresh = tt
  Fresh-add bar (b ∷ pending) t h fresh = (
    any-snoc t.next_id bar b t.rows fresh.0 (or_left (same_bar d bar b) _ h),
    Fresh-add bar pending t (or_right (same_bar d bar b) _ h) fresh.1,
  )

  commit-is_some :
      (pending : List (PriceBar d)) (t : Bars d)
      → Fresh pending t
      → repeats pending ≡ false
      → is_some (commit d pending t) ≡ true
  unfolding commit insert add_unique
  commit-is_some [] t fresh h = refl
  commit-is_some (bar ∷ pending) t fresh h = rw fresh.0 (
      commit-is_some pending (add bar t).1
        (Fresh-add bar pending t (or_left (any (λ b. same_bar d bar b) pending) _ h) fresh.1)
        (or_right (any (λ b. same_bar d bar b) pending) _ h))

  free_absent :
      (bar : PriceBar d) (rows : List (ℕ × PriceBar d))
      → bar_of (find bar rows) ≡ none
      → any (λ e. same_bar d e.1 bar) rows ≡ false
  free_absent bar [] h = refl
  free_absent bar ((j, r) ∷ rows) h = ground (arith, h, free_absent bar rows)

  -- The pending rows are free in the table, and they are some of the bars.
  abbrev Pends : List (PriceBar d) → List (PriceBar d) × Bars d → Type 0
  Pends bars (pending, t) =
      Fresh pending t
      × ((q : PriceBar d → Bool) → any q bars ≡ false → any q pending ≡ false)
      × (repeats bars ≡ false → repeats pending ≡ false)

  put-Pends :
      (bar : PriceBar d) (bars : List (PriceBar d)) (t : Bars d) (found : Option (ℕ × PriceBar d))
      → ((u : Bars d) → HasUniqueBars d u → Pends bars (upsert_all d bars u))
      → HasUniqueBars d t
      → get_by_unique_key d bar t ≡ found
      → Pends (bar ∷ bars) (put d bar t found (upsert_all d bars))
  unfolding put
  put-Pends bar bars t none pends h e =
      let p = pends t h in
      let pending = (upsert_all d bars t).0 in
      (
        (
          free_absent bar (upsert_all d bars t).1.rows
              (upsert_all-absent bars bar t h (ap bar_of e)),
          p.0,
        ),
        (λ q none_of.
            or_both (q bar) (any q pending) (or_left (q bar) _ none_of)
              (p.1 q (or_right (q bar) _ none_of))),
        (λ none_of.
            or_both (any (λ b. same_bar d bar b) pending) (repeats pending)
              (p.1 (λ b. same_bar d bar b) (or_left (any (λ b. same_bar d bar b) bars) _ none_of))
              (p.2 (or_right (any (λ b. same_bar d bar b) bars) _ none_of))),
      )
  put-Pends bar bars t (some (i, row)) pends h e =
      let p = pends (update i (overwrite d bar) t) (changed-HasUniqueBars d bar i t h) in
      (
        p.0,
        (λ q none_of. p.1 q (or_right (q bar) _ none_of)),
        (λ none_of. p.2 (or_right (any (λ b. same_bar d bar b) bars) _ none_of)),
      )

  upsert_all-Pends :
      (bars : List (PriceBar d)) (t : Bars d) → HasUniqueBars d t → Pends bars (upsert_all d bars t)
  unfolding upsert_all
  upsert_all-Pends [] t h = (tt, (λ q e. e), (λ e. e))
  upsert_all-Pends (bar ∷ bars) t h =
      put-Pends bar bars t (get_by_unique_key d bar t) (upsert_all-Pends bars) h refl

  -- What an upsert of a batch leaves behind, if its commit is not refused.
  abbrev pub Upserts : List (PriceBar d) → Bars d → Option (ℕ × Bars d) → Type 0
  Upserts bars t result =
      IfSome d
        (λ r.
          (r.0 ≡ length bars)
          × ((key : PriceBar d) → map_of r.1 key ≡ put_bars bars (map_of t) key)
          × HasUniqueBars d r.1)
        result
      × (repeats bars ≡ false → is_some result ≡ true)

  counted-Upserts :
      (bars : List (PriceBar d)) (t : Bars d) (committed : Option (Bars d))
      → ((key : PriceBar d) → IfSome d (λ u. map_of u key ≡ put_bars bars (map_of t) key) committed)
      → IfSome d (λ r. HasUniqueBars d r.1) (counted d (length bars) committed)
      → (repeats bars ≡ false → is_some committed ≡ true)
      → Upserts bars t (counted d (length bars) committed)
  counted-Upserts bars t none maps unique goes = (tt, goes)
  counted-Upserts bars t (some u) maps unique goes = ((refl, maps, unique), goes)

  IfSome-map :
      {P Q : Bars d → Type 0} (o : Option (Bars d))
      → ((u : Bars d) → P u → Q u)
      → IfSome d P o
      → IfSome d Q o
  IfSome-map none f h = tt
  IfSome-map (some u) f h = f u h

  pub upsert_bars-put_bars :
      (bars : List (PriceBar d)) (t : Bars d)
      → HasUniqueBars d t
      → Upserts bars t (upsert_bars d bars t)
  unfolding upsert_bars
  upsert_bars-put_bars bars t h =
      let s = upsert_all d bars t in
      let pends = upsert_all-Pends bars t h in
      counted-Upserts bars t (commit d s.0 s.1)
        (λ key.
          IfSome-map (commit d s.0 s.1)
            (λ u e.
              e
              ∙ (sym (upsert_all-Agrees bars key t h) ∙ sym (put_bars-last_of bars (map_of t) key)))
            (commit-last_of s.0 key s.1))
        (upsert_bars-HasUniqueBars d bars t h)
        (λ none_of. commit-is_some s.0 s.1 pends.0 (pends.2 none_of))
