-- ===== src/Prices/Repository/Keys.antt =====
-- The unique key of the stored bars.
use project_stock.Base.{
  ℕ, Option, none, some, List, [], ◌∷◌, refl, any, length, inl, inr, Bool-cases,
}
use project_stock.Store.{add, add_unique, update}
use project_stock.Store.Laws.{
  Unique, IsKeyed, add-IsKeyed, add-Unique, update-IsKeyed, update_rows-Unique,
}
use project_stock.Decimal.{Decimals}
use project_stock.Prices.{PriceBar}
use project_stock.Prices.Repository.{
  Bars, same_bar, get_by_unique_key, overwrite, put, upsert_all, insert, commit, counted,
  upsert_bars,
}

module _ (d : Decimals) where
  -- The rows have distinct primary keys, and no unique key stands twice.
  abbrev pub HasUniqueBars : Bars d → Type 0
  HasUniqueBars t = IsKeyed t × Unique (same_bar d) t.rows

  pub changed-HasUniqueBars :
      (bar : PriceBar d) (i : ℕ) (t : Bars d)
      → HasUniqueBars t
      → HasUniqueBars (update i (overwrite d bar) t)
  unfolding update
  changed-HasUniqueBars bar i t h = (
    update-IsKeyed i (overwrite d bar) t h.0,
    update_rows-Unique (same_bar d) (overwrite d bar) i t.rows (λ r s. refl) (λ r s. refl) h.1,
  )

  put-HasUniqueBars :
      (bar : PriceBar d) (t : Bars d) (found : Option (ℕ × PriceBar d))
      (rest : Bars d → List (PriceBar d) × Bars d)
      → ((u : Bars d) → HasUniqueBars u → HasUniqueBars (rest u).1)
      → HasUniqueBars t
      → HasUniqueBars (put d bar t found rest).1
  unfolding put
  put-HasUniqueBars bar t none rest keeps h = keeps t h
  put-HasUniqueBars bar t (some (i, row)) rest keeps h =
      keeps (update i (overwrite d bar) t) (changed-HasUniqueBars bar i t h)

  pub upsert_all-HasUniqueBars :
      (bars : List (PriceBar d)) (t : Bars d)
      → HasUniqueBars t
      → HasUniqueBars (upsert_all d bars t).1
  unfolding upsert_all
  upsert_all-HasUniqueBars [] t h = h
  upsert_all-HasUniqueBars (bar ∷ bars) t h =
      put-HasUniqueBars bar t (get_by_unique_key d bar t) (upsert_all d bars)
        (upsert_all-HasUniqueBars bars) h

  -- what holds of a result, if there is one
  abbrev pub IfSome : {A : Type 0} → (A → Type 0) → Option A → Type 0
  IfSome P none = Unit {0}
  IfSome P (some a) = P a

  commit-HasUniqueBars :
      (pending : List (PriceBar d)) (t : Bars d)
      → HasUniqueBars t
      → IfSome HasUniqueBars (commit d pending t)
  unfolding commit insert add_unique
  commit-HasUniqueBars [] t h = h
  commit-HasUniqueBars (bar ∷ pending) t h =
      elim (Bool-cases (any (λ e. same_bar d e.1 bar) t.rows)) [
        | inl taken ↦ rw taken tt
        | inr is_free ↦ rw is_free (
            commit-HasUniqueBars pending (add bar t).1
              (add-IsKeyed bar t h.0, add-Unique (same_bar d) bar t h.1 is_free))
      ]

  counted-HasUniqueBars :
      (n : ℕ) (t : Option (Bars d))
      → IfSome HasUniqueBars t
      → IfSome (λ r. HasUniqueBars r.1) (counted d n t)
  counted-HasUniqueBars n none h = tt
  counted-HasUniqueBars n (some t) h = h

  -- Upserting bars never leaves a second row with the same symbol, market, interval and time.
  pub upsert_bars-HasUniqueBars :
      (bars : List (PriceBar d)) (t : Bars d)
      → HasUniqueBars t
      → IfSome (λ r. HasUniqueBars r.1) (upsert_bars d bars t)
  unfolding upsert_bars
  upsert_bars-HasUniqueBars bars t h =
      let s = upsert_all d bars t in
      counted-HasUniqueBars (length bars) (commit d s.0 s.1)
        (commit-HasUniqueBars s.0 s.1 (upsert_all-HasUniqueBars bars t h))
