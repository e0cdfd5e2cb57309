-- ===== src/Candidates/Listing.antt =====
-- Pages of candidates against the count that goes with them.
use Prim.Native.Nat.{min}
use project_stock.Base.{
  ℕ, ◌-◌, String, Bool, false, none, some, List, ◌≡◌, refl, ◌∙◌, arith, any, drop, not, filter,
  any-take, any-drop, [], ◌∷◌, length, length-take, length-drop,
}
use project_stock.Store.Order.{length-order_by, any-order_by}
use project_stock.Candidates.{
  AlertCandidate, Candidates, Filters, is_selected, filtered_query, apply_sort, list_by_user,
  count_by_user,
}

length-apply_sort :
    (sort : String) (rows : List (ℕ × AlertCandidate)) → length (apply_sort sort rows) ≡ length rows
unfolding apply_sort
length-apply_sort sort rows = length-order_by _ rows

any-apply_sort :
    (p : ℕ × AlertCandidate → Bool) (sort : String) (rows : List (ℕ × AlertCandidate))
    → any p (apply_sort sort rows) ≡ any p rows
unfolding apply_sort
any-apply_sort p sort rows = any-order_by p _ rows

-- A page holds as many candidates as the count says are left from its offset on, and at most its size,
-- whatever the filters and the order; without a size it holds all that are left.
pub page_length :
    (user_id offset : ℕ) (f : Filters) (sort : String) (t : Candidates)
    → ((limit : ℕ)
        → length (list_by_user user_id f offset (some limit) sort t)
          ≡ min limit (count_by_user user_id f t - offset))
      × (length (list_by_user user_id f offset none sort t) ≡ count_by_user user_id f t - offset)
unfolding list_by_user count_by_user filtered_query
page_length user_id offset f sort t =
    let rows = apply_sort sort (filtered_query user_id f t) in
    let same = length-apply_sort sort (filtered_query user_id f t) in
    (
      λ limit. omega (arith, length-take limit (drop offset rows), length-drop offset rows, same),
      omega (arith, length-drop offset rows, same),
    )

filter_selects :
    {A : Type 0} (p : A → Bool) (xs : List A) → any (λ x. not (p x)) (filter p xs) ≡ false
filter_selects p [] = refl
filter_selects p (x ∷ xs) = ground (arith, filter_selects p xs)

-- No page, of any size, shows a candidate of another user or one that a filter excludes.
pub page_selected :
    (user_id offset limit : ℕ) (f : Filters) (sort : String) (t : Candidates)
    → any (λ c. not (is_selected user_id f c)) (list_by_user user_id f offset (some limit) sort t)
      ≡ false
unfolding list_by_user filtered_query
page_selected user_id offset limit f sort t = any-take _ limit _ (
    any-drop _ offset (apply_sort sort (filtered_query user_id f t)) (
      any-apply_sort _ sort (filtered_query user_id f t)
      ∙ filter_selects (is_selected user_id f) t.rows))
