-- ===== src/RawNews/Urls.antt =====
-- No URL of a raw event stands twice.
use project_stock.Base.{
  String, Bool, Option, none, List, [], ◌∷◌, ℕ, any, refl, inl, inr, Bool-cases,
}
use project_stock.Base.Exec.{Ensures, Ensures-bind, Ensures-of_state, Ensures-state}
use project_stock.Store.{add_unique, update}
use project_stock.Store.Laws.{
  Unique, IsKeyed, add-IsKeyed, add-Unique, update-IsKeyed, update_rows-Unique,
}
use project_stock.RawNews.{
  RawNewsEvent, RawNewsEvents, add_saved, collect_and_save, same_url, create_or_skip, committed,
  mark, ProcessingStatus, set_status, NewsAdapterResult, raw_event, is_acceptable, save,
}

abbrev pub RawUrlsUnique : RawNewsEvents → Type 0
RawUrlsUnique t = IsKeyed t × Unique same_url t.rows

pub create_or_skip-RawUrlsUnique :
    (e : RawNewsEvent) (t : RawNewsEvents) → RawUrlsUnique t → RawUrlsUnique (create_or_skip e t).1
unfolding create_or_skip committed add_unique
create_or_skip-RawUrlsUnique e t h = elim (Bool-cases (any (λ r. same_url r.1 e) t.rows)) [
  | inl known ↦ rw known h
  | inr new ↦ rw new (add-IsKeyed e t h.0, add-Unique same_url e t h.1 new)
]

pub mark-RawUrlsUnique :
    (status : ProcessingStatus) (id : ℕ) (t : RawNewsEvents)
    → RawUrlsUnique t
    → RawUrlsUnique (mark status id t).1
unfolding mark update
mark-RawUrlsUnique status id t h = (
  update-IsKeyed id (set_status status) t h.0,
  update_rows-Unique same_url (set_status status) id t.rows (λ r s. refl) (λ r s. refl) h.1,
)

pub save-RawUrlsUnique :
    (fits : String → ℕ → Bool) (now : ℕ) (r : NewsAdapterResult) (symbol market : Option String)
    (t : RawNewsEvents)
    → RawUrlsUnique t
    → RawUrlsUnique (save fits now r symbol market t).1
unfolding save
save-RawUrlsUnique fits now r symbol market t h =
    elim (Bool-cases (is_acceptable fits r symbol market)) [
      | inl fine ↦ rw fine (create_or_skip-RawUrlsUnique (raw_event now r symbol market) t h)
      | inr refused ↦ rw refused h
    ]

collect_and_save-Ensures :
    (fits : String → ℕ → Bool) (now : ℕ) (rs : List NewsAdapterResult) (t : RawNewsEvents)
    → RawUrlsUnique t
    → Ensures (λ n t'. RawUrlsUnique t') RawUrlsUnique (collect_and_save fits now rs t)
unfolding collect_and_save add_saved
collect_and_save-Ensures fits now [] t h = h
collect_and_save-Ensures fits now (r ∷ rs) t h =
    Ensures-bind (λ saved t'. RawUrlsUnique t') (λ n t'. RawUrlsUnique t') RawUrlsUnique
      (save fits now r none none t) (λ saved. add_saved saved (collect_and_save fits now rs))
      (Ensures-of_state RawUrlsUnique _ (save-RawUrlsUnique fits now r none none t h))
      λ saved t' h'.
        Ensures-bind (λ n t'. RawUrlsUnique t') (λ n t'. RawUrlsUnique t') RawUrlsUnique
          (collect_and_save fits now rs t') _ (collect_and_save-Ensures fits now rs t' h')
          λ n t' h'. h'

pub collect_and_save-RawUrlsUnique :
    (fits : String → ℕ → Bool) (now : ℕ) (rs : List NewsAdapterResult) (t : RawNewsEvents)
    → RawUrlsUnique t
    → RawUrlsUnique (collect_and_save fits now rs t).1
collect_and_save-RawUrlsUnique fits now rs t h =
    Ensures-state RawUrlsUnique _ (collect_and_save-Ensures fits now rs t h)
