-- ===== src/Alerts/Dedup.antt =====
-- A user is alerted once for each deduplication key.
use project_stock.Base.{
  ℕ, String, Bool, true, ◌&&◌, none, some, ◌≡◌, refl, str_eq, eq_refl, ◌==◌, not, any, any-append,
  arith, inl, inr, Bool-cases, is_some,
}
use project_stock.Store.{add_unique, add}
use project_stock.Store.Laws.{Unique, add-Unique}
use project_stock.Signals.{Signal}
use project_stock.Alerts.{
  Alerts, AlertCreate, same_dedup, new_alert, create_if_absent, create_alert, dedup_key,
}

-- The unique constraint holds of the table.
abbrev pub IsDeduplicated : Alerts → Type 0
IsDeduplicated t = Unique same_dedup t.rows

create_if_absent-IsDeduplicated :
    (now : ℕ) (d : AlertCreate) (t : Alerts)
    → IsDeduplicated t
    → IsDeduplicated (create_if_absent now d t).1
unfolding create_if_absent add_unique
create_if_absent-IsDeduplicated now d t h =
    elim (Bool-cases (any (λ e. same_dedup e.1 (new_alert now d)) t.rows)) [
      | inl e ↦ rw e h
      | inr e ↦ rw e (add-Unique same_dedup (new_alert now d) t h e)
    ]

pub create_alert-IsDeduplicated :
    (now user_id : ℕ) (s : ℕ × Signal) (t : Alerts)
    → IsDeduplicated t
    → IsDeduplicated (create_alert now user_id s t).1
unfolding create_alert
create_alert-IsDeduplicated now user_id s t h = create_if_absent-IsDeduplicated now _ t h

-- whether the user has an alert with the key
abbrev pub has_alert : ℕ → String → Alerts → Bool
has_alert user_id key t = any (λ e. e.1.user_id == user_id && str_eq e.1.dedup_key key) t.rows

-- Creating an alert makes one exactly if the user has none with the signal's key; then the user has one,
-- and no key of any user is lost.
pub create_alert_exact :
    (now user_id : ℕ) (s : ℕ × Signal) (t : Alerts)
    → (is_some (create_alert now user_id s t).0 ≡ not (has_alert user_id (dedup_key s) t))
      × (has_alert user_id (dedup_key s) (create_alert now user_id s t).1 ≡ true)
      × ((user : ℕ) (key : String)
          → has_alert user key t ≡ true
          → has_alert user key (create_alert now user_id s t).1 ≡ true)
unfolding create_alert create_if_absent add_unique add
create_alert_exact now user_id s t = elim (Bool-cases (has_alert user_id (dedup_key s) t)) [
  | inl e ↦ rw e (refl, e, λ user key h. h)
  | inr e ↦ rw e (
    refl,
    rw any-append (ground (arith, eq_refl (dedup_key s))),
    λ user key h. rw any-append (rw h refl),
  )
]

dedup_key-same_news :
    (n : ℕ) (r s : ℕ × Signal)
    → r.1.signal_type ≡ s.1.signal_type
    → r.1.news_item_id ≡ some n
    → s.1.news_item_id ≡ some n
    → dedup_key r ≡ dedup_key s
unfolding dedup_key
dedup_key-same_news n (i, r) (j, s) kind hr hs = rw (hr, hs, kind)

create_alert_again :
    (now user_id : ℕ) (s : ℕ × Signal) (t : Alerts)
    → has_alert user_id (dedup_key s) t ≡ true
    → create_alert now user_id s t ≡ (none, t)
unfolding create_alert create_if_absent add_unique
create_alert_again now user_id s t e = rw e

-- Two signals of one type about one news item alert a user once: the second creates nothing.
pub same_news_once :
    (now later user_id n : ℕ) (r s : ℕ × Signal) (t : Alerts)
    → r.1.signal_type ≡ s.1.signal_type
    → r.1.news_item_id ≡ some n
    → s.1.news_item_id ≡ some n
    → create_alert later user_id s (create_alert now user_id r t).1
      ≡ (none, (create_alert now user_id r t).1)
same_news_once now later user_id n r s t kind hr hs =
    create_alert_again later user_id s (create_alert now user_id r t).1
      (rw (← dedup_key-same_news n r s kind hr hs) (create_alert_exact now user_id r t).1)
