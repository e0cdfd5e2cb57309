-- ===== src/Signals/Status.antt =====
-- `resolve_watchlist_status` of app/domains/signals/types.py.
use project_stock.Base.{
  true, inl, inr, Bool-cases, String, Bool, List, [], ◌∷◌, ◌≡◌, ◌⊎◌, refl, str_eq, any,
  if◌then◌else◌,
}
use project_stock.Signals.{
  SignalType, watch, risk_alert, thesis_broken, buy_candidate, sell_review, overheated, value,
}

abbrev pub watchlist_status_priority : List SignalType
watchlist_status_priority =
    risk_alert ∷ thesis_broken ∷ sell_review ∷ overheated ∷ buy_candidate ∷ watch ∷ []

-- `signal_type.value in active_types`
abbrev pub contains : String → List String → Bool
contains s types = any (λ t. str_eq t s) types

first_active : List SignalType → List String → String
first_active [] types = "NORMAL"
first_active (p ∷ ps) types = if contains (value p) types then value p else first_active ps types

-- the set of types is given as a list of its members
unfoldable pub resolve_watchlist_status : List String → String
unfolding first_active
resolve_watchlist_status types = first_active watchlist_status_priority types

first_active-same :
    (ps : List SignalType) (a b : List String)
    → ((s : String) → contains s a ≡ contains s b)
    → first_active ps a ≡ first_active ps b
unfolding first_active
first_active-same [] a b same = refl
first_active-same (p ∷ ps) a b same = rw (same (value p), first_active-same ps a b same) refl

-- The status depends only on which types are active, not on the order or the repetitions in which they are
-- given.
pub resolve_watchlist_status-same :
    (a b : List String)
    → ((s : String) → contains s a ≡ contains s b)
    → resolve_watchlist_status a ≡ resolve_watchlist_status b
unfolding resolve_watchlist_status
resolve_watchlist_status-same a b same = first_active-same watchlist_status_priority a b same

first_active-contains :
    (ps : List SignalType) (types : List String)
    → (contains (first_active ps types) types ≡ true) ⊎ (first_active ps types ≡ "NORMAL")
unfolding first_active
first_active-contains [] types = inr refl
first_active-contains (p ∷ ps) types = elim (Bool-cases (contains (value p) types)) [
  | inl active ↦ rw active (inl active)
  | inr inactive ↦ rw inactive (first_active-contains ps types)
]

-- The status is one of the active types, or NORMAL.
pub resolve_watchlist_status-contains :
    (types : List String)
    → (contains (resolve_watchlist_status types) types ≡ true)
      ⊎ (resolve_watchlist_status types ≡ "NORMAL")
unfolding resolve_watchlist_status
resolve_watchlist_status-contains types = first_active-contains watchlist_status_priority types
