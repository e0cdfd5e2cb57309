-- ===== src/Signals/Active.antt =====
-- No two active signals share asset, type and news item: what `exists_active` before each creation keeps.
use project_stock.Base.{
  ℕ, Bool, true, false, ◌&&◌, ◌||◌, Option, none, some, List, [], ◌∷◌, ◌≡◌, refl, eq_refl, opt_eq,
  any, any-append, All, arith, inl, inr, Bool-cases,
}
use project_stock.Store.{add}
use project_stock.Store.Laws.{Unique, add-Unique}
use project_stock.Signals.{
  Signal, SignalCreate, Signals, value, signal_of, create, not_expired, is_active, matches_key,
  exists_active,
}
use project_stock.Signals.Rules.{Rule, RuleContext, create_one, create_all, run, candidates}

opt_eq_refl : (o : Option ℕ) → opt_eq o o ≡ true
opt_eq_refl none = refl
opt_eq_refl (some n) = ground arith

-- Two signals that are active at `now` with one asset, type and news item.
abbrev pub active_clash : ℕ → Signal → Signal → Bool
active_clash now r s =
    matches_key s.asset_id s.signal_type s.news_item_id r && is_active now r && is_active now s

abbrev pub NoActiveDuplicate : ℕ → Signals → Type 0
NoActiveDuplicate now t = Unique (active_clash now) t.rows

both_false :
    (m a b rest rest' : Bool)
    → (m && a || rest) ≡ false
    → (rest ≡ false → rest' ≡ false)
    → (m && a && b || rest') ≡ false
both_false m a b rest rest' h next = ground arith

abbrev same_key : ℕ → SignalCreate → ℕ × Signal → Bool
same_key now c e =
    matches_key c.asset_id (value c.signal_type) c.news_item_id e.1 && is_active now e.1

no_clash :
    (now : ℕ) (c : SignalCreate) (rs : List (ℕ × Signal))
    → any (same_key now c) rs ≡ false
    → any (λ e. active_clash now e.1 (signal_of now c)) rs ≡ false
no_clash now c [] h = refl
no_clash now c ((i, r) ∷ rs) h =
    both_false (matches_key c.asset_id (value c.signal_type) c.news_item_id r) (is_active now r) _
      (any (same_key now c) rs) _ h (no_clash now c rs)

-- whether a proposal is skipped
abbrev pub skips : ℕ → SignalCreate → Signals → Bool
skips now c t = exists_active now c.asset_id (value c.signal_type) c.news_item_id t

create_one-NoActiveDuplicate :
    (now : ℕ) (c : SignalCreate) (t : Signals)
    → NoActiveDuplicate now t
    → NoActiveDuplicate now (create_one now c t).1
unfolding create_one create exists_active
create_one-NoActiveDuplicate now c t h = elim (Bool-cases (skips now c t)) [
  | inl e ↦ rw e h
  | inr e ↦ rw e (add-Unique (active_clash now) (signal_of now c) t h (no_clash now c t.rows e))
]

pub create_all-NoActiveDuplicate :
    (now : ℕ) (cs : List SignalCreate) (t : Signals)
    → NoActiveDuplicate now t
    → NoActiveDuplicate now (create_all now cs t).1
unfolding create_all
create_all-NoActiveDuplicate now [] t h = h
create_all-NoActiveDuplicate now (c ∷ cs) t h =
    create_all-NoActiveDuplicate now cs (create_one now c t).1
      (create_one-NoActiveDuplicate now c t h)

-- A run of the engine, with any rules, keeps the signals that are active at its time free of duplicates:
-- no two of them share asset, type and news item.
pub run-NoActiveDuplicate :
    (now : ℕ) (rules : List Rule) (ctx : RuleContext) (t : Signals)
    → NoActiveDuplicate now t
    → NoActiveDuplicate now (run now rules ctx t).1
unfolding run
run-NoActiveDuplicate now rules ctx t h =
    create_all-NoActiveDuplicate now (candidates rules ctx) t h

-- A proposal that does not expire before it is created is skipped from then on.
skips-create_one :
    (now : ℕ) (c : SignalCreate) (t : Signals)
    → not_expired c.expires_at now ≡ true
    → skips now c (create_one now c t).1 ≡ true
unfolding create_one create exists_active add
skips-create_one now c t live = elim (Bool-cases (skips now c t)) [
  | inl e ↦ rw e e
  | inr e ↦
      rw e
        (rw any-append (ground (arith, eq_refl (value c.signal_type), opt_eq_refl c.news_item_id)))
]

skips-mono_one :
    (now : ℕ) (c d : SignalCreate) (t : Signals)
    → skips now c t ≡ true
    → skips now c (create_one now d t).1 ≡ true
unfolding create_one create exists_active add
skips-mono_one now c d t h = elim (Bool-cases (skips now d t)) [
  | inl e ↦ rw e h
  | inr e ↦ rw e (rw any-append (rw h refl))
]

skips-mono_all :
    (now : ℕ) (c : SignalCreate) (ds : List SignalCreate) (t : Signals)
    → skips now c t ≡ true
    → skips now c (create_all now ds t).1 ≡ true
unfolding create_all
skips-mono_all now c [] t h = h
skips-mono_all now c (d ∷ ds) t h =
    skips-mono_all now c ds (create_one now d t).1 (skips-mono_one now c d t h)

abbrev pub Live : ℕ → List SignalCreate → Type 0
Live now = All (λ c. not_expired c.expires_at now ≡ true)

pub All-skipped :
    (now : ℕ) (cs : List SignalCreate) (t : Signals)
    → Live now cs
    → All (λ c. skips now c (create_all now cs t).1 ≡ true) cs
unfolding create_all
All-skipped now [] t live = tt
All-skipped now (c ∷ cs) t live = (
  skips-mono_all now c cs (create_one now c t).1 (skips-create_one now c t live.0),
  All-skipped now cs (create_one now c t).1 live.1,
)

skip-All :
    (now : ℕ) (cs : List SignalCreate) (t : Signals)
    → All (λ c. skips now c t ≡ true) cs
    → create_all now cs t ≡ ([], t)
unfolding create_all create_one
skip-All now [] t h = refl
skip-All now (c ∷ cs) t h = rw h.0 (skip-All now cs t h.1)

-- What was proposed is not created a second time.
pub create_all-create_all :
    (now : ℕ) (cs : List SignalCreate) (t : Signals)
    → Live now cs
    → create_all now cs (create_all now cs t).1 ≡ ([], (create_all now cs t).1)
create_all-create_all now cs t live =
    skip-All now cs (create_all now cs t).1 (All-skipped now cs t live)

-- A second run of the engine on the same news item at the same time creates nothing and leaves the table
-- alone, if no rule proposes a signal that has expired already.
pub run-run :
    (now : ℕ) (rules : List Rule) (ctx : RuleContext) (t : Signals)
    → Live now (candidates rules ctx)
    → run now rules ctx (run now rules ctx t).1 ≡ ([], (run now rules ctx t).1)
unfolding run
run-run now rules ctx t live = create_all-create_all now (candidates rules ctx) t live
