-- ===== src/Signals/Rules/Laws.antt =====
-- What the default rules propose.
use project_stock.Base.{
  ℕ, ◌≤◌, String, Option, none, some, List, [], ◌∷◌, ◌≡◌, refl, str_eq, eq_iff, All, arith,
  if◌then◌else◌, map, ap, ◌∙◌, ◌++◌,
}
use project_stock.Theses.{ThesisConflictResult}
use project_stock.Signals.{SignalCreate, SignalType, risk_alert, thesis_broken}
use project_stock.Signals.Rules.{
  RuleContext, thesis_conflict_rule, high_impact_rule, default_rules, candidates, keep_some,
  on_conflict, on_impact,
}

-- What every proposal holds: the asset and the news item of its context, a score that the schema accepts
-- (0 to 100), and no expiry.
pub record IsFor (ctx : RuleContext) (c : SignalCreate) : Type 0 where
  pub asset : c.asset_id ≡ ctx.asset_id
  pub news : c.news_item_id ≡ some ctx.news_item.0
  pub score_bound : c.score ≤ 100
  pub lasting : c.expires_at ≡ none

on_conflict-IsFor :
    (ctx : RuleContext) (o : Option ThesisConflictResult) (c : SignalCreate)
    → on_conflict ctx o ≡ some c
    → IsFor ctx c
unfolding on_conflict
on_conflict-IsFor ctx none c h = cc
on_conflict-IsFor ctx (some r) c h = ground arith

on_impact-IsFor :
    (ctx : RuleContext) (o : Option String) (c : SignalCreate)
    → on_impact ctx o ≡ some c
    → IsFor ctx c
unfolding on_impact
on_impact-IsFor ctx none c h = cc
on_impact-IsFor ctx (some level) c h = ground arith

keep_some-All :
    (P : SignalCreate → Type 0) (o : Option SignalCreate) (cs : List SignalCreate)
    → ((c : SignalCreate) → o ≡ some c → P c)
    → All P cs
    → All P (keep_some o cs)
keep_some-All P none cs h rest = rest
keep_some-All P (some c) cs h rest = (h c refl, rest)

-- Every proposal of the default rules is about the asset and the news item of its context, has a score of
-- at most 100, and does not expire.
pub default_rules-IsFor : (ctx : RuleContext) → All (IsFor ctx) (candidates default_rules ctx)
unfolding candidates thesis_conflict_rule high_impact_rule
default_rules-IsFor ctx =
    keep_some-All (IsFor ctx) (on_conflict ctx ctx.conflict_result) _
      (on_conflict-IsFor ctx ctx.conflict_result)
      (keep_some-All (IsFor ctx) (on_impact ctx ctx.news_item.1.impact_level) []
        (on_impact-IsFor ctx ctx.news_item.1.impact_level) tt)

-- The kind, risk level and score of a proposal.
abbrev pub Verdict : Type 0
Verdict = SignalType × Option String × ℕ

abbrev pub verdict : SignalCreate → Verdict
verdict c = (c.signal_type, c.risk_level, c.score)

-- What the documents ask of the two rules, as a table.
abbrev pub expected_conflict : Option ThesisConflictResult → List Verdict
expected_conflict none = []
expected_conflict (some r) =
    if r.invalidation_triggered
    then (thesis_broken, some "CRITICAL", 90) ∷ []
    else if str_eq r.status "CONFLICTS"
    then (risk_alert, some "HIGH", 70) ∷ []
    else []

abbrev pub expected_impact : Option String → List Verdict
expected_impact none = []
expected_impact (some level) =
    if str_eq level "CRITICAL"
    then (risk_alert, some "CRITICAL", 80) ∷ []
    else if str_eq level "HIGH"
    then (risk_alert, some "HIGH", 60) ∷ []
    else []

verdict-conflict :
    (ctx : RuleContext) (o : Option ThesisConflictResult) (rest : List SignalCreate)
    → map verdict (keep_some (on_conflict ctx o) rest) ≡ expected_conflict o ++ map verdict rest
unfolding on_conflict
verdict-conflict ctx none rest = refl
verdict-conflict ctx (some r) rest = ground arith

verdict-impact :
    (ctx : RuleContext) (o : Option String)
    → map verdict (keep_some (on_impact ctx o) []) ≡ expected_impact o
unfolding on_impact
verdict-impact ctx none = refl
verdict-impact ctx (some level) = ground (arith, eq_iff level "HIGH", eq_iff level "CRITICAL")

-- The default rules propose exactly these, in this order: for a verdict on the thesis, THESIS_BROKEN at 90
-- if an invalidation condition was met, else RISK_ALERT at 70 if the news conflicts; then, for the news
-- item, RISK_ALERT at 80 if its impact is critical and at 60 if it is high.
pub default_rules_table :
    (ctx : RuleContext)
    → map verdict (candidates default_rules ctx)
      ≡ expected_conflict ctx.conflict_result ++ expected_impact ctx.news_item.1.impact_level
unfolding candidates thesis_conflict_rule high_impact_rule
default_rules_table ctx =
    verdict-conflict ctx ctx.conflict_result _
    ∙ ap (λ vs. expected_conflict ctx.conflict_result ++ vs)
        (verdict-impact ctx ctx.news_item.1.impact_level)
