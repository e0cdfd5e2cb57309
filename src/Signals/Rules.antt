-- ===== src/Signals/Rules.antt =====
-- app/domains/signals/rules: the two rules and the engine that turns their proposals into signals.
pub mod Laws
use Prim.Native.String.{◌++◌ as str_append}
use project_stock.Base.{
  ℕ, String, Bool, true, false, ◌||◌, Option, none, some, List, [], ◌∷◌, ◌++◌, str_eq,
  if◌then◌else◌,
}
use project_stock.News.{NewsItem}
use project_stock.Theses.{InvestmentThesis, ThesisConflictResult}
use project_stock.Signals.{
  SignalCreate, Signal, Signals, risk_alert, thesis_broken, SignalType, value, create,
  exists_active, number, flag, words, missing, EvidenceValue,
}

-- `RuleContext`; a row comes with its primary key.
pub record RuleContext : Type 0 where
  pub asset_id : ℕ
  pub news_item : ℕ × NewsItem
  pub thesis : Option (ℕ × InvestmentThesis)
  pub conflict_result : Option ThesisConflictResult

abbrev pub Rule : Type 0
Rule = RuleContext → Option SignalCreate

abbrev pub thesis_id_of : Option (ℕ × InvestmentThesis) → Option ℕ
thesis_id_of none = none
thesis_id_of (some (i, thesis)) = some i

conflict_signal : RuleContext → ThesisConflictResult → SignalType → String → ℕ → SignalCreate
conflict_signal ctx c kind risk_level score = record {
  asset_id = ctx.asset_id;
  thesis_id = thesis_id_of ctx.thesis;
  news_item_id = some ctx.news_item.0;
  signal_type = kind;
  score = score;
  risk_level = some risk_level;
  reason = c.reason;
  evidence = some (
      ("status", words c.status)
      ∷ ("invalidation_triggered", flag c.invalidation_triggered)
      ∷ ("news_item_id", number ctx.news_item.0)
      ∷ []);
  expires_at = none;
}

on_conflict : RuleContext → Option ThesisConflictResult → Option SignalCreate
unfolding conflict_signal
on_conflict ctx none = none
on_conflict ctx (some c) =
    if c.invalidation_triggered
    then some (conflict_signal ctx c thesis_broken "CRITICAL" 90)
    else if str_eq c.status "CONFLICTS"
    then some (conflict_signal ctx c risk_alert "HIGH" 70)
    else none

-- `ThesisConflictRule.evaluate`
unfoldable pub thesis_conflict_rule : Rule
unfolding on_conflict
thesis_conflict_rule ctx = on_conflict ctx ctx.conflict_result

text_or_missing : Option String → EvidenceValue
text_or_missing none = missing
text_or_missing (some s) = words s

-- `summary or title`: an empty summary counts as none
summary_or_title : Option String → String → String
summary_or_title none title = title
summary_or_title (some s) title = if str_eq s "" then title else s

impact_signal : RuleContext → String → SignalCreate
unfolding text_or_missing summary_or_title
impact_signal ctx level = record {
  asset_id = ctx.asset_id;
  thesis_id = none;
  news_item_id = some ctx.news_item.0;
  signal_type = risk_alert;
  score = if str_eq level "CRITICAL" then 80 else 60;
  risk_level = some level;
  reason =
      str_append "High-impact news requires review: "
        (summary_or_title ctx.news_item.1.summary ctx.news_item.1.title);
  evidence = some (
      ("news_item_id", number ctx.news_item.0)
      ∷ ("impact_level", words level)
      ∷ ("sentiment", text_or_missing ctx.news_item.1.sentiment)
      ∷ []);
  expires_at = none;
}

on_impact : RuleContext → Option String → Option SignalCreate
unfolding impact_signal
on_impact ctx none = none
on_impact ctx (some level) =
    if str_eq level "HIGH" || str_eq level "CRITICAL" then some (impact_signal ctx level) else none

-- `HighImpactNewsRule.evaluate`
unfoldable pub high_impact_rule : Rule
unfolding on_impact
high_impact_rule ctx = on_impact ctx ctx.news_item.1.impact_level

-- `default_rules`
abbrev pub default_rules : List Rule
default_rules = thesis_conflict_rule ∷ high_impact_rule ∷ []

abbrev keep_some : Option SignalCreate → List SignalCreate → List SignalCreate
keep_some none cs = cs
keep_some (some c) cs = c ∷ cs

-- the list of candidates in `run`
unfoldable pub candidates : List Rule → RuleContext → List SignalCreate
candidates [] ctx = []
candidates (rule ∷ rules) ctx = keep_some (rule ctx) (candidates rules ctx)

-- one round of the loop in `run`: the signals created and the table
unfoldable pub create_one : ℕ → SignalCreate → Signals → List (ℕ × Signal) × Signals
create_one now c t =
    if exists_active now c.asset_id (value c.signal_type) c.news_item_id t
    then ([], t)
    else (let (s, t') = create now c t in (s ∷ [], t'))

unfoldable pub create_all : ℕ → List SignalCreate → Signals → List (ℕ × Signal) × Signals
create_all now [] t = ([], t)
create_all now (c ∷ cs) t =
    let (made, t') = create_one now c t in
    let (rest, t'') = create_all now cs t' in (made ++ rest, t'')

-- `RuleEngine.run`
unfoldable pub run : ℕ → List Rule → RuleContext → Signals → List (ℕ × Signal) × Signals
run now rules ctx t = create_all now (candidates rules ctx) t
