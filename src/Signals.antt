-- ===== src/Signals.antt =====
-- app/domains/signals: the signal types (types.py), the rows of `signals` (model.py), what a rule or a
-- service asks to create (schema.py) and `SignalRepository` (repository.py). Times are numbers of
-- microseconds; a database time is that of the `now` that a call is given.
pub mod Rules
pub mod Status
pub mod Active
use project_stock.Base.{
  ℕ, String, Bool, true, false, ◌&&◌, ◌||◌, Option, none, some, List, [], ◌∷◌, str_eq, ltb, leb,
  ◌==◌, opt_eq, any, filter, length, take, drop, if◌then◌else◌,
}
use project_stock.Store.{Table, get, add, where_rows, count_rows}
use project_stock.Store.Order.{order_by, offset_limit, newest_first}

pub data SignalType : Type 0 where
  watch risk_alert thesis_broken buy_candidate sell_review overheated : SignalType

-- `SignalType.value`
abbrev pub value : SignalType → String
value watch = "WATCH"
value risk_alert = "RISK_ALERT"
value thesis_broken = "THESIS_BROKEN"
value buy_candidate = "BUY_CANDIDATE"
value sell_review = "SELL_REVIEW"
value overheated = "OVERHEATED"

-- A value of the `evidence` dictionaries that the program writes.
pub data EvidenceValue : Type 0 where
  number : ℕ → EvidenceValue
  flag : Bool → EvidenceValue
  words : String → EvidenceValue
  missing : EvidenceValue

abbrev pub Evidence : Type 0
Evidence = List (String × EvidenceValue)

pub record SignalCreate : Type 0 where
  pub asset_id : ℕ
  pub thesis_id : Option ℕ
  pub news_item_id : Option ℕ
  pub signal_type : SignalType
  pub score : ℕ
  pub risk_level : Option String
  pub reason : String
  pub evidence : Option Evidence
  pub expires_at : Option ℕ

pub record Signal : Type 0 where
  pub asset_id : ℕ
  pub thesis_id : Option ℕ
  pub news_item_id : Option ℕ
  pub signal_type : String
  pub score : ℕ
  pub risk_level : Option String
  pub reason : String
  pub evidence : Option Evidence
  pub expires_at : Option ℕ
  pub created_at : ℕ

abbrev pub Signals : Type 0
Signals = Table Signal

abbrev pub signal_of : ℕ → SignalCreate → Signal
signal_of now c = record {
  asset_id = c.asset_id;
  thesis_id = c.thesis_id;
  news_item_id = c.news_item_id;
  signal_type = value c.signal_type;
  score = c.score;
  risk_level = c.risk_level;
  reason = c.reason;
  evidence = c.evidence;
  expires_at = c.expires_at;
  created_at = now;
}

-- `SignalRepository.create`
unfoldable pub create : ℕ → SignalCreate → Signals → (ℕ × Signal) × Signals
create now c t = add (signal_of now c) t

-- `or_(Signal.expires_at.is_(None), Signal.expires_at > now)`
abbrev pub not_expired : Option ℕ → ℕ → Bool
not_expired none now = true
not_expired (some t) now = ltb now t

-- `SignalRepository._active_clause`
abbrev pub is_active : ℕ → Signal → Bool
is_active now s = not_expired s.expires_at now

abbrev pub matches_key : ℕ → String → Option ℕ → Signal → Bool
matches_key asset_id signal_type news_item_id s =
    s.asset_id == asset_id
    && (str_eq s.signal_type signal_type && opt_eq s.news_item_id news_item_id)

-- `SignalRepository.exists_active`
unfoldable pub exists_active : ℕ → ℕ → String → Option ℕ → Signals → Bool
exists_active now asset_id signal_type news_item_id t =
    any (λ e. matches_key asset_id signal_type news_item_id e.1 && is_active now e.1) t.rows

-- `SignalRepository.list_by_asset`
unfoldable pub list_by_asset : ℕ → ℕ → Bool → ℕ → Option ℕ → Signals → List (ℕ × Signal)
list_by_asset now asset_id include_expired offset limit t = offset_limit offset limit (
    order_by (newest_first (λ (s : Signal). s.created_at))
      (where_rows (λ e. e.1.asset_id == asset_id && (include_expired || is_active now e.1)) t))

-- `SignalRepository.count_by_asset`
unfoldable pub count_by_asset : ℕ → ℕ → Bool → Signals → ℕ
count_by_asset now asset_id include_expired t =
    count_rows (λ e. e.1.asset_id == asset_id && (include_expired || is_active now e.1)) t
