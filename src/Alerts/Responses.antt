-- ===== src/Alerts/Responses.antt =====
-- The responses of `AlertService` (app/domains/alerts/service.py, schema.py): the signals and the assets of a
-- list of alerts are read at once.
pub mod Each
use Prim.Native.String.{◌++◌ as str_append}
use project_stock.Base.{ℕ, String, Option, none, some, List, map}
use project_stock.Store.{get, find_row}
use project_stock.Store.Joined.{dict_of}
use project_stock.Assets.{Asset, Assets}
use project_stock.Signals.{Signal, Signals}
use project_stock.Alerts.{Alert, Alerts, list_by_user}

pub record AlertResponse : Type 0 where
  pub id : ℕ
  pub user_id : ℕ
  pub signal_id : ℕ
  pub status : String
  pub created_at : ℕ
  pub asset_id : Option ℕ
  pub symbol : Option String
  pub alert_type : Option String
  pub title : Option String
  pub message : Option String

-- `_title_for`
title_for : Option String → Option String → Option String
title_for none alert_type = alert_type
title_for (some symbol) none = some symbol
title_for (some symbol) (some alert_type) = some (str_append symbol (str_append " " alert_type))

symbol_of : Option (ℕ × Asset) → Option String
symbol_of none = none
symbol_of (some (i, a)) = some a.symbol

-- `_build_alert_response`, with the lookup of an asset
unfoldable pub build_one :
    (ℕ → Option (ℕ × Asset)) → ℕ × Alert → Option (ℕ × Signal) → AlertResponse
unfolding title_for symbol_of
build_one asset_at (id, alert) none = record {
  id = id;
  user_id = alert.user_id;
  signal_id = alert.signal_id;
  status = alert.status;
  created_at = alert.created_at;
  asset_id = none;
  symbol = none;
  alert_type = none;
  title = title_for none none;
  message = none;
}
build_one asset_at (id, alert) (some (i, s)) = record {
  id = id;
  user_id = alert.user_id;
  signal_id = alert.signal_id;
  status = alert.status;
  created_at = alert.created_at;
  asset_id = some s.asset_id;
  symbol = symbol_of (asset_at s.asset_id);
  alert_type = some s.signal_type;
  title = title_for (symbol_of (asset_at s.asset_id)) (some s.signal_type);
  message = some s.reason;
}

-- `build_alert_responses`
unfoldable pub build_alert_responses : Signals → Assets → List (ℕ × Alert) → List AlertResponse
build_alert_responses signals assets alerts =
    let signal_dict = dict_of signals (map (λ a. a.1.signal_id) alerts) in
    let asset_dict = dict_of assets (map (λ s. s.1.asset_id) signal_dict) in
    map (λ a. build_one (λ k. find_row k asset_dict) a (find_row a.1.signal_id signal_dict)) alerts

-- `list_alert_responses`
unfoldable pub list_alert_responses :
    ℕ → Option String → ℕ → Option ℕ → Signals → Assets → Alerts → List AlertResponse
list_alert_responses user_id status offset limit signals assets alerts =
    build_alert_responses signals assets (list_by_user user_id status offset limit alerts)
