-- ===== src/Alerts/Responses/Each.antt =====
-- The responses to a list of alerts are those to each alert alone.
use project_stock.Base.{
  ℕ, true, Option, none, some, List, [], ◌∷◌, ◌≡◌, refl, ap, ◌∙◌, any, map, ◌==◌, arith,
  if◌then◌else◌, String,
}
use project_stock.Store.{Table, get, find_row}
use project_stock.Store.Joined.{dict_of, find_row-dict_of}
use project_stock.Assets.{Asset, Assets}
use project_stock.Signals.{Signal, Signals}
use project_stock.Alerts.{Alert, Alerts, list_by_user}
use project_stock.Alerts.Responses.{
  AlertResponse, build_one, build_alert_responses, list_alert_responses,
}

asset_listed :
    (k i : ℕ) (s : Signal) (rows : List (ℕ × Signal))
    → find_row k rows ≡ some (i, s)
    → any (λ a. a == s.asset_id) (map (λ e. e.1.asset_id) rows) ≡ true
asset_listed k i s [] h = ground arith
asset_listed k i s ((j, r) ∷ rows) h = ground (arith, h, asset_listed k i s rows)

-- a key that is listed is found in the dict as in the table
found_listed :
    {R : Type 0} (t : Table R) (k : ℕ) (ks : List ℕ)
    → any (λ i. i == k) ks ≡ true
    → find_row k (dict_of t ks) ≡ get k t
found_listed t k ks h = find_row-dict_of k t ks ∙ ap (λ b. if b then get k t else none) h

-- the response to an alert, by the tables
abbrev pub respond_alone : Signals → Assets → ℕ × Alert → AlertResponse
respond_alone signals assets a = build_one (λ k. get k assets) a (get a.1.signal_id signals)

build_one-same :
    (f g : ℕ → Option (ℕ × Asset)) (a : ℕ × Alert) (found : Option (ℕ × Signal))
    → ((i : ℕ) (s : Signal) → found ≡ some (i, s) → f s.asset_id ≡ g s.asset_id)
    → build_one f a found ≡ build_one g a found
unfolding build_one
build_one-same f g a none same = refl
build_one-same f g a (some (i, s)) same = rw (same i s refl) refl

module _ (signals : Signals) (assets : Assets) (keys : List ℕ) where
  abbrev signal_dict : List (ℕ × Signal)
  signal_dict = dict_of signals keys

  abbrev asset_keys : List ℕ
  asset_keys = map (λ s. s.1.asset_id) signal_dict

  abbrev respond_from_dicts : ℕ × Alert → AlertResponse
  respond_from_dicts a =
      build_one (λ k. find_row k (dict_of assets asset_keys)) a (find_row a.1.signal_id signal_dict)

  respond-same :
      (a : ℕ × Alert)
      → any (λ i. i == a.1.signal_id) keys ≡ true
      → respond_from_dicts a ≡ respond_alone signals assets a
  respond-same a h =
      build_one-same (λ k. find_row k (dict_of assets asset_keys)) (λ k. get k assets) a
        (find_row a.1.signal_id signal_dict)
        (λ i s e.
          found_listed assets s.asset_id asset_keys (asset_listed a.1.signal_id i s signal_dict e))
      ∙ ap (build_one (λ k. get k assets) a) (found_listed signals a.1.signal_id keys h)

  -- the alerts from some place in the list on
  respond_rest-same :
      (alerts : List (ℕ × Alert))
      → ((k : ℕ)
          → any (λ i. i == k) (map (λ a. a.1.signal_id) alerts) ≡ true
          → any (λ i. i == k) keys ≡ true)
      → map respond_from_dicts alerts ≡ map (respond_alone signals assets) alerts
  respond_rest-same [] within = refl
  respond_rest-same (a ∷ alerts) within =
      cong_cons (respond-same a (within a.1.signal_id (here a.1.signal_id)))
        (respond_rest-same alerts (λ k h. within k (there a.1.signal_id k h)))
    where
      cong_cons :
          {x y : AlertResponse} {xs ys : List AlertResponse} → x ≡ y → xs ≡ ys → x ∷ xs ≡ y ∷ ys
      cong_cons e es = rw (e, es) refl

      here : (k : ℕ) → any (λ i. i == k) (k ∷ map (λ a. a.1.signal_id) alerts) ≡ true
      here k = ground arith

      there :
          (j k : ℕ)
          → any (λ i. i == k) (map (λ a. a.1.signal_id) alerts) ≡ true
          → any (λ i. i == k) (j ∷ map (λ a. a.1.signal_id) alerts) ≡ true
      there j k h = ground (arith, h)

-- Reading the signals and the assets of a list of alerts at once changes no response: each alert in the
-- user's page is answered by the signal that the table has under its key, if any, and by the asset that the
-- table has under the signal's.
pub list_alert_responses-each :
    (user_id : ℕ) (status : Option String) (offset : ℕ) (limit : Option ℕ) (signals : Signals)
    (assets : Assets) (alerts : Alerts)
    → list_alert_responses user_id status offset limit signals assets alerts
      ≡ map (respond_alone signals assets) (list_by_user user_id status offset limit alerts)
unfolding list_alert_responses build_alert_responses
list_alert_responses-each user_id status offset limit signals assets alerts =
    let page = list_by_user user_id status offset limit alerts in
    respond_rest-same signals assets (map (λ a. a.1.signal_id) page) page (λ k h. h)
