-- ===== src/News/Validator.antt =====
-- app/domains/news/validator.py: `NewsValidator.validate`.
use project_stock.Base.{
  ℕ, ◌+◌, ◌*◌, String, Bool, true, false, ◌||◌, Option, none, some, List, [], ◌∷◌, ◌++◌, ◌≡◌, ◌↔◌,
  str_eq, ltb, arith,
}
use project_stock.News.{NewsItemCreate}
use project_stock.Prices.{
  DataQualityStatus, valid, invalid, stale, ValidationErrorReason, missing_required_field,
  future_timestamp, too_stale,
}

abbrev pub stale_after : ℕ
stale_after = 30 * 86400 * 1000000

pub record NewsValidationOutcome : Type 0 where
  pub status : DataQualityStatus
  pub reasons : List ValidationErrorReason

-- `published_at > now`; both are UTC times in microseconds
unfoldable pub is_future : Option ℕ → ℕ → Bool
is_future none now = false
is_future (some time) now = ltb now time

-- `now - published_at > timedelta(days=_STALE_AFTER_DAYS)`
unfoldable pub is_stale : Option ℕ → ℕ → Bool
is_stale none now = false
is_stale (some time) now = ltb (time + stale_after) now

abbrev pub missing_reason : Bool → List ValidationErrorReason
missing_reason true = missing_required_field ∷ []
missing_reason false = []

abbrev pub future_reason : Bool → List ValidationErrorReason
future_reason true = future_timestamp ∷ []
future_reason false = []

judged : List ValidationErrorReason → Bool → NewsValidationOutcome
judged (r ∷ rs) old = record { status = invalid; reasons = r ∷ rs }
judged [] true = record { status = stale; reasons = too_stale ∷ [] }
judged [] false = record { status = valid; reasons = [] }

-- `strip` is Python's `str.strip`
module _ (strip : String → String) where
  abbrev pub is_blank : String → Bool
  is_blank value = str_eq (strip value) ""

  abbrev pub lacks_field : NewsItemCreate → Bool
  lacks_field item = is_blank item.title || (is_blank item.url || is_blank item.source)

  unfoldable pub validate : NewsItemCreate → ℕ → NewsValidationOutcome
  unfolding judged
  validate item now =
      judged (missing_reason (lacks_field item) ++ future_reason (is_future item.published_at now))
        (is_stale item.published_at now)

  abbrev pub Judges : Bool → Bool → Bool → NewsValidationOutcome → Type 0
  Judges lacking future old o =
      (o.status ≡ invalid ↔ (lacking || future) ≡ true)
      × (o.status ≡ valid ↔ (lacking || (future || old)) ≡ false)
      × (o.status ≡ valid ↔ o.reasons ≡ [])

  judged-Judges :
      (lacking future old : Bool)
      → Judges lacking future old (judged (missing_reason lacking ++ future_reason future) old)
  unfolding judged
  judged-Judges true true true = (
    ((λ e. ground (arith, e)), (λ e. ground (arith, e))),
    ((λ e. ground (arith, e)), (λ e. ground (arith, e))),
    ((λ e. ground (arith, e)), (λ e. ground (arith, e))),
  )
  judged-Judges true true false = (
    ((λ e. ground (arith, e)), (λ e. ground (arith, e))),
    ((λ e. ground (arith, e)), (λ e. ground (arith, e))),
    ((λ e. ground (arith, e)), (λ e. ground (arith, e))),
  )
  judged-Judges true false true = (
    ((λ e. ground (arith, e)), (λ e. ground (arith, e))),
    ((λ e. ground (arith, e)), (λ e. ground (arith, e))),
    ((λ e. ground (arith, e)), (λ e. ground (arith, e))),
  )
  judged-Judges true false false = (
    ((λ e. ground (arith, e)), (λ e. ground (arith, e))),
    ((λ e. ground (arith, e)), (λ e. ground (arith, e))),
    ((λ e. ground (arith, e)), (λ e. ground (arith, e))),
  )
  judged-Judges false true true = (
    ((λ e. ground (arith, e)), (λ e. ground (arith, e))),
    ((λ e. ground (arith, e)), (λ e. ground (arith, e))),
    ((λ e. ground (arith, e)), (λ e. ground (arith, e))),
  )
  judged-Judges false true false = (
    ((λ e. ground (arith, e)), (λ e. ground (arith, e))),
    ((λ e. ground (arith, e)), (λ e. ground (arith, e))),
    ((λ e. ground (arith, e)), (λ e. ground (arith, e))),
  )
  judged-Judges false false true = (
    ((λ e. ground (arith, e)), (λ e. ground (arith, e))),
    ((λ e. ground (arith, e)), (λ e. ground (arith, e))),
    ((λ e. ground (arith, e)), (λ e. ground (arith, e))),
  )
  judged-Judges false false false = (
    ((λ e. ground (arith, e)), (λ e. ground (arith, e))),
    ((λ e. ground (arith, e)), (λ e. ground (arith, e))),
    ((λ e. ground (arith, e)), (λ e. ground (arith, e))),
  )

  -- A news item is invalid exactly if a required text is blank or it is dated after now. It is valid exactly if
  -- moreover it is not older than thirty days, which is when the outcome names no reason.
  pub validate-Judges :
      (item : NewsItemCreate) (now : ℕ)
      → Judges
          (lacks_field item)
          (is_future item.published_at now)
          (is_stale item.published_at now)
          (validate item now)
  unfolding validate
  validate-Judges item now =
      judged-Judges (lacks_field item) (is_future item.published_at now)
        (is_stale item.published_at now)
