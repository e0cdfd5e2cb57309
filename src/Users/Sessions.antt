-- ===== src/Users/Sessions.antt =====
-- Who gets a session: what register, login and refresh answer.
use project_stock.Base.{
  ℕ, String, Bool, true, Option, none, some, ◌≡◌, refl, is_some, inl, inr, Bool-cases, head?,
  filter, str_eq, arith, eq_iff, eq_refl, ◌∙◌, ap, sym, ◌++◌, List, [], ◌∷◌, if◌then◌else◌,
}
use project_stock.Base.Exec.{Result, ok, err}
use project_stock.Store.{get, add}
use project_stock.Store.Lookup.{find_row-key}
use project_stock.Errors.{AppException, bad_request, user_email_duplicate}
use project_stock.Users.{
  User, Users, Claims, Token, Security, invalid_token, get_by_email, new_user, register, token_pair,
  access_only, login, refresh, logged_in, for_user, for_subject, is_refresh, subject, for_claims,
}

head?-append :
    {A : Type 0} (p : A → Bool) (x : A) (xs : List A)
    → head? (filter p xs) ≡ none
    → p x ≡ true
    → head? (filter p (xs ++ x ∷ [])) ≡ some x
head?-append p x [] e px = rw px refl
head?-append p x (y ∷ ys) e px = elim (Bool-cases (p y)) [
  | inl hit ↦ ground (arith, hit, e)
  | inr miss ↦ rw miss (head?-append p x ys (ground (arith, miss, e)) px)
]

module _ (sec : Security) where
  -- What registering answers, and what a login with the same password answers next.
  abbrev pub Registers : String → String → Users → Result AppException (ℕ × User) × Users → Type 0
  Registers email password t (ok (i, u), t') =
      (get_by_email email t ≡ none)
      × (u ≡ new_user sec email password)
      × (login sec email password t' ≡ ok (token_pair sec i))
  Registers email password t (err e, t') =
      (is_some (get_by_email email t) ≡ true) × (e ≡ bad_request user_email_duplicate) × (t' ≡ t)

  register_found :
      (email password : String) (t : Users) (found : Option (ℕ × User))
      → get_by_email email t ≡ found
      → sec.verify_password password (sec.hash_password password) ≡ true
      → Registers email password t (register sec email password t)
  unfolding register login logged_in add
  register_found email password t (some row) e checks = rw e (ap is_some e, refl, refl)
  register_found email password t none e checks = rw e (
    e,
    refl,
    rw
        (
          head?-append (λ (r : ℕ × User). str_eq r.1.email email)
              (t.next_id, new_user sec email password) t.rows e (eq_refl email),
          checks,
        )
        refl,
  )

  -- Registering succeeds exactly if nobody has the address, and then a login with the password that was given
  -- returns the tokens of the new user, provided that a password passes the check against its own hash.
  pub register_login :
      (email password : String) (t : Users)
      → sec.verify_password password (sec.hash_password password) ≡ true
      → Registers email password t (register sec email password t)
  register_login email password t = register_found email password t (get_by_email email t) refl

  -- A token is refreshed only for a user that is there and that a decoded refresh token names.
  abbrev pub Refreshes : Users → Option Claims → Result AppException Token → Type 0
  Refreshes t c (err e) = e ≡ invalid_token
  Refreshes t none (ok token) = ⊥
  Refreshes t (some c) (ok token) =
      (c.token_type ≡ some "refresh")
      × (id : ℕ) × (u : User) × (subject sec c.sub ≡ some id)
      × (get id t ≡ some (id, u))
      × (token ≡ access_only sec id)

  refresh_found :
      (t : Users) (c : Claims) (i : ℕ) (found : Option (ℕ × User))
      → c.token_type ≡ some "refresh"
      → subject sec c.sub ≡ some i
      → get i t ≡ found
      → Refreshes t (some c) (for_user sec found)
  unfolding for_user
  refresh_found t c i none kind sub at = refl
  refresh_found t c i (some (j, u)) kind sub at =
      let key = find_row-key i j u t.rows at in
      (kind, j, u, sub ∙ ap some (sym key), rw key (at ∙ rw key refl), refl)

  refresh_subject :
      (t : Users) (c : Claims) (id : Option ℕ)
      → c.token_type ≡ some "refresh"
      → subject sec c.sub ≡ id
      → Refreshes t (some c) (for_subject sec t id)
  unfolding for_subject
  refresh_subject t c none kind sub = refl
  refresh_subject t c (some i) kind sub = refresh_found t c i (get i t) kind sub refl

  refresh_kind :
      (t : Users) (c : Claims) (kind : Option String)
      → c.token_type ≡ kind
      → Refreshes t
          (some c)
          (if is_refresh sec kind then for_subject sec t (subject sec c.sub) else err invalid_token)
  unfolding is_refresh
  refresh_kind t c none e = refl
  refresh_kind t c (some kind) e = elim (Bool-cases (str_eq kind "refresh")) [
    | inl same ↦ rw same (
        refresh_subject t c (subject sec c.sub) (e ∙ ap some ((eq_iff kind "refresh").0 same)) refl)
    | inr other ↦ rw other refl
  ]

  refresh_claims : (t : Users) (c : Option Claims) → Refreshes t c (for_claims sec t c)
  unfolding for_claims
  refresh_claims t none = refl
  refresh_claims t (some c) = refresh_kind t c c.token_type refl

  -- A refresh returns an access token only for a refresh token that decodes, and only for the user that it
  -- names, who is in the table; every other token is refused as invalid.
  pub refresh-Refreshes :
      (token : String) (t : Users) → Refreshes t (sec.decode_token token) (refresh sec token t)
  unfolding refresh
  refresh-Refreshes token t = refresh_claims t (sec.decode_token token)
