-- ===== src/Users.antt =====
-- app/domains/users: `UserRepository` (repository.py) and `UserService` (service.py). The functions of
-- app/core/security.py stand on bcrypt and PyJWT, so they are parameters.
pub mod Sessions
use project_stock.Base.{
  ℕ, String, Bool, true, false, ◌&&◌, Option, none, some, str_eq, ◌==◌, ◌*◌, head?, is_some, not,
  if◌then◌else◌,
}
use project_stock.Base.Exec.{Result, ok, err, Exec}
use project_stock.Store.{Table, get, add, where_rows}
use project_stock.Errors.{
  AppException, ErrorCode, bad_request, auth_invalid_token, auth_invalid_credentials,
  user_email_duplicate,
}

pub record User : Type 0 where
  pub email : String
  pub hashed_password : String
  pub is_active : Bool

abbrev pub Users : Type 0
Users = Table User

-- The claims of a decoded token that are read: its type, and its subject if that is a text.
pub record Claims : Type 0 where
  pub token_type : Option String
  pub sub : Option String

pub record Token : Type 0 where
  pub access_token : String
  pub refresh_token : Option String
  pub expires_in : ℕ

-- app/core/security.py and `int` on a text
pub record Security : Type 0 where
  pub hash_password : String → String
  pub verify_password : String → String → Bool
  pub create_access_token : ℕ → String
  pub create_refresh_token : ℕ → String
  -- `none` is the `PyJWTError`
  pub decode_token : String → Option Claims
  -- `none` is the `ValueError`
  pub parse_int : String → Option ℕ
  pub access_token_expire_minutes : ℕ

abbrev unauthorized : ErrorCode → AppException
unauthorized c = record { status_code = 401; error_code = c }

abbrev pub invalid_token : AppException
invalid_token = unauthorized auth_invalid_token

abbrev pub invalid_credentials : AppException
invalid_credentials = unauthorized auth_invalid_credentials

-- `UserRepository.get_by_email`
abbrev pub get_by_email : String → Users → Option (ℕ × User)
get_by_email email t = head? (where_rows (λ e. str_eq e.1.email email) t)

module _ (sec : Security) where
  abbrev pub new_user : String → String → User
  new_user email password = record {
    email = email;
    hashed_password = sec.hash_password password;
    is_active = true;
  }

  -- `UserService.register`
  unfoldable pub register : String → String → Exec AppException Users (ℕ × User)
  register email password t =
      if is_some (get_by_email email t)
      then (err (bad_request user_email_duplicate), t)
      else (let (row, t') = add (new_user email password) t in (ok row, t'))

  expires_in : ℕ
  expires_in = sec.access_token_expire_minutes * 60

  abbrev pub token_pair : ℕ → Token
  unfolding expires_in
  token_pair id = record {
    access_token = sec.create_access_token id;
    refresh_token = some (sec.create_refresh_token id);
    expires_in = expires_in;
  }

  abbrev pub access_only : ℕ → Token
  unfolding expires_in
  access_only id = record {
    access_token = sec.create_access_token id;
    refresh_token = none;
    expires_in = expires_in;
  }

  logged_in : String → Option (ℕ × User) → Result AppException Token
  logged_in password none = err invalid_credentials
  logged_in password (some (id, u)) =
      if sec.verify_password password u.hashed_password
      then ok (token_pair id)
      else err invalid_credentials

  -- `UserService.login`
  unfoldable pub login : String → String → Users → Result AppException Token
  unfolding logged_in
  login email password t = logged_in password (get_by_email email t)

  for_user : Option (ℕ × User) → Result AppException Token
  for_user none = err invalid_token
  for_user (some (id, u)) = ok (access_only id)

  for_subject : Users → Option ℕ → Result AppException Token
  unfolding for_user
  for_subject t none = err invalid_token
  for_subject t (some id) = for_user (get id t)

  is_refresh : Option String → Bool
  is_refresh none = false
  is_refresh (some kind) = str_eq kind "refresh"

  abbrev pub subject : Option String → Option ℕ
  subject none = none
  subject (some s) = sec.parse_int s

  for_claims : Users → Option Claims → Result AppException Token
  unfolding for_subject is_refresh
  for_claims t none = err invalid_token
  for_claims t (some claims) =
      if is_refresh claims.token_type then for_subject t (subject claims.sub) else err invalid_token

  -- `UserService.refresh`
  unfoldable pub refresh : String → Users → Result AppException Token
  unfolding for_claims
  refresh refresh_token t = for_claims t (sec.decode_token refresh_token)
