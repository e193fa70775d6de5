-- ===== src/Accounts.antt =====
-- The users of prisma/schema.prisma with src/shared/repositories/user.repository.ts, account.repository.ts
-- and refresh-token.repository.ts. Times are milliseconds.
pub mod Auth
pub mod Tokens
pub mod Profile
pub mod Signup
pub mod Reset
pub mod Sessions
pub mod Refresh
use subscription_be.Prelude.{ℕ, String, Bool, false, Option, none, some, ◌==◌, str_eq, List}
use subscription_be.Db.{Db}
use subscription_be.Db.Table
use subscription_be.Db.Action.{Action, ok, writes, reads}
use subscription_be.Db.Catalog.{CoinCurrency}

pub data Role : Type 0 where
  superadmin admin owner : Role

pub record User : Type 0 where
  pub id : ℕ
  pub name : String
  pub email : String
  pub role : Role
  pub phone : Option String
  pub password_hash : String
  pub is_active : Bool
  pub activation_token : Option String
  pub activation_token_expires_at : Option ℕ
  pub reset_token : Option String
  pub reset_token_expires_at : Option ℕ
  pub deleted : Bool

-- The columns of a profile that a user fills in
pub record ProfileData : Type 0 where
  pub date_of_birth : Option ℕ
  pub gender : Option String
  pub address_line1 : Option String
  pub address_line2 : Option String
  pub city : Option String
  pub utc_timezone : Option String
  pub province : Option String
  pub postal_code : Option String
  pub country : Option String
  pub clinic_name : Option String
  pub photo_url : Option String

pub record UserProfile : Type 0 where
  pub id : ℕ
  pub user_id : ℕ
  pub fields : ProfileData

pub record RefreshToken : Type 0 where
  pub id : ℕ
  pub user_id : ℕ
  pub token_hash : String
  pub expires_at : ℕ
  pub is_revoked : Bool

-- The tables of the accounts beside the other ones
pub record Store : Type 0 where
  pub users : Table.Table User
  pub profiles : Table.Table UserProfile
  pub refresh_tokens : Table.Table RefreshToken
  pub currencies : List CoinCurrency
  pub db : Db

-- What one request draws from outside: the clock, `randomUUID` or `randomBytes`, `bcrypt` (a hash has a
-- fresh salt, so `hash` is the one of this request), SHA-256, `jwt.sign`, and whether the mail goes out
pub record Env : Type 0 where
  pub now : ℕ
  pub random : String
  pub hash : String → String
  pub compare : String → String → Bool
  pub sha256_hex : String → String
  pub sign : ℕ → Role → String
  pub mail_sent : Bool
  -- WALLET_DEFAULT_BALANCE, in coins
  pub default_balance : ℕ

abbrev pub with_email : String → User → Bool
with_email email u = str_eq u.email email

abbrev pub is_token : Option String → String → Bool
is_token none token = false
is_token (some t) token = str_eq t token

-- `findByEmail`, whose column is unique
unfoldable pub find_by_email : String → Action Store (Option User)
find_by_email email = reads (λ s. Table.find (with_email email) s.users)

-- `findByActivationToken` and `findByResetToken`
unfoldable pub find_by_activation_token : String → Action Store (Option User)
find_by_activation_token token =
    reads (λ s. Table.find (λ u. is_token u.activation_token token) s.users)

unfoldable pub find_by_reset_token : String → Action Store (Option User)
find_by_reset_token token = reads (λ s. Table.find (λ u. is_token u.reset_token token) s.users)

-- `update({ where: { id }, data })` of a user
unfoldable pub update_user : ℕ → (User → User) → Action Store (Unit {0})
update_user id f = writes (λ s. record s { users = Table.update (λ u. u.id == id) f s.users })
