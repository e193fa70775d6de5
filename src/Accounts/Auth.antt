-- ===== src/Accounts/Auth.antt =====
-- src/client/services/auth.service.ts, and src/subscription/services/auth.service.ts for administrators.
-- A mail in the background is not part of the result.
use subscription_be.Prelude.{
  ℕ, ◌+◌, ◌*◌, String, Bool, true, false, not, ◌&&◌, Option, none, some, ltb, if◌then◌else◌,
  is_some, find_first,
}
use subscription_be.Db.Table
use subscription_be.Db.Action.{
  Action, ok, err, ◌>>=◌, ◌>>◌, return, throw_if, or_throw, reads, writes, transaction, user_exists,
  user_not_found, no_active_currency, invalid_token, token_expired, already_active,
  account_already_active, invalid_credentials, account_inactive, email_send_failed, forbidden,
  unique_violation,
}
use subscription_be.Db.Catalog.{CoinCurrency}
use subscription_be.Db.Schema.{Wallet}
use subscription_be.Accounts.{
  Role, owner, User, ProfileData, UserProfile, Store, Env, with_email, find_by_email,
  find_by_activation_token, find_by_reset_token, update_user,
}

abbrev pub hour_ms : ℕ
hour_ms = 3600000

-- `expires_at && expires_at < new Date()`
abbrev pub has_expired : Option ℕ → ℕ → Bool
has_expired none now = false
has_expired (some time) now = ltb time now

-- The body of a registration
pub record Registration : Type 0 where
  pub email : String
  pub name : String
  pub phone : Option String
  pub password : String
  pub profile : Option ProfileData

abbrev pub user_row : Env → Registration → ℕ → User
user_row env form id = record {
  id = id;
  name = form.name;
  email = form.email;
  role = owner;
  phone = form.phone;
  password_hash = env.hash form.password;
  is_active = false;
  activation_token = some env.random;
  activation_token_expires_at = some (env.now + 24 * hour_ms);
  reset_token = none;
  reset_token_expires_at = none;
  deleted = false;
}

abbrev pub profile_row : ℕ → ProfileData → ℕ → UserProfile
profile_row user fields id = record { id = id; user_id = user; fields = fields }

abbrev pub create_profile :
    ℕ → Option ProfileData → Table.Table UserProfile → Table.Table UserProfile
create_profile user none profiles = profiles
create_profile user (some fields) profiles = Table.create (profile_row user fields) profiles

abbrev pub new_wallet : Env → ℕ → CoinCurrency → ℕ → Wallet
new_wallet env user currency id = record {
  id = id;
  user_id = user;
  balance = 100 * env.default_balance;
  currency_id = currency.id;
  deleted = false;
}

abbrev pub usable : CoinCurrency → Bool
usable c = c.is_active && not c.deleted

-- `tx.user.create` with its profile; the column `email` is unique
unfoldable pub create_user : Env → Registration → Action Store ℕ
create_user env form s =
    if is_some (Table.find (with_email form.email) s.users)
    then (err unique_violation 500, s)
    else (
      ok s.users.next_id,
      record s {
        users = Table.create (user_row env form) s.users;
        profiles = create_profile s.users.next_id form.profile s.profiles;
      },
    )

-- `tx.coinWallet.create`
unfoldable pub create_wallet : Env → ℕ → CoinCurrency → Action Store (Unit {0})
create_wallet env user currency = writes (λ s. record s {
  db = record s.db { wallets = Table.create (new_wallet env user currency) s.db.wallets };
})

-- The body of the transaction of `register`
unfoldable pub open_account : Env → Registration → Action Store ℕ
unfolding create_user create_wallet
open_account env form = do
  active ← reads (λ s. find_first usable s.currencies)
  currency ← or_throw active no_active_currency 500
  user ← create_user env form
  create_wallet env user currency
  return user

-- `register`
unfoldable pub register : Env → Registration → Action Store ℕ
unfolding find_by_email open_account
register env form = do
  existing ← find_by_email form.email
  throw_if (is_some existing) user_exists 409
  transaction (open_account env form)

abbrev pub activated : User → User
activated u = record u {
  is_active = true;
  activation_token = none;
  activation_token_expires_at = none;
}

-- `activate`
unfoldable pub activate : Env → String → Action Store (Unit {0})
unfolding find_by_activation_token update_user
activate env token = do
  found ← find_by_activation_token token
  user ← or_throw found invalid_token 400
  throw_if (has_expired user.activation_token_expires_at env.now) token_expired 400
  throw_if user.is_active already_active 400
  update_user user.id activated

abbrev reissued : Env → User → User
reissued env u = record u {
  activation_token = some env.random;
  activation_token_expires_at = some (env.now + 24 * hour_ms);
}

-- `resendActivation`
unfoldable pub resend_activation : Env → String → Action Store (Unit {0})
unfolding find_by_email update_user
resend_activation env email = do
  found ← find_by_email email
  user ← or_throw found user_not_found 404
  throw_if user.is_active account_already_active 400
  update_user user.id (reissued env)

abbrev pub with_reset_token : Env → User → User
with_reset_token env u = record u {
  reset_token = some (env.sha256_hex env.random);
  reset_token_expires_at = some (env.now + hour_ms);
}

abbrev send_reset : Env → Option User → Action Store (Unit {0})
send_reset env none = return tt
send_reset env (some user) = do
  update_user user.id (with_reset_token env)
  throw_if (not env.mail_sent) email_send_failed 500

-- `forgotPassword`: without an error where no user has the address
unfoldable pub forgot_password : Env → String → Action Store (Unit {0})
unfolding find_by_email update_user
forgot_password env email = do found ← find_by_email email; send_reset env found

abbrev pub with_password : Env → String → User → User
with_password env password u = record u {
  password_hash = env.hash password;
  reset_token = none;
  reset_token_expires_at = none;
}

-- `resetPassword`
unfoldable pub reset_password : Env → String → String → Action Store (Unit {0})
unfolding find_by_reset_token update_user
reset_password env token password = do
  found ← find_by_reset_token (env.sha256_hex token)
  user ← or_throw found invalid_token 400
  throw_if (has_expired user.reset_token_expires_at env.now) token_expired 400
  update_user user.id (with_password env password)

-- `!user || !(await bcrypt.compare(…))`
abbrev pub wrong_credentials : Env → String → Option User → Bool
wrong_credentials env password none = true
wrong_credentials env password (some u) = not (env.compare password u.password_hash)

-- `login` of the client service, which returns the user
unfoldable pub login : Env → String → String → Action Store User
unfolding find_by_email
login env email password = do
  found ← find_by_email email
  throw_if (wrong_credentials env password found) invalid_credentials 401
  user ← or_throw found invalid_credentials 401
  throw_if (not user.is_active) account_inactive 403
  return user

abbrev pub is_admin : Role → Bool
is_admin owner = false
is_admin _ = true

-- `login` of administrators
unfoldable pub login_admin : Env → String → String → Action Store User
unfolding login
login_admin env email password = do
  user ← login env email password
  throw_if (not (is_admin user.role)) forbidden 403
  return user
