-- ===== src/Accounts/Tokens.antt =====
-- src/shared/services/token.service.ts with src/shared/repositories/refresh-token.repository.ts, and the
-- handlers `refresh`, `logout` and `login` of src/shared/controllers/auth.controller.ts,
-- src/client/controllers/auth.controller.ts and src/subscription/controllers/auth.controller.ts.
use subscription_be.Prelude.{
  ℕ, ◌+◌, ◌*◌, String, Bool, true, false, not, ◌||◌, Option, none, some, ltb, if◌then◌else◌,
  is_some, ◌==◌, str_eq,
}
use subscription_be.Db.Table
use subscription_be.Db.Action.{
  Action, ok, err, ◌>>=◌, ◌>>◌, return, throw_if, or_throw, reads, writes, unauthorized, forbidden,
  unique_violation,
}
use subscription_be.Accounts.{Role, owner, User, RefreshToken, Store, Env}
use subscription_be.Accounts.Auth.{login, login_admin, hour_ms}

pub record TokenPair : Type 0 where
  pub access_token : String
  pub refresh_token : String

abbrev pub with_hash : String → RefreshToken → Bool
with_hash hash t = str_eq t.token_hash hash

-- Seven days
abbrev pub refresh_ttl_ms : ℕ
refresh_ttl_ms = 7 * 24 * hour_ms

abbrev pub token_row : Env → ℕ → ℕ → RefreshToken
token_row env user id = record {
  id = id;
  user_id = user;
  token_hash = env.sha256_hex env.random;
  expires_at = env.now + refresh_ttl_ms;
  is_revoked = false;
}

-- `generateTokens`; the column `token_hash` is unique
unfoldable pub generate_tokens : Env → ℕ → Role → Action Store TokenPair
generate_tokens env user role s =
    if is_some (Table.find (with_hash (env.sha256_hex env.random)) s.refresh_tokens)
    then (err unique_violation 500, s)
    else (
      ok (record { access_token = env.sign user role; refresh_token = env.random }),
      record s { refresh_tokens = Table.create (token_row env user) s.refresh_tokens },
    )

abbrev pub revoked : RefreshToken → RefreshToken
revoked t = record t { is_revoked = true }

-- A stored token and its user, as `findByTokenHashWithUser` returns them
abbrev pub user_of : Store → RefreshToken → Option User
user_of s t = Table.find (λ u. u.id == t.user_id) s.users

-- `storedToken.is_revoked || storedToken.expires_at < new Date()`
abbrev pub is_dead : ℕ → RefreshToken → Bool
is_dead now t = t.is_revoked || ltb t.expires_at now

-- `update(storedToken.id, { is_revoked: true })`
unfoldable pub revoke_token : ℕ → Action Store (Unit {0})
revoke_token id =
    writes
      (λ s. record s { refresh_tokens = Table.update (λ t. t.id == id) revoked s.refresh_tokens })

-- `rotateRefreshToken`
unfoldable pub rotate_refresh_token : Env → String → Action Store TokenPair
unfolding revoke_token generate_tokens
rotate_refresh_token env token = do
  found ← reads (λ s. Table.find (with_hash (env.sha256_hex token)) s.refresh_tokens)
  stored ← or_throw found unauthorized 401
  throw_if (is_dead env.now stored) unauthorized 401
  holder ← reads (λ s. user_of s stored)
  user ← or_throw holder unauthorized 401
  revoke_token stored.id
  generate_tokens env stored.user_id user.role

-- `revokeRefreshToken` with `revokeByTokenHash`
unfoldable pub revoke_refresh_token : Env → String → Action Store (Unit {0})
revoke_refresh_token env token = writes (λ s. record s {
  refresh_tokens = Table.update (with_hash (env.sha256_hex token)) revoked s.refresh_tokens;
})

abbrev filled : Option String → Option String
filled none = none
filled (some text) = if str_eq text "" then none else some text

-- `refresh`: the cookie that the request carries
unfoldable pub refresh : Env → Option String → Action Store TokenPair
unfolding rotate_refresh_token
refresh env cookie = do
  token ← or_throw (filled cookie) unauthorized 401
  rotate_refresh_token env token

abbrev revoke_cookie : Env → Option String → Action Store (Unit {0})
revoke_cookie env none = return tt
revoke_cookie env (some token) = revoke_refresh_token env token

abbrev or_cookie : Option String → Option String → Option String
or_cookie none legacy = legacy
or_cookie (some token) legacy = some token

-- `logout`: the cookie of the application, or the legacy one
unfoldable pub logout : Env → Option String → Option String → Action Store (Unit {0})
unfolding revoke_refresh_token
logout env cookie legacy = revoke_cookie env (or_cookie (filled cookie) (filled legacy))

abbrev pub is_owner : Role → Bool
is_owner owner = true
is_owner _ = false

-- `login` of the client controller
unfoldable pub login_client : Env → String → String → Action Store TokenPair
unfolding login generate_tokens
login_client env email password = do
  user ← login env email password
  throw_if (not (is_owner user.role)) forbidden 403
  generate_tokens env user.id user.role

-- `login` of the administrators' controller
unfoldable pub login_subscription : Env → String → String → Action Store TokenPair
unfolding login_admin generate_tokens
login_subscription env email password = do
  user ← login_admin env email password
  generate_tokens env user.id user.role
