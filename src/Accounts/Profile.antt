-- ===== src/Accounts/Profile.antt =====
-- src/shared/services/account.service.ts with src/shared/repositories/account.repository.ts.
use subscription_be.Prelude.{ℕ, String, Bool, not, Option, none, some, ◌==◌, is_some, if◌then◌else◌}
use subscription_be.Db.Table
use subscription_be.Db.Action.{
  Action, ◌>>=◌, ◌>>◌, return, throw_if, or_throw, reads, writes, not_found, invalid_credentials,
}
use subscription_be.Accounts.{User, ProfileData, UserProfile, Store, Env, update_user}
use subscription_be.Accounts.Auth.{profile_row}

abbrev pub by_id : ℕ → User → Bool
by_id id u = u.id == id

-- `getAccount`, with `findByIdWithProfile`
unfoldable pub get_account : ℕ → Action Store (User × Option UserProfile)
get_account user = do
  found ← reads (λ s. Table.find (by_id user) s.users)
  account ← or_throw found not_found 404
  profile ← reads (λ s. Table.find (λ p. p.user_id == user) s.profiles)
  return (account, profile)

abbrev set_fields : ProfileData → UserProfile → UserProfile
set_fields fields p = record p { fields = fields }

-- `upsertProfile`
unfoldable pub upsert_profile : ℕ → ProfileData → Action Store (Unit {0})
upsert_profile user fields = writes (λ s. record s {
  profiles =
      if is_some (Table.find (λ p. p.user_id == user) s.profiles)
      then Table.update (λ p. p.user_id == user) (set_fields fields) s.profiles
      else Table.create (profile_row user fields) s.profiles;
})

abbrev pub renamed : String → Option String → User → User
renamed name phone u = record u { name = name; phone = phone }

abbrev upsert_given : ℕ → Option ProfileData → Action Store (Unit {0})
upsert_given user none = return tt
upsert_given user (some fields) = upsert_profile user fields

-- `updateAccount`
unfoldable pub update_account :
    ℕ → String → Option String → Option ProfileData → Action Store (User × Option UserProfile)
unfolding get_account update_user upsert_profile
update_account user name phone profile = do
  account ← get_account user
  update_user user (renamed name phone)
  upsert_given user profile
  get_account user

abbrev rehashed : String → User → User
rehashed hash u = record u { password_hash = hash }

-- `changePassword`, with `updatePasswordHash`
unfoldable pub change_password : Env → ℕ → String → String → Action Store (Unit {0})
unfolding get_account update_user
change_password env user old new = do
  (account, profile) ← get_account user
  throw_if (not (env.compare old account.password_hash)) invalid_credentials 400
  update_user user (rehashed (env.hash new))
