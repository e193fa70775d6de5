-- ===== src/Tests/Accounts.antt =====
-- Accounts and sessions at concrete inputs. The digest of a text is the text here, and bcrypt hashes a
-- password to itself.
use subscription_be.Prelude.{◌*◌, ◌≡◌, refl, true, false, none, [], ◌∷◌, arith, str_eq}
use subscription_be.Db.Action.{ok, err, account_inactive, invalid_token, unauthorized}
use subscription_be.Db.Catalog.{CoinCurrency}
use subscription_be.CoinOrder.Credit.{BooksBalance}
use subscription_be.Wallet.Opening.{given}
use subscription_be.Accounts.{owner, User, Store, Env}
use subscription_be.Accounts.Auth.{
  Registration, register, activate, login, user_row, activated, forgot_password, reset_password,
  with_password, with_reset_token,
}
use subscription_be.Accounts.Signup.{signup_logs_in, register-BooksBalance}
use subscription_be.Accounts.Reset.{reset_logs_in}
use subscription_be.Accounts.Tokens.{
  generate_tokens, rotate_refresh_token, revoke_refresh_token, token_row,
}
use subscription_be.Accounts.Sessions.{issue, here, next}
use subscription_be.Accounts.Refresh.{rotate_once, sign_out_ends, issued_rotates}
use subscription_be.Tests.{no_opening, no_rows}
use subscription_be.Tests.Coins.{ordered_db, ordered_db-BooksBalance}

abbrev rupiah : CoinCurrency
rupiah = record {
  id = 1;
  currency_name = "Rupiah";
  currency_code = "IDR";
  symbol = "Rp";
  effective_from = 0;
  effective_until = none;
  conversion_rate = 10000000;
  is_active = true;
  deleted = false;
}

abbrev first_env : Env
first_env = record {
  now = 1000;
  random = "r1";
  hash = λ password. password;
  compare = λ password hash. str_eq password hash;
  sha256_hex = λ text. text;
  sign = λ user role. "jwt";
  mail_sent = true;
  default_balance = 300;
}

abbrev second_env : Env
second_env = record first_env { now = 2000; random = "r2" }

abbrev third_env : Env
third_env = record first_env { now = 3000; random = "r3" }

abbrev form : Registration
form = record { email = "a@b.c"; name = "A"; phone = none; password = "secret"; profile = none }

abbrev empty_store : Store
empty_store = record {
  users = no_rows;
  profiles = no_rows;
  refresh_tokens = no_rows;
  currencies = rupiah ∷ [];
  db = ordered_db;
}

signup_logs_in_example :
    let s1 = (register first_env form empty_store).1 in
    let (r, s2) = activate second_env "r1" s1 in
    ((login third_env "a@b.c" "secret" s1).0 ≡ err account_inactive 403)
    × (r ≡ ok tt)
    × ((login third_env "a@b.c" "secret" s2).0 ≡ ok (activated (user_row first_env form 1)))
signup_logs_in_example =
    signup_logs_in first_env second_env third_env form empty_store rupiah refl refl refl
      (ground arith) refl

register-BooksBalance_example :
    BooksBalance
      (given no_opening 1 (100 * first_env.default_balance))
      (register first_env form empty_store).1.db
register-BooksBalance_example =
    register-BooksBalance no_opening first_env form empty_store rupiah ordered_db-BooksBalance refl
      refl refl

abbrev member : User
member = activated (user_row first_env form 1)

abbrev member_store : Store
member_store = record empty_store { users = record { rows = member ∷ []; next_id = 2 } }

reset_logs_in_example :
    let s1 = (forgot_password first_env "a@b.c" member_store).1 in
    let (r, s2) = reset_password second_env "r1" "better" s1 in
    (r ≡ ok tt)
    × (reset_password second_env "r1" "worse" s2 ≡ (err invalid_token 400, s2))
    × ((login third_env "a@b.c" "better" s2).0
        ≡ ok (with_password second_env "better" (with_reset_token first_env member)))
reset_logs_in_example =
    reset_logs_in first_env second_env third_env "a@b.c" "better" "worse" member member_store refl
      (ground arith) refl refl refl refl (ground arith) refl

issued_rotates_example :
    ((generate_tokens first_env 1 owner member_store).0
      ≡ ok (record { access_token = "jwt"; refresh_token = "r1" }))
    × ((rotate_refresh_token second_env "r1" (generate_tokens first_env 1 owner member_store).1).0
        ≡ ok (record { access_token = "jwt"; refresh_token = "r2" }))
issued_rotates_example =
    issued_rotates first_env second_env 1 owner member_store member refl refl refl (ground arith)
      refl refl

abbrev signed_in : Store
signed_in = record member_store {
  refresh_tokens = record { rows = token_row first_env 1 1 ∷ []; next_id = 2 };
}

abbrev rotated : Store
rotated = (rotate_refresh_token second_env "r1" signed_in).1

rotated_ok :
    (rotate_refresh_token second_env "r1" signed_in).0
    ≡ ok (record { access_token = "jwt"; refresh_token = "r2" })
unfolding rotate_refresh_token
rotated_ok = refl

abbrev later_store : Store
later_store = (generate_tokens third_env 1 owner rotated).1

rotate_once_example :
    rotate_refresh_token third_env "r1" later_store ≡ (err unauthorized 401, later_store)
rotate_once_example =
    rotate_once second_env third_env "r1" signed_in later_store
      (record { access_token = "jwt"; refresh_token = "r2" }) (ground arith) rotated_ok
      (next here (issue third_env 1 owner rotated)) refl

abbrev signed_out : Store
signed_out = (revoke_refresh_token first_env "r1" signed_in).1

sign_out_ends_example :
    rotate_refresh_token second_env "r1" signed_out ≡ (err unauthorized 401, signed_out)
sign_out_ends_example =
    sign_out_ends first_env second_env "r1" signed_in signed_out (ground arith) here refl
