-- ===== src/Accounts/Signup.antt =====
-- From the registration of an account to its first login.
use subscription_be.Prelude.{
  ℕ, ◌+◌, ◌*◌, ◌≤◌, ◌≡◌, refl, Bool, true, false, none, some, [], ◌∷◌, ◌++◌, ◌==◌, str_eq_iff,
  arith, ltb, count_where, find_first, find_first-none, find_first-append_none, find_first-update,
  List,
}
use subscription_be.Db.Table
use subscription_be.Db.Action.{ok, err, account_inactive}
use subscription_be.Db.Catalog.{CoinCurrency}
use subscription_be.Wallet.{owned_by}
use subscription_be.Wallet.Opening.{given, give-IsBalanced}
use subscription_be.CoinOrder.Credit.{BooksBalance}
use subscription_be.Accounts.{User, Store, Env, with_email, is_token}
use subscription_be.Accounts.Auth.{
  Registration, user_row, usable, register, open_account, create_user, create_wallet,
  create_profile, new_wallet, activate, activated, login, hour_ms,
}

-- What a registration that succeeds leaves.
abbrev pub registered : Env → Registration → CoinCurrency → Store → Store
registered env form currency s = record s {
  users = Table.create (user_row env form) s.users;
  profiles = create_profile s.users.next_id form.profile s.profiles;
  db = record s.db {
    wallets = Table.create (new_wallet env s.users.next_id currency) s.db.wallets;
  };
}

-- A registration under a new address, while a currency is active, returns the new user's key.
pub register_opens :
    (env : Env) (form : Registration) (s : Store) (currency : CoinCurrency)
    → find_first (with_email form.email) s.users.rows ≡ none
    → find_first usable s.currencies ≡ some currency
    → register env form s ≡ (ok s.users.next_id, registered env form currency s)
unfolding register open_account create_user create_wallet
register_opens env form s currency unused active = rw (unused, active, unused)

module _ (p : User → Bool) (rows : List User) (u : User) where
  -- A row at the end that is the only match.
  last_found : count_where p rows ≡ 0 → p u ≡ true → find_first p (rows ++ u ∷ []) ≡ some u
  last_found free hit = rw (find_first-append_none p rows (u ∷ []) free, hit)

-- A user who registers under an address that is not in use, while a currency is active, cannot log in
-- at first (ACCOUNT_INACTIVE, 403); the token in the mail activates the account within 24 hours; then the
-- address and the password log in, and return the user. The token must be no one else's, and bcrypt
-- must accept the password against its hash.
pub signup_logs_in :
    (env mailed later : Env) (form : Registration) (s : Store) (currency : CoinCurrency)
    → find_first (with_email form.email) s.users.rows ≡ none
    → find_first usable s.currencies ≡ some currency
    → count_where (λ (u : User). is_token u.activation_token env.random) s.users.rows ≡ 0
    → mailed.now ≤ env.now + 24 * hour_ms
    → later.compare form.password (env.hash form.password) ≡ true
    → let s1 = (register env form s).1 in
      let (r, s2) = activate mailed env.random s1 in
      ((login later form.email form.password s1).0 ≡ err account_inactive 403)
      × (r ≡ ok tt)
      × ((login later form.email form.password s2).0
          ≡ ok (activated (user_row env form s.users.next_id)))
unfolding activate login
signup_logs_in env mailed later form s currency unused active own in_time accepts =
    let u = user_row env form s.users.next_id in
    let rows = s.users.rows in
    let by_mail =
      last_found (with_email form.email) rows u
        (find_first-none (with_email form.email) rows unused)
        ((str_eq_iff form.email form.email).1 refl) in
    let by_token =
      last_found (λ (x : User). is_token x.activation_token env.random) rows u own
        ((str_eq_iff env.random env.random).1 refl) in
    let fresh : ltb (env.now + 24 * hour_ms) mailed.now ≡ false = ground (arith, in_time) in
    let same_id : (u.id == u.id) ≡ true = ground arith in
    let after =
      find_first-update (with_email form.email) (λ (x : User). x.id == u.id) activated
        (rows ++ u ∷ []) u by_mail same_id (λ x. refl) in
    rw (register_opens env form s currency unused active)
      (rw (by_mail, accepts), rw (by_token, fresh), rw (by_token, fresh, after, accepts))

-- A registration under a new address, while a currency is active, keeps every wallet equal to its
-- ledger, where the new user alone was given WALLET_DEFAULT_BALANCE coins at the start; the new user had
-- no wallet before.
pub register-BooksBalance :
    (opening : ℕ → ℕ) (env : Env) (form : Registration) (s : Store) (currency : CoinCurrency)
    → BooksBalance opening s.db
    → find_first (with_email form.email) s.users.rows ≡ none
    → find_first usable s.currencies ≡ some currency
    → count_where (owned_by s.users.next_id) s.db.wallets.rows ≡ 0
    → BooksBalance
        (given opening s.users.next_id (100 * env.default_balance))
        (register env form s).1.db
register-BooksBalance opening env form s currency h unused active absent =
    rw (register_opens env form s currency unused active) (
      give-IsBalanced opening s.db.wallets.rows s.db.transactions.rows
        (new_wallet env s.users.next_id currency s.db.wallets.next_id) h absent)
