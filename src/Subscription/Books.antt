-- ===== src/Subscription/Books.antt =====
-- The coins that buying and switching a plan take.
use subscription_be.Prelude.{Option, ℕ, ◌+◌, ◌≡◌, refl, some, ◌==◌, if◌then◌else◌}
use subscription_be.Db.{Db}
use subscription_be.Db.Action.{Code, ok, err}
use subscription_be.Db.Schema.{Sku, Subscription, PlanSwitchType}
use mathlib.Core.Path.{subst}
use subscription_be.Wallet.{spend_row, debit}
use subscription_be.Subscription.Cancel.{mark_cancelled}
use subscription_be.Wallet.Ledger.{balance_of, charge-IsBalanced, balance_of-debit}
use subscription_be.CoinOrder.Credit.{BooksBalance}
use subscription_be.Outbox.{Env}
use subscription_be.Subscription.Rows.{find_sku}
use subscription_be.Subscription.Purchase.{subscribe, announce, open_subscription}
use subscription_be.Subscription.Switch.{
  switch_plan, announce_switch, open_switched, switch_type_of, rank_of, sku_of,
}
use subscription_be.Subscription.Announce.{announce-frame, announce_switch-frame}
use subscription_be.Subscription.Outcome.{subscribe-cases}
use subscription_be.Subscription.Committed.{Committed, purchase-Committed}
use subscription_be.Subscription.SwitchOutcome.{
  SwitchCommitted, execute-SwitchCommitted, switch_plan-cases,
}

-- What a step of the shop does to the wallets: the user pays the cost, and nobody else anything.
record Charged (opening : ℕ → ℕ) (user cost : ℕ) (db db' : Db) : Type 0 where
  pub books : BooksBalance opening db'
  pub paid :
      (u : ℕ)
      → balance_of u db'.wallets.rows + (if u == user then cost else 0)
        ≡ balance_of u db.wallets.rows

Committed-Charged :
    (opening : ℕ → ℕ) (env : Env) (user : ℕ) (sku : Sku) (currency : ℕ) (db : Db) (id : ℕ)
    (db' : Db)
    → BooksBalance opening db
    → Committed env user sku currency db id db'
    → Charged opening user sku.coin_cost db db'
unfolding open_subscription debit
Committed-Charged opening env user sku currency db id db' h c =
    subst (λ d. Charged opening user sku.coin_cost db d) c.state
      (record {
        books =
            charge-IsBalanced opening user sku.coin_cost db.wallets.rows db.transactions.rows
              (spend_row c.wallet.id user sku.coin_cost currency db.subscriptions.next_id
                db.transactions.next_id)
              h c.covered refl refl refl;
        paid = λ u.
            balance_of-debit user sku.coin_cost u db.wallets.rows (h.one_wallet user) c.covered;
      })

SwitchCommitted-Charged :
    (opening : ℕ → ℕ) (env : Env) (user : ℕ) (old : Subscription) (sku : Sku)
    (type : PlanSwitchType) (currency : ℕ) (db : Db) (id : ℕ) (db' : Db)
    → BooksBalance opening db
    → SwitchCommitted env user old sku type currency db id db'
    → Charged opening user sku.coin_cost db db'
unfolding open_switched debit mark_cancelled
SwitchCommitted-Charged opening env user old sku type currency db id db' h c =
    subst (λ d. Charged opening user sku.coin_cost db d) c.state
      (record {
        books =
            charge-IsBalanced opening user sku.coin_cost db.wallets.rows db.transactions.rows
              (spend_row c.wallet.id user sku.coin_cost currency db.subscriptions.next_id
                db.transactions.next_id)
              h c.covered refl refl refl;
        paid = λ u.
            balance_of-debit user sku.coin_cost u db.wallets.rows (h.one_wallet user) c.covered;
      })

announce-Charged :
    (opening : ℕ → ℕ) (env : Env) (user cost : ℕ) (sku : Sku) (id : ℕ) (db db' : Db)
    → Charged opening user cost db db'
    → Charged opening user cost db (announce env user sku id db').1
announce-Charged opening env user cost sku id db db' h =
    announce-frame (λ d. Charged opening user cost db d) env user sku id db'
      λ o. record { books = h.books; paid = h.paid }

announce_switch-Charged :
    (opening : ℕ → ℕ) (env : Env) (user cost : ℕ) (old : Option Sku) (sku : Sku)
    (type : PlanSwitchType) (id : ℕ) (db db' : Db)
    → Charged opening user cost db db'
    → Charged opening user cost db (announce_switch env user old sku type id db').1
announce_switch-Charged opening env user cost old sku type id db db' h =
    announce_switch-frame (λ d. Charged opening user cost db d) env user old sku type id db'
      λ o. record { books = h.books; paid = h.paid }

-- If every user has at most one wallet, and balance and expenses add up to what was given and topped up,
-- `subscribe` keeps it so, whether it returns or throws.
pub subscribe-BooksBalance :
    (opening : ℕ → ℕ) (env : Env) (user sku_id : ℕ) (db : Db)
    → BooksBalance opening db
    → BooksBalance opening (subscribe env user sku_id db).1
subscribe-BooksBalance opening env user sku_id db h =
    subscribe-cases (λ r. BooksBalance opening r.1) env user db sku_id (λ c status. h)
      λ sku currency id db' found on fits done.
        (announce-Charged opening env user sku.coin_cost sku id db db' (
          Committed-Charged opening env user sku currency db id db' h
            (purchase-Committed env user sku currency db id db' done))).books

-- Where the books are balanced, a `subscribe` that returns has taken the plan's price from the user's
-- wallet, and nothing from any other.
pub subscribe_charges :
    (opening : ℕ → ℕ) (env : Env) (user sku_id : ℕ) (db : Db) (sku : Sku) (id u : ℕ)
    → BooksBalance opening db
    → find_sku sku_id db ≡ some sku
    → (subscribe env user sku_id db).0 ≡ ok id
    → balance_of u (subscribe env user sku_id db).1.wallets.rows
        + (if u == user then sku.coin_cost else 0)
      ≡ balance_of u db.wallets.rows
subscribe_charges opening env user sku_id db sku id u h found =
    subscribe-cases
      (λ r.
        r.0 ≡ ok id
        → balance_of u r.1.wallets.rows + (if u == user then sku.coin_cost else 0)
          ≡ balance_of u db.wallets.rows)
      env user db sku_id (λ c status e. cc)
      λ plan currency new_id db' found' on fits done e.
        let same : plan ≡ sku = cc in
        subst
          (λ (k : Sku).
            balance_of u (announce env user plan new_id db').1.wallets.rows
              + (if u == user then k.coin_cost else 0)
            ≡ balance_of u db.wallets.rows)
          same
          ((announce-Charged opening env user plan.coin_cost plan new_id db db' (
              Committed-Charged opening env user plan currency db new_id db' h
                (purchase-Committed env user plan currency db new_id db' done))).paid
            u)

-- If `switch_plan` throws, whatever the reason, the database is as it was.
pub switch_plan_atomic :
    (env : Env) (user id new_sku_id : ℕ) (db : Db) (c : Code) (status : ℕ)
    → (switch_plan env user id new_sku_id db).0 ≡ err c status
    → (switch_plan env user id new_sku_id db).1 ≡ db
unfolding announce_switch
switch_plan_atomic env user id new_sku_id db c status =
    switch_plan-cases (λ r. r.0 ≡ err c status → r.1 ≡ db) env user id new_sku_id db
      (λ c' status' e. refl) λ old sku currency new_id db' fits done e. cc

-- If every user has at most one wallet, and balance and expenses add up to what was given and topped up,
-- `switch_plan` keeps it so, whether it returns or throws.
pub switch_plan-BooksBalance :
    (opening : ℕ → ℕ) (env : Env) (user id new_sku_id : ℕ) (db : Db)
    → BooksBalance opening db
    → BooksBalance opening (switch_plan env user id new_sku_id db).1
switch_plan-BooksBalance opening env user id new_sku_id db h =
    switch_plan-cases (λ r. BooksBalance opening r.1) env user id new_sku_id db (λ c status. h)
      λ old sku currency new_id db' fits done.
        let type = switch_type_of (rank_of (sku_of old db)) sku.rank in
        (announce_switch-Charged opening env user sku.coin_cost (sku_of old db) sku type new_id db
          db'
          (SwitchCommitted-Charged opening env user old sku type currency db new_id db' h
            (execute-SwitchCommitted env user old sku type currency db new_id db' done))).books

-- Where the books are balanced, a `switch_plan` that returns has taken the new plan's price from the
-- user's wallet, and nothing from any other.
pub switch_plan_charges :
    (opening : ℕ → ℕ) (env : Env) (user id new_sku_id : ℕ) (db : Db) (sku : Sku) (new_id u : ℕ)
    → BooksBalance opening db
    → find_sku new_sku_id db ≡ some sku
    → (switch_plan env user id new_sku_id db).0 ≡ ok new_id
    → balance_of u (switch_plan env user id new_sku_id db).1.wallets.rows
        + (if u == user then sku.coin_cost else 0)
      ≡ balance_of u db.wallets.rows
switch_plan_charges opening env user id new_sku_id db sku new_id u h found =
    switch_plan-cases
      (λ r.
        r.0 ≡ ok new_id
        → balance_of u r.1.wallets.rows + (if u == user then sku.coin_cost else 0)
          ≡ balance_of u db.wallets.rows)
      env user id new_sku_id db (λ c status e. cc)
      λ old plan currency key db' fits done e.
        let type = switch_type_of (rank_of (sku_of old db)) plan.rank in
        let same : plan ≡ sku = cc fits.found_sku in
        let after = (announce_switch env user (sku_of old db) plan type key db').1 in
        subst
          (λ (k : Sku).
            balance_of u after.wallets.rows + (if u == user then k.coin_cost else 0)
            ≡ balance_of u db.wallets.rows)
          same
          ((announce_switch-Charged opening env user plan.coin_cost (sku_of old db) plan type key db
              db'
              (SwitchCommitted-Charged opening env user old plan type currency db key db' h
                (execute-SwitchCommitted env user old plan type currency db key db' done))).paid
            u)
