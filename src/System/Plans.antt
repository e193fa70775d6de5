-- ===== src/System/Plans.antt =====
-- The requests about plans and coins, and the coin orders.
use mathlib.Core.Path.{subst}
use subscription_be.Prelude.{
  ℕ, String, not, ◌&&◌, inl, inr, arith, ltb, Bool-cases, Option-cases, [], ◌∷◌, count_where,
  count_where-append, update_many_none,
}
use subscription_be.Db.{Db}
use subscription_be.Db.Table
use subscription_be.Db.Schema.{Sku, Subscription, PlanSwitchType}
use subscription_be.Wallet.{
  owned_by, covers, decrement, spend, spend_row, record_spend, get_wallet,
  deduct_balance_if_sufficient, debit,
}
use subscription_be.Wallet.Spending.{spend-IsBalanced}
use subscription_be.CoinOrder.Once.{IsOnce, credit_entry}
use subscription_be.CoinOrder.Credit.{BooksBalance}
use subscription_be.Outbox.{Env}
use subscription_be.Subscription.Purchase.{subscribe, open_subscription}
use subscription_be.Subscription.Switch.{
  switch_plan, open_switched, switch_type_of, rank_of, sku_of,
}
use subscription_be.Subscription.Cancel.{mark_cancelled, cancel_subscription}
use subscription_be.Subscription.Announce.{
  announce-frame, announce_switch-frame, cancel_subscription-frame,
}
use subscription_be.Subscription.Outcome.{subscribe-cases}
use subscription_be.Subscription.Committed.{Committed, purchase-Committed}
use subscription_be.Subscription.SwitchOutcome.{
  SwitchCommitted, execute-SwitchCommitted, switch_plan-cases,
}
use subscription_be.Subscription.Books.{subscribe-BooksBalance, switch_plan-BooksBalance}
use subscription_be.Subscription.OnePackage.{
  OnePackage, subscribe-OnePackage, switch_plan-OnePackage, cancel_subscription-OnePackage,
}
use subscription_be.System.{IsSound}

-- A database with the same orders, and one more SPEND entry in the ledger
spent-IsOnce :
    (db : Db) (user wallet amount currency ref : ℕ)
    → IsOnce db
    → IsOnce (record db {
      transactions = Table.create (spend_row wallet user amount currency ref) db.transactions;
    })
spent-IsOnce db user wallet amount currency ref h =
    let row = spend_row wallet user amount currency ref db.transactions.next_id in
    let same = λ (id : ℕ). count_where-append (credit_entry id) db.transactions.rows (row ∷ []) in
    record {
      once = λ id. ground (arith, same id, h.once id);
      fresh = λ id le. ground (arith, same id, h.fresh id le);
    }

Committed-IsOnce :
    (env : Env) (user : ℕ) (sku : Sku) (currency : ℕ) (db : Db) (id : ℕ) (db' : Db)
    → IsOnce db
    → Committed env user sku currency db id db'
    → IsOnce db'
unfolding open_subscription debit
Committed-IsOnce env user sku currency db id db' h c =
    let spent =
      spent-IsOnce db user c.wallet.id sku.coin_cost currency db.subscriptions.next_id h in
    subst IsOnce c.state (record { once = spent.once; fresh = spent.fresh })

SwitchCommitted-IsOnce :
    (env : Env) (user : ℕ) (old : Subscription) (sku : Sku) (type : PlanSwitchType) (currency : ℕ)
    (db : Db) (id : ℕ) (db' : Db)
    → IsOnce db
    → SwitchCommitted env user old sku type currency db id db'
    → IsOnce db'
unfolding open_switched debit mark_cancelled
SwitchCommitted-IsOnce env user old sku type currency db id db' h c =
    let spent =
      spent-IsOnce db user c.wallet.id sku.coin_cost currency db.subscriptions.next_id h in
    subst IsOnce c.state (record { once = spent.once; fresh = spent.fresh })

pub subscribe-IsSound :
    (opening : ℕ → ℕ) (env : Env) (user sku_id : ℕ) (db : Db)
    → IsSound opening db
    → IsSound opening (subscribe env user sku_id db).1
subscribe-IsSound opening env user sku_id db h = record {
  books = subscribe-BooksBalance opening env user sku_id db h.books;
  packages = subscribe-OnePackage env user sku_id db h.packages;
  orders =
      subscribe-cases (λ r. IsOnce r.1) env user db sku_id (λ c status. h.orders)
        λ sku currency id db' found on fits done.
          let once =
            Committed-IsOnce env user sku currency db id db' h.orders
              (purchase-Committed env user sku currency db id db' done) in
          announce-frame IsOnce env user sku id db'
            λ o. record { once = once.once; fresh = once.fresh };
}

pub switch_plan-IsSound :
    (opening : ℕ → ℕ) (env : Env) (user id new_sku_id : ℕ) (db : Db)
    → IsSound opening db
    → IsSound opening (switch_plan env user id new_sku_id db).1
switch_plan-IsSound opening env user id new_sku_id db h = record {
  books = switch_plan-BooksBalance opening env user id new_sku_id db h.books;
  packages = switch_plan-OnePackage env user id new_sku_id db h.packages;
  orders =
      switch_plan-cases (λ r. IsOnce r.1) env user id new_sku_id db (λ c status. h.orders)
        λ old sku currency new_id db' fits done.
          let type = switch_type_of (rank_of (sku_of old db)) sku.rank in
          let once =
            SwitchCommitted-IsOnce env user old sku type currency db new_id db' h.orders
              (execute-SwitchCommitted env user old sku type currency db new_id db' done) in
          announce_switch-frame IsOnce env user (sku_of old db) sku type new_id db'
            λ o. record { once = once.once; fresh = once.fresh };
}

pub cancel_subscription-IsSound :
    (opening : ℕ → ℕ) (env : Env) (show : ℕ → String) (user id : ℕ) (db : Db)
    → IsSound opening db
    → IsSound opening (cancel_subscription env show user id db).1
unfolding mark_cancelled
cancel_subscription-IsSound opening env show user id db h = record {
  books = cancel_subscription-frame (BooksBalance opening) env show user id db h.books λ o. h.books;
  packages = cancel_subscription-OnePackage env show user id db h.packages;
  orders =
      cancel_subscription-frame IsOnce env show user id db h.orders
        λ o. record { once = h.orders.once; fresh = h.orders.fresh };
}

-- Coins that are spent: the balance is too low, and nothing is written, or the entry is.
spend-frame :
    (P : Db → Type 0) (user amount ref currency : ℕ) (db : Db)
    → P db
    → ((wallet : ℕ) → P (record_spend wallet user amount currency ref (debit user amount db).1))
    → P (spend user amount ref currency db).1
unfolding spend get_wallet deduct_balance_if_sufficient debit
spend-frame P user amount ref currency db same spent =
    elim (Option-cases (Table.find (λ w. owned_by user w && not w.deleted) db.wallets)) [
      | inl e ↦ rw e same
      | inr (w, e) ↦
          rw e (elim (Bool-cases (ltb 0 (count_where (covers user amount) db.wallets.rows))) [
            | inl y ↦ rw y (spent w.id)
            | inr n ↦
                rw
                  (
                    n,
                    update_many_none (covers user amount) (decrement amount) db.wallets.rows
                        (ground arith),
                  )
                  same
          ])
    ]

pub spend-IsSound :
    (opening : ℕ → ℕ) (user amount ref currency : ℕ) (db : Db)
    → IsSound opening db
    → IsSound opening (spend user amount ref currency db).1
unfolding debit
spend-IsSound opening user amount ref currency db h = record {
  books = spend-IsBalanced opening user amount ref currency db h.books;
  packages = spend-frame OnePackage user amount ref currency db h.packages λ wallet. h.packages;
  orders = spend-frame IsOnce user amount ref currency db h.orders λ wallet.
      let spent = spent-IsOnce db user wallet amount currency ref h.orders in
      record { once = spent.once; fresh = spent.fresh };
}
