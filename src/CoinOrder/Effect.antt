-- ===== src/CoinOrder/Effect.antt =====
-- What one payment callback does, on each of its branches.
use subscription_be.Prelude.{
  Bool-cases, ℕ, ◌+◌, ◌<◌, ◌≡◌, ◌≢◌, String, Option, some, true, false, arith, ◌==◌, count_where,
  [], ◌∷◌, ◌++◌, find_first, find_first-none, find_first-some, Option-cases, inl, inr,
  count_where-append, sum_where-append, if◌then◌else◌,
}
use subscription_be.Db.{Db}
use subscription_be.Db.Action.{ok, err, amount_mismatch, transaction-eq_of_ok}
use subscription_be.Db.Table
use subscription_be.Db.Schema.{CoinOrder, paid}
use subscription_be.Wallet.{owned_by}
use subscription_be.Wallet.Ledger.{balance_of, balance_of-credit}
use subscription_be.CoinOrder.{pending_with, by_pg_order_id, set_status_if_pending}
use subscription_be.CoinOrder.Payment.{
  mismatched, round_hundredths, wallet_row, credit_wallet, coins_of, credit_order,
  handle_payment_success,
}
use subscription_be.CoinOrder.Credit.{BooksBalance}

-- The wallet is found or created, and gains the coins.
credit_wallet_balance :
    (opening : ℕ → ℕ) (order : CoinOrder) (channel : Option String) (db : Db)
    → BooksBalance opening db
    → (u : ℕ)
    → balance_of u (credit_wallet order channel db).1.wallets.rows
      ≡ balance_of u db.wallets.rows + (if u == order.user_id then coins_of order else 0)
unfolding credit_wallet
credit_wallet_balance opening order channel db h u =
    elim (Option-cases (find_first (owned_by order.user_id) db.wallets.rows)) [
      | inl absent ↦
          let w = wallet_row order db.wallets.next_id in
          let once : count_where (owned_by order.user_id) (db.wallets.rows ++ w ∷ []) ≡ 1 = ground (
            arith,
            count_where-append (owned_by order.user_id) db.wallets.rows (w ∷ []),
            find_first-none (owned_by order.user_id) db.wallets.rows absent,
          ) in
          rw absent (
            ground (
              arith,
              balance_of-credit order.user_id (coins_of order) u (db.wallets.rows ++ w ∷ []) once,
              sum_where-append (owned_by u) (λ x. x.balance) db.wallets.rows (w ∷ []),
            ))
      | inr (w, found) ↦ rw found (
          balance_of-credit order.user_id (coins_of order) u db.wallets.rows (
            omega (
              arith,
              find_first-some (owned_by order.user_id) db.wallets.rows w found,
              h.one_wallet order.user_id,
            )))
    ]

credit_wallet_ok :
    (order : CoinOrder) (channel : Option String) (db : Db)
    → (credit_wallet order channel db).0 ≡ ok tt
unfolding credit_wallet
credit_wallet_ok order channel db =
    elim (Option-cases (find_first (owned_by order.user_id) db.wallets.rows)) [
      | inl absent ↦ rw absent
      | inr (w, found) ↦ rw found
    ]

pub credit_order_first :
    (order : CoinOrder) (channel : Option String) (db : Db)
    → 0 < count_where (pending_with order.id) db.coin_orders.rows
    → credit_order order channel db
      ≡ credit_wallet order channel (set_status_if_pending order.id paid db).1
unfolding credit_order set_status_if_pending
credit_order_first order channel db open_order =
    let test : (count_where (pending_with order.id) db.coin_orders.rows == 0) ≡ false =
      ground arith in
    rw test

-- The transaction of a payment never throws.
pub credit_order_ok :
    (order : CoinOrder) (channel : Option String) (db : Db)
    → (credit_order order channel db).0 ≡ ok tt
unfolding credit_order set_status_if_pending
credit_order_ok order channel db =
    elim (Bool-cases (count_where (pending_with order.id) db.coin_orders.rows == 0)) [
      | inl late ↦ rw late
      | inr first ↦
          rw first (credit_wallet_ok order channel (set_status_if_pending order.id paid db).1)
    ]

-- A payment of a pending order whose amount is right, or not reported, succeeds: it adds the coins
-- of the order to the balance of its user and leaves every other balance.
pub handle_payment_success_credits :
    (opening : ℕ → ℕ) (pg_order_id : String) (amount : Option ℕ) (channel : Option String)
    (order : CoinOrder) (db : Db) (u : ℕ)
    → BooksBalance opening db
    → Table.find (by_pg_order_id pg_order_id) db.coin_orders ≡ some order
    → mismatched amount order ≡ false
    → 0 < count_where (pending_with order.id) db.coin_orders.rows
    → let (r, db') = handle_payment_success pg_order_id amount channel db in
      (r ≡ ok tt)
      × (balance_of u db'.wallets.rows
          ≡ balance_of u db.wallets.rows + (if u == order.user_id then coins_of order else 0))
unfolding handle_payment_success set_status_if_pending
handle_payment_success_credits opening pg_order_id amount channel order db u h found right
      open_order =
    let db' = (set_status_if_pending order.id paid db).1 in
    let first = credit_order_first order channel db open_order in
    let done : (credit_order order channel db).0 ≡ ok tt =
      rw first (credit_wallet_ok order channel db') in
    rw (found, right, transaction-eq_of_ok (credit_order order channel) db tt done)
      (done, rw first (credit_wallet_balance opening order channel db' h u))

-- A positive amount that, rounded to rupiahs, is not the order's price throws AMOUNT_MISMATCH, and
-- the database is as it was.
pub handle_payment_success_mismatch :
    (pg_order_id : String) (amount : ℕ) (channel : Option String) (order : CoinOrder) (db : Db)
    → Table.find (by_pg_order_id pg_order_id) db.coin_orders ≡ some order
    → 0 < amount
    → round_hundredths amount ≢ round_hundredths order.price_paid
    → handle_payment_success pg_order_id (some amount) channel db ≡ (err amount_mismatch 400, db)
unfolding handle_payment_success
handle_payment_success_mismatch pg_order_id amount channel order db found positive differ =
    let wrong : mismatched (some amount) order ≡ true = ground arith in rw (found, wrong)
