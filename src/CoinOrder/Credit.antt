-- ===== src/CoinOrder/Credit.antt =====
-- The credit of a paid order against the ledger, and a callback that comes again.
use subscription_be.Prelude.{
  ℕ, ◌≡◌, refl, ap, String, Option, true, arith, ◌==◌, count_where, List, [], ◌∷◌, ◌++◌, find_first,
  find_first-none, find_first-some, Option-cases, inl, inr, count_where-append, update_many_none,
  count_where-update_many_clear, Bool-cases,
}
use subscription_be.Db.{Db}
use subscription_be.Db.Action.{ok, transaction-keeps}
use subscription_be.Db.Table
use subscription_be.Db.Schema.{CoinOrder, paid}
use subscription_be.Wallet.{owned_by}
use subscription_be.Wallet.Ledger.{IsBalanced, credit-IsBalanced, open-IsBalanced}
use subscription_be.CoinOrder.{pending_with, by_pg_order_id, set_status, set_status_if_pending}
use subscription_be.CoinOrder.Payment.{
  mismatched, wallet_row, credit_wallet, coins_of, topup_row, credit_order, handle_payment_success,
}

abbrev pub BooksBalance : (ℕ → ℕ) → Db → Type 0
BooksBalance opening db = IsBalanced opening db.wallets.rows db.transactions.rows

credit_wallet-IsBalanced :
    (opening : ℕ → ℕ) (order : CoinOrder) (channel : Option String) (db : Db)
    → BooksBalance opening db
    → BooksBalance opening (credit_wallet order channel db).1
unfolding credit_wallet
credit_wallet-IsBalanced opening order channel db h =
    elim (Option-cases (find_first (owned_by order.user_id) db.wallets.rows)) [
      | inl absent ↦
          let w = wallet_row order db.wallets.next_id in
          let none_yet = find_first-none (owned_by order.user_id) db.wallets.rows absent in
          rw absent (
            credit-IsBalanced opening order.user_id (coins_of order) (db.wallets.rows ++ w ∷ [])
              db.transactions.rows
              (topup_row order channel db.wallets.next_id db.transactions.next_id)
              (open-IsBalanced opening db.wallets.rows db.transactions.rows w h none_yet refl)
              (ground (
                arith,
                count_where-append (owned_by order.user_id) db.wallets.rows (w ∷ []),
                none_yet,
              ))
              refl refl refl)
      | inr (w, found) ↦ rw found (
          credit-IsBalanced opening order.user_id (coins_of order) db.wallets.rows
            db.transactions.rows (topup_row order channel w.id db.transactions.next_id) h
            (omega (
              arith,
              find_first-some (owned_by order.user_id) db.wallets.rows w found,
              h.one_wallet order.user_id,
            ))
            refl refl refl)
    ]

-- The transaction of a payment keeps the books.
pub credit_order-IsBalanced :
    (opening : ℕ → ℕ) (order : CoinOrder) (channel : Option String) (db : Db)
    → BooksBalance opening db
    → BooksBalance opening (credit_order order channel db).1
unfolding credit_order set_status_if_pending
credit_order-IsBalanced opening order channel db h =
    elim (Bool-cases (count_where (pending_with order.id) db.coin_orders.rows == 0)) [
      | inl late ↦ rw late h
      | inr first ↦ rw first (
          credit_wallet-IsBalanced opening order channel (set_status_if_pending order.id paid db).1
            h)
    ]

-- Balanced books stay balanced, whatever is notified, and whether the callback returns or throws.
pub handle_payment_success-IsBalanced :
    (opening : ℕ → ℕ) (pg_order_id : String) (amount : Option ℕ) (channel : Option String) (db : Db)
    → BooksBalance opening db
    → BooksBalance opening (handle_payment_success pg_order_id amount channel db).1
unfolding handle_payment_success
handle_payment_success-IsBalanced opening pg_order_id amount channel db h =
    elim (Option-cases (Table.find (by_pg_order_id pg_order_id) db.coin_orders)) [
      | inl missing ↦ rw missing h
      | inr (order, found) ↦ elim (Bool-cases (mismatched amount order)) [
        | inl wrong ↦ rw (found, wrong) h
        | inr right ↦
            rw (found, right)
              (transaction-keeps (BooksBalance opening) (credit_order order channel) db h
                (credit_order-IsBalanced opening order channel db h))
      ]
    ]

-- The credit leaves the orders alone.
pub coin_orders-credit_wallet :
    (order : CoinOrder) (channel : Option String) (db : Db)
    → (credit_wallet order channel db).1.coin_orders ≡ db.coin_orders
unfolding credit_wallet
coin_orders-credit_wallet order channel db =
    elim (Option-cases (find_first (owned_by order.user_id) db.wallets.rows)) [
      | inl absent ↦ rw absent
      | inr (w, found) ↦ rw found
    ]

-- After the transaction the order is pending no more.
pub credit_order_clears :
    (order : CoinOrder) (channel : Option String) (db : Db)
    → count_where (pending_with order.id) (credit_order order channel db).1.coin_orders.rows ≡ 0
unfolding credit_order set_status_if_pending
credit_order_clears order channel db =
    let cleared =
      count_where-update_many_clear (pending_with order.id) (set_status paid) db.coin_orders.rows
        (λ o h. ground arith) in
    elim (Bool-cases (count_where (pending_with order.id) db.coin_orders.rows == 0)) [
      | inl late ↦ rw late cleared
      | inr first ↦ rw first (
          rw (coin_orders-credit_wallet order channel (set_status_if_pending order.id paid db).1)
            cleared)
    ]

-- A payment of an order that is not pending changes nothing.
pub credit_order_late :
    (order : CoinOrder) (channel : Option String) (db : Db)
    → count_where (pending_with order.id) db.coin_orders.rows ≡ 0
    → credit_order order channel db ≡ (ok tt, db)
unfolding credit_order set_status_if_pending
credit_order_late order channel db none_left =
    let test : (count_where (pending_with order.id) db.coin_orders.rows == 0) ≡ true =
      ground arith in
    rw test (
      ap
        (λ (rows : List CoinOrder).
          (ok tt, record db { coin_orders = record db.coin_orders { rows = rows } }))
        (update_many_none (pending_with order.id) (set_status paid) db.coin_orders.rows none_left))

-- After the transaction of a payment has run, a second run for the same order, with any channel,
-- returns and changes nothing.
pub credit_order_replay :
    (order : CoinOrder) (first second : Option String) (db : Db)
    → credit_order order second (credit_order order first db).1
      ≡ (ok tt, (credit_order order first db).1)
credit_order_replay order first second db =
    credit_order_late order second (credit_order order first db).1
      (credit_order_clears order first db)
