-- ===== src/System/Orders.antt =====
-- The requests about coin orders as sequences of the steps of CoinOrder/Once.
use mathlib.Core.Path.{subst}
use subscription_be.Prelude.{
  ℕ, ◌≡◌, sym, String, Option, Bool, Option-cases, Bool-cases, inl, inr, not, ltb, ◌-◌, ◌==◌,
  count_where,
}
use subscription_be.Db.{Db}
use subscription_be.Db.Table
use subscription_be.Db.Action.{not_found}
use subscription_be.Db.Cases.{throw_if-cases}
use subscription_be.Db.Schema.{CoinOrder, Subscription, paid}
use subscription_be.Wallet.{owned_by}
use subscription_be.CoinOrder.{
  NewOrder, assert_no_active_pending_order, pending_order_ttl_ms, pending_of, save_order, conflicts,
  order_row, fail_order, update_order_payment_info, find_pending_by_user_id, set_status_if_pending,
  update_status, pending_with,
}
use subscription_be.CoinOrder.Payment.{credit_order, credit_wallet}
use subscription_be.CoinOrder.Checkout.{CheckoutResult, place_order}
use subscription_be.CoinOrder.Once.{
  Step, pay, fail, expire, save, inform, Reach, here, next, Step-IsOnce,
}
use subscription_be.CoinOrder.Credit.{BooksBalance, credit_order-IsBalanced}
use subscription_be.Subscription.OnePackage.{OnePackage}
use subscription_be.System.{IsSound}

pub place_order-Reach :
    (gateway_name : String) (create_checkout : String → ℕ → Option CheckoutResult)
    (has_account : ℕ → Bool) (now : ℕ) (d : NewOrder) (total : ℕ) (db : Db)
    → Reach db (place_order gateway_name create_checkout has_account now d total db).1
unfolding place_order save_order fail_order set_status_if_pending update_order_payment_info
place_order-Reach gateway_name create_checkout has_account now d total db =
    throw_if-cases (λ r. Reach db r.1) (not (has_account d.user_id)) not_found 404 _ db here
      λ known. elim (Bool-cases (conflicts d db)) [
        | inl clash ↦ rw clash here
        | inr free ↦
            let placed = record db {
              coin_orders = Table.create (order_row now d) db.coin_orders;
            } in
            let same : (save_order now d db).1 ≡ placed = rw free in
            let saved = subst (Reach db) same (next here (save now d db)) in
            let id = db.coin_orders.next_id in
            elim (Option-cases (create_checkout d.pg_order_id total)) [
              | inl refused ↦ rw (free, refused) (next saved (fail id placed))
              | inr (c, accepted) ↦
                  rw (free, accepted)
                    (next saved
                      (inform id c.pg_response_id c.checkout_url gateway_name c.snap_token placed))
            ]
      ]

pub assert_no_active-Reach :
    (now user : ℕ) (db : Db) → Reach db (assert_no_active_pending_order now user db).1
unfolding assert_no_active_pending_order find_pending_by_user_id update_status
assert_no_active-Reach now user db =
    elim (Option-cases (Table.find (pending_of user) db.coin_orders)) [
      | inl absent ↦ rw absent here
      | inr (o, found) ↦ elim (Bool-cases (ltb pending_order_ttl_ms (now - o.created_at))) [
        | inl old ↦ rw (found, old) (next here (expire o.id db))
        | inr young ↦ rw (found, young) here
      ]
    ]

-- A step on the orders leaves the subscriptions alone.
credit_wallet-subscriptions :
    (order : CoinOrder) (channel : Option String) (db : Db)
    → (credit_wallet order channel db).1.subscriptions ≡ db.subscriptions
unfolding credit_wallet
credit_wallet-subscriptions order channel db =
    elim (Option-cases (Table.find (owned_by order.user_id) db.wallets)) [
      | inl absent ↦ rw absent
      | inr (w, found) ↦ rw found
    ]

credit_order-subscriptions :
    (order : CoinOrder) (channel : Option String) (db : Db)
    → (credit_order order channel db).1.subscriptions ≡ db.subscriptions
unfolding credit_order set_status_if_pending
credit_order-subscriptions order channel db =
    elim (Bool-cases (count_where (pending_with order.id) db.coin_orders.rows == 0)) [
      | inl late ↦ rw late
      | inr first ↦
          rw first
            (credit_wallet-subscriptions order channel (set_status_if_pending order.id paid db).1)
    ]

save_order-frame :
    (P : Db → Type 0) (now : ℕ) (d : NewOrder) (db : Db)
    → P db
    → P (record db { coin_orders = Table.create (order_row now d) db.coin_orders })
    → P (save_order now d db).1
unfolding save_order
save_order-frame P now d db same saved = elim (Bool-cases (conflicts d db)) [
  | inl clash ↦ rw clash same
  | inr free ↦ rw free saved
]

-- What a step on the orders keeps.
pub Step-IsSound : (opening : ℕ → ℕ) {s t : Db} → Step s t → IsSound opening s → IsSound opening t
unfolding set_status_if_pending update_status update_order_payment_info
Step-IsSound opening (pay order channel db) h = record {
  books = credit_order-IsBalanced opening order channel db h.books;
  packages =
      subst
        (λ (t : Table.Table Subscription).
          OnePackage (record (credit_order order channel db).1 { subscriptions = t }))
        (sym (credit_order-subscriptions order channel db)) h.packages;
  orders = Step-IsOnce (pay order channel db) h.orders;
}
Step-IsSound opening (fail id db) h = record {
  books = h.books;
  packages = h.packages;
  orders = Step-IsOnce (fail id db) h.orders;
}
Step-IsSound opening (expire id db) h = record {
  books = h.books;
  packages = h.packages;
  orders = Step-IsOnce (expire id db) h.orders;
}
Step-IsSound opening (save now d db) h = record {
  books = save_order-frame (BooksBalance opening) now d db h.books h.books;
  packages = save_order-frame OnePackage now d db h.packages h.packages;
  orders = Step-IsOnce (save now d db) h.orders;
}
Step-IsSound opening (inform id response url gateway token db) h = record {
  books = h.books;
  packages = h.packages;
  orders = Step-IsOnce (inform id response url gateway token db) h.orders;
}

pub Reach-IsSound : (opening : ℕ → ℕ) {s t : Db} → Reach s t → IsSound opening s → IsSound opening t
Reach-IsSound opening here h = h
Reach-IsSound opening (next r st) h = Step-IsSound opening st (Reach-IsSound opening r h)
