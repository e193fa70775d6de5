-- ===== src/CoinOrder/Lockout.antt =====
-- A checkout that the gateway refuses.
use subscription_be.Prelude.{
  ℕ, ◌≡◌, refl, String, Bool, Option, none, false, true, arith, update_many, update_many-append,
  ◌++◌, [], ◌∷◌, count_where-append, count_where-update_many_le, find_first-none, count_where,
}
use subscription_be.Db.{Db}
use subscription_be.Db.Action.{err, gateway_error}
use subscription_be.Db.Schema.{failed}
use subscription_be.CoinOrder.{pending_of, pending_with, set_status, NewOrder, order_row, conflicts}
use subscription_be.CoinOrder.Checkout.{CheckoutResult, place_order}
use subscription_be.CoinOrder.Pending.{pending_count, no_pending}

failed_row :
    (d : NewOrder) (now : ℕ) (db : Db)
    → conflicts d db ≡ false
    → let key = db.coin_orders.next_id in
      count_where (pending_of d.user_id) (
        update_many
          (pending_with key)
          (set_status failed)
          (db.coin_orders.rows ++ order_row now d key ∷ []))
      ≡ 0
failed_row d now db free =
    let key = db.coin_orders.next_id in
    let rows = db.coin_orders.rows in
    rw (update_many-append (pending_with key) (set_status failed) rows (order_row now d key ∷ [])) (
      ground (
        arith,
        count_where-append (pending_of d.user_id)
            (update_many (pending_with key) (set_status failed) rows)
            (update_many (pending_with key) (set_status failed) (order_row now d key ∷ [])),
        count_where-update_many_le (pending_of d.user_id) (pending_with key) (set_status failed)
            rows (λ o e p. ground arith),
        find_first-none (pending_of d.user_id) rows (no_pending d db free),
      ))

module _ (gateway_name : String) (create_checkout : String → ℕ → Option CheckoutResult)
    (has_account : ℕ → Bool) where
  -- If the gateway fails on an order that was saved, the request fails with the gateway's error, no
  -- order of the user is pending, and wallets and ledger are as they were.
  pub place_order_gateway_failure :
      (now total : ℕ) (d : NewOrder) (db : Db)
      → has_account d.user_id ≡ true
      → conflicts d db ≡ false
      → create_checkout d.pg_order_id total ≡ none
      → let (r, db') = place_order gateway_name create_checkout has_account now d total db in
        (r ≡ err gateway_error 502)
        × (pending_count d.user_id db' ≡ 0)
        × (db'.wallets ≡ db.wallets)
        × (db'.transactions ≡ db.transactions)
  unfolding place_order
  place_order_gateway_failure now total d db known free refused =
      rw (known, free, refused) (refl, failed_row d now db free, refl, refl)
