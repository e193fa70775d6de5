-- ===== src/CoinOrder.antt =====
-- src/client/services/coin-order.service.ts with src/client/repositories/coin-order.repository.ts: coin
-- orders, from checkout to the credit of the wallet.
pub mod Payment
pub mod Credit
pub mod Effect
pub mod Once
pub mod Pending
pub mod Pricing
pub mod Checkout
pub mod Prices
pub mod Lockout
use subscription_be.Prelude.{
  ℕ, ◌+◌, ◌-◌, ◌*◌, ◌/◌, String, Bool, true, false, not, ◌&&◌, ◌||◌, Option, none, some, ◌==◌, ltb,
  str_eq, if◌then◌else◌, is_some,
}
use subscription_be.Db.{Db}
use subscription_be.Db.Table
use subscription_be.Db.Action.{
  Action, ok, err, ◌>>=◌, ◌>>◌, return, throw, throw_if, reads, or_throw, writes, transaction,
  order_not_found, forbidden, amount_mismatch, pending_order_exists,
}
use subscription_be.Db.Schema.{
  Wallet, CoinTransaction, CoinTransactionType, CoinOrder, CoinOrderStatus, pending, paid, failed,
  expired,
}
use subscription_be.Wallet.{owned_by, increment}

-- `PENDING_ORDER_TTL_MS`: one hour
abbrev pub pending_order_ttl_ms : ℕ
pending_order_ttl_ms = 3600000

abbrev pub is_pending : CoinOrderStatus → Bool
is_pending pending = true
is_pending _ = false

abbrev pub pending_of : ℕ → CoinOrder → Bool
pending_of user o = o.user_id == user && is_pending o.status && not o.deleted

-- `findPendingByUserId`, which is also `getPendingOrder`
unfoldable pub find_pending_by_user_id : ℕ → Action Db (Option CoinOrder)
find_pending_by_user_id user = reads (λ db. Table.find (pending_of user) db.coin_orders)

abbrev pub set_status : CoinOrderStatus → CoinOrder → CoinOrder
set_status status o = record o { status = status }

-- `updateStatus`: whatever the status was
unfoldable pub update_status : ℕ → CoinOrderStatus → Action Db (Unit {0})
update_status id status = writes (λ db. record db {
  coin_orders = Table.update (λ o. o.id == id) (set_status status) db.coin_orders;
})

abbrev pub pending_with : ℕ → CoinOrder → Bool
pending_with id o = o.id == id && is_pending o.status

-- `updateMany({ where: { id, status: 'PENDING' }, data: { status } })` with its `count`: the atomic
-- check-and-set of `markFailedIfPending`, `handlePaymentSuccess` and `handlePaymentFailure`
unfoldable pub set_status_if_pending : ℕ → CoinOrderStatus → Action Db ℕ
set_status_if_pending id status db = (
  ok (Table.count (pending_with id) db.coin_orders),
  record db { coin_orders = Table.update (pending_with id) (set_status status) db.coin_orders },
)

abbrev settle_pending : ℕ → Option CoinOrder → Action Db (Unit {0})
settle_pending now none = return tt
settle_pending now (some o) =
    if ltb pending_order_ttl_ms (now - o.created_at)
    then update_status o.id expired
    else throw pending_order_exists 422

-- `assertNoActivePendingOrder`; `now` is the clock
unfoldable pub assert_no_active_pending_order : ℕ → ℕ → Action Db (Unit {0})
unfolding find_pending_by_user_id update_status
assert_no_active_pending_order now user = do
  found ← find_pending_by_user_id user
  settle_pending now found

-- The arguments of `saveCustomOrder` (no bundle) and of `saveOrder`. The four prices are in
-- hundredths of a rupiah.
pub record NewOrder : Type 0 where
  pub user_id : ℕ
  pub bundle_id : Option ℕ
  pub coin_amount : ℕ
  pub currency_id : ℕ
  pub coin_price : ℕ
  pub tax_amount : ℕ
  pub gateway_fee : ℕ
  pub price_paid : ℕ
  pub payment_method_id : ℕ
  pub pg_order_id : String

abbrev pub order_row : ℕ → NewOrder → ℕ → CoinOrder
order_row now d id = record {
  id = id;
  user_id = d.user_id;
  bundle_id = d.bundle_id;
  is_custom_qty = not (is_some d.bundle_id);
  coin_amount = d.coin_amount;
  payment_method_id = some d.payment_method_id;
  currency_id = d.currency_id;
  coin_price = d.coin_price;
  tax_amount = d.tax_amount;
  gateway_fee = d.gateway_fee;
  price_paid = d.price_paid;
  status = pending;
  payment_gateway = none;
  snap_token = none;
  redirect_url = none;
  pg_order_id = d.pg_order_id;
  pg_response_id = none;
  created_at = now;
  deleted = false;
}

-- The unique indexes that `create` runs into: `coin_orders_one_pending_per_user`
-- (prisma/migrations/20260618000000_coin_order_pending_guard) and the one on `pg_order_id`.
abbrev pub conflicts : NewOrder → Db → Bool
conflicts d db =
    is_some (Table.find (pending_of d.user_id) db.coin_orders)
    || is_some (Table.find (λ o. str_eq o.pg_order_id d.pg_order_id) db.coin_orders)

-- `saveOrder` and `saveCustomOrder`: any unique violation is reported as a pending order. The
-- result is the new order's id.
unfoldable pub save_order : ℕ → NewOrder → Action Db ℕ
save_order now d db = if conflicts d db then (err pending_order_exists 422, db) else (
  ok db.coin_orders.next_id,
  record db { coin_orders = Table.create (order_row now d) db.coin_orders },
)

-- `failOrder`
unfoldable pub fail_order : ℕ → Action Db (Unit {0})
unfolding set_status_if_pending
fail_order id = do count ← set_status_if_pending id failed; return tt

-- `snapToken ? { snap_token } : {}`
abbrev keep_token : Option String → Option String → Option String
keep_token none old = old
keep_token (some token) old = some token

abbrev pub with_payment_info : String → String → String → Option String → CoinOrder → CoinOrder
with_payment_info response url gateway token o = record o {
  pg_response_id = some response;
  redirect_url = some url;
  payment_gateway = some gateway;
  snap_token = keep_token token o.snap_token;
}

-- `updateOrderPaymentInfo`
unfoldable pub update_order_payment_info :
    ℕ → String → String → String → Option String → Action Db (Unit {0})
update_order_payment_info id response url gateway token = writes (λ db. record db {
  coin_orders =
      Table.update (λ o. o.id == id) (with_payment_info response url gateway token) db.coin_orders;
})

-- `getOrderById`
unfoldable pub get_order_by_id : ℕ → ℕ → Action Db CoinOrder
get_order_by_id id user = do
  found ← reads (λ db. Table.find (λ o. o.id == id && not o.deleted) db.coin_orders)
  order ← or_throw found order_not_found 404
  throw_if (not (order.user_id == user)) forbidden 403
  return order

-- `where: { pg_order_id, deleted_at: null }`
abbrev pub by_pg_order_id : String → CoinOrder → Bool
by_pg_order_id pg_order_id o = str_eq o.pg_order_id pg_order_id && not o.deleted

-- `getOrderByPgOrderId`
unfoldable pub get_order_by_pg_order_id : String → Action Db CoinOrder
get_order_by_pg_order_id pg_order_id = do
  found ← reads (λ db. Table.find (by_pg_order_id pg_order_id) db.coin_orders)
  or_throw found order_not_found 404
