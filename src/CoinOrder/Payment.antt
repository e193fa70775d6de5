-- ===== src/CoinOrder/Payment.antt =====
-- The payment callbacks of src/client/services/coin-order.service.ts: `handlePaymentSuccess`, which
-- credits the wallet, and `handlePaymentFailure`.
use subscription_be.Prelude.{
  ℕ, ◌+◌, ◌*◌, ◌/◌, String, Bool, false, not, ◌&&◌, Option, none, some, ◌==◌, ltb, if◌then◌else◌,
}
use subscription_be.Db.{Db}
use subscription_be.Db.Table
use subscription_be.Db.Action.{
  Action, ok, ◌>>=◌, ◌>>◌, throw_if, writes, transaction, amount_mismatch,
}
use subscription_be.Db.Schema.{
  Wallet, CoinTransaction, CoinTransactionType, CoinOrder, paid, failed,
}
use subscription_be.Wallet.{owned_by, increment}
use subscription_be.CoinOrder.{is_pending, set_status_if_pending, get_order_by_pg_order_id}

-- `Math.round` of an amount in hundredths
abbrev pub round_hundredths : ℕ → ℕ
round_hundredths x = (x + 50) / 100

-- Whether the notified amount contradicts the order. `none` stands for an amount that is undefined,
-- not a number or negative, which skips the check as 0 does.
unfoldable pub mismatched : Option ℕ → CoinOrder → Bool
mismatched none order = false
mismatched (some amount) order =
    ltb 0 amount && not (round_hundredths amount == round_hundredths order.price_paid)

abbrev pub wallet_row : CoinOrder → ℕ → Wallet
wallet_row order id = record {
  id = id;
  user_id = order.user_id;
  balance = 0;
  currency_id = order.currency_id;
  deleted = false;
}

abbrev wallet_or_new : CoinOrder → Option Wallet → Action Db ℕ
wallet_or_new order (some w) db = (ok w.id, db)
wallet_or_new order none db =
    (ok db.wallets.next_id, record db { wallets = Table.create (wallet_row order) db.wallets })

-- "Find or create wallet": the wallet's id
unfoldable pub find_or_create_wallet : CoinOrder → Action Db ℕ
find_or_create_wallet order db =
    wallet_or_new order (Table.find (owned_by order.user_id) db.wallets) db

-- The coins of an order in hundredths, the unit of the wallet
abbrev pub coins_of : CoinOrder → ℕ
coins_of order = 100 * order.coin_amount

abbrev pub topup_row : CoinOrder → Option String → ℕ → ℕ → CoinTransaction
topup_row order channel wallet id = record {
  id = id;
  wallet_id = wallet;
  user_id = order.user_id;
  type = CoinTransactionType.topup;
  amount = coins_of order;
  currency_id = order.currency_id;
  ref_id = some order.id;
  payment_method_id = order.payment_method_id;
  payment_channel = channel;
}

-- "Credit coins" and "Record transaction log"
unfoldable pub add_coins : CoinOrder → Option String → ℕ → Db → Db
add_coins order channel wallet db = record db {
  wallets = Table.update (owned_by order.user_id) (increment (coins_of order)) db.wallets;
  transactions = Table.create (topup_row order channel wallet) db.transactions;
}

unfoldable pub credit_wallet : CoinOrder → Option String → Action Db (Unit {0})
unfolding find_or_create_wallet add_coins
credit_wallet order channel = do
  wallet ← find_or_create_wallet order
  writes (add_coins order channel wallet)

abbrev credit_if_flipped : CoinOrder → Option String → ℕ → Action Db (Unit {0})
credit_if_flipped order channel flipped db =
    if flipped == 0 then (ok tt, db) else credit_wallet order channel db

-- The body of the transaction of `handlePaymentSuccess`. `order` was read before it began.
unfoldable pub credit_order : CoinOrder → Option String → Action Db (Unit {0})
unfolding set_status_if_pending credit_wallet
credit_order order channel = do
  flipped ← set_status_if_pending order.id paid
  credit_if_flipped order channel flipped

-- `handlePaymentSuccess`
unfoldable pub handle_payment_success : String → Option ℕ → Option String → Action Db (Unit {0})
unfolding get_order_by_pg_order_id mismatched credit_order
handle_payment_success pg_order_id amount channel = do
  order ← get_order_by_pg_order_id pg_order_id
  throw_if (mismatched amount order) amount_mismatch 400
  transaction (credit_order order channel)

abbrev fail_if_pending : CoinOrder → Action Db (Unit {0})
fail_if_pending order db =
    if not (is_pending order.status)
    then (ok tt, db)
    else (ok tt, (set_status_if_pending order.id failed db).1)

-- `handlePaymentFailure`
unfoldable pub handle_payment_failure : String → Action Db (Unit {0})
unfolding get_order_by_pg_order_id set_status_if_pending
handle_payment_failure pg_order_id = do
  order ← get_order_by_pg_order_id pg_order_id
  fail_if_pending order
