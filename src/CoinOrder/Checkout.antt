-- ===== src/CoinOrder/Checkout.antt =====
-- src/client/controllers/coin-order.controller.ts: a checkout from the request to the gateway's answer.
-- The gateway (Midtrans or Bank Mega, over the network) and the account lookup are parameters.
use subscription_be.Prelude.{ℕ, ◌+◌, ◌*◌, ◌/◌, String, Bool, not, Option, none, some, ◌==◌}
use subscription_be.Db.{Db}
use subscription_be.Db.Action.{
  Action, ◌>>=◌, ◌>>◌, return, throw, throw_if, invalid_nominal, not_found, gateway_error,
}
use subscription_be.Db.Catalog.{TaxConfig, Catalog}
use subscription_be.CoinOrder.{NewOrder, save_order, fail_order, update_order_payment_info}
use subscription_be.CoinOrder.Pricing.{Quote, prepare_bundle_order, prepare_custom_order}

-- `CheckoutResult`
pub record CheckoutResult : Type 0 where
  pub pg_response_id : String
  pub checkout_url : String
  pub snap_token : Option String

-- What the order row takes from a quote: micros are rounded to hundredths by the column.
abbrev pub order_of : ℕ → Option ℕ → ℕ → ℕ → ℕ → String → Quote → NewOrder
order_of user bundle_id coins currency method pg_order_id q = record {
  user_id = user;
  bundle_id = bundle_id;
  coin_amount = coins;
  currency_id = currency;
  coin_price = q.base_price;
  tax_amount = (q.tax_amount + 5000) / 10000;
  gateway_fee = q.gateway_fee * 100;
  price_paid = q.total_price * 100;
  payment_method_id = method;
  pg_order_id = pg_order_id;
}

module _ (gateway_name : String) (create_checkout : String → ℕ → Option CheckoutResult)
    (has_account : ℕ → Bool) where
  -- "the order was already persisted as PENDING; if the checkout fails mark it FAILED"
  abbrev finish_checkout : ℕ → Option CheckoutResult → Action Db ℕ
  finish_checkout order none = do fail_order order; throw gateway_error 502
  finish_checkout order (some c) = do
    update_order_payment_info order c.pg_response_id c.checkout_url gateway_name c.snap_token
    return order

  -- From the account lookup on, the two handlers are the same.
  unfoldable pub place_order : ℕ → NewOrder → ℕ → Action Db ℕ
  unfolding save_order fail_order update_order_payment_info
  place_order now d total = do
    throw_if (not (has_account d.user_id)) not_found 404
    order ← save_order now d
    finish_checkout order (create_checkout d.pg_order_id total)

  -- `createBundleOrder`; the result is the order's id
  unfoldable pub create_bundle_order :
      Catalog → Option TaxConfig → ℕ → String → ℕ → ℕ → ℕ → ℕ → Action Db ℕ
  unfolding prepare_bundle_order place_order
  create_bundle_order catalog tax now pg_order_id user bundle_id method_id nominal = do
    p ← prepare_bundle_order catalog now user bundle_id method_id tax
    throw_if (not (nominal == p.quote.total_price)) invalid_nominal 400
    place_order now
        (order_of user (some bundle_id) p.bundle.coin_amount p.bundle.currency_id p.method.id
          pg_order_id p.quote)
        p.quote.total_price

  -- `createCoinOrder`
  unfoldable pub create_coin_order :
      Catalog → Option TaxConfig → ℕ → String → ℕ → ℕ → ℕ → ℕ → Action Db ℕ
  unfolding prepare_custom_order place_order
  create_coin_order catalog tax now pg_order_id user coins method_id nominal = do
    p ← prepare_custom_order catalog now user coins tax method_id
    throw_if (not (nominal == p.quote.total_price)) invalid_nominal 400
    place_order now (order_of user none coins p.currency.id p.method.id pg_order_id p.quote)
        p.quote.total_price
