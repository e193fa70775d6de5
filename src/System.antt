-- ===== src/System.antt =====
-- The modelled requests of the service together, in any order: src/client/services, the callbacks of
-- src/midtrans and src/megabank, and the checkout of src/client/controllers/coin-order.controller.ts.
pub mod Orders
pub mod Plans
pub mod Sound
use subscription_be.Prelude.{ℕ, String, Bool, Option, List, [], ◌∷◌}
use subscription_be.Db.{Db}
use subscription_be.Outbox.{Env}
use subscription_be.Wallet.{spend}
use subscription_be.CoinOrder.{NewOrder, assert_no_active_pending_order}
use subscription_be.CoinOrder.Checkout.{CheckoutResult, place_order}
use subscription_be.CoinOrder.Once.{IsOnce}
use subscription_be.CoinOrder.Credit.{BooksBalance}
use subscription_be.Subscription.Purchase.{subscribe}
use subscription_be.Subscription.Switch.{switch_plan}
use subscription_be.Subscription.Cancel.{cancel_subscription}
use subscription_be.Subscription.OnePackage.{OnePackage}
use subscription_be.Gateways.{Runtime}
use subscription_be.Gateways.Calls.{Deployment, Call, serve}

-- The gateway and the account lookup of one checkout
pub record Shop : Type 0 where
  pub gateway_name : String
  pub create_checkout : String → ℕ → Option CheckoutResult
  pub has_account : ℕ → Bool

-- One request. A checkout is two: the check for a pending order, and the order itself, between which
-- others can come.
pub data Request : Type 0 where
  buy : Env → ℕ → ℕ → Request
  switch : Env → ℕ → ℕ → ℕ → Request
  cancel : Env → (ℕ → String) → ℕ → ℕ → Request
  pay_coins : ℕ → ℕ → ℕ → ℕ → Request
  check_pending : ℕ → ℕ → Request
  order_coins : Shop → ℕ → NewOrder → ℕ → Request
  notify : Call → Request

-- What a request leaves in the database, whether it returns or throws.
abbrev pub run : Runtime → Deployment → Request → Db → Db
run js env (buy e user sku) db = (subscribe e user sku db).1
run js env (switch e user id sku) db = (switch_plan e user id sku db).1
run js env (cancel e show user id) db = (cancel_subscription e show user id db).1
run js env (pay_coins user amount ref currency) db = (spend user amount ref currency db).1
run js env (check_pending now user) db = (assert_no_active_pending_order now user db).1
run js env (order_coins shop now order total) db =
    (place_order shop.gateway_name shop.create_checkout shop.has_account now order total db).1
run js env (notify call) db = serve js env call db

abbrev pub run_all : Runtime → Deployment → List Request → Db → Db
run_all js env [] db = db
run_all js env (request ∷ requests) db = run_all js env requests (run js env request db)

-- What the service keeps: the wallets equal their ledger, no user has two live packages, and an order
-- is pending or credited at most once.
pub record IsSound (opening : ℕ → ℕ) (db : Db) : Type 0 where
  pub books : BooksBalance opening db
  pub packages : OnePackage db
  pub orders : IsOnce db
