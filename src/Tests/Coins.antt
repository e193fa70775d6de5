-- ===== src/Tests/Coins.antt =====
-- Coin orders at concrete inputs.
use subscription_be.Prelude.{
  ℕ, ◌≡◌, refl, true, false, none, some, [], ◌∷◌, arith, String, Option, Bool, ◌↔◌, ◌⊎◌,
}
use subscription_be.Db.{Db}
use subscription_be.Db.Action.{ok, err, gateway_error}
use subscription_be.Db.Catalog.{TaxConfig, PaymentMethod, fixed, percentage}
use subscription_be.Db.Schema.{CoinOrder}
use subscription_be.Wallet.Ledger.{balance_of}
use subscription_be.CoinOrder.{NewOrder, order_row}
use subscription_be.CoinOrder.Payment.{handle_payment_success, credit_order, mismatched}
use subscription_be.CoinOrder.Credit.{BooksBalance}
use subscription_be.CoinOrder.Effect.{handle_payment_success_credits}
use subscription_be.CoinOrder.Once.{pay, here, next, IsOnce, Reach-IsOnce}
use subscription_be.CoinOrder.Pending.{OnePending, Reach-OnePending, pending_count}
use subscription_be.CoinOrder.Pricing.{bundle_tax, custom_tax}
use subscription_be.CoinOrder.Checkout.{CheckoutResult, place_order}
use subscription_be.CoinOrder.Prices.{tax_agree_iff}
use subscription_be.CoinOrder.Lockout.{place_order_gateway_failure}
use subscription_be.Tests.{no_opening, test_db}

abbrev test_new : NewOrder
test_new = record {
  user_id = 7;
  bundle_id = some 1;
  coin_amount = 50;
  currency_id = 1;
  coin_price = 5000000;
  tax_amount = 550000;
  gateway_fee = 100000;
  price_paid = 5650000;
  payment_method_id = 1;
  pg_order_id = "COIN-1";
}

abbrev other_new : NewOrder
other_new = record test_new { pg_order_id = "COIN-2" }

abbrev pub test_order : CoinOrder
test_order = order_row 864000000 test_new 1

-- One order is waiting for its payment.
abbrev pub ordered_db : Db
ordered_db = record test_db { coin_orders = record { rows = test_order ∷ []; next_id = 2 } }

pub ordered_db-BooksBalance : BooksBalance no_opening ordered_db
ordered_db-BooksBalance = record { one_wallet = λ u. ground arith; balanced = λ u. ground arith }

ordered_db-OnePending : OnePending ordered_db
ordered_db-OnePending = λ u. ground arith

pub ordered_db-IsOnce : IsOnce ordered_db
ordered_db-IsOnce = record { once = λ id. ground arith; fresh = λ id le. ground arith }

not_mismatched : mismatched (some 5650000) test_order ≡ false
unfolding mismatched
not_mismatched = refl

abbrev paid_db : Db
paid_db = (credit_order test_order none ordered_db).1

abbrev replayed : Db → Db
replayed db = (credit_order test_order (some "qris") db).1

handle_payment_success_credits_example :
    let (r, db') = handle_payment_success "COIN-1" (some 5650000) none ordered_db in
    (r ≡ ok tt) × (balance_of 7 db'.wallets.rows ≡ 15000)
handle_payment_success_credits_example =
    handle_payment_success_credits no_opening "COIN-1" (some 5650000) none test_order ordered_db 7
      ordered_db-BooksBalance refl not_mismatched (ground arith)

Reach-IsOnce_example : IsOnce (replayed paid_db)
Reach-IsOnce_example =
    Reach-IsOnce ordered_db-IsOnce
      (next (next here (pay test_order none ordered_db)) (pay test_order (some "qris") paid_db))

Reach-OnePending_example : OnePending (replayed paid_db)
Reach-OnePending_example =
    Reach-OnePending ordered_db-OnePending
      (next (next here (pay test_order none ordered_db)) (pay test_order (some "qris") paid_db))

abbrev test_method : PaymentMethod
test_method = record {
  id = 1;
  fee_type = percentage;
  fee_value = 70;
  is_active = true;
  deleted = false;
}

abbrev test_tax : TaxConfig
test_tax = record {
  id = 1;
  tax_name = "PPN";
  tax_value = 1100;
  tax_type = fixed;
  is_active = true;
  deleted = false;
}

tax_agree_iff_example :
    (bundle_tax (some test_tax) 5000000 ≡ custom_tax (some test_tax) 5000000)
    ↔ ((fixed ≡ percentage) ⊎ (test_tax.tax_value ≡ 0) ⊎ (test_order.coin_price ≡ 10000))
tax_agree_iff_example = tax_agree_iff test_tax 5000000

abbrev no_checkout : String → ℕ → Option CheckoutResult
no_checkout pg total = none

abbrev known_account : ℕ → Bool
known_account user = true

place_order_gateway_failure_example :
    let (r, db') =
      place_order "midtrans" no_checkout known_account 864000000 test_new 56500 test_db in
    (r ≡ err gateway_error 502)
    × (pending_count 7 db' ≡ 0)
    × (db'.wallets ≡ test_db.wallets)
    × (db'.transactions ≡ test_db.transactions)
place_order_gateway_failure_example =
    place_order_gateway_failure "midtrans" no_checkout known_account 864000000 56500 test_new
      test_db refl refl refl
