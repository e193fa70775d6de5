-- ===== src/Tests/Shop.antt =====
-- Subscriptions at concrete inputs.
use subscription_be.Prelude.{
  ℕ, ◌+◌, ◌≡◌, refl, none, some, arith, String, [], ◌∷◌, false, count_where,
}
use subscription_be.Db.Action.{ok, err, invalid_column_value, sku_not_found, subscription_not_found}
use subscription_be.Wallet.Ledger.{balance_of}
use subscription_be.CoinOrder.Credit.{BooksBalance}
use subscription_be.Subscription.Purchase.{subscribe, buy, purchase, announce}
use subscription_be.Subscription.Switch.{
  switch_plan, execute_plan_switch, announce_switch, switch_type_of,
}
use subscription_be.Subscription.Cancel.{cancel_subscription}
use subscription_be.Subscription.Books.{subscribe_charges, switch_plan_charges}
use subscription_be.Subscription.Failure.{subscribe_atomic}
use subscription_be.Subscription.OnePackage.{OnePackage}
use subscription_be.Subscription.Live.{
  package_of, opened, subscribe_opens, switch_plan_opens, cancel_subscription_ends,
}
use subscription_be.Subscription.Quotas.{allowances, promised, subscribe_mirrors}
use subscription_be.Subscription.Rows.{keys_taken, live_package}
use subscription_be.Outbox.{Env, idempotency_key}
use subscription_be.Subscription.Success.{subscribe_succeeds}
use subscription_be.Tests.{
  no_opening, test_wallet, clinic_benefit, test_env, test_db, subscribed_db, basic_plan, pro_plan,
  basic_subscription,
}

test_db-BooksBalance : BooksBalance no_opening test_db
test_db-BooksBalance = record { one_wallet = λ u. ground arith; balanced = λ u. ground arith }

subscribed_db-BooksBalance : BooksBalance no_opening subscribed_db
subscribed_db-BooksBalance = record { one_wallet = λ u. ground arith; balanced = λ u. ground arith }

test_db-OnePackage : OnePackage test_db
test_db-OnePackage = λ u. ground arith

subscribed_db-OnePackage : OnePackage subscribed_db
subscribed_db-OnePackage = λ u. ground arith

bought : (subscribe test_env 7 1 test_db).0 ≡ ok 1
unfolding subscribe buy purchase announce
bought = refl

no_plan : (subscribe test_env 7 9 test_db).0 ≡ err sku_not_found 404
unfolding subscribe
no_plan = refl

moved : (switch_plan test_env 7 1 2 subscribed_db).0 ≡ ok 2
unfolding switch_plan execute_plan_switch announce_switch switch_type_of
moved = refl

no_switch : (switch_plan test_env 7 9 2 subscribed_db).0 ≡ err subscription_not_found 404
unfolding switch_plan
no_switch = refl

abbrev show_key : ℕ → String
show_key n = "key"

subscribe_charges_example :
    balance_of 7 (subscribe test_env 7 1 test_db).1.wallets.rows + 3000 ≡ 10000
subscribe_charges_example =
    subscribe_charges no_opening test_env 7 1 test_db basic_plan 1 7 test_db-BooksBalance refl
      bought

subscribe_atomic_example : (subscribe test_env 7 9 test_db).1 ≡ test_db
subscribe_atomic_example = subscribe_atomic test_env 7 9 test_db sku_not_found 404 no_plan

subscribe_opens_example :
    package_of 7 (subscribe test_env 7 1 test_db).1 ≡ some (opened test_env 7 basic_plan 1)
subscribe_opens_example = subscribe_opens test_env 7 1 test_db basic_plan 1 refl refl bought

switch_plan_opens_example :
    package_of 7 (switch_plan test_env 7 1 2 subscribed_db).1 ≡ some (opened test_env 7 pro_plan 2)
switch_plan_opens_example =
    switch_plan_opens test_env 7 1 2 subscribed_db pro_plan 2 subscribed_db-OnePackage refl moved

cancel_subscription_ends_example :
    package_of 7 (cancel_subscription test_env show_key 7 1 subscribed_db).1 ≡ none
cancel_subscription_ends_example =
    cancel_subscription_ends test_env show_key 7 1 subscribed_db basic_subscription
      subscribed_db-OnePackage refl refl

switch_plan_charges_example :
    balance_of 7 (switch_plan test_env 7 1 2 subscribed_db).1.wallets.rows + 5000 ≡ 10000
switch_plan_charges_example =
    switch_plan_charges no_opening test_env 7 1 2 subscribed_db pro_plan 2 7
      subscribed_db-BooksBalance refl moved

subscribe_mirrors_example :
    allowances 1 (subscribe test_env 7 1 test_db).1.quotas ≡ promised clinic_benefit ∷ []
subscribe_mirrors_example =
    subscribe_mirrors test_env 7 1 test_db basic_plan 1 refl refl refl bought

free_keys : keys_taken test_env.purchase_token test_env.order_number test_db ≡ false
free_keys = refl

subscribe_succeeds_example : (subscribe test_env 7 1 test_db).0 ≡ ok 1
subscribe_succeeds_example =
    subscribe_succeeds test_env 7 1 test_db basic_plan test_wallet refl refl refl refl refl refl
      (ground arith) refl free_keys

abbrev second_env : Env
second_env = record test_env { purchase_token = "token-2"; order_number = "SUB-2" }

-- Two calls that both looked for a package before either of them wrote: the user has two.
two_at_once :
    let after = (buy second_env 7 pro_plan (buy test_env 7 basic_plan test_db).1).1 in
    count_where (live_package 7) after.subscriptions.rows ≡ 2
unfolding buy purchase announce idempotency_key
two_at_once = refl

-- A price of 30.50 coins
fractional_refused :
    (subscribe test_env 7 1
      (record test_db { skus = record basic_plan { coin_cost = 3050 } ∷ [] })).0
    ≡ err invalid_column_value 500
unfolding subscribe buy purchase
fractional_refused = refl
