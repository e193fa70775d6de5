-- ===== src/System/Sound.antt =====
-- Every sequence of requests keeps the service sound.
use subscription_be.Prelude.{ℕ, List, [], ◌∷◌}
use subscription_be.Db.{Db}
use subscription_be.Gateways.{Runtime}
use subscription_be.Gateways.Calls.{Deployment, serve-Reach}
use subscription_be.System.{
  Request, buy, switch, cancel, pay_coins, check_pending, order_coins, notify, run, run_all,
  IsSound,
}
use subscription_be.System.Orders.{place_order-Reach, assert_no_active-Reach, Reach-IsSound}
use subscription_be.System.Plans.{
  subscribe-IsSound, switch_plan-IsSound, cancel_subscription-IsSound, spend-IsSound,
}

run-IsSound :
    (opening : ℕ → ℕ) (js : Runtime) (env : Deployment) (request : Request) (db : Db)
    → IsSound opening db
    → IsSound opening (run js env request db)
run-IsSound opening js env (buy e user sku) db h = subscribe-IsSound opening e user sku db h
run-IsSound opening js env (switch e user id sku) db h =
    switch_plan-IsSound opening e user id sku db h
run-IsSound opening js env (cancel e show user id) db h =
    cancel_subscription-IsSound opening e show user id db h
run-IsSound opening js env (pay_coins user amount ref currency) db h =
    spend-IsSound opening user amount ref currency db h
run-IsSound opening js env (check_pending now user) db h =
    Reach-IsSound opening (assert_no_active-Reach now user db) h
run-IsSound opening js env (order_coins shop now order total) db h =
    Reach-IsSound opening
      (place_order-Reach shop.gateway_name shop.create_checkout shop.has_account now order total db)
      h
run-IsSound opening js env (notify call) db h = Reach-IsSound opening (serve-Reach js env call db) h

-- Purchases, plan switches, cancellations, payments in coins, checkouts and notifications of both
-- gateways, genuine or forged, in any order and number, one after the other, whether they return or throw, keep the service
-- sound: the balance and the expenses of every user add up to what the user was given and topped up,
-- no user has two live packages, and no order is credited twice, or credited while it is pending. It
-- must be so at the start.
pub run_all-IsSound :
    (opening : ℕ → ℕ) (js : Runtime) (env : Deployment) (requests : List Request) (db : Db)
    → IsSound opening db
    → IsSound opening (run_all js env requests db)
run_all-IsSound opening js env [] db h = h
run_all-IsSound opening js env (request ∷ requests) db h =
    run_all-IsSound opening js env requests (run js env request db)
      (run-IsSound opening js env request db h)
