-- ===== src/Tests/Requests.antt =====
-- A sequence of requests at concrete inputs.
use subscription_be.Prelude.{some, List, [], ◌∷◌, arith}
use subscription_be.System.{
  Request, buy, switch, cancel, pay_coins, check_pending, notify, run_all, IsSound,
}
use subscription_be.System.Sound.{run_all-IsSound}
use subscription_be.Tests.{no_opening, test_env}
use subscription_be.Tests.Coins.{ordered_db, ordered_db-BooksBalance, ordered_db-IsOnce}
use subscription_be.Tests.Callbacks.{test_runtime, test_deployment, settlement, declined_request}
use subscription_be.Gateways.Calls.{midtrans_called, megabank_called}

abbrev test_requests : List Request
test_requests =
    check_pending 864000000 7
    ∷ notify (midtrans_called (some settlement))
    ∷ notify (megabank_called 60000 declined_request)
    ∷ notify (midtrans_called (some settlement))
    ∷ buy test_env 7 1
    ∷ switch test_env 7 1 2
    ∷ pay_coins 7 100 9 1
    ∷ cancel test_env (λ id. "1") 7 2
    ∷ []

ordered_db-IsSound : IsSound no_opening ordered_db
ordered_db-IsSound = record {
  books = ordered_db-BooksBalance;
  packages = λ u. ground arith;
  orders = ordered_db-IsOnce;
}

run_all-IsSound_example :
    IsSound no_opening (run_all test_runtime test_deployment test_requests ordered_db)
run_all-IsSound_example =
    run_all-IsSound no_opening test_runtime test_deployment test_requests ordered_db
      ordered_db-IsSound
