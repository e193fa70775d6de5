-- ===== src/Subscription/Success.antt =====
-- A `subscribe` that has what it needs.
use subscription_be.Prelude.{
  ℕ, ◌≤◌, ◌≡◌, refl, ap, true, false, not, ◌&&◌, some, none, List, [], ◌∷◌, arith, ◌==◌,
  count_where, find_first, count_where-found, find_first-sat,
}
use subscription_be.Db.{Db}
use subscription_be.Db.Table
use subscription_be.Db.Action.{Result, ok, err, transaction, transaction-eq_of_ok, continue, Action}
use subscription_be.Db.Schema.{Sku, Wallet}
use subscription_be.Wallet.{owned_by, covers}
use subscription_be.Outbox.{Env}
use subscription_be.Subscription.Rows.{
  find_sku, is_package, live_package, keys_taken, is_fractional,
}
use subscription_be.Subscription.Failure.{announce_ok}
use subscription_be.Subscription.Purchase.{subscribe, buy, purchase, announce}

-- The first wallet of the user, if it is not deleted, is the first one that is not deleted.
live_wallet :
    (user : ℕ) (rows : List Wallet) (w : Wallet)
    → find_first (owned_by user) rows ≡ some w
    → w.deleted ≡ false
    → find_first (λ x. owned_by user x && not x.deleted) rows ≡ some w
live_wallet user [] w h live = ground arith
live_wallet user (x ∷ rows) w h live = ground (arith, live_wallet user rows w, h, live)

purchase_ok :
    (env : Env) (user : ℕ) (sku : Sku) (currency : ℕ) (db : Db) (w : Wallet)
    → Table.find (owned_by user) db.wallets ≡ some w
    → sku.coin_cost ≤ w.balance
    → is_fractional sku.coin_cost ≡ false
    → keys_taken env.purchase_token env.order_number db ≡ false
    → (purchase env user sku currency db).0 ≡ ok db.subscriptions.next_id
unfolding purchase
purchase_ok env user sku currency db w held rich whole free =
    let own = find_first-sat (owned_by user) db.wallets.rows w held in
    let hit =
      count_where-found (owned_by user) (covers user sku.coin_cost) db.wallets.rows w held
        (ground (arith, own, rich)) in
    let paid : (count_where (covers user sku.coin_cost) db.wallets.rows == 0) ≡ false =
      ground (arith, hit) in
    rw (held, free, whole, paid) refl

continue_ok :
    (r : Result ℕ × Db) (k : ℕ → Action Db ℕ) (id : ℕ)
    → r.0 ≡ ok id
    → ((db : Db) → (k id db).0 ≡ ok id)
    → (continue r k).0 ≡ ok id
continue_ok (ok a, s) k id h next = cc (next s)
continue_ok (err c status, s) k id h next = cc

buy_ok :
    (env : Env) (user : ℕ) (sku : Sku) (db : Db) (w : Wallet)
    → Table.find (owned_by user) db.wallets ≡ some w
    → w.deleted ≡ false
    → sku.coin_cost ≤ w.balance
    → is_fractional sku.coin_cost ≡ false
    → keys_taken env.purchase_token env.order_number db ≡ false
    → (buy env user sku db).0 ≡ ok db.subscriptions.next_id
unfolding buy
buy_ok env user sku db w held live rich whole free =
    let id = db.subscriptions.next_id in
    let body = purchase env user sku w.currency_id in
    let paid = purchase_ok env user sku w.currency_id db w held rich whole free in
    let committed : (transaction body db).0 ≡ ok id =
      cc (ap (λ (r : Result ℕ × Db). r.0) (transaction-eq_of_ok body db id paid), paid) in
    rw (live_wallet user db.wallets.rows w held live) (
      continue_ok (transaction body db) (announce env user sku) id committed
        λ db'. announce_ok env user sku id db')

-- A user without a live package who holds the price of an active package, a whole number of coins, can
-- buy it: `subscribe` returns the key of the new subscription. The random token and the order's number must be new.
pub subscribe_succeeds :
    (env : Env) (user sku_id : ℕ) (db : Db) (sku : Sku) (w : Wallet)
    → find_sku sku_id db ≡ some sku
    → sku.is_active ≡ true
    → is_package sku.sku_type ≡ true
    → Table.find (live_package user) db.subscriptions ≡ none
    → Table.find (owned_by user) db.wallets ≡ some w
    → w.deleted ≡ false
    → sku.coin_cost ≤ w.balance
    → is_fractional sku.coin_cost ≡ false
    → keys_taken env.purchase_token env.order_number db ≡ false
    → (subscribe env user sku_id db).0 ≡ ok db.subscriptions.next_id
unfolding subscribe
subscribe_succeeds env user sku_id db sku w found on pkg no_live held live rich whole free =
    rw found (simp (on, pkg, no_live) (buy_ok env user sku db w held live rich whole free))
