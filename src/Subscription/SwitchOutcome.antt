-- ===== src/Subscription/SwitchOutcome.antt =====
-- How a call of `switchPlan` can end, and what its transaction commits.
use subscription_be.Prelude.{
  ℕ, ◌<◌, ◌≡◌, refl, ap, Bool, true, false, not, some, arith, ◌==◌, count_where, ◌||◌, ◌&&◌,
}
use subscription_be.Db.{Db}
use subscription_be.Db.Table
use subscription_be.Db.Cases.{transaction-cases, throw_if-cases, or_throw-cases}
use subscription_be.Db.Action.{
  Code, Result, ok, err, sku_not_found, subscription_not_found, forbidden, subscription_not_active,
  invalid_switch_type, invalid_new_sku, already_on_plan, wallet_not_found, insufficient_balance,
  unique_violation, invalid_column_value,
}
use subscription_be.Db.Schema.{Sku, Subscription, Wallet, PlanSwitchType}
use subscription_be.Wallet.{owned_by, covers, debit, record_spend}
use subscription_be.Outbox.{Env}
use subscription_be.Subscription.Rows.{
  find_sku, is_package, is_active_status, by_id, mirror_benefits, keys_taken, is_fractional,
}
use subscription_be.Subscription.Cancel.{mark_cancelled}
use subscription_be.Subscription.Switch.{
  switch_type_of, sku_of, rank_of, open_switched, execute_plan_switch, announce_switch, switch_plan,
  short_of_coins,
}

-- What a caller asked for, once every check has passed: the subscription and the two plans.
pub record Switchable (user id new_sku_id : ℕ) (db : Db) (old : Subscription) (sku : Sku)
    : Type 0 where
  pub found : Table.find (by_id id) db.subscriptions ≡ some old
  pub own : (old.user_id == user) ≡ true
  pub on : is_active_status old.status ≡ true
  pub package_old : is_package old.sku_type ≡ true
  pub found_sku : find_sku new_sku_id db ≡ some sku
  pub offered : (not sku.is_active || not (is_package sku.sku_type)) ≡ false
  pub moves : (old.sku_id == new_sku_id) ≡ false

-- What the transaction writes, with `w` the wallet that it found.
abbrev pub switched : Env → ℕ → Subscription → Sku → PlanSwitchType → ℕ → Wallet → Db → Db
switched env user old sku type currency w db =
    let id = db.subscriptions.next_id in
    let paid = mark_cancelled env.now old.id (debit user sku.coin_cost db).1 in
    let opened = open_switched env user old sku type paid in
    let mirrored = record opened { quotas = mirror_benefits user id sku.benefits opened.quotas } in
    record_spend w.id user sku.coin_cost currency id mirrored

pub record SwitchCommitted (env : Env) (user : ℕ) (old : Subscription) (sku : Sku)
    (type : PlanSwitchType) (currency : ℕ) (db : Db) (id : ℕ) (db' : Db) : Type 0 where
  pub wallet : Wallet
  pub covered : 0 < count_where (covers user sku.coin_cost) db.wallets.rows
  pub key : db.subscriptions.next_id ≡ id
  pub state : switched env user old sku type currency wallet db ≡ db'

abbrev id_of : Result ℕ → ℕ
id_of (ok n) = n
id_of (err c status) = 0

threw :
    {P : Type 0}
    → {c : Code} → {status id : ℕ} → {db db' : Db}
    → ◌≡◌ {A = Result ℕ × Db} (err c status, db) (ok id, db')
    → P
threw h = cc

pub execute-SwitchCommitted :
    (env : Env) (user : ℕ) (old : Subscription) (sku : Sku) (type : PlanSwitchType) (currency : ℕ)
    (db : Db) (id : ℕ) (db' : Db)
    → execute_plan_switch env user old sku type currency db ≡ (ok id, db')
    → SwitchCommitted env user old sku type currency db id db'
unfolding execute_plan_switch mark_cancelled
execute-SwitchCommitted env user old sku type currency db id db' =
    let P = λ (r : Result ℕ × Db).
      r ≡ (ok id, db') → SwitchCommitted env user old sku type currency db id db' in
    let paid = (debit user sku.coin_cost db).1 in
    or_throw-cases P (Table.find (owned_by user) db.wallets) wallet_not_found 404 _ db
      (λ h. threw h)
      λ w e.
        throw_if-cases P (count_where (covers user sku.coin_cost) db.wallets.rows == 0)
          insufficient_balance 400 _ paid (λ h. threw h)
          λ rich.
            throw_if-cases P
              (keys_taken env.purchase_token env.order_number (mark_cancelled env.now old.id paid))
              unique_violation 500 _ (mark_cancelled env.now old.id paid) (λ h. threw h)
              λ free.
                throw_if-cases P (is_fractional sku.coin_cost) invalid_column_value 500 _
                  (mark_cancelled env.now old.id paid) (λ h. threw h)
                  λ whole h. record {
                    wallet = w;
                    covered = ground arith;
                    key = ap id_of (ap (λ r. r.0) h);
                    state = ap (λ r. r.1) h;
                  }

of_not : (b : Bool) → not b ≡ false → b ≡ true
of_not true h = refl
of_not false h = ground arith

module _ (P : Result ℕ × Db → Type 0) (env : Env) (user id new_sku_id : ℕ) (db : Db) where
  pub switch_plan-cases :
      ((c : Code) (status : ℕ) → P (err c status, db))
      → ((old : Subscription) (sku : Sku) (currency new_id : ℕ) (db' : Db)
          → let type = switch_type_of (rank_of (sku_of old db)) sku.rank in
            Switchable user id new_sku_id db old sku
            → execute_plan_switch env user old sku type currency db ≡ (ok new_id, db')
            → P (announce_switch env user (sku_of old db) sku type new_id db'))
      → P (switch_plan env user id new_sku_id db)
  unfolding switch_plan
  switch_plan-cases fail commit =
      or_throw-cases P (Table.find (by_id id) db.subscriptions) subscription_not_found 404 _ db
        (fail subscription_not_found 404)
        λ old found.
          throw_if-cases P (not (old.user_id == user)) forbidden 403 _ db (fail forbidden 403)
            λ own.
              throw_if-cases P (not (is_active_status old.status)) subscription_not_active 400 _ db
                (fail subscription_not_active 400)
                λ on.
                  throw_if-cases P (not (is_package old.sku_type)) invalid_switch_type 400 _ db
                    (fail invalid_switch_type 400)
                    λ pkg.
                      or_throw-cases P (find_sku new_sku_id db) sku_not_found 404 _ db
                        (fail sku_not_found 404)
                        λ sku found_sku.
                          throw_if-cases P (not sku.is_active || not (is_package sku.sku_type))
                            invalid_new_sku 400 _ db (fail invalid_new_sku 400)
                            λ offered.
                              throw_if-cases P (old.sku_id == new_sku_id) already_on_plan 400 _ db
                                (fail already_on_plan 400)
                                λ moves.
                                  or_throw-cases P
                                    (Table.find (λ w. owned_by user w && not w.deleted) db.wallets)
                                    wallet_not_found 404 _ db (fail wallet_not_found 404)
                                    λ w held.
                                      throw_if-cases P (short_of_coins sku.coin_cost w)
                                        insufficient_balance 400 _ db
                                        (fail insufficient_balance 400)
                                        λ rich.
                                          transaction-cases P
                                            (execute_plan_switch env user old sku
                                              (switch_type_of (rank_of (sku_of old db)) sku.rank)
                                              w.currency_id)
                                            (announce_switch env user (sku_of old db) sku
                                              (switch_type_of (rank_of (sku_of old db)) sku.rank))
                                            db fail
                                            λ new_id db' done.
                                              commit old sku w.currency_id new_id db'
                                                (record {
                                                  found = found;
                                                  own = of_not (old.user_id == user) own;
                                                  on = of_not (is_active_status old.status) on;
                                                  package_old =
                                                      of_not (is_package old.sku_type) pkg;
                                                  found_sku = found_sku;
                                                  offered = offered;
                                                  moves = moves;
                                                })
                                                done
