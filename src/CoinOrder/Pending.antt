-- ===== src/CoinOrder/Pending.antt =====
-- The pending orders of a user.
use subscription_be.Prelude.{
  ℕ, ◌+◌, ◌-◌, ◌≤◌, ◌<◌, ◌≡◌, refl, String, Option, none, some, true, false, arith, ◌==◌, str_eq,
  ltb, [], ◌∷◌, inl, inr, count_where, Bool-cases, count_where-append, count_where-update_many_le,
  count_where-update_many, find_first-none, find_first_of_count, count_where-update_first,
}
use native.Mathlib.Decide.{ℕ_discrete}
use subscription_be.Db.{Db}
use subscription_be.Db.Action.{ok, err, pending_order_exists, ◌>>◌}
use subscription_be.Db.Table
use subscription_be.Db.Schema.{CoinOrder, paid, failed, expired}
use subscription_be.CoinOrder.{
  pending_order_ttl_ms, pending_of, pending_with, set_status, set_status_if_pending, update_status,
  NewOrder, order_row, conflicts, save_order, with_payment_info, update_order_payment_info,
  assert_no_active_pending_order,
}
use subscription_be.CoinOrder.Payment.{credit_order}
use subscription_be.CoinOrder.Credit.{coin_orders-credit_wallet, credit_order_late}
use subscription_be.CoinOrder.Effect.{credit_order_first}
use subscription_be.CoinOrder.Once.{pay, fail, expire, save, inform, Reach, here, next}

abbrev pub pending_count : ℕ → Db → ℕ
pending_count user db = count_where (pending_of user) db.coin_orders.rows

abbrev pub OnePending : Db → Type 0
OnePending db = (user : ℕ) → pending_count user db ≤ 1

pay_pending :
    (order : CoinOrder) (channel : Option String) (db : Db) (user : ℕ)
    → pending_count user (credit_order order channel db).1 ≤ pending_count user db
unfolding set_status_if_pending
pay_pending order channel db user =
    elim (ℕ_discrete (count_where (pending_with order.id) db.coin_orders.rows) 0) [
      | yes late ↦ rw (credit_order_late order channel db late) (omega arith)
      | no open_order ↦
          rw
            (
              credit_order_first order channel db (omega arith),
              coin_orders-credit_wallet order channel (set_status_if_pending order.id paid db).1,
            )
            (count_where-update_many_le (pending_of user) (pending_with order.id) (set_status paid)
              db.coin_orders.rows (λ o e p. ground arith))
    ]

pub no_pending :
    (d : NewOrder) (db : Db)
    → conflicts d db ≡ false
    → Table.find (pending_of d.user_id) db.coin_orders ≡ none
no_pending d db free = ground arith

no_conflict :
    (d : NewOrder) (db : Db)
    → pending_count d.user_id db ≡ 0
    → count_where (λ x. str_eq x.pg_order_id d.pg_order_id) db.coin_orders.rows ≡ 0
    → conflicts d db ≡ false
no_conflict d db h k = rw (
  find_first_of_count (pending_of d.user_id) db.coin_orders.rows h,
  find_first_of_count (λ (x : CoinOrder). str_eq x.pg_order_id d.pg_order_id) db.coin_orders.rows k,
)

save_pending :
    (now : ℕ) (d : NewOrder) (db : Db) → OnePending db → OnePending (save_order now d db).1
unfolding save_order
save_pending now d db h user =
    let added =
      count_where-append (pending_of user) db.coin_orders.rows
        (order_row now d db.coin_orders.next_id ∷ []) in
    elim (Bool-cases (conflicts d db)) [
      | inl clash ↦ rw clash (h user)
      | inr free ↦ rw free (elim (ℕ_discrete d.user_id user) [
        | yes same ↦ rw (← same) (
            ground (
              arith,
              count_where-append (pending_of d.user_id) db.coin_orders.rows
                  (order_row now d db.coin_orders.next_id ∷ []),
              find_first-none (pending_of d.user_id) db.coin_orders.rows (no_pending d db free),
            ))
        | no ne ↦ ground (arith, added, h user)
      ])
    ]

-- In every state that the steps reach, no user has two pending orders, if none had at the start.
pub Reach-OnePending : {s t : Db} → OnePending s → Reach s t → OnePending t
unfolding set_status_if_pending update_status update_order_payment_info
Reach-OnePending h here = h
Reach-OnePending h (next r (pay order channel db)) =
    λ user. omega (arith, pay_pending order channel db user, Reach-OnePending h r user)
Reach-OnePending h (next r (fail id db)) = λ user. omega (
  arith,
  Reach-OnePending h r user,
  count_where-update_many_le (pending_of user) (pending_with id) (set_status failed)
      db.coin_orders.rows (λ o e p. ground arith),
)
Reach-OnePending h (next r (expire id db)) = λ user. omega (
  arith,
  Reach-OnePending h r user,
  count_where-update_many_le (pending_of user) (λ o. o.id == id) (set_status expired)
      db.coin_orders.rows (λ o e p. ground arith),
)
Reach-OnePending h (next r (save now d db)) = save_pending now d db (Reach-OnePending h r)
Reach-OnePending h (next r (inform id response url gateway token db)) = λ user. omega (
  arith,
  Reach-OnePending h r user,
  count_where-update_many_le (pending_of user) (λ o. o.id == id)
      (with_payment_info response url gateway token) db.coin_orders.rows (λ o e p. ground arith),
)

-- A pending order of at most an hour stops the purchase, and nothing is written.
pub assert_no_active_pending_order_blocks :
    (now user : ℕ) (o : CoinOrder) (db : Db)
    → Table.find (pending_of user) db.coin_orders ≡ some o
    → now ≤ o.created_at + pending_order_ttl_ms
    → assert_no_active_pending_order now user db ≡ (err pending_order_exists 422, db)
unfolding assert_no_active_pending_order
assert_no_active_pending_order_blocks now user o db found young = rw found (ground arith)

-- Where users have at most one pending order each and that of the user is older than an hour, the
-- check expires it and the new order is saved, if no order has its gateway id.
pub save_order_after_ttl :
    (now : ℕ) (d : NewOrder) (o : CoinOrder) (db : Db)
    → OnePending db
    → Table.find (pending_of d.user_id) db.coin_orders ≡ some o
    → o.created_at + pending_order_ttl_ms < now
    → count_where (λ x. str_eq x.pg_order_id d.pg_order_id) db.coin_orders.rows ≡ 0
    → ((assert_no_active_pending_order now d.user_id >> save_order now d) db).0
      ≡ ok db.coin_orders.next_id
unfolding assert_no_active_pending_order save_order
save_order_after_ttl now d o db one found old free =
    let rows = db.coin_orders.rows in
    let db' = (update_status o.id expired db).1 in
    let same_id = λ (x : CoinOrder). x.id == o.id in
    let gone : pending_count d.user_id db' ≡ 0 = omega (
      arith,
      one d.user_id,
      count_where-update_first (pending_of d.user_id) same_id (set_status expired) rows o found
          (ground arith) (λ x e. ground arith),
    ) in
    let still_free : count_where (λ x. str_eq x.pg_order_id d.pg_order_id) db'.coin_orders.rows
        ≡ 0 =
      omega (
        arith,
        free,
        count_where-update_many (λ (x : CoinOrder). str_eq x.pg_order_id d.pg_order_id) same_id
            (set_status expired) rows (λ x. refl),
      ) in
    let late : ltb pending_order_ttl_ms (now - o.created_at) ≡ true = ground arith in
    rw (found, late, no_conflict d db' gone still_free)
