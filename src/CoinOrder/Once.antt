-- ===== src/CoinOrder/Once.antt =====
-- The statements of checkouts, callbacks and expiries as steps, and the credits of an order.
use subscription_be.Prelude.{
  ℕ, ◌+◌, ◌≤◌, ◌≡◌, refl, ap, String, Option, none, some, Bool, false, ◌&&◌, arith, ◌==◌, [], ◌∷◌,
  Option-cases, inl, inr, count_where, find_first, Bool-cases, count_where-append,
  count_where-update_many_le, count_where-update_many_ne, count_where-update_many_clear,
  if◌then◌else◌,
}
use native.Mathlib.Decide.{ℕ_discrete}
use subscription_be.Db.{Db}
use subscription_be.Db.Table
use subscription_be.Db.Schema.{CoinOrder, CoinOrderStatus, CoinTransaction, paid, failed, expired}
use subscription_be.Wallet.{owned_by}
use subscription_be.Wallet.Ledger.{is_topup}
use subscription_be.CoinOrder.{
  is_pending, pending_with, set_status, set_status_if_pending, update_status, NewOrder, order_row,
  save_order, update_order_payment_info, with_payment_info, conflicts,
}
use subscription_be.CoinOrder.Payment.{credit_order, credit_wallet, topup_row}
use subscription_be.CoinOrder.Credit.{credit_order_late, coin_orders-credit_wallet}
use subscription_be.CoinOrder.Effect.{credit_order_first}

-- One statement or transaction of some request. A callback works with an order that it read at any
-- time before, so `order` is arbitrary.
pub data Step : Db → Db → Type 0 where
  pay :
      (order : CoinOrder) (channel : Option String) (db : Db)
      → Step db (credit_order order channel db).1
  fail : (id : ℕ) (db : Db) → Step db (set_status_if_pending id failed db).1
  expire : (id : ℕ) (db : Db) → Step db (update_status id expired db).1
  save : (now : ℕ) (d : NewOrder) (db : Db) → Step db (save_order now d db).1
  inform :
      (id : ℕ) (response url gateway : String) (token : Option String) (db : Db)
      → Step db (update_order_payment_info id response url gateway token db).1

pub data Reach (s : Db) : Db → Type 0 where
  here : Reach s s
  next : {t u : Db} → Reach s t → Step t u → Reach s u

abbrev pub refers : ℕ → Option ℕ → Bool
refers id none = false
refers id (some ref) = ref == id

-- The credits of an order in the ledger.
abbrev pub credit_entry : ℕ → CoinTransaction → Bool
credit_entry id t = is_topup t.type && refers id t.ref_id

abbrev pub credits : ℕ → Db → ℕ
credits id db = count_where (credit_entry id) db.transactions.rows

abbrev pub still_pending : ℕ → Db → ℕ
still_pending id db = count_where (pending_with id) db.coin_orders.rows

-- An order is pending or credited, at most once; keys that are not given out yet are neither.
pub record IsOnce (db : Db) : Type 0 where
  pub once : (id : ℕ) → credits id db + still_pending id db ≤ 1
  pub fresh : (id : ℕ) → db.coin_orders.next_id ≤ id → credits id db + still_pending id db ≡ 0

-- The credit adds one entry for its own order.
pub credits-credit_wallet :
    (order : CoinOrder) (channel : Option String) (db : Db) (id : ℕ)
    → credits id (credit_wallet order channel db).1
      ≡ credits id db + (if order.id == id then 1 else 0)
unfolding credit_wallet
credits-credit_wallet order channel db id =
    elim (Option-cases (find_first (owned_by order.user_id) db.wallets.rows)) [
      | inl absent ↦ rw absent (
          ground (
            arith,
            count_where-append (credit_entry id) db.transactions.rows
                (topup_row order channel db.wallets.next_id db.transactions.next_id ∷ []),
          ))
      | inr (w, found) ↦ rw found (
          ground (
            arith,
            count_where-append (credit_entry id) db.transactions.rows
                (topup_row order channel w.id db.transactions.next_id ∷ []),
          ))
    ]

-- The check-and-set takes a pending order away, and touches no other.
pending-set_status_if_pending :
    (taken : ℕ) (status : CoinOrderStatus) (id : ℕ) (db : Db)
    → is_pending status ≡ false
    → still_pending id (set_status_if_pending taken status db).1
      ≡ (if taken == id then 0 else still_pending id db)
unfolding set_status_if_pending
pending-set_status_if_pending taken status id db final = elim (ℕ_discrete taken id) [
  | yes same ↦ rw same (
      ground (
        arith,
        count_where-update_many_clear (pending_with id) (set_status status) db.coin_orders.rows
            (λ o h. ground arith),
      ))
  | no ne ↦ ground (
    arith,
    count_where-update_many_ne (pending_with id) (pending_with taken) (set_status status)
        db.coin_orders.rows (λ o h. ground arith) (λ o h. ground arith),
  )
]

-- A payment moves its order from pending to credited, and touches no other.
pay_moves :
    (order : CoinOrder) (channel : Option String) (db : Db) (id : ℕ)
    → let db' = (credit_order order channel db).1 in
      credits id db' + still_pending id db' ≤ credits id db + still_pending id db
unfolding set_status_if_pending
pay_moves order channel db id = elim (ℕ_discrete (still_pending order.id db) 0) [
  | yes late ↦ rw (credit_order_late order channel db late) (omega arith)
  | no open_order ↦
      let db' = (set_status_if_pending order.id paid db).1 in
      rw
        (
          credit_order_first order channel db (omega arith),
          coin_orders-credit_wallet order channel db',
        )
        (elim (ℕ_discrete order.id id) [
          | yes same ↦ ground (
            arith,
            credits-credit_wallet order channel db' id,
            pending-set_status_if_pending order.id paid id db refl,
            ap (λ (k : ℕ). still_pending k db) same,
            open_order,
          )
          | no ne ↦ ground (
            arith,
            credits-credit_wallet order channel db' id,
            pending-set_status_if_pending order.id paid id db refl,
          )
        ])
]

-- The orders' next key never falls, and only `save` raises it.
pay_next_id :
    (order : CoinOrder) (channel : Option String) (db : Db)
    → (credit_order order channel db).1.coin_orders.next_id ≡ db.coin_orders.next_id
unfolding credit_order set_status_if_pending
pay_next_id order channel db =
    elim (Bool-cases (count_where (pending_with order.id) db.coin_orders.rows == 0)) [
      | inl late ↦ rw late
      | inr first ↦ rw first (
          ap (λ (t : Table.Table CoinOrder). t.next_id)
            (coin_orders-credit_wallet order channel (set_status_if_pending order.id paid db).1))
    ]

-- A step that adds nothing to credits and pending orders, and gives out no key, keeps `IsOnce`.
falling-IsOnce :
    (db db' : Db)
    → ((id : ℕ) → credits id db' + still_pending id db' ≤ credits id db + still_pending id db)
    → db'.coin_orders.next_id ≡ db.coin_orders.next_id
    → IsOnce db
    → IsOnce db'
falling-IsOnce db db' falls same h = record {
  once = λ id. omega (arith, falls id, h.once id);
  fresh = λ id le. omega (arith, falls id, h.fresh id (omega arith));
}

save-IsOnce : (now : ℕ) (d : NewOrder) (db : Db) → IsOnce db → IsOnce (save_order now d db).1
unfolding save_order
save-IsOnce now d db h =
    let key = db.coin_orders.next_id in
    let added = λ (id : ℕ).
      count_where-append (pending_with id) db.coin_orders.rows (order_row now d key ∷ []) in
    elim (Bool-cases (conflicts d db)) [
      | inl clash ↦ rw clash h
      | inr free ↦ rw free (record {
        once = λ id. ground (arith, added id, h.once id, h.fresh id);
        fresh = λ id le. ground (arith, added id, h.fresh id);
      })
    ]

-- Every step keeps it.
pub Step-IsOnce : {s t : Db} → Step s t → IsOnce s → IsOnce t
unfolding set_status_if_pending update_status update_order_payment_info
Step-IsOnce (pay order channel db) h =
    falling-IsOnce db (credit_order order channel db).1 (pay_moves order channel db)
      (pay_next_id order channel db) h
Step-IsOnce (fail id db) h =
    falling-IsOnce db (set_status_if_pending id failed db).1
      (λ i. ground (arith, pending-set_status_if_pending id failed i db refl)) refl h
Step-IsOnce (expire id db) h =
    falling-IsOnce db (update_status id expired db).1
      (λ i. omega (
        arith,
        count_where-update_many_le (pending_with i) (λ o. o.id == id) (set_status expired)
            db.coin_orders.rows (λ o e p. ground arith),
      ))
      refl h
Step-IsOnce (save now d db) h = save-IsOnce now d db h
Step-IsOnce (inform id response url gateway token db) h =
    falling-IsOnce db (update_order_payment_info id response url gateway token db).1
      (λ i. omega (
        arith,
        count_where-update_many_le (pending_with i) (λ o. o.id == id)
            (with_payment_info response url gateway token) db.coin_orders.rows
            (λ o e p. ground arith),
      ))
      refl h

-- In every state that the steps reach, in any order and number, each order has at most one TOPUP
-- entry in the ledger, and none while it is pending, if that was so at the start and the keys not
-- given out yet had neither an entry nor a pending order.
pub Reach-IsOnce : {s t : Db} → IsOnce s → Reach s t → IsOnce t
Reach-IsOnce h here = h
Reach-IsOnce h (next r st) = Step-IsOnce st (Reach-IsOnce h r)
