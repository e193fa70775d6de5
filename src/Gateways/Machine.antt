-- ===== src/Gateways/Machine.antt =====
-- The coin order as an abstract state machine, which the two payment callbacks of
-- src/client/services/coin-order.service.ts implement.
use mathlib.Core.Option.{map as map_option}
use subscription_be.Prelude.{
  ℕ, ◌+◌, ◌≤◌, ◌≡◌, refl, sym, String, Option, none, some, Bool, true, false, List, [], ◌∷◌,
  Option-cases, Bool-cases, inl, inr, if◌then◌else◌, ◌==◌, arith, find_first, update_many,
  count_where, count_where_mono, find_first-sat, count_where-found,
}
use native.Mathlib.Decide.{ℕ_discrete}
use subscription_be.Db.{Db}
use subscription_be.Db.Table
use subscription_be.Db.Action.{transaction-eq_of_ok}
use subscription_be.Db.Schema.{CoinOrder, CoinOrderStatus, paid, failed}
use subscription_be.CoinOrder.{
  by_pg_order_id, is_pending, pending_with, set_status, set_status_if_pending,
}
use subscription_be.CoinOrder.Payment.{
  handle_payment_success, handle_payment_failure, mismatched, credit_order,
}
use subscription_be.CoinOrder.Once.{credits, credits-credit_wallet}
use subscription_be.CoinOrder.Credit.{coin_orders-credit_wallet}
use subscription_be.CoinOrder.Effect.{credit_order_ok}

-- What is seen of an order: its status, and how often its coins have been credited
pub record OrderView : Type 0 where
  pub status : CoinOrderStatus
  pub credited : ℕ

pub data Outcome : Type 0 where
  settle refuse ignore : Outcome

-- The machine: a pending order is settled with one credit, or refused; all else changes nothing.
abbrev pub advance : Outcome → OrderView → OrderView
advance settle v =
    if is_pending v.status then record { status = paid; credited = v.credited + 1 } else v
advance refuse v =
    if is_pending v.status then record { status = failed; credited = v.credited } else v
advance ignore v = v

abbrev has_id : ℕ → CoinOrder → Bool
has_id id o = o.id == id

abbrev view_of : ℕ → CoinOrder → OrderView
view_of n o = record { status = o.status; credited = n }

-- The view of the order with an id in the database
abbrev pub view : ℕ → Db → Option OrderView
view id db = map_option (view_of (credits id db)) (find_first (has_id id) db.coin_orders.rows)

-- The outcome of an order among all orders: only the order `target` advances.
abbrev pub advance_at : ℕ → Outcome → ℕ → Option OrderView → Option OrderView
advance_at target outcome id v = if target == id then map_option (advance outcome) v else v

-- The primary key
abbrev pub OneRow : Db → Type 0
OneRow db = (id : ℕ) → count_where (has_id id) db.coin_orders.rows ≤ 1

abbrev flip : ℕ → CoinOrderStatus → CoinOrder → CoinOrder
flip id status o = if pending_with id o then set_status status o else o

find-flip :
    (id k : ℕ) (status : CoinOrderStatus) (rows : List CoinOrder)
    → find_first (has_id id) (update_many (pending_with k) (set_status status) rows)
      ≡ map_option (flip k status) (find_first (has_id id) rows)
find-flip id k status [] = refl
find-flip id k status (o ∷ rows) = ground (arith, find-flip id k status rows)

abbrev open_count : Option CoinOrder → ℕ
open_count none = 0
open_count (some o) = if is_pending o.status then 1 else 0

count-open :
    (id : ℕ) (rows : List CoinOrder)
    → count_where (has_id id) rows ≤ 1
    → count_where (pending_with id) rows ≡ open_count (find_first (has_id id) rows)
count-open id [] h = refl
count-open id (o ∷ rows) h = ground (
  arith,
  count-open id rows,
  count_where_mono (has_id id) (pending_with id) rows (λ x e. ground arith),
)

-- A status that is set on one pending order, with `n` credits before and `m` after.
flip_view :
    (target : ℕ) (status : CoinOrderStatus) (id n : ℕ) (rows : List CoinOrder)
    → map_option
        (view_of n)
        (find_first (has_id id) (update_many (pending_with target) (set_status status) rows))
      ≡ map_option (λ o. view_of n (flip target status o)) (find_first (has_id id) rows)
flip_view target status id n rows =
    rw (find-flip id target status rows) (elim (Option-cases (find_first (has_id id) rows)) [
      | inl absent ↦ rw absent
      | inr (o, found) ↦ rw found
    ])

-- What a status set on a pending order shows, where `bonus` credits are added.
settled_view :
    (o : CoinOrder) (target id n : ℕ) (pending_there : Bool)
    → (o.id == id) ≡ true
    → (target ≡ id → is_pending o.status ≡ pending_there)
    → view_of
        (if pending_there then n + (if target == id then 1 else 0) else n)
        (flip target paid o)
      ≡ (if target == id then advance settle (view_of n o) else view_of n o)
settled_view o target id n true hit open_there = ground (arith, hit, open_there)
settled_view o target id n false hit open_there = ground (arith, hit, open_there)

settled_rows :
    (rows : List CoinOrder) (target id n : ℕ) (pending_there : Bool)
    → (target ≡ id → open_count (find_first (has_id id) rows) ≡ (if pending_there then 1 else 0))
    → map_option
        (λ o.
          view_of
            (if pending_there then n + (if target == id then 1 else 0) else n)
            (flip target paid o))
        (find_first (has_id id) rows)
      ≡ advance_at target settle id (map_option (view_of n) (find_first (has_id id) rows))
settled_rows rows target id n pending_there there =
    elim (Option-cases (find_first (has_id id) rows)) [
      | inl absent ↦ rw absent (ground arith)
      | inr (o, found) ↦ rw found (
          ground (
            arith,
            settled_view o target id n pending_there (find_first-sat (has_id id) rows o found),
            there,
            found,
          ))
    ]

-- The transaction of a payment settles its order, whichever state it was read in, and no other.
credit_order-view :
    (order : CoinOrder) (channel : Option String) (db : Db)
    → OneRow db
    → (id : ℕ)
    → view id (credit_order order channel db).1 ≡ advance_at order.id settle id (view id db)
unfolding credit_order set_status_if_pending
credit_order-view order channel db one id =
    let rows = db.coin_orders.rows in
    let n = credits id db in
    let db' = (set_status_if_pending order.id paid db).1 in
    let counted = count-open id rows (one id) in
    elim (Bool-cases (count_where (pending_with order.id) rows == 0)) [
      | inl late ↦
          rw (late, flip_view order.id paid id n rows)
            (settled_rows rows order.id id n false (λ same. ground (arith, late, counted, same)))
      | inr first ↦
          rw
            (
              first,
              coin_orders-credit_wallet order channel db',
              credits-credit_wallet order channel db' id,
              flip_view order.id paid id (n + (if order.id == id then 1 else 0)) rows,
            )
            (settled_rows rows order.id id n true (λ same. ground (arith, first, counted, same)))
    ]

refused_view :
    (o : CoinOrder) (target id n : ℕ)
    → (o.id == id) ≡ true
    → view_of n (flip target failed o)
      ≡ (if target == id then advance refuse (view_of n o) else view_of n o)
refused_view o target id n hit = ground (arith, hit)

-- A refusal that is set on one order.
set_failed-view :
    (target : ℕ) (db : Db) (id : ℕ)
    → view id (set_status_if_pending target failed db).1 ≡ advance_at target refuse id (view id db)
unfolding set_status_if_pending
set_failed-view target db id =
    let rows = db.coin_orders.rows in
    let n = credits id db in
    rw (flip_view target failed id n rows) (elim (Option-cases (find_first (has_id id) rows)) [
      | inl absent ↦ rw absent (ground arith)
      | inr (o, found) ↦
          rw found
            (ground (arith, refused_view o target id n (find_first-sat (has_id id) rows o found)))
    ])

-- The row that was found by its gateway's id is the row under its id.
found-by_id :
    (p : CoinOrder → Bool) (rows : List CoinOrder) (o : CoinOrder)
    → count_where (has_id o.id) rows ≤ 1
    → find_first p rows ≡ some o
    → find_first (has_id o.id) rows ≡ some o
found-by_id p [] o one found = ground arith
found-by_id p (x ∷ rows) o one found =
    ground (arith, found-by_id p rows o, count_where-found p (has_id o.id) rows o)

-- An order that is not pending is refused without effect.
closed-view :
    (order : CoinOrder) (db : Db) (id : ℕ)
    → find_first (has_id order.id) db.coin_orders.rows ≡ some order
    → is_pending order.status ≡ false
    → view id db ≡ advance_at order.id refuse id (view id db)
closed-view order db id found closed = elim (ℕ_discrete order.id id) [
  | yes same ↦ rw (sym same, found) (ground (arith, closed))
  | no ne ↦ ground arith
]

pub unchanged-view :
    (target : ℕ) (db : Db) (id : ℕ) → view id db ≡ advance_at target ignore id (view id db)
unchanged-view target db id = elim (Option-cases (find_first (has_id id) db.coin_orders.rows)) [
  | inl absent ↦ rw absent (ground arith)
  | inr (o, found) ↦ rw found (ground arith)
]

-- How a success, with the amount that the gateway names, ends for an order.
abbrev pub paid_outcome : Option ℕ → CoinOrder → Outcome
paid_outcome amount order = if mismatched amount order then ignore else settle

module _ (db : Db) (order : CoinOrder) (pg_order_id : String)
    (found : Table.find (by_pg_order_id pg_order_id) db.coin_orders ≡ some order) (one : OneRow db)
    (id : ℕ) where
  pub handle_payment_success-view :
      (amount : Option ℕ) (channel : Option String)
      → view id (handle_payment_success pg_order_id amount channel db).1
        ≡ advance_at order.id (paid_outcome amount order) id (view id db)
  unfolding handle_payment_success
  handle_payment_success-view amount channel = elim (Bool-cases (mismatched amount order)) [
    | inl wrong ↦ rw (found, wrong) (unchanged-view order.id db id)
    | inr right ↦
        rw
          (
            found,
            right,
            transaction-eq_of_ok (credit_order order channel) db tt
                (credit_order_ok order channel db),
          )
          (credit_order-view order channel db one id)
  ]

  pub handle_payment_failure-view :
      view id (handle_payment_failure pg_order_id db).1 ≡ advance_at order.id refuse id (view id db)
  unfolding handle_payment_failure
  handle_payment_failure-view = elim (Bool-cases (is_pending order.status)) [
    | inl open_order ↦ rw (found, open_order) (set_failed-view order.id db id)
    | inr closed ↦
        rw (found, closed)
          (closed-view order db id
            (found-by_id (by_pg_order_id pg_order_id) db.coin_orders.rows order (one order.id)
              found)
            closed)
  ]
