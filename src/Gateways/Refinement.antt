-- ===== src/Gateways/Refinement.antt =====
-- The notifications of both gateways as events of the abstract state machine of an order.
use subscription_be.Prelude.{
  ℕ, ◌≡◌, sym, String, some, Bool, false, List, [], ◌∷◌, Bool-cases, inl, inr, str_eq, str_eq_iff,
  if◌then◌else◌, arith,
}
use subscription_be.Db.{Db}
use subscription_be.Db.Table
use subscription_be.Db.Schema.{CoinOrder}
use subscription_be.CoinOrder.{by_pg_order_id}
use subscription_be.Gateways.{Runtime, includes_opt}
use subscription_be.Gateways.Midtrans
use subscription_be.Gateways.MegaBank
use subscription_be.Gateways.Machine.{
  Outcome, refuse, ignore, view, advance_at, OneRow, paid_outcome, handle_payment_success-view,
  handle_payment_failure-view, unchanged-view,
}

-- The first entry under a key
abbrev pub look_up : List (String × Outcome) → String → Outcome
look_up [] key = ignore
look_up ((k, outcome) ∷ table) key = if str_eq key k then outcome else look_up table key

-- What a notification of Midtrans means for its order: the table of its `transaction_status`. A
-- capture counts once fraud review has accepted it.
abbrev pub midtrans_table : Bool → Outcome → List (String × Outcome)
midtrans_table accepted success =
    ("capture", if accepted then success else ignore)
    ∷ ("settlement", success)
    ∷ ("deny", refuse)
    ∷ ("cancel", refuse)
    ∷ ("expire", refuse)
    ∷ ("failure", refuse)
    ∷ []

abbrev pub midtrans_outcome : Runtime → Midtrans.Notification → CoinOrder → Outcome
midtrans_outcome js n order =
    look_up
      (midtrans_table (includes_opt ("accept" ∷ []) n.fraud_status)
        (paid_outcome (Midtrans.paid_amount js n.gross_amount) order))
      n.transaction_status

-- The same of Bank Mega: a success needs the code 00 as well.
abbrev pub megabank_table : Bool → Outcome → List (String × Outcome)
megabank_table code_00 success =
    ("captured", if code_00 then success else ignore)
    ∷ ("authorized", if code_00 then success else ignore)
    ∷ ("declined", refuse)
    ∷ ("failed", refuse)
    ∷ []

abbrev pub megabank_outcome : MegaBank.Payload → String → CoinOrder → Outcome
megabank_outcome n status order =
    look_up
      (megabank_table (includes_opt ("00" ∷ []) n.status_code)
        (paid_outcome (MegaBank.paid_amount n) order))
      status

-- The two tests in the order of `processWebhook`
abbrev sorted : Bool → Bool → Outcome → Outcome
sorted success failure outcome = if success then outcome else if failure then refuse else ignore

sorted_midtrans :
    (n : Midtrans.Notification) (success : Outcome)
    → sorted (Midtrans.is_payment_success n) (Midtrans.is_payment_failure n) success
      ≡ look_up
          (midtrans_table (includes_opt ("accept" ∷ []) n.fraud_status) success)
          n.transaction_status
unfolding Midtrans.is_payment_success Midtrans.is_payment_failure
sorted_midtrans n success = elim (Bool-cases (str_eq n.transaction_status "capture")) [
  | inl captured ↦ rw ((str_eq_iff n.transaction_status "capture").0 captured) (ground arith)
  | inr other ↦ ground (arith, other)
]

sorted_megabank :
    (n : MegaBank.Payload) (status : String) (success : Outcome)
    → n.status ≡ some status
    → sorted
        (MegaBank.is_payment_success n.status n.status_code)
        (MegaBank.is_payment_failure n.status)
        success
      ≡ look_up (megabank_table (includes_opt ("00" ∷ []) n.status_code) success) status
unfolding MegaBank.is_payment_success MegaBank.is_payment_failure
sorted_megabank n status success e = elim (Bool-cases (str_eq status "captured")) [
  | inl captured ↦ rw (e, (str_eq_iff status "captured").0 captured) (ground arith)
  | inr not_captured ↦ elim (Bool-cases (str_eq status "authorized")) [
    | inl authorized ↦ rw (e, (str_eq_iff status "authorized").0 authorized) (ground arith)
    | inr other ↦ rw e (ground (arith, not_captured, other))
  ]
]

-- A notification of Midtrans about an order that exists, where ids are unique, moves the view of that
-- order as the machine does for the outcome in the table, and the view of no other order. A
-- notified amount that contradicts the price makes a success an outcome that is ignored.
pub midtrans_refines :
    (js : Runtime) (n : Midtrans.Notification) (order : CoinOrder) (db : Db) (id : ℕ)
    → OneRow db
    → str_eq n.order_id "" ≡ false
    → Table.find (by_pg_order_id n.order_id) db.coin_orders ≡ some order
    → view id (Midtrans.process_webhook js n db).1
      ≡ advance_at order.id (midtrans_outcome js n order) id (view id db)
unfolding Midtrans.process_webhook
midtrans_refines js n order db id one given found =
    let outcome = paid_outcome (Midtrans.paid_amount js n.gross_amount) order in
    rw (sym (sorted_midtrans n outcome)) (elim (Bool-cases (Midtrans.is_payment_success n)) [
      | inl success ↦
          rw (given, success)
            (handle_payment_success-view db order n.order_id found one id
              (Midtrans.paid_amount js n.gross_amount) n.payment_type)
      | inr not_success ↦ elim (Bool-cases (Midtrans.is_payment_failure n)) [
        | inl failure ↦
            rw (given, not_success, failure)
              (handle_payment_failure-view db order n.order_id found one id)
        | inr open_still ↦ rw (given, not_success, open_still) (unchanged-view order.id db id)
      ]
    ])

-- A notification of Bank Mega does the same, by its own table.
pub megabank_refines :
    (n : MegaBank.Payload) (order_id status : String) (order : CoinOrder) (db : Db) (id : ℕ)
    → OneRow db
    → n.order_id ≡ some order_id
    → str_eq order_id "" ≡ false
    → n.status ≡ some status
    → Table.find (by_pg_order_id order_id) db.coin_orders ≡ some order
    → view id (MegaBank.process_webhook n db).1
      ≡ advance_at order.id (megabank_outcome n status order) id (view id db)
unfolding MegaBank.process_webhook
megabank_refines n order_id status order db id one named given sent found =
    let outcome = paid_outcome (MegaBank.paid_amount n) order in
    rw (sym (sorted_megabank n status outcome sent))
      (elim (Bool-cases (MegaBank.is_payment_success n.status n.status_code)) [
        | inl success ↦
            rw (named, given, success)
              (handle_payment_success-view db order order_id found one id (MegaBank.paid_amount n)
                n.payment_source)
        | inr not_success ↦ elim (Bool-cases (MegaBank.is_payment_failure n.status)) [
          | inl failure ↦
              rw (named, given, not_success, failure)
                (handle_payment_failure-view db order order_id found one id)
          | inr open_still ↦
              rw (named, given, not_success, open_still) (unchanged-view order.id db id)
        ]
      ])
