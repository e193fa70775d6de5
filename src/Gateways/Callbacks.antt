-- ===== src/Gateways/Callbacks.antt =====
-- The notifications of both gateways as steps of the coin orders.
use subscription_be.Prelude.{
  ℕ, String, Option, none, some, Option-cases, Bool-cases, inl, inr, str_eq, not,
}
use subscription_be.Db.{Db}
use subscription_be.Db.Table
use subscription_be.Db.Action.{
  Result, return, continue, ok, err, transaction-keeps, invalid_notification, invalid_signature,
  missing_signature, missing_raw_body,
}
use subscription_be.Db.Cases.{throw_if-cases, or_throw-cases}
use subscription_be.CoinOrder.{by_pg_order_id, is_pending}
use subscription_be.CoinOrder.Payment.{
  handle_payment_success, handle_payment_failure, mismatched, credit_order,
}
use subscription_be.CoinOrder.Once.{pay, fail, Reach, here, next}
use subscription_be.Gateways.{Runtime}
use subscription_be.Gateways.Midtrans
use subscription_be.Gateways.MegaBank

pub handle_payment_success-Reach :
    (pg_order_id : String) (amount : Option ℕ) (channel : Option String) (db : Db)
    → Reach db (handle_payment_success pg_order_id amount channel db).1
unfolding handle_payment_success
handle_payment_success-Reach pg_order_id amount channel db =
    elim (Option-cases (Table.find (by_pg_order_id pg_order_id) db.coin_orders)) [
      | inl missing ↦ rw missing here
      | inr (order, found) ↦ elim (Bool-cases (mismatched amount order)) [
        | inl wrong ↦ rw (found, wrong) here
        | inr right ↦
            rw (found, right)
              (transaction-keeps (Reach db) (credit_order order channel) db here
                (next here (pay order channel db)))
      ]
    ]

pub handle_payment_failure-Reach :
    (pg_order_id : String) (db : Db) → Reach db (handle_payment_failure pg_order_id db).1
unfolding handle_payment_failure
handle_payment_failure-Reach pg_order_id db =
    elim (Option-cases (Table.find (by_pg_order_id pg_order_id) db.coin_orders)) [
      | inl missing ↦ rw missing here
      | inr (order, found) ↦ elim (Bool-cases (is_pending order.status)) [
        | inl open_order ↦ rw (found, open_order) (next here (fail order.id db))
        | inr closed ↦ rw (found, closed) here
      ]
    ]

-- What both handlers keep, a notification keeps.
module _ (P : Db → Type 0) (db : Db)
    (paid : (id : String) (amount : Option ℕ) (channel : Option String)
      → P (handle_payment_success id amount channel db).1)
    (refused : (id : String) → P (handle_payment_failure id db).1) (same : P db) where
  midtrans-keeps :
      (js : Runtime) (n : Midtrans.Notification) → P (Midtrans.process_webhook js n db).1
  unfolding Midtrans.process_webhook
  midtrans-keeps js n = elim (Bool-cases (str_eq n.order_id "")) [
    | inl missing ↦ rw missing same
    | inr given ↦ elim (Bool-cases (Midtrans.is_payment_success n)) [
      | inl success ↦
          rw (given, success)
            (paid n.order_id (Midtrans.paid_amount js n.gross_amount) n.payment_type)
      | inr not_success ↦ elim (Bool-cases (Midtrans.is_payment_failure n)) [
        | inl failure ↦ rw (given, not_success, failure) (refused n.order_id)
        | inr open_still ↦ rw (given, not_success, open_still) same
      ]
    ]
  ]

  mega-keeps_order :
      (n : MegaBank.Payload) (id : Option String) → P (MegaBank.process_order n id db).1
  mega-keeps_order n none = same
  mega-keeps_order n (some id) = elim (Bool-cases (str_eq id "")) [
    | inl missing ↦ rw missing same
    | inr given ↦ elim (Bool-cases (MegaBank.is_payment_success n.status n.status_code)) [
      | inl success ↦ rw (given, success) (paid id (MegaBank.paid_amount n) n.payment_source)
      | inr not_success ↦ elim (Bool-cases (MegaBank.is_payment_failure n.status)) [
        | inl failure ↦ rw (given, not_success, failure) (refused id)
        | inr open_still ↦ rw (given, not_success, open_still) same
      ]
    ]
  ]

  pub midtrans_request-keeps :
      (js : Runtime) (key : String) (body : Option Midtrans.Notification)
      → P (Midtrans.handle_notification js key body db).1
  unfolding Midtrans.handle_notification
  midtrans_request-keeps js key body =
      or_throw-cases (λ r. P r.1) body invalid_notification 400 _ db same
        (λ n e.
          throw_if-cases (λ r. P r.1) (Midtrans.malformed n) invalid_notification 400 _ db same
            (λ e.
              throw_if-cases (λ r. P r.1) (not (Midtrans.verify_webhook_signature js key n))
                invalid_signature 403 _ db same (λ e. midtrans-keeps js n)))

  answer-keeps :
      (answer : String) (r : Result (Unit {0}) × Db) → P r.1 → P (continue r (λ _. return answer)).1
  answer-keeps answer (ok done, s) h = h
  answer-keeps answer (err c status, s) h = h

  pub mega_request-keeps :
      (js : Runtime) (config : MegaBank.Config) (now : ℕ) (req : MegaBank.Request)
      → P (MegaBank.handle_mpg_notification js config now req db).1
  unfolding MegaBank.handle_mpg_notification MegaBank.process_webhook
  mega_request-keeps js config now req =
      or_throw-cases (λ r. P r.1) (MegaBank.filled req.signature) missing_signature 401 _ db same
        (λ header e.
          or_throw-cases (λ r. P r.1) req.raw_body missing_raw_body 400 _ db same
            (λ raw e.
              throw_if-cases (λ r. P r.1)
                (not (MegaBank.verify_webhook_signature js config now raw header)) invalid_signature
                403 _ db same
                (λ e.
                  answer-keeps (MegaBank.generate_validate_signature js config header)
                    (MegaBank.process_webhook req.body db)
                    (mega-keeps_order req.body req.body.order_id))))
