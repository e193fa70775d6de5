-- ===== src/Gateways/Midtrans.antt =====
-- src/midtrans/services/midtrans-payment.service.ts, midtrans-webhook-processor.service.ts and
-- src/midtrans/controllers/midtrans-webhook.controller.ts: the notifications of Midtrans. The empty text
-- stands for an order_id, signature_key or transaction_status that is missing, which the code treats
-- alike. A gross_amount has at most two decimals, as Midtrans sends it.
use Prim.Native.String.{◌++◌ as text_append}
use subscription_be.Prelude.{
  ℕ, String, Bool, false, not, ◌||◌, Option, none, some, or_else, [], ◌∷◌, str_eq, if◌then◌else◌,
}
use subscription_be.Db.{Db}
use subscription_be.Db.Action.{
  Action, ◌>>=◌, ◌>>◌, return, throw_if, or_throw, invalid_notification, invalid_signature,
}
use subscription_be.CoinOrder.Payment.{handle_payment_success, handle_payment_failure}
use subscription_be.Gateways.{Runtime, timing_safe_hex_equal, includes, includes_opt}

-- `MidtransNotification`
pub record Notification : Type 0 where
  pub order_id : String
  pub status_code : Option String
  pub gross_amount : Option String
  pub signature_key : String
  pub transaction_status : String
  pub fraud_status : Option String
  pub payment_type : Option String

-- A field in a concatenation of texts: a missing one reads 'undefined'.
abbrev pub text_of : Option String → String
text_of field = or_else field "undefined"

-- The text that the signature covers
abbrev pub signed_text : String → Notification → String
signed_text key n =
    text_append
      (text_append (text_append n.order_id (text_of n.status_code)) (text_of n.gross_amount)) key

-- `Number(notification.gross_amount)`; `Number(undefined)` is NaN
abbrev pub paid_amount : Runtime → Option String → Option ℕ
paid_amount js none = none
paid_amount js (some amount) = js.number amount

-- `verifyWebhookSignature`; `key` is MIDTRANS_SERVER_KEY
unfoldable pub verify_webhook_signature : Runtime → String → Notification → Bool
verify_webhook_signature js key n =
    if str_eq key ""
    then false
    else if str_eq n.signature_key ""
    then false
    else timing_safe_hex_equal js (js.sha512_hex (signed_text key n)) n.signature_key

-- `isPaymentSuccess`
unfoldable pub is_payment_success : Notification → Bool
is_payment_success n =
    if str_eq n.transaction_status "capture"
    then includes_opt ("accept" ∷ []) n.fraud_status
    else includes ("settlement" ∷ "capture" ∷ []) n.transaction_status

-- `isPaymentFailure`
unfoldable pub is_payment_failure : Notification → Bool
is_payment_failure n = includes ("deny" ∷ "cancel" ∷ "expire" ∷ "failure" ∷ []) n.transaction_status

-- `processWebhook`
unfoldable pub process_webhook : Runtime → Notification → Action Db (Unit {0})
unfolding is_payment_success is_payment_failure handle_payment_success handle_payment_failure
process_webhook js n =
    if str_eq n.order_id ""
    then return tt
    else if is_payment_success n
    then handle_payment_success n.order_id (paid_amount js n.gross_amount) n.payment_type
    else if is_payment_failure n
    then handle_payment_failure n.order_id
    else return tt

-- `!notification.order_id || !notification.signature_key`
abbrev pub malformed : Notification → Bool
malformed n = str_eq n.order_id "" || str_eq n.signature_key ""

-- `handleNotification`: the body of the request, which can be missing, and the answer 200 or an error
unfoldable pub handle_notification : Runtime → String → Option Notification → Action Db (Unit {0})
unfolding verify_webhook_signature process_webhook
handle_notification js key body = do
  n ← or_throw body invalid_notification 400
  throw_if (malformed n) invalid_notification 400
  throw_if (not (verify_webhook_signature js key n)) invalid_signature 403
  process_webhook js n
