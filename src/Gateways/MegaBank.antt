-- ===== src/Gateways/MegaBank.antt =====
-- src/megabank/services/mega-bank-payment.service.ts, webhook-processor.service.ts,
-- src/megabank/utils/mega-bank-signer.util.ts and src/megabank/controllers/webhook.controller.ts: the
-- notifications of Bank Mega. `now` is the clock in milliseconds.
use Prim.Native.String.{◌++◌ as text_append, find, len, slice}
use subscription_be.Prelude.{
  ℕ, ◌+◌, ◌-◌, ◌*◌, String, Bool, true, false, not, ◌&&◌, Option, none, some, [], ◌∷◌, str_eq, ltb,
  if◌then◌else◌, or_else,
}
use subscription_be.Db.{Db}
use subscription_be.Db.Action.{
  Action, ◌>>=◌, ◌>>◌, return, throw_if, or_throw, missing_signature, missing_raw_body,
  invalid_signature,
}
use subscription_be.CoinOrder.Payment.{handle_payment_success, handle_payment_failure}
use subscription_be.Gateways.{Runtime, timing_safe_base64_equal, includes_opt}

-- The fields that are read of `MegaBankWebhookPayload`. An amount is in hundredths: `none` where it is
-- undefined, and `some none` where it is negative.
pub record Payload : Type 0 where
  -- `inquiry?.order?.id`
  pub order_id : Option String
  -- `transaction?.status`, `.statusCode`, `.amount` and `.paymentSource`
  pub status : Option String
  pub status_code : Option String
  pub amount : Option (Option ℕ)
  pub payment_source : Option String
  -- `inquiry?.amount`
  pub inquiry_amount : Option (Option ℕ)

-- What the deployment sets: MPG_MOCK_MODE and MPG_CLIENT_SECRET
pub record Config : Type 0 where
  pub mock_mode : Bool
  pub client_secret : String

-- `isPaymentSuccess`
unfoldable pub is_payment_success : Option String → Option String → Bool
is_payment_success status code =
    includes_opt ("captured" ∷ "authorized" ∷ []) status && includes_opt ("00" ∷ []) code

-- `isPaymentFailure`
unfoldable pub is_payment_failure : Option String → Bool
is_payment_failure status = includes_opt ("declined" ∷ "failed" ∷ []) status

-- `isInquiryPaid`
unfoldable is_inquiry_paid : String → Bool
is_inquiry_paid status = str_eq status "paid"

-- `transaction?.amount ?? inquiry?.amount`
abbrev pub paid_amount : Payload → Option ℕ
paid_amount n = or_else n.amount (or_else n.inquiry_amount none)

abbrev pub process_order : Payload → Option String → Action Db (Unit {0})
process_order n none = return tt
process_order n (some order_id) =
    if str_eq order_id ""
    then return tt
    else if is_payment_success n.status n.status_code
    then handle_payment_success order_id (paid_amount n) n.payment_source
    else if is_payment_failure n.status
    then handle_payment_failure order_id
    else return tt

-- `processWebhook`
unfoldable pub process_webhook : Payload → Action Db (Unit {0})
unfolding is_payment_success is_payment_failure handle_payment_success handle_payment_failure
process_webhook n = process_order n n.order_id

-- `signatureHeader.split(';')[0]`
abbrev pub first_part : String → String
first_part text = slice text 0 (find text ";")

-- `signatureHeader.split(';')[1]`
abbrev pub second_part : String → Option String
second_part text =
    if ltb (len text) (find text ";")
    then none
    else some (first_part (slice text (find text ";" + 1) (len text)))

-- `Math.abs(a - b)`
abbrev pub distance : ℕ → ℕ → ℕ
distance a b = (a - b) + (b - a)

-- `REPLAY_WINDOW_MS`
abbrev pub replay_window_ms : ℕ
replay_window_ms = 5 * 60 * 1000

-- `isNaN(timestampDate.getTime()) || diffMs > REPLAY_WINDOW_MS`
abbrev pub outside_window : ℕ → Option ℕ → Bool
outside_window now none = true
outside_window now (some time) = ltb replay_window_ms (distance now time)

abbrev pub verify_parts : Runtime → String → ℕ → String → String → Option String → Bool
verify_parts js secret now raw received none = false
verify_parts js secret now raw received (some timestamp) =
    if outside_window now (js.date timestamp)
    then false
    else timing_safe_base64_equal js received
        (js.hmac_sha512_base64 (text_append raw timestamp) secret)

-- `MegaBankSignerUtil.verifyWebhookSignature`
unfoldable pub verify_signature : Runtime → String → ℕ → String → String → Bool
verify_signature js secret now raw header =
    verify_parts js secret now raw (first_part header) (second_part header)

-- `verifyWebhookSignature` of the payment service
unfoldable pub verify_webhook_signature : Runtime → Config → ℕ → String → String → Bool
unfolding verify_signature
verify_webhook_signature js config now raw header =
    if config.mock_mode then true else verify_signature js config.client_secret now raw header

-- `generateValidateSignature`
unfoldable pub generate_validate_signature : Runtime → Config → String → String
generate_validate_signature js config header =
    if config.mock_mode
    then "mock-validate-signature"
    else js.md5_hex (
        text_append (text_append config.client_secret (first_part header))
          (or_else (second_part header) ""))

-- A request: the `signature` header, the raw body and the parsed body
pub record Request : Type 0 where
  pub signature : Option String
  pub raw_body : Option String
  pub body : Payload

-- `!signatureHeader`
abbrev pub filled : Option String → Option String
filled none = none
filled (some text) = if str_eq text "" then none else some text

-- `handleMpgNotification`: the `validateSignature` of the answer, or an error
unfoldable pub handle_mpg_notification : Runtime → Config → ℕ → Request → Action Db String
unfolding verify_webhook_signature process_webhook generate_validate_signature
handle_mpg_notification js config now req = do
  header ← or_throw (filled req.signature) missing_signature 401
  raw ← or_throw req.raw_body missing_raw_body 400
  throw_if (not (verify_webhook_signature js config now raw header)) invalid_signature 403
  process_webhook req.body
  return (generate_validate_signature js config header)

-- `handleMpgRedirect`: the page that the customer comes back to
unfoldable redirect_destination : Option String → String
redirect_destination status =
    if includes_opt ("paid" ∷ "captured" ∷ "authorized" ∷ []) status
    then "/payment/finish"
    else if includes_opt ("declined" ∷ "failed" ∷ "expired" ∷ []) status
    then "/payment/error"
    else "/payment/unfinish"
