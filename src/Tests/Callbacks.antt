-- ===== src/Tests/Callbacks.antt =====
-- Notifications of both gateways at concrete inputs. The digest of a text is the text here, and its
-- bytes are its length.
use Prim.Native.String.{len}
use subscription_be.Prelude.{◌≡◌, refl, true, false, none, some, [], ◌∷◌, arith}
use subscription_be.CoinOrder.Payment.{mismatched}
use subscription_be.Gateways.{Runtime}
use subscription_be.Gateways.Midtrans
use subscription_be.Prelude.{◌⊎◌}
use subscription_be.Gateways.MegaBank
use subscription_be.Gateways.Calls.{
  Deployment, Call, midtrans_called, megabank_called, serve, serve-IsSigned, IsSigned,
}
use subscription_be.Gateways.Machine.{view, advance_at, settle, OneRow}
use subscription_be.Gateways.Refinement.{
  midtrans_refines, megabank_refines, midtrans_outcome, megabank_outcome,
}
use subscription_be.Tests.Coins.{ordered_db, test_order}

abbrev pub test_runtime : Runtime
test_runtime = record {
  sha512_hex = λ text. text;
  md5_hex = λ text. text;
  hmac_sha512_base64 = λ text secret. secret;
  bytes_of_hex = λ text. len text ∷ [];
  bytes_of_base64 = λ text. len text ∷ [];
  number = λ text. some 5650000;
  date = λ text. some 0;
}

abbrev pub test_deployment : Deployment
test_deployment = record {
  midtrans_key = "key";
  megabank = record { mock_mode = false; client_secret = "s" };
}

abbrev pub settlement : Midtrans.Notification
settlement = record {
  order_id = "COIN-1";
  status_code = some "200";
  gross_amount = some "56500.00";
  signature_key = "12345678901234567890";
  transaction_status = "settlement";
  fraud_status = none;
  payment_type = some "qris";
}

abbrev declined : MegaBank.Payload
declined = record {
  order_id = some "COIN-1";
  status = some "declined";
  status_code = some "05";
  amount = none;
  payment_source = none;
  inquiry_amount = none;
}

abbrev pub declined_request : MegaBank.Request
declined_request = record { signature = some "x;0"; raw_body = some "{}"; body = declined }

settlement_verifies : Midtrans.verify_webhook_signature test_runtime "key" settlement ≡ true
unfolding Midtrans.verify_webhook_signature
settlement_verifies = refl

ordered_db-OneRow : OneRow ordered_db
ordered_db-OneRow = λ id. ground arith

abbrev forged : Call
forged = midtrans_called (some (record settlement { signature_key = "guess" }))

forged_refused : serve test_runtime test_deployment forged ordered_db ≡ ordered_db
unfolding Midtrans.handle_notification
forged_refused = refl

serve-IsSigned_example :
    (serve test_runtime test_deployment (megabank_called 60000 declined_request) ordered_db
      ≡ ordered_db)
    ⊎ IsSigned test_runtime test_deployment (megabank_called 60000 declined_request)
serve-IsSigned_example =
    serve-IsSigned test_runtime test_deployment (megabank_called 60000 declined_request) ordered_db
      refl

settled_outcome : midtrans_outcome test_runtime settlement test_order ≡ settle
unfolding mismatched
settled_outcome = refl

midtrans_refines_example :
    view 1 (Midtrans.process_webhook test_runtime settlement ordered_db).1
    ≡ advance_at 1 (midtrans_outcome test_runtime settlement test_order) 1 (view 1 ordered_db)
midtrans_refines_example =
    midtrans_refines test_runtime settlement test_order ordered_db 1 ordered_db-OneRow refl refl

megabank_refines_example :
    view 1 (MegaBank.process_webhook declined ordered_db).1
    ≡ advance_at 1 (megabank_outcome declined "declined" test_order) 1 (view 1 ordered_db)
megabank_refines_example =
    megabank_refines declined "COIN-1" "declined" test_order ordered_db 1 ordered_db-OneRow refl
      refl refl refl
