-- ===== src/Gateways/Calls.antt =====
-- Sequences of requests at the endpoints of both gateways, and the signature of those that have an effect.
use Prim.Native.String.{◌++◌ as text_append}
use text.Mathlib.TextLemmas.{append_assoc}
use subscription_be.Prelude.{
  ◌+◌, ◌≤◌, ◌⊎◌, inl, inr, List, [], ◌∷◌, ap, sym, ◌∙◌, str_eq, true, refl, if◌then◌else◌,
  Bool-cases, ℕ, ◌≡◌, refl, String, Option, none, some, false, not, arith,
}
use subscription_be.Db.{Db}
use subscription_be.Db.Action.{
  Result, invalid_notification, invalid_signature, missing_signature, missing_raw_body,
}
use subscription_be.Db.Cases.{throw_if-cases, or_throw-cases}
use subscription_be.CoinOrder.Payment.{handle_payment_success, handle_payment_failure}
use subscription_be.CoinOrder.Once.{Reach, here}
use subscription_be.Gateways.{Runtime, same_bytes}
use subscription_be.Gateways.Midtrans
use subscription_be.Gateways.MegaBank
use subscription_be.Gateways.Callbacks.{
  handle_payment_success-Reach, handle_payment_failure-Reach, midtrans_request-keeps,
  mega_request-keeps,
}

-- What the deployment sets: the server key of Midtrans, and what Bank Mega needs
pub record Deployment : Type 0 where
  pub midtrans_key : String
  pub megabank : MegaBank.Config

-- A request at one of the two endpoints, at a time
pub data Call : Type 0 where
  midtrans_called : Option Midtrans.Notification → Call
  megabank_called : ℕ → MegaBank.Request → Call

-- What a request leaves in the database.
abbrev pub serve : Runtime → Deployment → Call → Db → Db
serve js env (midtrans_called body) db =
    (Midtrans.handle_notification js env.midtrans_key body db).1
serve js env (megabank_called now req) db =
    (MegaBank.handle_mpg_notification js env.megabank now req db).1

serve-keeps :
    (P : Db → Type 0) (db : Db)
    → ((id : String) (amount : Option ℕ) (channel : Option String)
        → P (handle_payment_success id amount channel db).1)
    → ((id : String) → P (handle_payment_failure id db).1)
    → P db
    → (js : Runtime) (env : Deployment) (call : Call) → P (serve js env call db)
serve-keeps P db paid refused same js env (midtrans_called body) =
    midtrans_request-keeps P db paid refused same js env.midtrans_key body
serve-keeps P db paid refused same js env (megabank_called now req) =
    mega_request-keeps P db paid refused same js env.megabank now req

-- A request is a sequence of the steps of the coin orders.
pub serve-Reach :
    (js : Runtime) (env : Deployment) (call : Call) (db : Db) → Reach db (serve js env call db)
serve-Reach js env call db =
    serve-keeps (Reach db) db
      (λ id amount channel. handle_payment_success-Reach id amount channel db)
      (λ id. handle_payment_failure-Reach id db) here js env call

-- The signature of a Midtrans notification, as Midtrans documents it:
-- SHA512(order_id + status_code + gross_amount + ServerKey)
pub record IsSignedMidtrans (js : Runtime) (key : String) (n : Midtrans.Notification) : Type 0 where
  pub keyed : str_eq key "" ≡ false
  pub same :
      js.bytes_of_hex (
        js.sha512_hex (
          text_append n.order_id (
            text_append
              (Midtrans.text_of n.status_code)
              (text_append (Midtrans.text_of n.gross_amount) key))))
      ≡ js.bytes_of_hex n.signature_key

-- The header `signature;timestamp` of a Bank Mega request: the HMAC of the raw body with the timestamp
-- under the client's secret, and a timestamp at most five minutes away
pub record IsSignedMega (js : Runtime) (secret : String) (now : ℕ) (req : MegaBank.Request)
    : Type 0 where
  pub header : String
  pub sent : req.signature ≡ some header
  pub raw : String
  pub body : req.raw_body ≡ some raw
  pub timestamp : String
  pub dated : MegaBank.second_part header ≡ some timestamp
  pub time : ℕ
  pub read : js.date timestamp ≡ some time
  pub recent : (now ≤ time + 300000) × (time ≤ now + 300000)
  pub same :
      js.bytes_of_base64 (MegaBank.first_part header)
      ≡ js.bytes_of_base64 (js.hmac_sha512_base64 (text_append raw timestamp) secret)

abbrev pub IsSigned : Runtime → Deployment → Call → Type 0
IsSigned js env (midtrans_called none) = ⊥
IsSigned js env (midtrans_called (some n)) = IsSignedMidtrans js env.midtrans_key n
IsSigned js env (megabank_called now req) = IsSignedMega js env.megabank.client_secret now req

same_bytes-eq : (xs ys : List ℕ) → same_bytes xs ys ≡ true → xs ≡ ys
same_bytes-eq [] [] h = refl
same_bytes-eq [] (b ∷ bs) h = ground arith
same_bytes-eq (a ∷ xs) [] h = ground arith
same_bytes-eq (a ∷ xs) (b ∷ ys) h =
    let here : a ≡ b = ground (arith, h) in
    let rest : same_bytes xs ys ≡ true = ground (arith, h) in
    ap (λ (n : ℕ). n ∷ xs) here ∙ ap (λ (l : List ℕ). b ∷ l) (same_bytes-eq xs ys rest)

filled-own : (own text : String) → MegaBank.filled (some own) ≡ some text → some own ≡ some text
filled-own own text = elim (Bool-cases (str_eq own "")) [
  | inl empty ↦ rw empty (λ h. ground arith)
  | inr given ↦ rw given (λ h. h)
]

filled-eq :
    (header : Option String) (text : String)
    → MegaBank.filled header ≡ some text
    → header ≡ some text
filled-eq none text h = ground arith
filled-eq (some own) text h = filled-own own text h

signed_text_assoc :
    (key : String) (n : Midtrans.Notification)
    → Midtrans.signed_text key n
      ≡ text_append n.order_id (
          text_append
            (Midtrans.text_of n.status_code)
            (text_append (Midtrans.text_of n.gross_amount) key))
signed_text_assoc key n =
    let code = Midtrans.text_of n.status_code in
    let amount = Midtrans.text_of n.gross_amount in
    append_assoc (text_append n.order_id code) amount key
    ∙ append_assoc n.order_id code (text_append amount key)

midtrans-IsSigned :
    (js : Runtime) (key : String) (n : Midtrans.Notification)
    → Midtrans.verify_webhook_signature js key n ≡ true
    → IsSignedMidtrans js key n
unfolding Midtrans.verify_webhook_signature
midtrans-IsSigned js key n = elim (Bool-cases (str_eq key "")) [
  | inl empty ↦ rw empty (λ h. ground arith)
  | inr keyed ↦ rw keyed (elim (Bool-cases (str_eq n.signature_key "")) [
    | inl empty ↦ rw empty (λ h. ground arith)
    | inr given ↦ rw given (λ h. record {
      keyed = keyed;
      same =
          ap (λ (t : String). js.bytes_of_hex (js.sha512_hex t)) (sym (signed_text_assoc key n))
          ∙ same_bytes-eq (js.bytes_of_hex (js.sha512_hex (Midtrans.signed_text key n)))
              (js.bytes_of_hex n.signature_key) h;
    })
  ])
]

module _ (js : Runtime) (secret : String) (now : ℕ) (req : MegaBank.Request) (raw header : String)
    (sent : req.signature ≡ some header) (body : req.raw_body ≡ some raw) where
  dated-IsSigned :
      (timestamp : String) (date : Option ℕ)
      → MegaBank.second_part header ≡ some timestamp
      → js.date timestamp ≡ date
      → (if MegaBank.outside_window now date
          then false
          else same_bytes
              (js.bytes_of_base64 (MegaBank.first_part header))
              (js.bytes_of_base64 (js.hmac_sha512_base64 (text_append raw timestamp) secret)))
        ≡ true
      → IsSignedMega js secret now req
  dated-IsSigned timestamp none dated read h = ground arith
  dated-IsSigned timestamp (some time) dated read h =
      let near : MegaBank.outside_window now (some time) ≡ false = ground (arith, h) in
      record {
        header = header;
        sent = sent;
        raw = raw;
        body = body;
        timestamp = timestamp;
        dated = dated;
        time = time;
        read = read;
        recent = (ground (arith, near), ground (arith, near));
        same =
            same_bytes-eq (js.bytes_of_base64 (MegaBank.first_part header))
              (js.bytes_of_base64 (js.hmac_sha512_base64 (text_append raw timestamp) secret))
              (ground (arith, h, near));
      }

  parts-IsSigned :
      (second : Option String)
      → MegaBank.second_part header ≡ second
      → MegaBank.verify_parts js secret now raw (MegaBank.first_part header) second ≡ true
      → IsSignedMega js secret now req
  parts-IsSigned none dated h = ground arith
  parts-IsSigned (some timestamp) dated h =
      dated-IsSigned timestamp (js.date timestamp) dated refl h

mega-IsSigned :
    (js : Runtime) (config : MegaBank.Config) (now : ℕ) (req : MegaBank.Request)
    (raw header : String)
    → config.mock_mode ≡ false
    → req.signature ≡ some header
    → req.raw_body ≡ some raw
    → MegaBank.verify_webhook_signature js config now raw header ≡ true
    → IsSignedMega js config.client_secret now req
unfolding MegaBank.verify_webhook_signature
mega-IsSigned js config now req raw header real sent body = rw real (
    parts-IsSigned js config.client_secret now req raw header sent body
      (MegaBank.second_part header) refl)

-- A request at either endpoint changes nothing, or it bears the signature that the gateway makes with the
-- shared secret, at Bank Mega with a timestamp at most five minutes from the clock; this holds where the
-- mock mode of Bank Mega is off.
pub serve-IsSigned :
    (js : Runtime) (env : Deployment) (call : Call) (db : Db)
    → env.megabank.mock_mode ≡ false
    → (serve js env call db ≡ db) ⊎ IsSigned js env call
unfolding Midtrans.handle_notification MegaBank.handle_mpg_notification
serve-IsSigned js env (midtrans_called none) db real = inl refl
serve-IsSigned js env (midtrans_called (some n)) db real =
    let P = λ (r : Result (Unit {0}) × Db). (r.1 ≡ db) ⊎ IsSignedMidtrans js env.midtrans_key n in
    throw_if-cases P (Midtrans.malformed n) invalid_notification 400 _ db (inl refl) λ well.
      throw_if-cases P (not (Midtrans.verify_webhook_signature js env.midtrans_key n))
        invalid_signature 403 _ db (inl refl)
        λ valid. inr (midtrans-IsSigned js env.midtrans_key n (ground (arith, valid)))
serve-IsSigned js env (megabank_called now req) db real =
    let P =
      λ (r : Result String × Db). (r.1 ≡ db) ⊎ IsSignedMega js env.megabank.client_secret now req in
    or_throw-cases P (MegaBank.filled req.signature) missing_signature 401 _ db (inl refl)
      λ header given. or_throw-cases P req.raw_body missing_raw_body 400 _ db (inl refl) λ raw body.
        throw_if-cases P (not (MegaBank.verify_webhook_signature js env.megabank now raw header))
          invalid_signature 403 _ db (inl refl)
          λ valid. inr (
            mega-IsSigned js env.megabank now req raw header real
              (filled-eq req.signature header given) body (ground (arith, valid)))
