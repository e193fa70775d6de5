-- ===== src/Http/Signed.antt =====
-- src/shared/middlewares/webhook-auth.middleware.ts with `signWebhookPayload` and
-- `verifyWebhookSignature` of src/shared/utils/crypto.util.ts: the requests of Domain 2. The answers of
-- the middleware are the throws, and what it hands on is the result.
use Prim.Native.String.append
use Prim.Native.String.compare
use Prim.Native.String.{[], ◌∷◌, ◌++◌ as text_append}
use text.Mathlib.Text.{is_eq}
use subscription_be.Prelude.{
  ℕ, suc, ◌+◌, ◌-◌, ◌≤◌, ◌≡◌, refl, ap, ◌∙◌, String, Bool, false, not, Option, none, some, ltb,
  str_eq, str_eq_iff, if◌then◌else◌, arith, inl, inr, Bool-cases,
}
use subscription_be.Prelude.Int.{ℤ, pos, negsuc}
use subscription_be.Db.Action.{
  Action, Result, ok, ◌>>=◌, ◌>>◌, return, throw_if, or_throw, unauthorized, internal_error,
  unprocessable_entity,
}
use subscription_be.Db.Cases.{or_throw-cases, throw_if-cases}

-- What Node and JavaScript compute: HMAC-SHA256 in hexadecimal (the data, then the secret), `parseInt`
-- with `none` for NaN, whether a text is blank, and `JSON.parse` with `none` for a throw
pub record Runtime (J : Type 0) : Type 0 where
  pub hmac_sha256_hex : String → String → String
  pub parse_int : String → Option ℤ
  pub is_blank : String → Bool
  pub parse_json : String → Option J

-- `req.body`: the bytes as a text, a text, or an object that some other parser made, with keys or without
pub data Body : Type 0 where
  buffer : String → Body
  plain : String → Body
  keyless : Body
  parsed : Body

pub record Request : Type 0 where
  pub signature : Option String
  pub timestamp : Option String
  pub body : Body

-- `!header`
abbrev pub filled : Option String → Option String
filled none = none
filled (some t) = if str_eq t "" then none else some t

abbrev pub raw_body : Body → Option String
raw_body (buffer t) = some t
raw_body (plain t) = some t
raw_body keyless = some ""
raw_body parsed = none

-- `Math.abs(now - timestamp)`, in seconds
abbrev pub drift : ℕ → ℤ → ℕ
drift now (pos t) = (now - t) + (t - now)
drift now (negsuc n) = now + suc n

-- What begins with a text that is not empty is not empty.
prefixed : (p t : String) → str_eq p "" ≡ false → str_eq (text_append p t) "" ≡ false
prefixed [] t filled = ground (arith, filled)
prefixed (c ∷ p) t filled =
    ap (λ (x : String). str_eq x "") (append.cons c p t)
    ∙ ap is_eq (compare.cons-nil c (text_append p t))

filled-given : (h t : String) → filled (some h) ≡ some t → some h ≡ some t
filled-given h t = elim (Bool-cases (str_eq h "")) [
  | inl empty ↦ rw empty (λ e. ground arith)
  | inr given ↦ rw given (λ e. e)
]

filled-some : (header : Option String) (t : String) → filled header ≡ some t → header ≡ some t
filled-some none t e = ground arith
filled-some (some h) t e = filled-given h t e

module _ {J : Type 0} (js : Runtime J) (secret : String) where
  -- `signWebhookPayload`
  abbrev pub sign_webhook_payload : String → String
  sign_webhook_payload raw = text_append "sha256=" (js.hmac_sha256_hex raw secret)

  -- `verifyWebhookSignature`: the bytes of two texts are the same where the texts are
  abbrev pub verify_webhook_signature : String → String → Bool
  verify_webhook_signature raw signature = str_eq signature (sign_webhook_payload raw)

  -- "Reconstruct parsed body from raw string": `none` stands for the empty object
  abbrev parsed_body : {S : Type 0} → String → Action S (Option J)
  parsed_body raw s =
      if js.is_blank raw
      then (ok none, s)
      else (or_throw (js.parse_json raw) unprocessable_entity 422 >>= λ j. return (some j)) s

  -- `webhookAuthMiddleware`; `now` is the clock in seconds
  unfoldable pub webhook_auth : {S : Type 0} → ℕ → Request → Action S (Option J)
  webhook_auth now req = do
    signature ← or_throw (filled req.signature) unauthorized 401
    header ← or_throw (filled req.timestamp) unauthorized 401
    timestamp ← or_throw (js.parse_int header) unauthorized 401
    throw_if (ltb 300 (drift now timestamp)) unauthorized 401
    raw ← or_throw (raw_body req.body) internal_error 500
    throw_if (not (verify_webhook_signature raw signature)) unauthorized 401
    parsed_body raw

  -- What a request that was let through has shown.
  pub record Trusted (now : ℕ) (req : Request) : Type 0 where
    pub raw : String
    pub sent : raw_body req.body ≡ some raw
    pub signed : req.signature ≡ some (sign_webhook_payload raw)
    pub header : String
    pub dated : req.timestamp ≡ some header
    pub timestamp : ℤ
    pub read : js.parse_int header ≡ some timestamp
    pub recent : drift now timestamp ≤ 300

  -- Only a request with the signature of its raw body under the shared secret, and a timestamp at most five
  -- minutes from the clock, is let through.
  pub webhook_auth-Trusted :
      {S : Type 0} (now : ℕ) (req : Request) (s : S) (body : Option J)
      → (webhook_auth now req s).0 ≡ ok body
      → Trusted now req
  unfolding webhook_auth
  webhook_auth-Trusted {S = S} now req s body =
      let P = λ (r : Result (Option J) × S). r.0 ≡ ok body → Trusted now req in
      or_throw-cases P (filled req.signature) unauthorized 401 _ s (λ e. cc)
        λ signature given.
          or_throw-cases P (filled req.timestamp) unauthorized 401 _ s (λ e. cc)
            λ header dated.
              or_throw-cases P (js.parse_int header) unauthorized 401 _ s (λ e. cc)
                λ timestamp read.
                  throw_if-cases P (ltb 300 (drift now timestamp)) unauthorized 401 _ s (λ e. cc)
                    λ near.
                      or_throw-cases P (raw_body req.body) internal_error 500 _ s (λ e. cc)
                        λ raw sent.
                          throw_if-cases P (not (verify_webhook_signature raw signature))
                            unauthorized 401 _ s (λ e. cc)
                            λ valid e. record {
                              raw = raw;
                              sent = sent;
                              signed =
                                  filled-some req.signature signature given
                                  ∙ ap some (
                                      (str_eq_iff signature (sign_webhook_payload raw)).0
                                        (ground (arith, valid)));
                              header = header;
                              dated = filled-some req.timestamp header dated;
                              timestamp = timestamp;
                              read = read;
                              recent = ground (arith, near);
                            }

  -- A request that `sign_webhook_payload` signed under the shared secret, with a timestamp at most five
  -- minutes from the clock and a JSON body, is let through, and its parsed body is handed on.
  pub signed_is_let_through :
      {S : Type 0} (now : ℕ) (header raw : String) (timestamp : ℤ) (json : J) (s : S)
      → str_eq header "" ≡ false
      → js.parse_int header ≡ some timestamp
      → drift now timestamp ≤ 300
      → js.is_blank raw ≡ false
      → js.parse_json raw ≡ some json
      → webhook_auth now
          (record {
            signature = some (sign_webhook_payload raw);
            timestamp = some header;
            body = buffer raw;
          })
          s
        ≡ (ok (some json), s)
  unfolding webhook_auth
  signed_is_let_through now header raw timestamp json s given read near full parses =
      let sign = sign_webhook_payload raw in
      let recent : ltb 300 (drift now timestamp) ≡ false = ground (arith, near) in
      let not_empty : str_eq sign "" ≡ false =
        prefixed "sha256=" (js.hmac_sha256_hex raw secret) refl in
      rw (not_empty, given, read, recent, (str_eq_iff sign sign).1 refl, full, parses)
