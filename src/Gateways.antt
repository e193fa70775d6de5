-- ===== src/Gateways.antt =====
-- src/shared/payment and src/shared/utils/crypto.util.ts: what the two payment gateways share. Node's
-- `crypto` and `Buffer`, and JavaScript's readings of numbers and dates, are the record `Runtime`.
pub mod Midtrans
pub mod MegaBank
pub mod Callbacks
pub mod Calls
pub mod Token
pub mod Client
pub mod Machine
pub mod Refinement
use subscription_be.Prelude.{
  ℕ, String, Bool, true, false, ◌&&◌, ◌||◌, Option, none, some, List, [], ◌∷◌, ◌==◌, str_eq,
}

-- The functions that are called, none of them code of this repository
pub record Runtime : Type 0 where
  -- `createHash('sha512')` and `createHash('md5')`, in hexadecimal
  pub sha512_hex : String → String
  pub md5_hex : String → String
  -- `createHmac('sha512', secret)` in Base64: the data, then the secret
  pub hmac_sha512_base64 : String → String → String
  -- `Buffer.from(text, 'hex')` and `Buffer.from(text, 'base64')`
  pub bytes_of_hex : String → List ℕ
  pub bytes_of_base64 : String → List ℕ
  -- `Number(text)` in hundredths: `none` for what is not a number or is negative
  pub number : String → Option ℕ
  -- `new Date(text).getTime()`: `none` for an invalid date
  pub date : String → Option ℕ

-- `crypto.timingSafeEqual`, after the comparison of the lengths
abbrev pub same_bytes : List ℕ → List ℕ → Bool
same_bytes [] [] = true
same_bytes [] (b ∷ bs) = false
same_bytes (a ∷ xs) [] = false
same_bytes (a ∷ xs) (b ∷ bs) = (a == b) && same_bytes xs bs

-- `timingSafeHexEqual` and `timingSafeBase64Equal`
abbrev pub timing_safe_hex_equal : Runtime → String → String → Bool
timing_safe_hex_equal js a b = same_bytes (js.bytes_of_hex a) (js.bytes_of_hex b)

abbrev pub timing_safe_base64_equal : Runtime → String → String → Bool
timing_safe_base64_equal js a b = same_bytes (js.bytes_of_base64 a) (js.bytes_of_base64 b)

-- `texts.includes(text)`
abbrev pub includes : List String → String → Bool
includes [] text = false
includes (t ∷ ts) text = str_eq text t || includes ts text

-- The same, of a text that can be undefined
abbrev pub includes_opt : List String → Option String → Bool
includes_opt texts none = false
includes_opt texts (some text) = includes texts text
