-- ===== src/Gateways/Client.antt =====
-- src/megabank/utils/mega-bank-http.util.ts: a signed request to Bank Mega, with retries.
use subscription_be.Prelude.{
  ℕ, ◌≡◌, refl, Bool, true, not, ◌&&◌, List, [], ◌∷◌, leb, ltb, if◌then◌else◌, arith, inr,
}
use native.Mathlib.Decide.{ℕ_discrete}
use subscription_be.Db.Action.{Code, Result, ok, err}
use subscription_be.Http.Retry.{
  Answer, returned, failed, RetryOptions, with_retry, goes_on, with_retry_answers,
}

-- What an attempt throws: a `MegaBankApiError` with the status of the answer, or another `AppError`
pub data ApiError : Type 0 where
  api_error : ℕ → ApiError
  other_error : Code → ℕ → ApiError

-- What the endpoint answers: nothing (the network, a timeout, a body that is no JSON), or a status and
-- the parsed body
pub data ApiReply (A : Type 0) : Type 0 where
  lost : ApiReply A
  status : ℕ → A → ApiReply A

-- `response.ok`
abbrev success : ℕ → Bool
success n = leb 200 n && ltb n 300

-- The four constants, and `shouldRetry`
abbrev pub should_retry : ApiError → Bool
should_retry (api_error n) = not (leb 400 n && ltb n 500)
should_retry (other_error c n) = true

abbrev pub request_options : RetryOptions ApiError
request_options = record {
  max_retries = 3;
  base_delay_ms = 1000;
  max_delay_ms = 8000;
  should_retry = should_retry;
}

module _ {A : Type 0} where
  abbrev replied : Code → ApiReply A → Answer A ApiError
  replied code lost = failed (other_error code 502)
  replied code (status n body) = if success n then returned body else failed (api_error n)

  -- One attempt: the access token, then the request
  unfoldable pub attempt_answer : {T : Type 0} → Code → Result T → ApiReply A → Answer A ApiError
  attempt_answer code (err c n) reply = failed (other_error c n)
  attempt_answer code (ok token) reply = replied code reply

  -- `sendRequest`: the tokens and the replies of the attempts are inputs
  unfoldable pub send_request :
      {T : Type 0}
      → Code
      → ApiError
      → (ℕ → Result T)
      → (ℕ → ApiReply A)
      → Answer A ApiError × List ℕ
  unfolding attempt_answer with_retry
  send_request code none_made tokens replies =
      with_retry request_options (λ n. attempt_answer code (tokens n) (replies n)) none_made

  -- A request whose first two attempts meet errors of the server or the network answers what the third
  -- one does, after a second and two seconds.
  pub send_request_third :
      {T : Type 0} (code : Code) (none_made : ApiError) (tokens : ℕ → Result T)
      (replies : ℕ → ApiReply A)
      → goes_on request_options (attempt_answer code (tokens 1) (replies 1)) ≡ true
      → goes_on request_options (attempt_answer code (tokens 2) (replies 2)) ≡ true
      → send_request code none_made tokens replies
        ≡ (attempt_answer code (tokens 3) (replies 3), 1000 ∷ 2000 ∷ [])
  unfolding send_request
  send_request_third code none_made tokens replies first second =
      with_retry_answers request_options (λ n. attempt_answer code (tokens n) (replies n)) none_made
        2 (ground arith)
        (λ i small. elim (ℕ_discrete i 0) [
          | yes same ↦ rw same first
          | no ne ↦ let same : i ≡ 1 = omega (arith, small, ne) in rw same second
        ])
        (inr refl)
