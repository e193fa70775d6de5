-- ===== src/Http/Retry.antt =====
-- `withRetry` of src/shared/utils/http.util.ts. An operation is given as what its attempt number n
-- answers; the delays that are waited are part of the result.
use subscription_be.Prelude.{
  ℕ, zero, suc, ◌+◌, ◌-◌, ◌*◌, ◌^◌, ◌≤◌, ◌<◌, ◌≡◌, refl, ap, Bool, true, false, not, List, [], ◌∷◌,
  ltb, min, if◌then◌else◌, arith, length, All, Bool-cases, ◌⊎◌, inl, inr,
}

pub data Answer (A E : Type 0) : Type 0 where
  returned : A → Answer A E
  failed : E → Answer A E

-- `RetryOptions`
pub record RetryOptions (E : Type 0) : Type 0 where
  pub max_retries : ℕ
  pub base_delay_ms : ℕ
  pub max_delay_ms : ℕ
  pub should_retry : E → Bool

Answer-cases :
    {A E : Type 0} (x : Answer A E) → ((a : A) × (x ≡ returned a)) ⊎ ((e : E) × (x ≡ failed e))
Answer-cases (returned a) = inl (a, refl)
Answer-cases (failed e) = inr (e, refl)

module _ {E : Type 0} (options : RetryOptions E) where
  -- `Math.min(baseDelayMs * Math.pow(2, attempt - 1), maxDelayMs)`
  abbrev pub delay_after : ℕ → ℕ
  delay_after attempt = min (options.base_delay_ms * 2 ^ (attempt - 1)) options.max_delay_ms

  abbrev pub delays_from : ℕ → ℕ → List ℕ
  delays_from attempt zero = []
  delays_from attempt (suc n) = delay_after attempt ∷ delays_from (attempt + 1) n

module _ {A E : Type 0} (options : RetryOptions E) where
  -- Whether a call goes on after this answer, if an attempt is left
  abbrev pub goes_on : Answer A E → Bool
  goes_on (returned a) = false
  goes_on (failed e) = options.should_retry e

module _ {A E : Type 0} (options : RetryOptions E) (operation : ℕ → Answer A E) where
  abbrev waited : ℕ → Answer A E × List ℕ → Answer A E × List ℕ
  waited delay (answer, delays) = (answer, delay ∷ delays)

  -- The loop, with the attempts that are left, the number of the next one, and `lastError`
  abbrev attempts : ℕ → ℕ → E → Answer A E × List ℕ
  attempts zero attempt last = (failed last, [])
  attempts (suc left) attempt last = elim (operation attempt) [
    | returned a ↦ (returned a, [])
    | failed e ↦
        let rest = attempts left (attempt + 1) e in
        if not (options.should_retry e)
        then (failed e, [])
        else if ltb attempt options.max_retries
        then waited (delay_after options attempt) rest
        else rest
  ]

  -- `withRetry`; the last argument is the error that stands in where no attempt is allowed
  unfoldable pub with_retry : E → Answer A E × List ℕ
  with_retry none_made = attempts options.max_retries 1 none_made

  attempts_end :
      (left attempt : ℕ) (last : E) (k : ℕ)
      → k < left
      → attempt + left ≡ options.max_retries + 1
      → ((i : ℕ) → i < k → goes_on options (operation (attempt + i)) ≡ true)
      → (goes_on options (operation (attempt + k)) ≡ false) ⊎ (k + 1 ≡ left)
      → attempts left attempt last ≡ (operation (attempt + k), delays_from options attempt k)
  attempts_end zero attempt last k lt total go_on stop = ground arith
  attempts_end (suc left) attempt last zero lt total go_on stop =
      let here : attempt + 0 ≡ attempt = omega arith in
      rw here (elim (Answer-cases (operation attempt)) [
        | inl (a, is) ↦ rw (attempts, is)
        | inr (e, is) ↦ elim stop [
          | inl final ↦
              let off : options.should_retry e ≡ false = ground (
                arith,
                ap (λ (n : ℕ). goes_on options (operation n)) here,
                ap (goes_on options) is,
                final,
              ) in
              rw (attempts, is) (rw off)
          | inr only ↦
              let none_left : left ≡ 0 = omega (arith, only) in
              let last_one : ltb attempt options.max_retries ≡ false =
                ground (arith, total, none_left) in
              rw (attempts, is, none_left)
                (elim (Bool-cases (options.should_retry e)) [
                  | inl on ↦ rw (on, last_one)
                  | inr off ↦ rw off
                ])
        ]
      ])
  attempts_end (suc left) attempt last (suc k) lt total go_on stop =
      let here : attempt + 0 ≡ attempt = omega arith in
      let shift : (i : ℕ) → (attempt + 1) + i ≡ attempt + suc i = λ i. omega arith in
      elim (Answer-cases (operation attempt)) [
        | inl (a, is) ↦ ground (
          arith,
          go_on 0,
          ap (λ (n : ℕ). goes_on options (operation n)) here,
          ap (goes_on options) is,
        )
        | inr (e, is) ↦
            let on : options.should_retry e ≡ true = ground (
              arith,
              go_on 0,
              ap (λ (n : ℕ). goes_on options (operation n)) here,
              ap (goes_on options) is,
            ) in
            let more : ltb attempt options.max_retries ≡ true = ground (arith, total, lt) in
            let rest =
              attempts_end left (attempt + 1) e k (omega (arith, lt)) (omega (arith, total))
                (λ i small. rw (shift i) (go_on (suc i) (omega (arith, small))))
                (rw (shift k)
                  (elim stop [ inl final ↦ inl final | inr only ↦ inr (omega (arith, only)) ])) in
            rw (attempts, is, on, more, rest, shift k)
      ]

  -- Where the first k attempts failed and could be tried again, and attempt k + 1 returns, fails for good
  -- or is the last one allowed, the call answers what that attempt answered, after waiting after each
  -- attempt before it.
  pub with_retry_answers :
      (none_made : E) (k : ℕ)
      → k < options.max_retries
      → ((i : ℕ) → i < k → goes_on options (operation (1 + i)) ≡ true)
      → (goes_on options (operation (1 + k)) ≡ false) ⊎ (k + 1 ≡ options.max_retries)
      → with_retry none_made ≡ (operation (1 + k), delays_from options 1 k)
  unfolding with_retry
  with_retry_answers none_made k allowed go_on stop =
      attempts_end options.max_retries 1 none_made k allowed (omega arith) go_on stop

  abbrev Short : ℕ → Type 0
  Short delay = delay ≤ options.max_delay_ms

  attempts-bounds :
      (left attempt : ℕ) (last : E)
      → attempt + left ≡ options.max_retries + 1
      → let delays = (attempts left attempt last).1 in (length delays ≤ left - 1) × All Short delays
  attempts-bounds zero attempt last total = (omega arith, tt)
  attempts-bounds (suc left) attempt last total = elim (Answer-cases (operation attempt)) [
    | inl (a, is) ↦ rw (attempts, is) (omega arith, tt)
    | inr (e, is) ↦
        let rest = attempts-bounds left (attempt + 1) e (omega (arith, total)) in
        elim (Bool-cases (options.should_retry e)) [
          | inr off ↦ rw (attempts, is, off) (omega arith, tt)
          | inl on ↦ elim (Bool-cases (ltb attempt options.max_retries)) [
            | inl more ↦
                rw (attempts, is, on, more)
                  (ground (arith, rest.0, more, total), (omega arith, rest.1))
            | inr last_one ↦ rw (attempts, is, on, last_one) (omega (arith, rest.0), rest.1)
          ]
        ]
  ]

  -- No delay is longer than the longest one, and one delay fewer is waited than attempts are allowed, at most.
  pub with_retry-bounds :
      (none_made : E)
      → let delays = (with_retry none_made).1 in
        (length delays ≤ options.max_retries - 1) × All Short delays
  unfolding with_retry
  with_retry-bounds none_made = attempts-bounds options.max_retries 1 none_made (omega arith)
