-- ===== src/Db/Action.antt =====
-- A service method: it reads and writes a state, and returns a value or throws an `AppError`
-- (src/shared/middlewares/error.middleware.ts) with a code and an HTTP status. What was written before
-- a throw stays written, except inside `$transaction`.
use subscription_be.Prelude.{ℕ, ◌≡◌, refl, Bool, true, false, Option, none, some}

pub data Code : Type 0 where
  sku_not_found sku_inactive active_subscription_exists no_active_package : Code
  wallet_not_found insufficient_balance : Code
  subscription_not_found forbidden already_cancelled : Code
  subscription_not_active invalid_switch_type invalid_new_sku already_on_plan : Code
  order_not_found amount_mismatch pending_order_exists : Code
  bundle_not_found invalid_payment_method inactive_currency invalid_nominal : Code
  quota_exceeded : Code
  not_found : Code
  tax_not_found unauthorized : Code
  -- a unique constraint that no handler turns into an `AppError` (Prisma's P2002)
  unique_violation : Code
  -- what the payment gateway's call throws
  gateway_error : Code
  invalid_notification invalid_signature missing_signature missing_raw_body : Code
  user_exists user_not_found no_active_currency : Code
  invalid_token token_expired already_active account_already_active : Code
  invalid_credentials account_inactive email_send_failed : Code
  currency_not_found duplicate_currency : Code
  plan_not_found duplicate_sku record_not_found : Code
  currency_inactive invalid_discount_price : Code
  -- a value that Prisma refuses for the column's type
  invalid_column_value : Code
  mega_bank_auth_error internal_error unprocessable_entity : Code

pub data Result (A : Type 0) : Type 0 where
  ok : A → Result A
  err : Code → ℕ → Result A

abbrev pub Action : Type 0 → Type 0 → Type 0
Action S A = S → Result A × S

module _ {S A : Type 0} where
  abbrev pub return : A → Action S A
  return a s = (ok a, s)

  -- `throw new AppError(code, message, status)`
  abbrev pub throw : Code → ℕ → Action S A
  throw c status s = (err c status, s)

  abbrev pub reads : (S → A) → Action S A
  reads f s = (ok (f s), s)

  -- `if (!x) throw …`
  abbrev pub or_throw : Option A → Code → ℕ → Action S A
  or_throw none c status s = (err c status, s)
  or_throw (some a) c status s = (ok a, s)

  abbrev pub settle : S → Result A × S → Result A × S
  settle s (ok a, s') = (ok a, s')
  settle s (err c status, s') = (err c status, s)

  -- `prisma.$transaction`: a throw undoes every write of the body.
  abbrev pub transaction : Action S A → Action S A
  transaction m s = settle s (m s)

module _ {S A B : Type 0} where
  infixl 5 ◌>>=◌ ◌>>◌
  abbrev pub continue : Result A × S → (A → Action S B) → Result B × S
  continue (ok a, s) k = k a s
  continue (err c status, s) k = (err c status, s)

  abbrev pub ◌>>=◌ : Action S A → (A → Action S B) → Action S B
  ◌>>=◌ m k s = continue (m s) k

  abbrev pub ◌>>◌ : Action S A → Action S B → Action S B
  ◌>>◌ m k s = continue (m s) (λ _. k)

module _ {S : Type 0} where
  abbrev pub writes : (S → S) → Action S (Unit {0})
  writes f s = (ok tt, f s)

  -- `if (b) throw …`
  abbrev pub throw_if : Bool → Code → ℕ → Action S (Unit {0})
  throw_if true c status s = (err c status, s)
  throw_if false c status s = (ok tt, s)

module _ {S A : Type 0} (P : S → Type 0) where
  settle-keeps : (s : S) (r : Result A × S) → P s → P r.1 → P (settle s r).1
  settle-keeps s (ok a, s') h k = k
  settle-keeps s (err c status, s') h k = h

  -- What the body of a transaction keeps, the transaction keeps.
  pub transaction-keeps : (m : Action S A) (s : S) → P s → P (m s).1 → P (transaction m s).1
  transaction-keeps m s h k = settle-keeps s (m s) h k

module _ {S A : Type 0} where
  settle-eq_of_ok : (s : S) (r : Result A × S) (a : A) → r.0 ≡ ok a → settle s r ≡ r
  settle-eq_of_ok s (ok b, s') a h = refl
  settle-eq_of_ok s (err c status, s') a h = cc

  -- A transaction whose body does not throw is its body.
  pub transaction-eq_of_ok :
      (m : Action S A) (s : S) (a : A) → (m s).0 ≡ ok a → transaction m s ≡ m s
  transaction-eq_of_ok m s a h = settle-eq_of_ok s (m s) a h
