-- ===== src/Db/Cases.antt =====
-- How an action that begins with a check can end.
use subscription_be.Prelude.{ℕ, ◌≡◌, refl, Bool, true, false, Option, none, some}
use subscription_be.Db.Action.{
  Code, Result, ok, err, Action, continue, settle, transaction, throw_if, or_throw,
}

module _ {S A B : Type 0} (P : Result B × S → Type 0) where
  settle-cases :
      (s : S) (r : Result A × S) (k : A → Action S B)
      → ((c : Code) (status : ℕ) → P (err c status, s))
      → ((a : A) (s' : S) → r ≡ (ok a, s') → P (k a s'))
      → P (continue (settle s r) k)
  settle-cases s (ok a, s') k fail commit = commit a s' refl
  settle-cases s (err c status, s') k fail commit = fail c status

  -- A transaction rolls back, or commits what its body returned.
  pub transaction-cases :
      (m : Action S A) (k : A → Action S B) (s : S)
      → ((c : Code) (status : ℕ) → P (err c status, s))
      → ((a : A) (s' : S) → m s ≡ (ok a, s') → P (k a s'))
      → P (continue (transaction m s) k)
  transaction-cases m k s fail commit = settle-cases s (m s) k fail commit

  -- `if (!x) throw …`, and what follows
  pub or_throw-cases :
      (o : Option A) (c : Code) (status : ℕ) (k : A → Action S B) (s : S)
      → P (err c status, s)
      → ((a : A) → o ≡ some a → P (k a s))
      → P (continue (or_throw o c status s) k)
  or_throw-cases none c status k s fail pass = fail
  or_throw-cases (some a) c status k s fail pass = pass a refl

module _ {S B : Type 0} (P : Result B × S → Type 0) where
  -- `if (b) throw …`, and what follows
  pub throw_if-cases :
      (b : Bool) (c : Code) (status : ℕ) (k : Action S B) (s : S)
      → P (err c status, s)
      → (b ≡ false → P (k s))
      → P (continue (throw_if b c status s) (λ (_ : Unit {0}). k))
  throw_if-cases true c status k s fail pass = fail
  throw_if-cases false c status k s fail pass = pass refl

module _ {S A B : Type 0} (P : S → Type 0) where
  continue-keeps :
      (r : Result A × S) (k : A → Action S B)
      → P r.1
      → ((a : A) (s' : S) → P s' → P (k a s').1)
      → P (continue r k).1
  continue-keeps (ok a, s') k h next = next a s' h
  continue-keeps (err c status, s') k h next = h

  -- What an action keeps and what follows it keeps, both keep together.
  pub bind-keeps :
      (m : Action S A) (k : A → Action S B) (s : S)
      → P (m s).1
      → ((a : A) (s' : S) → P s' → P (k a s').1)
      → P (continue (m s) k).1
  bind-keeps m k s h next = continue-keeps (m s) k h next

module _ {S A B : Type 0} (P Q : S → Type 0) (weaken : (s : S) → P s → Q s) where
  continue-leads :
      (r : Result A × S) (k : A → Action S B)
      → P r.1
      → ((a : A) (s' : S) → P s' → Q (k a s').1)
      → Q (continue r k).1
  continue-leads (ok a, s') k h next = next a s' h
  continue-leads (err c status, s') k h next = weaken s' h

  -- What an action keeps may be more than what the end of it all needs.
  pub bind-leads :
      (m : Action S A) (k : A → Action S B) (s : S)
      → P (m s).1
      → ((a : A) (s' : S) → P s' → Q (k a s').1)
      → Q (continue (m s) k).1
  bind-leads m k s h next = continue-leads (m s) k h next
