-- ===== src/Wallet/Opening.antt =====
-- A wallet that is opened with coins.
use subscription_be.Prelude.{
  ℕ, ◌+◌, ◌≡◌, List, [], ◌∷◌, ◌++◌, arith, ◌==◌, count_where, sum_where-append, count_where-append,
  if◌then◌else◌,
}
use native.Mathlib.Decide.{ℕ_discrete}
use subscription_be.Db.Schema.{Wallet, CoinTransaction}
use subscription_be.Wallet.{owned_by}
use subscription_be.Wallet.Ledger.{IsBalanced}

-- The coins that users start with, after one of them was given some
abbrev pub given : (ℕ → ℕ) → ℕ → ℕ → ℕ → ℕ
given opening owner coins user = opening user + (if user == owner then coins else 0)

pub give-IsBalanced :
    (opening : ℕ → ℕ) (ws : List Wallet) (ts : List CoinTransaction) (w : Wallet)
    → IsBalanced opening ws ts
    → count_where (owned_by w.user_id) ws ≡ 0
    → IsBalanced (given opening w.user_id w.balance) (ws ++ w ∷ []) ts
give-IsBalanced opening ws ts w h absent = record {
  one_wallet = λ u. elim (ℕ_discrete u w.user_id) [
    | yes same ↦
        rw same (ground (arith, count_where-append (owned_by w.user_id) ws (w ∷ []), absent))
    | no ne ↦ ground (arith, count_where-append (owned_by u) ws (w ∷ []), h.one_wallet u)
  ];
  balanced =
      λ u. ground (arith, sum_where-append (owned_by u) (λ x. x.balance) ws (w ∷ []), h.balanced u);
}
