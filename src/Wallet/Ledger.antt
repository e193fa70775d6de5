-- ===== src/Wallet/Ledger.antt =====
-- The wallet against its ledger: what a user holds is what was topped up less what was spent.
use subscription_be.Prelude.{
  ℕ, ◌+◌, ◌*◌, ◌≤◌, ◌<◌, ◌≡◌, refl, ap, ◌≢◌, List, [], ◌∷◌, ◌++◌, Bool, true, false, ◌&&◌, arith,
  ◌==◌, sum_where, count_where, update_many, sum_where-append, sum_where-update_many_sub,
  sum_where-update_many_add, sum_where-update_many_ne, count_where_mono, count_where-update_many,
  count_where-append, if◌then◌else◌,
}
use native.Mathlib.Decide.{ℕ_discrete}
use subscription_be.Db.Schema.{Wallet, CoinTransaction, CoinTransactionType, topup, spend}
use subscription_be.Wallet.{owned_by, covers, decrement, increment}

abbrev pub is_spend : CoinTransactionType → Bool
is_spend topup = false
is_spend spend = true

abbrev pub is_topup : CoinTransactionType → Bool
is_topup topup = true
is_topup spend = false

abbrev pub spent_entry : ℕ → CoinTransaction → Bool
spent_entry user t = t.user_id == user && is_spend t.type

abbrev pub topup_entry : ℕ → CoinTransaction → Bool
topup_entry user t = t.user_id == user && is_topup t.type

abbrev pub balance_of : ℕ → List Wallet → ℕ
balance_of user ws = sum_where (owned_by user) (λ w. w.balance) ws

abbrev pub spent_by : ℕ → List CoinTransaction → ℕ
spent_by user ts = sum_where (spent_entry user) (λ t. t.amount) ts

abbrev pub topped_up_by : ℕ → List CoinTransaction → ℕ
topped_up_by user ts = sum_where (topup_entry user) (λ t. t.amount) ts

-- Every user has at most one wallet (the unique index on `coin_wallet.user_id`), and every user's
-- balance and expenses add up to what the user started with and topped up.
pub record IsBalanced (opening : ℕ → ℕ) (ws : List Wallet) (ts : List CoinTransaction)
    : Type 0 where
  pub one_wallet : (user : ℕ) → count_where (owned_by user) ws ≤ 1
  pub balanced :
      (user : ℕ) → balance_of user ws + spent_by user ts ≡ opening user + topped_up_by user ts

-- One covered wallet loses the cost.
pub balance_of-debit_self :
    (user cost : ℕ) (ws : List Wallet)
    → count_where (owned_by user) ws ≤ 1
    → 0 < count_where (covers user cost) ws
    → balance_of user (update_many (covers user cost) (decrement cost) ws) + cost
      ≡ balance_of user ws
balance_of-debit_self user cost ws one hit =
    let once : count_where (covers user cost) ws ≡ 1 = omega (
      arith,
      count_where_mono (owned_by user) (covers user cost) ws (λ w h. ground arith),
      one,
      hit,
    ) in
    omega (
      arith,
      sum_where-update_many_sub (owned_by user) (λ w. w.balance) (covers user cost) (decrement cost)
          cost ws (λ w. refl) (λ w h. ground arith) (λ w h. ground arith),
      ap (λ (n : ℕ). n * cost) once,
    )

pub balance_of-debit_ne :
    (user cost u : ℕ) (ws : List Wallet)
    → u ≢ user
    → balance_of u (update_many (covers user cost) (decrement cost) ws) ≡ balance_of u ws
balance_of-debit_ne user cost u ws ne =
    sum_where-update_many_ne (owned_by u) (λ w. w.balance) (covers user cost) (decrement cost) ws
      (λ w h. ground arith) (λ w h. ground arith)

-- A wallet that is credited gains the amount.
pub balance_of-credit_self :
    (user amount : ℕ) (ws : List Wallet)
    → count_where (owned_by user) ws ≡ 1
    → balance_of user (update_many (owned_by user) (increment amount) ws)
      ≡ balance_of user ws + amount
balance_of-credit_self user amount ws once = omega (
  arith,
  sum_where-update_many_add (owned_by user) (λ w. w.balance) (owned_by user) (increment amount)
      amount ws (λ w. refl) (λ w h. h) (λ w. refl),
  ap (λ (n : ℕ). n * amount) once,
)

pub balance_of-credit_ne :
    (user amount u : ℕ) (ws : List Wallet)
    → u ≢ user
    → balance_of u (update_many (owned_by user) (increment amount) ws) ≡ balance_of u ws
balance_of-credit_ne user amount u ws ne =
    sum_where-update_many_ne (owned_by u) (λ w. w.balance) (owned_by user) (increment amount) ws
      (λ w h. ground arith) (λ w h. ground arith)

-- The two cases together, for any user `u`.
pub balance_of-credit :
    (user amount u : ℕ) (ws : List Wallet)
    → count_where (owned_by user) ws ≡ 1
    → balance_of u (update_many (owned_by user) (increment amount) ws)
      ≡ balance_of u ws + (if u == user then amount else 0)
balance_of-credit user amount u ws once = elim (ℕ_discrete u user) [
  | yes same ↦ rw same (ground (arith, balance_of-credit_self user amount ws once))
  | no ne ↦ ground (arith, balance_of-credit_ne user amount u ws ne)
]

pub balance_of-debit :
    (user cost u : ℕ) (ws : List Wallet)
    → count_where (owned_by user) ws ≤ 1
    → 0 < count_where (covers user cost) ws
    → balance_of u (update_many (covers user cost) (decrement cost) ws)
        + (if u == user then cost else 0)
      ≡ balance_of u ws
balance_of-debit user cost u ws one hit = elim (ℕ_discrete u user) [
  | yes same ↦ rw same (ground (arith, balance_of-debit_self user cost ws one hit))
  | no ne ↦ ground (arith, balance_of-debit_ne user cost u ws ne)
]

-- A successful debit with its SPEND entry keeps the books.
pub charge-IsBalanced :
    (opening : ℕ → ℕ) (user cost : ℕ) (ws : List Wallet) (ts : List CoinTransaction)
    (t : CoinTransaction)
    → IsBalanced opening ws ts
    → 0 < count_where (covers user cost) ws
    → t.user_id ≡ user
    → t.type ≡ spend
    → t.amount ≡ cost
    → IsBalanced opening (update_many (covers user cost) (decrement cost) ws) (ts ++ t ∷ [])
charge-IsBalanced opening user cost ws ts t h hit whose kind amount = record {
  one_wallet = λ u. omega (
    arith,
    count_where-update_many (owned_by u) (covers user cost) (decrement cost) ws (λ w. refl),
    h.one_wallet u,
  );
  balanced = λ u. elim (ℕ_discrete u user) [
    | yes same ↦ rw same (
        ground (
          arith,
          balance_of-debit_self user cost ws (h.one_wallet user) hit,
          sum_where-append (spent_entry user) (λ x. x.amount) ts (t ∷ []),
          sum_where-append (topup_entry user) (λ x. x.amount) ts (t ∷ []),
          h.balanced user,
        ))
    | no ne ↦ ground (
      arith,
      balance_of-debit_ne user cost u ws ne,
      sum_where-append (spent_entry u) (λ x. x.amount) ts (t ∷ []),
      sum_where-append (topup_entry u) (λ x. x.amount) ts (t ∷ []),
      h.balanced u,
    )
  ];
}

-- A credit with its TOPUP entry keeps the books.
pub credit-IsBalanced :
    (opening : ℕ → ℕ) (user amount : ℕ) (ws : List Wallet) (ts : List CoinTransaction)
    (t : CoinTransaction)
    → IsBalanced opening ws ts
    → count_where (owned_by user) ws ≡ 1
    → t.user_id ≡ user
    → t.type ≡ topup
    → t.amount ≡ amount
    → IsBalanced opening (update_many (owned_by user) (increment amount) ws) (ts ++ t ∷ [])
credit-IsBalanced opening user amount ws ts t h once whose kind same_amount = record {
  one_wallet = λ u. omega (
    arith,
    count_where-update_many (owned_by u) (owned_by user) (increment amount) ws (λ w. refl),
    h.one_wallet u,
  );
  balanced = λ u. elim (ℕ_discrete u user) [
    | yes same ↦ rw same (
        ground (
          arith,
          balance_of-credit_self user amount ws once,
          sum_where-append (spent_entry user) (λ x. x.amount) ts (t ∷ []),
          sum_where-append (topup_entry user) (λ x. x.amount) ts (t ∷ []),
          h.balanced user,
        ))
    | no ne ↦ ground (
      arith,
      balance_of-credit_ne user amount u ws ne,
      sum_where-append (spent_entry u) (λ x. x.amount) ts (t ∷ []),
      sum_where-append (topup_entry u) (λ x. x.amount) ts (t ∷ []),
      h.balanced u,
    )
  ];
}

-- A new wallet is empty.
pub open-IsBalanced :
    (opening : ℕ → ℕ) (ws : List Wallet) (ts : List CoinTransaction) (w : Wallet)
    → IsBalanced opening ws ts
    → count_where (owned_by w.user_id) ws ≡ 0
    → w.balance ≡ 0
    → IsBalanced opening (ws ++ w ∷ []) ts
open-IsBalanced opening ws ts w h absent empty = record {
  one_wallet = λ u. elim (ℕ_discrete u w.user_id) [
    | yes same ↦
        rw same (ground (arith, count_where-append (owned_by w.user_id) ws (w ∷ []), absent))
    | no ne ↦ ground (arith, count_where-append (owned_by u) ws (w ∷ []), h.one_wallet u)
  ];
  balanced =
      λ u. ground (arith, sum_where-append (owned_by u) (λ x. x.balance) ws (w ∷ []), h.balanced u);
}
