-- ===== src/Wallet/Spending.antt =====
-- `CoinWalletService.spend`, which has no transaction round its two writes.
use subscription_be.Prelude.{
  ℕ, refl, not, ◌&&◌, inl, inr, arith, Bool-cases, Option-cases, ltb, count_where, update_many_none,
}
use subscription_be.Db.{Db}
use subscription_be.Db.Table
use subscription_be.Wallet.{
  owned_by, covers, decrement, spend, spend_row, get_wallet, deduct_balance_if_sufficient, debit,
}
use subscription_be.Wallet.Ledger.{IsBalanced, charge-IsBalanced}

-- If every user has at most one wallet, and balance and expenses add up to what was given and topped up,
-- `spend` keeps it so, whether it returns or throws.
pub spend-IsBalanced :
    (opening : ℕ → ℕ) (user amount ref currency : ℕ) (db : Db)
    → IsBalanced opening db.wallets.rows db.transactions.rows
    → let db' = (spend user amount ref currency db).1 in
      IsBalanced opening db'.wallets.rows db'.transactions.rows
unfolding spend get_wallet deduct_balance_if_sufficient debit
spend-IsBalanced opening user amount ref currency db h =
    elim (Option-cases (Table.find (λ w. owned_by user w && not w.deleted) db.wallets)) [
      | inl e ↦ rw e h
      | inr (w, e) ↦
          rw e (elim (Bool-cases (ltb 0 (count_where (covers user amount) db.wallets.rows))) [
            | inl y ↦ rw y (
                charge-IsBalanced opening user amount db.wallets.rows db.transactions.rows
                  (spend_row w.id user amount currency ref db.transactions.next_id) h (ground arith)
                  refl refl refl)
            | inr n ↦
                rw
                  (
                    n,
                    update_many_none (covers user amount) (decrement amount) db.wallets.rows
                        (ground arith),
                  )
                  h
          ])
    ]
