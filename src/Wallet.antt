-- ===== src/Wallet.antt =====
-- src/client/services/coin-wallet.service.ts and src/client/repositories/coin-wallet.repository.ts: the
-- coin wallet, one to a user, and the ledger of what went in and out.
pub mod Ledger
pub mod Opening
pub mod Spending
use subscription_be.Prelude.{
  ℕ, ◌+◌, ◌-◌, Bool, true, false, not, ◌&&◌, Option, none, some, ◌==◌, ltb, leb, if◌then◌else◌,
}
use subscription_be.Db.{Db}
use subscription_be.Db.Table
use subscription_be.Db.Action.{
  Action, ok, ◌>>=◌, ◌>>◌, return, throw, throw_if, reads, or_throw, writes, wallet_not_found,
  insufficient_balance,
}
use subscription_be.Db.Schema.{Wallet, CoinTransaction, CoinTransactionType}

abbrev pub owned_by : ℕ → Wallet → Bool
owned_by user w = w.user_id == user

-- `walletRepo.findByUserId`, which is all of `getWallet`
unfoldable pub get_wallet : ℕ → Action Db (Option Wallet)
get_wallet user = reads (λ db. Table.find (λ w. owned_by user w && not w.deleted) db.wallets)

-- `where: { user_id, balance: { gte: cost } }`
abbrev pub covers : ℕ → ℕ → Wallet → Bool
covers user cost w = owned_by user w && leb cost w.balance

-- `data: { balance: { decrement: cost } }`
abbrev pub decrement : ℕ → Wallet → Wallet
decrement cost w = record w { balance = w.balance - cost }

abbrev pub increment : ℕ → Wallet → Wallet
increment amount w = record w { balance = w.balance + amount }

-- The conditional `updateMany` that takes coins, and its `count`. It stands in
-- `deductBalanceIfSufficient`, in `subscribe` and in `executePlanSwitchTransaction`.
unfoldable pub debit : ℕ → ℕ → Action Db ℕ
debit user cost db = (
  ok (Table.count (covers user cost) db.wallets),
  record db { wallets = Table.update (covers user cost) (decrement cost) db.wallets },
)

-- `deductBalanceIfSufficient`
unfoldable pub deduct_balance_if_sufficient : ℕ → ℕ → Action Db Bool
unfolding debit
deduct_balance_if_sufficient user amount = do count ← debit user amount; return (ltb 0 count)

-- The SPEND entry of the ledger.
abbrev pub spend_row : ℕ → ℕ → ℕ → ℕ → ℕ → ℕ → CoinTransaction
spend_row wallet user amount currency ref id = record {
  id = id;
  wallet_id = wallet;
  user_id = user;
  type = CoinTransactionType.spend;
  amount = amount;
  currency_id = currency;
  ref_id = some ref;
  payment_method_id = none;
  payment_channel = none;
}

abbrev pub record_spend : ℕ → ℕ → ℕ → ℕ → ℕ → Db → Db
record_spend wallet user amount currency ref db = record db {
  transactions = Table.create (spend_row wallet user amount currency ref) db.transactions;
}

-- `CoinWalletService.spend`. The deduction and its ledger entry are two statements, with no
-- transaction round them.
unfoldable pub spend : ℕ → ℕ → ℕ → ℕ → Action Db (Unit {0})
unfolding get_wallet deduct_balance_if_sufficient
spend user amount ref currency = do
  found ← get_wallet user
  wallet ← or_throw found wallet_not_found 404
  deducted ← deduct_balance_if_sufficient user amount
  throw_if (not deducted) insufficient_balance 400
  writes (record_spend wallet.id user amount currency ref)
