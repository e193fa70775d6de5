-- ===== src/Subscription/Committed.antt =====
-- The state that a purchase commits.
use subscription_be.Prelude.{
  ℕ, ◌<◌, ◌≡◌, ap, inl, inr, arith, Bool-cases, Option-cases, ◌==◌, count_where,
}
use subscription_be.Db.{Db}
use subscription_be.Db.Table
use subscription_be.Db.Action.{Code, Result, ok, err}
use subscription_be.Db.Schema.{Sku, Wallet}
use subscription_be.Wallet.{owned_by, covers, debit, record_spend}
use subscription_be.Outbox.{Env}
use subscription_be.Subscription.Rows.{keys_taken, is_fractional}
use subscription_be.Subscription.Purchase.{purchase, open_subscription, mirrored_quotas}

-- What `purchase` writes, with `w` the wallet that it found.
abbrev pub purchased : Env → ℕ → Sku → ℕ → Wallet → Db → Db
purchased env user sku currency w db =
    let id = db.subscriptions.next_id in
    let paid = (debit user sku.coin_cost (open_subscription env user sku db)).1 in
    let booked = record_spend w.id user sku.coin_cost currency id paid in
    record booked { quotas = mirrored_quotas user id sku booked.quotas }

pub record Committed (env : Env) (user : ℕ) (sku : Sku) (currency : ℕ) (db : Db) (id : ℕ) (db' : Db)
    : Type 0 where
  pub wallet : Wallet
  pub covered : 0 < count_where (covers user sku.coin_cost) db.wallets.rows
  pub key : db.subscriptions.next_id ≡ id
  pub state : purchased env user sku currency wallet db ≡ db'

abbrev id_of : Result ℕ → ℕ
id_of (ok n) = n
id_of (err c status) = 0

absurd_of :
    {P : Type 0}
    → {c : Code} → {status id : ℕ} → {db db' : Db}
    → ◌≡◌ {A = Result ℕ × Db} (err c status, db) (ok id, db')
    → P
absurd_of h = cc

pub purchase-Committed :
    (env : Env) (user : ℕ) (sku : Sku) (currency : ℕ) (db : Db) (id : ℕ) (db' : Db)
    → purchase env user sku currency db ≡ (ok id, db')
    → Committed env user sku currency db id db'
unfolding purchase
purchase-Committed env user sku currency db id db' =
    elim (Option-cases (Table.find (owned_by user) db.wallets)) [
      | inl e ↦ rw e (λ h. absurd_of h)
      | inr (w, e) ↦ rw e (elim (Bool-cases (keys_taken env.purchase_token env.order_number db)) [
        | inl t ↦ rw t (λ h. absurd_of h)
        | inr t ↦ rw t (elim (Bool-cases (is_fractional sku.coin_cost)) [
          | inl odd ↦ rw odd (λ h. absurd_of h)
          | inr whole ↦
              rw whole
                (elim (Bool-cases (count_where (covers user sku.coin_cost) db.wallets.rows == 0)) [
                  | inl z ↦ rw z (λ h. absurd_of h)
                  | inr z ↦ rw z (λ h. record {
                    wallet = w;
                    covered = ground arith;
                    key = ap id_of (ap (λ r. r.0) h);
                    state = ap (λ r. r.1) h;
                  })
                ])
        ])
      ])
    ]
