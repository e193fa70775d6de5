-- ===== src/Subscription/Quotas.antt =====
-- The quotas that a package brings.
use subscription_be.Prelude.{
  ℕ, ◌≡◌, refl, ap, String, Bool, true, some, List, [], ◌∷◌, ◌++◌, arith, ◌==◌, find_many, map,
  or_else, if◌then◌else◌,
}
use subscription_be.Db.{Db}
use subscription_be.Db.Table
use subscription_be.Db.Schema.{SubscriptionQuota, SkuBenefit, Sku}
use mathlib.Core.Path.{subst}
use mathlib.Core.List.{append-nil, append_assoc}
use subscription_be.Db.Action.{ok}
use subscription_be.Outbox.{Env}
use subscription_be.Wallet.{debit}
use subscription_be.Subscription.Rows.{mirror_benefits, quota_row, is_package, find_sku}
use subscription_be.Subscription.Purchase.{subscribe, open_subscription, mirrored_quotas}
use subscription_be.Subscription.Announce.{announce-frame}
use subscription_be.Subscription.Outcome.{subscribe-cases}
use subscription_be.Subscription.Failure.{announce_ok}
use subscription_be.Subscription.Committed.{Committed, purchased, purchase-Committed}

abbrev pub of_subscription : ℕ → SubscriptionQuota → Bool
of_subscription id q = q.package_subscription_id == id

-- What a user may use, as a quota says it and as a benefit says it.
pub record Allowance : Type 0 where
  pub resource_type : String
  pub is_unlimited : Bool
  pub total : ℕ
  pub used : ℕ

abbrev pub allowance_of : SubscriptionQuota → Allowance
allowance_of q = record {
  resource_type = q.resource_type;
  is_unlimited = q.is_unlimited;
  total = q.total_quota;
  used = q.used_quota;
}

abbrev pub promised : SkuBenefit → Allowance
promised b = record {
  resource_type = b.benefit_type;
  is_unlimited = b.is_unlimited;
  total = if b.is_unlimited then 0 else or_else b.max_usage 0;
  used = 0;
}

abbrev pub allowances : ℕ → Table.Table SubscriptionQuota → List Allowance
allowances id t = map allowance_of (find_many (of_subscription id) t.rows)

allowances-append :
    (id : ℕ) (xs ys : List SubscriptionQuota)
    → map allowance_of (find_many (of_subscription id) (xs ++ ys))
      ≡ map allowance_of (find_many (of_subscription id) xs)
        ++ map allowance_of (find_many (of_subscription id) ys)
allowances-append id [] ys = refl
allowances-append id (x ∷ xs) ys = ground (arith, allowances-append id xs ys)

-- A new quota of the subscription is the last one of its allowances.
allowances-create :
    (user id : ℕ) (b : SkuBenefit) (t : Table.Table SubscriptionQuota)
    → allowances id (Table.create (quota_row user id b) t) ≡ allowances id t ++ promised b ∷ []
allowances-create user id b t =
    let own : (id == id) ≡ true = ground arith in
    ground (arith, allowances-append id t.rows (quota_row user id b t.next_id ∷ []), own)

allowances-mirror :
    (user id : ℕ) (bs : List SkuBenefit) (t : Table.Table SubscriptionQuota)
    → allowances id (mirror_benefits user id bs t) ≡ allowances id t ++ map promised bs
allowances-mirror user id [] t = ground (arith, append-nil (allowances id t))
allowances-mirror user id (b ∷ bs) t = ground (
  arith,
  allowances-mirror user id bs (Table.create (quota_row user id b) t),
  allowances-create user id b t,
  append_assoc (allowances id t) (promised b ∷ []) (map promised bs),
)

-- The plan's subscription of a committed purchase has the allowances that the plan promises.
Committed-allowances :
    (env : Env) (user : ℕ) (sku : Sku) (currency : ℕ) (db : Db) (id : ℕ) (db' : Db)
    → is_package sku.sku_type ≡ true
    → allowances db.subscriptions.next_id db.quotas ≡ []
    → Committed env user sku currency db id db'
    → allowances id db'.quotas ≡ map promised sku.benefits
unfolding open_subscription debit mirrored_quotas
Committed-allowances env user sku currency db id db' pkg fresh c =
    let key = db.subscriptions.next_id in
    subst (λ (d : Db). allowances id d.quotas ≡ map promised sku.benefits) c.state
      (subst
        (λ (k : ℕ).
          allowances k (purchased env user sku currency c.wallet db).quotas
          ≡ map promised sku.benefits)
        c.key
        (simp pkg (
          cc (
            allowances-mirror user key sku.benefits db.quotas,
            ap (λ xs. xs ++ map promised sku.benefits) fresh,
          ))))

-- After a user bought a package, the new subscription has one unused quota for each benefit of the
-- plan, in the plan's order and with the plan's limit; this holds where no quota is under the key
-- that is given out next.
pub subscribe_mirrors :
    (env : Env) (user sku_id : ℕ) (db : Db) (sku : Sku) (id : ℕ)
    → find_sku sku_id db ≡ some sku
    → is_package sku.sku_type ≡ true
    → allowances db.subscriptions.next_id db.quotas ≡ []
    → (subscribe env user sku_id db).0 ≡ ok id
    → allowances id (subscribe env user sku_id db).1.quotas ≡ map promised sku.benefits
subscribe_mirrors env user sku_id db sku id found pkg fresh =
    subscribe-cases (λ r. r.0 ≡ ok id → allowances id r.1.quotas ≡ map promised sku.benefits) env
      user db sku_id (λ c status e. cc)
      λ plan currency new_id db' found' on fits done e.
        let same : plan ≡ sku = cc in
        let same_id : new_id ≡ id = cc (announce_ok env user plan new_id db') in
        announce-frame (λ d. allowances id d.quotas ≡ map promised sku.benefits) env user plan
          new_id db'
          λ o.
            subst (λ (k : Sku). allowances id db'.quotas ≡ map promised k.benefits) same
              (subst (λ (k : ℕ). allowances k db'.quotas ≡ map promised plan.benefits) same_id
                (Committed-allowances env user plan currency db new_id db' (cc) fresh
                  (purchase-Committed env user plan currency db new_id db' done)))
