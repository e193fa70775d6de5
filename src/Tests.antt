-- ===== src/Tests.antt =====
-- A small shop, on which the tests and the witnesses run: one user with a wallet of 100 coins, and
-- two packages.
mod Shop
mod Coins
mod Callbacks
mod Requests
mod MasterData
mod Outside
mod Files
mod Accounts
mod Events
mod Slots
mod Expiry
use subscription_be.Prelude.{ℕ, String, Bool, true, false, Option, none, some, List, [], ◌∷◌}
use subscription_be.Db.{Db}
use subscription_be.Db.Table
use subscription_be.Db.Schema.{
  Sku, SkuType, package_type, addon_type, PackageTier, SkuBenefit, SkuAddon, clinic_addon, Wallet,
  CoinTransaction, CoinTransactionType, Subscription, SubscriptionStatus, OutboxRow, CoinOrder,
}
use subscription_be.Outbox.{Env, DedupeKey}

abbrev pub test_digest : DedupeKey → String
test_digest key = key.label

-- Nobody was given coins at the start.
abbrev pub no_opening : ℕ → ℕ
no_opening user = 0

abbrev pub no_trial : String → Bool
no_trial code = false

abbrev pub test_env : Env
test_env = record {
  now = 864000000;
  purchase_token = "token-1";
  order_number = "SUB-1";
  digest = test_digest;
  is_trial = no_trial;
}

abbrev pub no_rows : {A : Type 0} → Table.Table A
no_rows = record { rows = []; next_id = 1 }

abbrev pub clinic_benefit : SkuBenefit
clinic_benefit = record { benefit_type = "clinic"; max_usage = some 3; is_unlimited = false }

abbrev pub basic_plan : Sku
basic_plan = record {
  id = 1;
  sku_name = "Basic";
  sku_code = "BASIC";
  sku_type = package_type;
  package_tier = some PackageTier.basic;
  rank = 1;
  billing_duration_days = 30;
  coin_cost = 3000;
  is_active = true;
  deleted = false;
  benefits = clinic_benefit ∷ [];
  features = "reports" ∷ [];
  addons = [];
  all_features = "reports" ∷ [];
  all_addons = [];
}

abbrev pub pro_plan : Sku
pro_plan = record basic_plan {
  id = 2;
  sku_name = "Pro";
  sku_code = "PRO";
  package_tier = some PackageTier.pro;
  rank = 2;
  coin_cost = 5000;
}

abbrev pub test_wallet : Wallet
test_wallet = record { id = 1; user_id = 7; balance = 10000; currency_id = 1; deleted = false }

abbrev pub test_topup : CoinTransaction
test_topup = record {
  id = 1;
  wallet_id = 1;
  user_id = 7;
  type = CoinTransactionType.topup;
  amount = 10000;
  currency_id = 1;
  ref_id = none;
  payment_method_id = none;
  payment_channel = none;
}

abbrev pub test_db : Db
test_db = record {
  skus = basic_plan ∷ pro_plan ∷ [];
  wallets = record { rows = test_wallet ∷ []; next_id = 2 };
  transactions = record { rows = test_topup ∷ []; next_id = 2 };
  coin_orders = no_rows;
  subscriptions = no_rows;
  quotas = no_rows;
  slot_maps = no_rows;
  orders = no_rows;
  billing_cycles = no_rows;
  events = no_rows;
  plan_switches = no_rows;
  outbox = no_rows;
}

abbrev pub basic_subscription : Subscription
basic_subscription = record {
  id = 1;
  user_id = 7;
  sku_id = 1;
  sku_type = package_type;
  purchase_token = some "token-0";
  status = SubscriptionStatus.active;
  billing_start = 1;
  billing_end = 31;
  created_at = 86400000;
  canceled_at = none;
  expired_at = none;
  deleted = false;
}

-- The same user, already on the basic plan.
abbrev pub subscribed_db : Db
subscribed_db = record test_db {
  subscriptions = record { rows = basic_subscription ∷ []; next_id = 2 };
}
