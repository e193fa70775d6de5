-- ===== src/Db.antt =====
-- The database as the services see it (prisma/schema.prisma): one table for each model that the
-- modelled code reads or writes, and the calls that read and write it.
pub mod Action
pub mod Table
pub mod Schema
pub mod Catalog
pub mod Cases
use Schema.{
  Sku, Wallet, CoinTransaction, CoinOrder, Subscription, SubscriptionQuota, AddonSlotMap, Order,
  BillingCycle, SubscriptionEvent, PlanSwitch, OutboxRow,
}
use subscription_be.Prelude.{List}

-- The plans are master data, which no modelled operation writes.
pub record Db : Type 0 where
  pub skus : List Sku
  pub wallets : Table.Table Wallet
  pub transactions : Table.Table CoinTransaction
  pub coin_orders : Table.Table CoinOrder
  pub subscriptions : Table.Table Subscription
  pub quotas : Table.Table SubscriptionQuota
  pub slot_maps : Table.Table AddonSlotMap
  pub orders : Table.Table Order
  pub billing_cycles : Table.Table BillingCycle
  pub events : Table.Table SubscriptionEvent
  pub plan_switches : Table.Table PlanSwitch
  pub outbox : Table.Table OutboxRow
