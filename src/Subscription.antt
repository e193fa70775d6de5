-- ===== src/Subscription.antt =====
-- src/client/services/subscription.service.ts with src/client/repositories/subscription.repository.ts:
-- buying, cancelling and switching a subscription with coins.
pub mod Rows
pub mod Purchase
pub mod Switch
pub mod Cancel
pub mod Outcome
pub mod Failure
pub mod Committed
pub mod SwitchOutcome
pub mod Announce
pub mod OnePackage
pub mod Live
pub mod Books
pub mod Quotas
pub mod Success
