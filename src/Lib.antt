-- ===== src/Lib.antt =====
-- Verification of the subscription backend: an Express service that sells subscription plans for
-- coins, sells coins for rupiahs through payment gateways, and tells a second service ("Domain
-- 2") about every change by webhooks from an outbox.
--
-- The parts, the files that model them and the code they stand for:
--
-- - Db: the PostgreSQL database of prisma/schema.prisma as a record of tables. Db/Schema has the
--   rows, Db/Table the calls of Prisma on one table (create takes the autoincrement key),
--   Db/Action the service methods: functions from a database to a result and a database, where a
--   throw keeps what was written and `transaction` undoes it. Db/Catalog is the master data of
--   the checkout. Amounts with two decimals are natural numbers of hundredths; times are
--   milliseconds, dates are days.
-- - Wallet: src/client/services/coin-wallet.service.ts and
--   src/client/repositories/coin-wallet.repository.ts. `debit` is the conditional updateMany
--   (balance >= cost) that every purchase uses; Wallet/Ledger relates the balances to the ledger
--   entries.
-- - CoinOrder: src/client/services/coin-order.service.ts and its repository. CoinOrder/Pricing
--   has the quotes, /Checkout the two handlers of
--   src/client/controllers/coin-order.controller.ts, /Payment the callbacks handlePaymentSuccess
--   and handlePaymentFailure; /Once and /Pending let any of these statements interleave, as a
--   step relation on databases. The gateway and the account lookup are parameters.
-- - Subscription: src/client/services/subscription.service.ts and
--   src/client/repositories/subscription.repository.ts. /Purchase has subscribe, /Switch
--   switchPlan with executePlanSwitchTransaction, /Cancel cancelSubscription; /Outcome and
--   /SwitchOutcome say how a call can end, and the theorems about money, atomicity, the live
--   package and the quotas build on them (/Books, /Failure, /Success, /OnePackage, /Live,
--   /Quotas).
-- - Webhook: src/shared/types/webhook.types.ts,
--   src/shared/utils/webhook-event-formatters.util.ts and
--   src/shared/utils/subscription-update.mapper.ts, the payloads.
-- - Outbox: src/shared/services/webhook-outbox.service.ts and its repository; Outbox/Worker is
--   src/workers/outbox.worker.ts; /Verdict in it says in numbers what an answer means. What
--   fetch answers, the clock and Math.random are inputs of a delivery.
-- - Slots: src/internal/services/internal.service.ts and its repository. Slots/Release has
--   slotRelease and reconcileQuota, /Outcome how slotAssign can end. The request's schema lets
--   resource_type be CLINIC or USER. Benefits and add-on resources of a plan are the live ones.
-- - SlotDetails: src/client/utils/slot-details.util.ts, on natural numbers; the clamping of
--   negative or fractional inputs never applies to what the database holds.
-- - Expiry: src/cron/services/daily-expiry.service.ts without its mails. A day is a number;
--   `read` stands for the database at the time of the query that listed the rows. Expiry/Notices
--   has the events that it sends about add-ons.
-- - Gateways: the notifications of both payment gateways. Gateways/Midtrans is
--   src/midtrans/services/midtrans-payment.service.ts, midtrans-webhook-processor.service.ts and
--   the controller beside them; Gateways/MegaBank
--   src/megabank/services/mega-bank-payment.service.ts, webhook-processor.service.ts,
--   src/megabank/utils/mega-bank-signer.util.ts and the controller. Digests and the readings of
--   numbers and dates are the record Runtime, since Node has them. /Machine is the coin order as
--   an abstract state machine, /Refinement the notifications as its events, /Calls the requests
--   at both endpoints.
-- - Accounts: src/client/services/auth.service.ts, src/shared/services/token.service.ts,
--   src/shared/services/account.service.ts and their repositories and controllers, over a Store
--   that holds users and sessions beside the database. bcrypt, SHA-256, jwt and the random
--   tokens are what one request draws (Env). /Sessions has the writes on refresh tokens as a
--   step relation.
-- - Http: /Retry is withRetry of src/shared/utils/http.util.ts, /Pages is paginate of
--   src/shared/utils/pagination.util.ts over queries of which each returns sorted rows
--   (/Sorted), /Signed the middleware of src/shared/middlewares/webhook-auth.middleware.ts with
--   the signatures of src/shared/utils/crypto.util.ts. Gateways/Token is
--   src/megabank/utils/mega-bank-token.util.ts, and Gateways/Client
--   src/megabank/utils/mega-bank-http.util.ts, over /Retry.
-- - Reports: the CSV files of src/subscription/services/report.service.ts. /Csv is a reader of
--   CSV files of its own, /Fields and /RoundTrip what the files read back as in it.
-- - Masters: src/shared/services/tax.service.ts and
--   src/subscription/services/currency.service.ts with their repositories. Both keep at most one
--   row active; the record Switched in Masters.antt is the interface that /Exclusive is proved
--   over, and /Taxes and /Currencies fill it. /Plans (with the rows in Plans/Rows) is the plan
--   editor, src/subscription/controllers/plan.controller.ts with its services and repositories,
--   /Parts what the repositories of benefits, features and add-ons have in common, and
--   /PlanParts what an edit leaves alone. /Bundles is
--   src/subscription/controllers/bundle.controller.ts with its service and repository,
--   /BundleRows and /BundleLaws their discounts.
-- - System: the requests above in any order, and what they keep together. The two halves of a
--   checkout are two requests.
-- - Tests: a small shop with concrete runs.
-- - Prelude: the shared helpers. Prelude/Rows has the queries on rows with their lemmas,
--   Prelude/Updates further ones, Prelude/Int integers over the native naturals.
--
-- A request of a service is modelled as a call during which no other writes, but for the coin
-- orders, whose statements interleave, and the sessions, whose writes do. So what subscribe and
-- switchPlan read before their transactions still holds inside them; a test in Tests/Shop shows
-- what two purchases at once can do.
--
-- How they interact: subscribe and switchPlan write the wallet, the subscription tables and the
-- quotas in one transaction, and cancelSubscription the subscription and its event; each then
-- inserts a webhook event into the outbox, from which the worker takes it. The internal API
-- counts slots against the same quotas, and the daily sweep takes slots and subscriptions back.
-- The payment callbacks credit the same wallets that a purchase debits, so both are stated over
-- the one ledger invariant of Wallet/Ledger, in which `opening` is what a user was given at the
-- start: a registration gives WALLET_DEFAULT_BALANCE coins without a ledger entry.
--
-- No loop needs fuel: all of them walk over a list or count the rounds that are left. A theorem
-- on the worker bounds how often the delivery of an event can fail before it is given up;
-- recoverStaleProcessing, which puts an event back that was left in processing, counts no
-- attempt and is outside that bound.
--
-- Not modelled: the routes and the validation of requests, the signature of access tokens, mail,
-- the administration of payment methods and advertisements, the queries and charts of the
-- reports, the filters of listings, and what the checkout sends to the gateways. Requests that
-- wait for one access token together are modelled one after the other. Prices are computed by
-- the code in floating point and here exactly, so the last place of a float is outside the
-- model. So are amounts with more than two decimals in a notification. The clock, random tokens,
-- SHA-256, bcrypt and the text search for "trial" in a plan's code are fields of the environment
-- that a service takes.
pub mod Prelude
pub mod Db
pub mod Webhook
pub mod Wallet
pub mod CoinOrder
pub mod Outbox
pub mod Slots
pub mod SlotDetails
pub mod Expiry
pub mod Subscription
pub mod Tests
pub mod Gateways
pub mod Accounts
pub mod System
pub mod Masters
pub mod Http
pub mod Reports
