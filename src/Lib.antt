-- ===== src/Lib.antt =====
-- The distributed payment manager: its payment gateway `silvergate`, its client `paymanager` with
-- payments, orders and disputes, and `ingest`, which takes the webhooks of the provider.
--
-- The gateway (services/silvergate) keeps transactions, refunds and products in Postgres, asks an
-- acquiring bank to authorize, settle, void and refund, and tells its merchant about the results by
-- webhooks. A request runs in a handler; the slow part of a capture or a refund runs in a goroutine
-- that the handler starts. The files:
--
--   Prelude, Prelude/*         numbers, int64 arithmetic with its wrap-around, Boolean tests, lists
--   Exec, Exec/Outcome         Go functions that return a value and an error and act on a state
--   Postgres, Postgres/Outcome pkg/postgres/postgres.go: statements, InTransaction
--   Postgres/Session           the same, for code that goes on after a statement has failed
--   Silvergate/Errors          the error values of services/silvergate/internal
--   Silvergate/Tables          services/silvergate/migrations: rows and constraints
--   Silvergate/Acquirer        internal/acquirer/port.go: the bank, a parameter
--   Silvergate/Transaction     internal/transaction: Entity (entity.go, refund.go), Repo
--                              (transactionrepo/pg.go), Service and Settlement (service.go; the
--                              second has settleAsync, refundAsync and the goroutine of Void)
--   Silvergate/Product         internal/product: Entity, Update, Service, Repo (productrepo/pg.go)
--   Silvergate/Purchase        internal/purchase/service.go
--   Silvergate/Sender          internal/webhooksender/sender.go
--   Silvergate/Runtime         the state of the running gateway and its goroutines
--   Silvergate/Machine         requests and goroutines in any order, as a step relation
--   Silvergate/Ledger          what the bank has paid back, what is on its way and what is
--                              reserved; used by Machine/Refunds
--   Paymanager/Payment         services/paymanager/internal/payment (entity.go, service.go,
--                              paymentrepo/pg.go) and internal/eventstore; Webhooks and Duplicates
--                              are about its webhooks
--   Paymanager/Events          the table `events`, and the event sinks with their pages
--   Paymanager/Order           internal/order: Entity, Repo (orderrepo), Service, with Service/Duplicates
--                              and Service/Guards
--   Paymanager/Dispute         internal/dispute: Entity, Repo (disputerepo), Service, with the same
--   Paymanager/SilvergateClient  internal/silvergateclient/client.go
--   Ingest                     services/ingest: Dto, ApiClient (apiclient), Inbox (repo/inbox),
--                              Webhook (webhook and handlers), Worker (worker)
--   Messaging                  pkg/messaging/middleware.go and pkg/kafka/consumer.go
--   */Tests                    concrete runs
--
-- The payment manager (services/paymanager) keeps payments, orders, disputes and events in its own
-- database, calls the gateway as its provider, and learns of results by webhooks: over Kafka, whose
-- messages the middleware tries three times and then puts aside, or over HTTP. The ingest service
-- receives the webhooks; it publishes them, forwards them, or stores them in its inbox, whose worker
-- forwards them later. The services are modelled apart: the provider, the receiver of webhooks and the
-- payment manager are parameters of the one that calls them. SilvergateClient is a value of the
-- parameter that orders have for their provider; SilvergateClient/Answers sets it against the answer
-- of the gateway.
--
-- A function of the source keeps its name in snake_case; a method of a service or a repository takes
-- what the service is connected to as its first argument. The state (`World`) is the number of
-- calls made to the outside, the tables, the webhooks posted and the goroutines that have not ended.
-- The clock, uuid.New, faults of the database, the bank and the receiver of the webhooks are
-- functions of the number of the call, so that they may answer differently each time. Identifiers and
-- times are numbers; amounts are int64, with wrap-around where Go adds or subtracts, while the
-- arithmetic of a SQL statement is exact and refused where BIGINT does not hold it.
--
-- A statement that fails aborts the Postgres transaction that it is in: every later statement fails,
-- and pgx answers COMMIT with an error. The bodies of silvergate's and of the payments' transactions
-- return at their first failed statement, and Postgres.in_transaction is enough for them. Orders and
-- disputes go on after one (writeEvent), and use Postgres/Session, which keeps the transaction's state.
--
-- A statement, or a COMMIT, that reports an error is taken as not applied: what happens where the
-- database has applied it and only the answer was lost is left out. ReleaseRefundAmount, which
-- refundAsync tries again after an error, could then release an amount twice. Times count
-- microseconds, the resolution of the columns; the nanoseconds of time.Now() are left out.
--
-- A database transaction that fails leaves the tables as it found them. Transactions that touch the
-- same row are taken one after the other, and one that cannot be fails; a request is one step of the
-- machine, up to the goroutine that it starts, also where it makes several statements outside a
-- transaction. Goroutines are cut after the bank's answer and after each statement; only the write of
-- a settlement and the webhook that follows it are one part.
--
-- The loops: refundAsync over its three attempts, DoWithRetry and WithRetry over theirs, each recursion
-- on the number that is left; the worker of the inbox and the consumer, whose loops never end, by one
-- turn each, `poll` and `consume`, and `polls` for many; and those over rows, which are recursion on
-- lists. `alone` runs a goroutine for so many parts: two are all that a settlement has, and
-- max_retries + 4 all that a refund has.
--
-- Not modelled: logging, the pauses between attempts, the text that fmt.Errorf adds to an error, JSON
-- and HTTP below the level of a request and its answer, the controllers but for what the handlers of
-- messages do with an error, the mode kafka of ingest, which only publishes, the mock of the bank, and
-- the services that project events into a search index (services/cdc, services/analytics), which are
-- calls of client libraries. A float64 is its bits; only a conversion that is a parameter reads it. The
-- replica that reads may use is taken to be up to date.
pub mod Prelude
pub mod Exec
pub mod Postgres
pub mod Silvergate
pub mod Messaging
pub mod Ingest
pub mod Paymanager
