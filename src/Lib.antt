-- ===== src/Lib.antt =====
-- CrossPilot: the core rules of the cross-border selling system of this repository, modelled and
-- proved. Paths are relative to backend/app.
--
-- Order.Status: engines/order_status.py, the nine unified states of an order, which source may make
-- which move, and the table that maps a platform's texts to states. `decide_status` and
-- `merge_mapping` keep their names; the first runs over a history of reports in Order.Status.History.
--
-- Stock: engines/inventory.py. Stock.Level has `try_reserve`, `try_release`, `try_ship`,
-- `try_outbound` and `try_inbound` on one bin, and the simulation of parallel reservations, whose
-- threads take turns as a given schedule says; Stock.Allocate has `plan_allocations`; Stock.Push what
-- is sent to the platforms; Stock.Moves the moves of transfers.
--
-- Ledger: the stock ledger of services/inventory.py on the tables of models/inventory.py with the
-- SQL of repositories/inventory.py. A method is a function of a session (Ledger.Exec): the tables of
-- one tenant as its transaction sees them, the SKUs it touched, and what other transactions will
-- commit, which takes effect right before each UPDATE. That covers a row which the session holds
-- stale, because nothing else reads the table between two UPDATEs; what others do to the holds and
-- orders is not modelled. Ledger.Change is one row's optimistic update, `_commit_change`, with its five
-- attempts; Ledger.Draw takes goods from the bins that `plan_allocations` of Stock.Allocate chooses on
-- the rows it reads; Ledger.Orders reserves, releases and ships orders with both; Ledger.Direct has
-- `adjust` and `post_stock`, Ledger.Transfers the transfers, which apply the moves of Stock.Moves,
-- Ledger.Returns takes returned goods in, Ledger.Takings counts a warehouse, and Ledger.Service gathers
-- these methods. Where the ledger relies on SQLAlchemy's identity map, it is
-- modelled: an object is known by its primary key, and loading its row again overwrites it.
--
-- Sales: the orders as they are stored (Sales.Tables), in the same session as the ledger. Sales.Upsert is
-- repositories/order.py, which writes a reported order and its lines; Sales.Ingest is `ingest_order` of
-- services/order_status.py, which asks Order.Status for the decision, logs it, reviews the order with
-- Desk and calls the ledger. Sales.Ship is services/order_ship.py: each order of a batch is pushed to its
-- platform, a parameter, and committed within a savepoint, which is rolled back to where an exception
-- comes; Sales.Returns is the reviews and returns of services/order_desk.py. Sales.Service gathers what
-- changes orders. The invariant of the tables of orders is `OrdersOk` of Sales.Invariant: ids and keys
-- apart, every status one of the nine, and every log without a gap up to the status that is stored.
--
-- Purchase: engines/purchase.py, the state machine of a purchase order and its open, received and
-- transit quantities. Purchase.Tables and Purchase.Service are `transition` and `receive` of
-- services/purchase.py, which move stock on the session of the ledger; Purchase.Service.Again is a
-- receipt that is sent again.
--
-- Sync: Sync.Circuit and Sync.Retry are sync_engine/resilience.py, with what services/order_sync.py
-- records with the breaker and the expiry of its state; Sync.Cursor is sync_engine/cursor.py, and
-- Sync.Rounds the rounds of one shop, services/order_sync.py with the row of the cursor;
-- Sync.Idempotency and Sync.Bloom have the keys, the test for news and the Bloom filter of
-- sync_engine/idempotency.py; Sync.Locks is the locks of sync_engine/locks.py with their store in
-- memory, and Sync.States the states that workers share, sync_engine/state_store.py, with what others
-- write between a reading and a writing. An update makes at most `max_attempts`, eight, attempts, as
-- in the source. The platform, for Sync.Cursor, is a function from the number of the call and the
-- cursor to a page or an error.
--
-- Desk: engines/order_desk.py, reviews, shipping windows, exceptions and returns, and the tickets of
-- engines/cs.py.
--
-- Access: core/permissions.py, the role matrix and the tests on it.
--
-- Quantities are Python's ints (Prelude.Int); ids, versions and counts are natural numbers. The loops
-- of the source are bounded, and their bounds are the fuel: five attempts in `_commit_change` and
-- `_draw`, `max_pages` pages in a pull; `chunk_updates` has as much fuel as there are updates, and
-- Stock.Push.Chunks shows that it suffices.
--
-- Left out: authors and most times of rows, the limits of SQL's integers, everything that computes with
-- `Decimal` (landed cost, profit, pricing, replenishment), buyers, addresses, fees and labels of orders,
-- suppliers, the writing of purchase orders and first-mile shipments,
-- the Redis stores, the adapters, the web interface, and the other services; of the ledger, its
-- upkeep and pushes. Two transactions that insert the same order or row at once are left out
-- too, and a session whose method raised is rolled back only where the source opens a savepoint.
pub mod Prelude
pub mod Order
pub mod Stock
pub mod Ledger
pub mod Sales
pub mod Purchase
pub mod Access
pub mod Sync
pub mod Desk
