-- ===== src/Lib.antt =====
-- Water delivery: orders, contract quotas, stock and money.
--
-- The program is the back end of a delivery service. Clients order goods; a courier delivers them,
-- or the client collects them at a warehouse. Corporate clients order under a contract, whose price
-- list limits the quantity of each product. Goods and returnable containers move between
-- inventories, money moves between accounts, and both ledgers keep their balances by database
-- triggers.
--
-- How the files correspond to the code (paths from the repository's root):
--   Prelude       shared tests, lists, integers, books of balances and keyed tables; no code of
--                 the program
--   Store         the rows of src/modules/*/models.py and the enumerations of
--                 src/modules/*/enums.py; Queries has the store of a unit of work
--                 (src/infrastructure/database/uow.py) and the lookups of the repositories; Errors
--                 has the exceptions, and `Result` is how a call ends
--   Inventory     the insert into stock_transactions with the trigger
--                 update_inventory_balances.sql of src/infrastructure/database/scripts, and
--                 `_create_stock_transfer` of src/modules/orders/services.py (Ledger);
--                 `StockTransferService.create_transfer` (Transfers) and `CapitalizeTaraService`
--                 (Capitalize) of src/modules/inventory/services.py
--   Access        src/core/security/permissions.py, and the scopes check of `get_token_payload`
--                 (src/modules/auth/dependencies.py)
--   Pagination    src/common/pagination.py (Base64 for the codec of the language's library, Cursor
--                 for the tokens), and `search_transfers_cursor` of src/modules/inventory (Transfers)
--   Filters       the checks of page, ranges and date presets before a listing by pages
--                 (src/modules/finances/services.py, and again src/modules/inventory/services.py)
--   Finances      Ledger has the insert into and the update of transactions with the trigger
--                 update_account_balances.sql; Billing has the writing calls of `BillingService`
--                 (src/modules/finances/services.py)
--   Orders        `BaseOrderService` (src/modules/orders/services.py): Fsm has the transition
--                 tables and their guard, Cart and Tara the parts of a checkout, Quota the counters
--                 of a contract, Checkout `create_order` and `create_warehouse_sale`, Edit
--                 `add_product_to_order` and `remove_product_from_order`, Fulfillment and Settlement
--                 a delivery, Pickup a sale at the warehouse, Status `assign_courier`,
--                 `update_status` and `cancel_order`, Stale
--                 `expire_stale_orders`, Calls any of the calls but the last, Life the
--                 steps that lead from one status of an order to another
--   Contracts     `ContractService` (src/modules/contracts/services.py): Lifecycle has
--                 `activate_contract`, `suspend_contract`, `reinstate_contract`,
--                 `terminate_contract` and `_cancel_inflight_orders`, Terms `create_contract` and
--                 `update_contract`, Expiry `run_expire_job`, Calls a run of these; Prices has
--                 `set_price_item` and `remove_price_item`; Invoices has `issue_invoice`,
--                 `mark_invoice_paid` and `cancel_invoice`, and Invoices.Generate
--                 `generate_invoice`, `run_overdue_job` and runs of all calls on invoices
--   Runs          order calls, contract calls and the job on stale orders, one after the other
--   Examples      a small store on which the theorems are used
--
-- How they interact: a call of a service is a function from the store to `Result Db`. A call that
-- raises carries no store, since the unit of work rolls back; `committed` then keeps the store from
-- before. An order call takes quota from the price list of the contract, moves goods by stock
-- transfers and inserts transactions; the triggers run inside these inserts and may refuse them.
--
-- Choices of the model: ids are numbers, and `next_id` gives fresh ones where the code draws a UUID;
-- amounts and quantities are the native ℕ, since the request schemas and the check constraints
-- refuse negative ones; balances are integers without the 32-bit range of the column
-- inventory_balances.quantity. `max(0, a - b)` and `greatest(a - b, 0)` are subtraction on ℕ. The
-- lines of an order are a field of the order, as its relationship `items` is. Row locks order
-- concurrent calls, so runs are sequences of calls; a query that skips the rows which another
-- transaction has locked finds all of them here. A limited query without an order gives the first
-- rows. The columns created_at and updated_at of orders are functions of the order's id, as they
-- stand when a job runs. The texts of UUIDs, times and integers and the UTF-8 codec are parameters
-- (`Formats`), with what their documentation promises as `IsReadable`. All functions are structural
-- recursions; the one with fuel is `read_pages`, a client that follows the cursors of a listing,
-- for which one unit more than there are rows is shown to suffice.
--
-- Not modelled: foreign keys of the tables; the texts of a contract but its number and notes; the
-- services that only read (lists and searches but the transfer listing, dashboards, reports), the
-- HTTP layer, tokens and passwords, configuration and migrations, which are input and output or a
-- library's work; the administration of users, catalog, warehouses and transports; and amendments
-- and the reconciliation of `ContractService`.
pub mod Prelude
pub mod Store
pub mod Access
pub mod Inventory
pub mod Finances
pub mod Pagination
pub mod Filters
pub mod Orders
pub mod Contracts
pub mod Runs
pub mod Examples
