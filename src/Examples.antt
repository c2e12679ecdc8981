-- ===== src/Examples.antt =====
-- A small store, and the theorems at work on it.
pub mod Sample
pub mod Runs
pub mod Invoices
pub mod Transfers
pub mod Paging
pub mod Filters
use munavvar_a.Prelude.{
  ℕ, true, false, ◌≡◌, refl, ◌≤◌, ◌⊎◌, ◌↔◌, inr, ◌==◌, ◌&&◌, Option, some, none, List, [], ◌∷◌,
  if◌then◌else◌, arith,
}
use munavvar_a.Prelude.Int.{ℤ, pos, ◌+ℤ◌, ◌-ℤ◌}
use munavvar_a.Prelude.Book.{share, move, total}
use munavvar_a.Inventory.Ledger.{
  units, create_stock_transfer, insert_stock_transactions, insert_stock_transaction, post_stock,
  went_negative, is_guarded,
}
use munavvar_a.Inventory.Ledger.Laws.{Shifts, create_stock_transfer-Shifts}
use munavvar_a.Inventory.Ledger.Solvency.{
  IsSolvent, create_stock_transfer-IsSolvent, create_stock_transfer-conserves,
}
use munavvar_a.Finances.Ledger.{
  insert_transaction, insert_transactions, flush_transaction, post_update,
}
use munavvar_a.Finances.Billing.{
  BillingCall, run_all_billing, verify_transaction, reject_transaction,
}
use munavvar_a.Finances.Billing.Laws.{IsLedger, run_all_billing-IsLedger, verify_transaction_once}
use munavvar_a.Contracts.Invoices.{InvoiceCall, run_invoice, mark_invoice_paid, get_own_invoice}
use munavvar_a.Contracts.Invoices.Life.{Moved, run_invoice-Moved}
use munavvar_a.Contracts.Prices.{
  get_by_contract_and_product, upsert_price_item, set_price_item, remove_price_item,
}
use munavvar_a.Contracts.Prices.Balance.{remove_price_item-IsBalanced}
use munavvar_a.Contracts.Prices.Upsert.{set_price_item-IsBalanced}
use munavvar_a.Contracts.Calls.{ContractCall, run_all_contracts}
use munavvar_a.Contracts.Lifecycle.Exclusive.{run_all_contracts-IsExclusive}
use munavvar_a.Contracts.Lifecycle.Force.{IsExclusive}
use munavvar_a.Orders.Fsm.{ensure_status_transition_allowed}
use munavvar_a.Orders.Fsm.Laws.{Edge, ensure_status_transition_allowed-Edge}
use munavvar_a.Orders.Dict.{last_quantity}
use munavvar_a.Orders.Cart.{build_order_items}
use munavvar_a.Orders.Cart.Laws.{IsInvoiced, build_order_items-IsInvoiced}
use munavvar_a.Orders.Tara.{build_returnable_items, collect_returnable, returnable_of}
use munavvar_a.Orders.Fulfillment.{
  item_lines, deliver_goods, transfer_unless_empty, adjust_items, adjust_quantity, quota_delta,
}
use munavvar_a.Orders.Fulfillment.Laws.{deliver_goods-Shifts}
use munavvar_a.Orders.Settlement.{delivery_payment, process_financial_settlement}
use munavvar_a.Orders.Settlement.Laws.{
  process_financial_settlement-Shifts, process_financial_settlement-Shifts_later,
}
use munavvar_a.Orders.Status.Release.{Corrects, adjust_items-Corrects}
use munavvar_a.Store.{
  InvoiceStatus, OrderStatus, SaleType, PaymentMethod, InventoryType, TransferType, ContractStatus,
  AccountType, TransactionStatus, Role, Order, Contract, PriceItem, Inventory, Account, Line, Db,
  Error, ok, err, committed, get_client_account, get_courier_account, get_system_account,
  get_user_account_by_type,
}
use munavvar_a.Orders.Quota.{increment_quantities_used}
use munavvar_a.Orders.Quota.Balance.{reserved, IsBalanced}
use munavvar_a.Orders.Edit.{
  add_product_to_order, get_by_order_and_product, contract_of, reserve_addition, with_addition,
  put_item,
}
use munavvar_a.Examples.Sample.{price_row, order_row, account_rows, store, store-IsBalanced}

-- The courier hands two units to the client.
abbrev lines : List Line
lines = record { product_id = 7; quantity = 2 } ∷ []

abbrev handed : Db
handed =
    committed
      (create_stock_transfer 21 20 TransferType.client_delivery lines 6 (some 5) (some 30) none
        store)
      store

handed_stored :
    create_stock_transfer 21 20 TransferType.client_delivery lines 6 (some 5) (some 30) none store
    ≡ ok handed
unfolding create_stock_transfer insert_stock_transactions insert_stock_transaction post_stock
    went_negative is_guarded move ◌+ℤ◌ ◌-ℤ◌
handed_stored = refl

create_stock_transfer-Shifts_example :
    Shifts (store.stock_balances 7 21) (handed.stock_balances 7 21) (share 20 21 2) (share 21 21 2)
create_stock_transfer-Shifts_example =
    create_stock_transfer-Shifts 21 20 TransferType.client_delivery lines 6 (some 5) (some 30) none
      store handed_stored 7 21

store-IsSolvent : IsSolvent store
store-IsSolvent p i h = ground arith

create_stock_transfer-IsSolvent_example : IsSolvent handed
create_stock_transfer-IsSolvent_example =
    create_stock_transfer-IsSolvent 21 20 TransferType.client_delivery lines 6 (some 5) (some 30)
      none store handed_stored store-IsSolvent

create_stock_transfer-conserves_example :
    total (handed.stock_balances 7) (20 ∷ 21 ∷ []) ≡ total (store.stock_balances 7) (20 ∷ 21 ∷ [])
create_stock_transfer-conserves_example =
    create_stock_transfer-conserves 21 20 TransferType.client_delivery lines 6 (some 5) (some 30)
      none store handed_stored 7 (20 ∷ 21 ∷ []) refl

ensure_status_transition_allowed-Edge_example :
    (ensure_status_transition_allowed
        (order_row PaymentMethod.cash OrderStatus.arrived)
        OrderStatus.delivered
      ≡ ok tt)
    ↔ ((OrderStatus.arrived ≡ OrderStatus.delivered)
        ⊎ Edge SaleType.delivery OrderStatus.arrived OrderStatus.delivered)
ensure_status_transition_allowed-Edge_example =
    ensure_status_transition_allowed-Edge (order_row PaymentMethod.cash OrderStatus.arrived)
      OrderStatus.delivered

abbrev arrived : PaymentMethod → Order
arrived method = order_row method OrderStatus.arrived

abbrev delivered : Db
delivered = committed (deliver_goods (arrived PaymentMethod.cash) 6 21 store) store

delivered_stored : deliver_goods (arrived PaymentMethod.cash) 6 21 store ≡ ok delivered
unfolding deliver_goods transfer_unless_empty build_returnable_items collect_returnable
    returnable_of item_lines create_stock_transfer insert_stock_transactions
    insert_stock_transaction post_stock went_negative is_guarded move ◌+ℤ◌ ◌-ℤ◌
delivered_stored = refl

deliver_goods-Shifts_example :
    Shifts
      (store.stock_balances 7 20)
      (delivered.stock_balances 7 20)
      (share 20 20 (units 7 (item_lines (arrived PaymentMethod.cash).items)))
      (share 21 20 (units 7 (item_lines (arrived PaymentMethod.cash).items)))
deliver_goods-Shifts_example =
    deliver_goods-Shifts (arrived PaymentMethod.cash) 6 21 store delivered_stored 7 20

abbrev settled : PaymentMethod → Db
settled method = committed (process_financial_settlement (arrived method) store) store

settled_cash :
    process_financial_settlement (arrived PaymentMethod.cash) store
    ≡ ok (settled PaymentMethod.cash)
unfolding process_financial_settlement delivery_payment insert_transactions insert_transaction
    get_client_account get_courier_account get_system_account get_user_account_by_type
settled_cash = refl

settled_contract :
    process_financial_settlement (arrived PaymentMethod.contract) store
    ≡ ok (settled PaymentMethod.contract)
unfolding process_financial_settlement delivery_payment insert_transactions insert_transaction
    get_client_account get_courier_account get_system_account get_user_account_by_type
settled_contract = refl

abbrev account : ℕ → ℕ → AccountType → Account
account k user t = record { id = k; user_id = some user; type = t; is_active = true }

client_found : get_client_account 5 account_rows ≡ some (account 50 5 AccountType.client)
unfolding get_client_account get_user_account_by_type
client_found = refl

revenue_found :
    get_system_account AccountType.revenue account_rows ≡ some (account 51 0 AccountType.revenue)
unfolding get_system_account get_user_account_by_type
revenue_found = refl

courier_found : get_courier_account 6 account_rows ≡ some (account 52 6 AccountType.courier)
unfolding get_courier_account get_user_account_by_type
courier_found = refl

process_financial_settlement-Shifts_example :
    Shifts
      (store.account_balances 52)
      ((settled PaymentMethod.cash).account_balances 52)
      (share 52 52 300)
      (share 51 52 300)
process_financial_settlement-Shifts_example =
    process_financial_settlement-Shifts (arrived PaymentMethod.cash) store refl refl client_found
      revenue_found courier_found settled_cash 52

process_financial_settlement-Shifts_later_example :
    Shifts
      (store.account_balances 50)
      ((settled PaymentMethod.contract).account_balances 50)
      (share 50 50 300)
      (share 51 50 300)
process_financial_settlement-Shifts_later_example =
    process_financial_settlement-Shifts_later (arrived PaymentMethod.contract) store refl
      client_found revenue_found settled_contract 50

store-IsLedger : IsLedger store
store-IsLedger = record { keyed = tt; fresh = tt; posted = λ k. refl }

abbrev billing : List BillingCall
billing =
    BillingCall.create 51 50 300 "debt" none 1
    ∷ BillingCall.verify 40 1
    ∷ BillingCall.verify 40 1
    ∷ []

run_all_billing-IsLedger_example : IsLedger (run_all_billing billing store)
run_all_billing-IsLedger_example = run_all_billing-IsLedger billing store store-IsLedger

abbrev pending : Db
pending = record store {
  transactions =
      record {
        id = 41;
        from_id = 51;
        to_id = 50;
        amount = 300;
        status = TransactionStatus.pending;
        reason = "debt";
        order_id = none;
        verified_by_id = none;
      }
      ∷ [];
}

abbrev verified : Db
verified = committed (verify_transaction 41 1 pending) pending

verified_stored : verify_transaction 41 1 pending ≡ ok verified
unfolding verify_transaction flush_transaction post_update
verified_stored = refl

verify_transaction_once_example :
    (verify_transaction 41 2 verified ≡ err Error.invalid_transaction_status)
    × (reject_transaction 41 2 none verified ≡ err Error.invalid_transaction_status)
verify_transaction_once_example = verify_transaction_once 41 1 2 none pending verified_stored

abbrev one_price : ℕ → Option ℕ
one_price k = if k == 7 then some 100 else none

lines_built :
    build_order_items one_price 41 lines
    ≡ ok (record { id = 41; product_id = 7; quantity = 2; unit_price = 100 } ∷ [])
unfolding build_order_items
lines_built = refl

build_order_items-IsInvoiced_example :
    IsInvoiced one_price lines
      (record { id = 41; product_id = 7; quantity = 2; unit_price = 100 } ∷ [])
build_order_items-IsInvoiced_example = build_order_items-IsInvoiced one_price 41 lines lines_built

lines_adjusted :
    adjust_items lines (arrived PaymentMethod.cash).items
    ≡ ok (record {
      items = record { id = 31; product_id = 7; quantity = 2; unit_price = 100 } ∷ [];
      new_total = 200;
      quota_deltas = record { key = 7; amount = 1 } ∷ [];
    })
unfolding adjust_items adjust_quantity quota_delta last_quantity
lines_adjusted = refl

adjust_items-Corrects_example : Corrects lines (arrived PaymentMethod.cash).items (record {
  items = record { id = 31; product_id = 7; quantity = 2; unit_price = 100 } ∷ [];
  new_total = 200;
  quota_deltas = record { key = 7; amount = 1 } ∷ [];
})
adjust_items-Corrects_example =
    adjust_items-Corrects lines (arrived PaymentMethod.cash).items lines_adjusted

abbrev contract_calls : List ContractCall
contract_calls = ContractCall.suspend_it 1 "late" none 3 ∷ ContractCall.reinstate 1 none ∷ []

store-IsExclusive : IsExclusive store
store-IsExclusive = record {
  keyed = (refl, tt);
  below = (omega arith, tt);
  alone = λ client. ground arith;
}

run_all_contracts-IsExclusive_example : IsExclusive (run_all_contracts contract_calls store)
run_all_contracts-IsExclusive_example =
    run_all_contracts-IsExclusive contract_calls store store-IsExclusive

abbrev repriced : Db
repriced = committed (set_price_item 1 7 90 4 store) store

repriced_stored : set_price_item 1 7 90 4 store ≡ ok repriced
unfolding set_price_item get_by_contract_and_product upsert_price_item
repriced_stored = refl

set_price_item-IsBalanced_example : IsBalanced repriced
set_price_item-IsBalanced_example =
    set_price_item-IsBalanced 1 7 90 4 store store-IsBalanced refl repriced_stored

-- A price item that no order has used.
abbrev idle_store : Db
idle_store = record store { price_items = price_row 0 ∷ []; orders = [] }

idle_store-IsBalanced : IsBalanced idle_store
idle_store-IsBalanced = record {
  prices = record { ids = (refl, tt); keys = (refl, refl, tt); within = (inr (omega arith), tt) };
  keyed = tt;
  below = tt;
  sound = tt;
  balance = λ c p. ground arith;
}

abbrev emptied : Db
emptied = committed (remove_price_item 1 7 idle_store) idle_store

emptied_stored : remove_price_item 1 7 idle_store ≡ ok emptied
unfolding remove_price_item get_by_contract_and_product
emptied_stored = refl

remove_price_item-IsBalanced_example : IsBalanced emptied
remove_price_item-IsBalanced_example =
    remove_price_item-IsBalanced 1 7 idle_store idle_store-IsBalanced emptied_stored

abbrev billed : Db
billed = record store {
  invoices =
      record {
        id = 60;
        contract_id = 1;
        sequence = 1;
        status = InvoiceStatus.issued;
        period_from = 0;
        period_to = 30;
        amount = 300;
        due_date = some 60;
        issued_at = some 31;
        paid_at = none;
        is_active = true;
      }
      ∷ [];
}

abbrev paid_store : Db
paid_store = committed (run_invoice (InvoiceCall.pay 40) 1 60 billed) billed

paid_stored : run_invoice (InvoiceCall.pay 40) 1 60 billed ≡ ok paid_store
unfolding run_invoice mark_invoice_paid get_own_invoice
paid_stored = refl

run_invoice-Moved_example : Moved 1 60 billed paid_store
run_invoice-Moved_example = run_invoice-Moved (InvoiceCall.pay 40) 1 60 billed paid_stored
