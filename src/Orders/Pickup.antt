-- ===== src/Orders/Pickup.antt =====
-- Sales at the warehouse: `_handle_warehouse_pickup` and `complete_pickup`.
use munavvar_a.Prelude.{
  ℕ, Bool, not, ◌&&◌, ◌==◌, Option, none, some, String, List, [], ◌∷◌, ◌++◌, map, elem, keep,
  if◌then◌else◌,
}
use munavvar_a.Store.{
  OrderStatus, SaleType, InventoryType, TransferType, Line, Order, Db, Error, Result, ok, ◌>>=◌,
  ◌>>◌, raise_if, or_raise, same_status, same_sale_type, find_order, update_order,
  find_inventory_of, get_system_inventory, walkin_user_id,
}
use munavvar_a.Inventory.Ledger.{create_stock_transfer}
use munavvar_a.Orders.Tara.{is_empty, build_returnable_items}
use munavvar_a.Orders.Fulfillment.{stock_shortages, item_lines, transfer_unless_empty}
use munavvar_a.Orders.Settlement.{process_pickup_settlement}

-- OrderStatusLogRepository.log_transition
unfoldable pub log_transition :
    ℕ → Option OrderStatus → OrderStatus → Option ℕ → Option String → Db → Db
log_transition order_id old_status new_status by reason db = record db {
  status_logs =
      db.status_logs
      ++ record {
        order_id = order_id;
        old_status = old_status;
        new_status = new_status;
        changed_by_id = by;
        reason = reason;
      }
        ∷ [];
}

abbrev pub is_walkin : ℕ → Bool
is_walkin client_id = client_id == walkin_user_id

-- `returnable_for_pickup`: an anonymous client hands in only what is not bought as an item.
unfoldable pub returnable_for_pickup : Order → List Line → List Line
returnable_for_pickup order returnable =
    if is_walkin order.client_id
    then keep (λ r. not (elem r.product_id (map (λ i. i.product_id) order.items))) returnable
    else returnable

-- The containers that the vendor issues to the warehouse, for a named client.
unfoldable pub issue_containers : Order → ℕ → List Line → ℕ → Db → Result Db
issue_containers order warehouse returnable by db =
    if not (is_empty returnable) && not (is_walkin order.client_id)
    then (do
      vendor_inv ← get_system_inventory InventoryType.virtual_vendor db.inventories
      create_stock_transfer vendor_inv.id warehouse TransferType.initial_balance returnable by
          (some by) (some order.id) (some "Container issued with warehouse pickup") db)
    else ok db

-- What the client carries away.
unfoldable pub sale_lines : Order → List Line → List Line
sale_lines order returnable =
    item_lines order.items
    ++ (if is_walkin order.client_id then returnable_for_pickup order returnable else returnable)

-- `_handle_warehouse_pickup`
unfoldable pub handle_warehouse_pickup : Order → ℕ → Db → Result Db
handle_warehouse_pickup order completed_by db = do
  warehouse_id ← or_raise order.warehouse_id Error.warehouse_id_missing
  warehouse ←
      or_raise (find_inventory_of InventoryType.warehouse warehouse_id db.inventories)
        Error.inventory_not_found
  let missing = stock_shortages (λ k. db.stock_balances k warehouse.id) order.items
  raise_if (not (is_empty missing)) (Error.insufficient_stock missing)
  let returnable_items = build_returnable_items db.products order.items
  db₁ ← issue_containers order warehouse.id returnable_items completed_by db
  db₂ ←
      create_stock_transfer warehouse.id order.client_inventory_id TransferType.warehouse_sale
        (sale_lines order returnable_items) completed_by (some order.client_id) (some order.id) none
        db₁
  db₃ ←
      transfer_unless_empty order.client_inventory_id warehouse.id
        TransferType.warehouse_tara_return (returnable_for_pickup order returnable_items)
        completed_by completed_by order.id db₂
  process_pickup_settlement order db₃

-- UPDATE orders SET status
unfoldable pub set_status : ℕ → OrderStatus → Db → Db
set_status order_id status db = record db {
  orders = update_order order_id (λ o. record o { status = status }) db.orders;
}

-- `complete_pickup`
unfoldable pub complete_pickup : ℕ → ℕ → Db → Result Db
complete_pickup order_id completed_by db = do
  order ← or_raise (find_order order_id db.orders) Error.order_not_found
  raise_if (not (same_sale_type order.sale_type SaleType.warehouse_pickup))
      Error.invalid_pickup_operation
  raise_if (not (same_status order.status OrderStatus.new)) Error.invalid_pickup_operation
  handle_warehouse_pickup (record order { status = OrderStatus.pickup_completed }) completed_by
      (log_transition order_id (some OrderStatus.new) OrderStatus.pickup_completed
        (some completed_by) none (set_status order_id OrderStatus.pickup_completed db))
