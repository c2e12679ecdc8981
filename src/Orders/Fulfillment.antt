-- ===== src/Orders/Fulfillment.antt =====
-- Delivery: `_handle_order_fulfillment`, its correction of the order by what was delivered, and the
-- check of the courier's stock.
pub mod Laws
use munavvar_a.Prelude.{
  ℕ, Bool, true, false, not, ◌&&◌, ◌+◌, ◌-◌, ◌*◌, ◌==◌, ltb, Option, none, some, List, [], ◌∷◌,
  ◌++◌, map, keep, update_where, if◌then◌else◌,
}
use munavvar_a.Prelude.Int.{ℤ, pos, pos_part, ltb_ℤ, ◌-ℤ◌}
use munavvar_a.Store.{
  PaymentMethod, TransferType, Line, Order, OrderItem, Inventory, Db, Error, Result, ok, err, ◌>>=◌,
  ◌>>◌, raise_if, or_raise, same_payment_method, find_inventory, get_courier_inventory,
  update_order,
}
use munavvar_a.Inventory.Ledger.{create_stock_transfer}
use munavvar_a.Orders.Dict.{last_quantity}
use munavvar_a.Orders.Tara.{is_empty, build_returnable_items}
use munavvar_a.Orders.Quota.{Delta, decrement_quantities_used}
use munavvar_a.Orders.Settlement.{process_financial_settlement}

-- What the loop over `order.items` computes.
pub record Adjusted : Type 0 where
  pub items : List OrderItem
  pub new_total : ℕ
  pub quota_deltas : List Delta

-- One item under `actual_map`: its new quantity, or a refusal. A quantity of 0 violates the check
-- constraint ck_order_item_quantity_pos in `update_quantity`.
unfoldable pub adjust_quantity : List Line → OrderItem → Result ℕ
adjust_quantity actual item = elim (last_quantity item.product_id actual) [
  | none ↦ ok item.quantity
  | some requested ↦ do
    raise_if (ltb item.quantity requested)
        (Error.delivery_quantity_exceeded item.product_id item.quantity requested)
    raise_if (requested == 0) Error.integrity_error
    ok requested
]

-- `if diff > 0: quota_deltas.append(...)`
unfoldable pub quota_delta : OrderItem → ℕ → List Delta
quota_delta item requested =
    if ltb 0 (item.quantity - requested)
    then record { key = item.product_id; amount = item.quantity - requested } ∷ []
    else []

unfoldable pub adjust_items : List Line → List OrderItem → Result Adjusted
adjust_items actual [] = ok (record { items = []; new_total = 0; quota_deltas = [] })
adjust_items actual (i ∷ is) = do
  requested ← adjust_quantity actual i
  rest ← adjust_items actual is
  ok (record {
    items = record i { quantity = requested } ∷ rest.items;
    new_total = i.unit_price * requested + rest.new_total;
    quota_deltas = quota_delta i requested ++ rest.quota_deltas;
  })

-- The quota of what was not delivered goes back to the contract.
unfoldable pub release_undelivered : Order → List Delta → Db → Result Db
release_undelivered order deltas db =
    if is_empty deltas
    then ok db
    else if same_payment_method order.payment_method PaymentMethod.contract
    then elim order.contract_id [
      | none ↦ ok db
      | some contract_id ↦ do
        pis ← decrement_quantities_used contract_id deltas db.price_items
        ok (record db { price_items = pis })
    ]
    else ok db

-- `if actual_items_dto:`, the correction of the order; also what the order is afterwards.
unfoldable pub adjust_order : List Line → Order → Db → Result (Order × Db)
adjust_order actual order db = if is_empty actual then ok (order, db) else do
  adjusted ← adjust_items actual order.items
  db' ← release_undelivered order adjusted.quota_deltas db
  let change : Order → Order =
      λ o. record o { items = adjusted.items; total_amount = adjusted.new_total }
  ok (change order, record db' { orders = update_order order.id change db'.orders })

-- `stock_shortages`: the products whose balance does not cover the item.
unfoldable pub stock_shortages : (ℕ → ℤ) → List OrderItem → List (ℕ × ℕ)
stock_shortages balances [] = []
stock_shortages balances (i ∷ is) =
    let rest = stock_shortages balances is in
    if ltb_ℤ (balances i.product_id) (pos i.quantity)
    then (i.product_id, pos_part (pos i.quantity -ℤ balances i.product_id)) ∷ rest
    else rest

-- `[{...} for i in order.items if i.quantity > 0]`
unfoldable pub item_lines : List OrderItem → List Line
item_lines items =
    map (λ i. record { product_id = i.product_id; quantity = i.quantity })
      (keep (λ i. ltb 0 i.quantity) items)

-- A transfer that is made only when there is something to move.
unfoldable pub transfer_unless_empty : ℕ → ℕ → TransferType → List Line → ℕ → ℕ → ℕ → Db → Result Db
transfer_unless_empty from to type items by accepted order_id db =
    if is_empty items
    then ok db
    else create_stock_transfer from to type items by (some accepted) (some order_id) none db

-- The goods of a delivery: courier to client with the containers, and the containers back.
unfoldable pub deliver_goods : Order → ℕ → ℕ → Db → Result Db
deliver_goods order courier_id courier_inventory db = do
  let returnable_items = build_returnable_items db.products order.items
  db₁ ←
      create_stock_transfer courier_inventory order.client_inventory_id TransferType.client_delivery
        (item_lines order.items ++ returnable_items) courier_id (some order.client_id)
        (some order.id) none db
  transfer_unless_empty order.client_inventory_id courier_inventory TransferType.client_return
      returnable_items courier_id courier_id order.id db₁

-- `_handle_order_fulfillment`
unfoldable pub handle_order_fulfillment : Order → List Line → Db → Result Db
handle_order_fulfillment order actual db = do
  courier_id ← or_raise order.courier_id Error.courier_not_assigned
  (order', db₁) ← adjust_order actual order db
  found ← get_courier_inventory courier_id db₁.inventories
  row ← or_raise found Error.courier_inventory_not_found
  courier_inventory ←
      or_raise (find_inventory row.id db₁.inventories) Error.courier_inventory_not_found
  let missing = stock_shortages (λ k. db₁.stock_balances k courier_inventory.id) order'.items
  raise_if (not (is_empty missing)) (Error.insufficient_stock missing)
  db₂ ← deliver_goods order' courier_id courier_inventory.id db₁
  process_financial_settlement order' db₂
