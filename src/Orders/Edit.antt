-- ===== src/Orders/Edit.antt =====
-- Changes of a new order: `add_product_to_order` and `remove_product_from_order`.
pub mod Items
pub mod Quotas
pub mod Removal
use munavvar_a.Prelude.{
  ℕ, Bool, true, false, not, ◌&&◌, ◌+◌, ◌-◌, ◌*◌, ◌==◌, leb, Option, none, some, List, [], ◌∷◌,
  ◌++◌, find, keep, length, update_where, is_some, if◌then◌else◌,
}
use munavvar_a.Store.{
  OrderStatus, PaymentMethod, ContractStatus, Contract, PriceItem, Order, OrderItem, Product, Db,
  Error, Result, ok, ◌>>=◌, ◌>>◌, raise_if, or_raise, one_or_none, same_status, same_payment_method,
  same_contract_status, find_order, update_order, find_contract, find_product,
}
use munavvar_a.Orders.Quota.{
  is_price_of, exceeds, increment_quantities_used, decrement_quantities_used,
}

-- `requesting_user_id and order.client_id != requesting_user_id`
abbrev pub is_denied : Order → Option ℕ → Bool
is_denied order none = false
is_denied order (some u) = not (order.client_id == u)

-- OrderItemRepository.get_by_order_and_product
unfoldable pub get_by_order_and_product : Order → ℕ → Result (Option OrderItem)
get_by_order_and_product order product_id =
    one_or_none (keep (λ i. i.product_id == product_id) order.items)

-- `order.payment_method == CONTRACT and order.contract_id is not None`
unfoldable pub contract_of : Order → Option ℕ
contract_of order =
    if same_payment_method order.payment_method PaymentMethod.contract
    then order.contract_id
    else none

-- The CONTRACT block of `add_product_to_order`: the price of the contract, its quota checked and
-- used; `price` is the catalog's.
unfoldable pub reserve_addition : Option ℕ → ℕ → ℕ → ℕ → Db → Result (ℕ × Db)
reserve_addition none product_id quantity price db = ok (price, db)
reserve_addition (some contract_id) product_id quantity price db = do
  contract ← or_raise (find_contract contract_id db.contracts) Error.contract_required
  raise_if (not (same_contract_status contract.status ContractStatus.active))
      Error.contract_not_active
  pi ←
      or_raise (find (is_price_of contract.id product_id) db.price_items)
        (Error.product_not_in_contract product_id)
  raise_if (exceeds pi quantity)
      (Error.quantity_limit_exceeded product_id pi.quantity pi.quantity_used quantity)
  pis ← increment_quantities_used (record { key = pi.id; amount = quantity } ∷ []) db.price_items
  ok (pi.price, record db { price_items = pis })

-- `order_items.update_quantity` on the line that is there, or `order_items.add`.
unfoldable pub put_item : Option OrderItem → ℕ → ℕ → ℕ → ℕ → List OrderItem → List OrderItem
put_item (some existing) n product_id quantity price items =
    update_where (λ i. i.id == existing.id)
      (λ i. record i { quantity = existing.quantity + quantity }) items
put_item none n product_id quantity price items =
    items
    ++ record { id = n; product_id = product_id; quantity = quantity; unit_price = price } ∷ []

-- The order after the addition.
unfoldable pub with_addition : Option OrderItem → Option ℕ → ℕ → ℕ → ℕ → ℕ → Order → Order
with_addition existing contract n product_id quantity price o = record o {
  items = put_item existing n product_id quantity price o.items;
  total_amount = o.total_amount + price * quantity;
  quantities_reserved = if is_some contract then true else o.quantities_reserved;
}

-- `add_product_to_order`
unfoldable pub add_product_to_order : ℕ → ℕ → ℕ → Option ℕ → Db → Result Db
add_product_to_order order_id product_id quantity user db = do
  raise_if (quantity == 0) Error.invalid_quantity
  product ←
      or_raise (find_product product_id db.products) (Error.products_unavailable (product_id ∷ []))
  order ← or_raise (find_order order_id db.orders) Error.order_not_found
  raise_if (is_denied order user) Error.order_access_denied
  raise_if (not (same_status order.status OrderStatus.new)) Error.invalid_order_status
  existing ← get_by_order_and_product order product_id
  (price, db₁) ← reserve_addition (contract_of order) product_id quantity product.price db
  ok (record db₁ {
    orders =
        update_order order_id
          (with_addition existing (contract_of order) db.next_id product_id quantity price)
          db₁.orders;
    next_id = db.next_id + 1;
  })

-- The CONTRACT block of `remove_product_from_order`.
unfoldable pub release_removal : Option ℕ → Bool → ℕ → ℕ → Db → Result Db
release_removal none reserved product_id quantity db = ok db
release_removal (some contract_id) reserved product_id quantity db =
    if reserved
    then (do
      pis ←
          decrement_quantities_used contract_id
            (record { key = product_id; amount = quantity } ∷ []) db.price_items
      ok (record db { price_items = pis }))
    else ok db

-- The order after the removal; `-` is `max(0, ...)`.
unfoldable pub without_product : ℕ → OrderItem → Order → Order
without_product product_id existing o = record o {
  items = keep (λ i. not (i.product_id == product_id)) o.items;
  total_amount = o.total_amount - existing.unit_price * existing.quantity;
}

-- The writes of `remove_product_from_order`, once the line is found.
unfoldable pub remove_item : Order → ℕ → OrderItem → Db → Result Db
remove_item order product_id existing db = do
  raise_if (leb (length order.items) 1) Error.cannot_remove_last_item
  db₁ ←
      release_removal (contract_of order) order.quantities_reserved product_id existing.quantity db
  ok (record db₁ {
    orders = update_order order.id (without_product product_id existing) db₁.orders;
  })

-- `remove_product_from_order`; where the product is not in the order nothing is written.
unfoldable pub remove_product_from_order : ℕ → ℕ → Option ℕ → Db → Result Db
remove_product_from_order order_id product_id user db = do
  order ← or_raise (find_order order_id db.orders) Error.order_not_found
  raise_if (is_denied order user) Error.order_access_denied
  raise_if (not (same_status order.status OrderStatus.new)) Error.invalid_order_status
  existing ← get_by_order_and_product order product_id
  elim existing [ none ↦ ok db | some item ↦ remove_item order product_id item db ]
