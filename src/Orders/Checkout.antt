-- ===== src/Orders/Checkout.antt =====
-- `create_order` and `create_warehouse_sale`.
pub mod Entry
pub mod Quotas
pub mod Balance
use munavvar_a.Prelude.{
  ℕ, Bool, true, false, not, ◌&&◌, ◌||◌, ◌+◌, ◌==◌, Option, none, some, String, List, [], ◌∷◌, ◌++◌,
  any, find, keep, length, is_some, if◌then◌else◌,
}
use munavvar_a.Store.{
  OrderStatus, SaleType, PaymentMethod, InventoryType, Role, Line, Product, User, Contract,
  PriceItem, Order, OrderItem, Db, Error, Result, ok, err, ◌>>=◌, ◌>>◌, raise_if, or_raise,
  same_payment_method, same_role, find_inventory_of, get_client_inventory, walkin_user_id,
}
use munavvar_a.Orders.Cart.{
  product_ids, has_duplicates, get_by_ids, price_map, missing_ids, build_order_items, total_amount,
}
use munavvar_a.Orders.Tara.{is_empty, exchange_items, settle_tara}
use munavvar_a.Orders.Quota.{
  get_for_products_locked, check_and_reserve_quantities, get_and_validate_contract_locked,
}
use munavvar_a.Orders.Pickup.{log_transition, handle_warehouse_pickup}

-- The request body of `create_order`.
pub record OrderCreate : Type 0 where
  pub items : List Line
  pub payment_method : PaymentMethod
  pub client_inventory_id : ℕ
  pub capitalize_missing_tara : Bool
  pub notes : Option String

-- UserService.get_client
unfoldable pub get_client : ℕ → List User → Option User
get_client k = find (λ u.
    u.id == k
    && (same_role u.role Role.client_b2b || same_role u.role Role.client_b2c)
    && u.is_active)

-- What block A finds: the contract and its locked price items.
pub record Agreement : Type 0 where
  pub contract_id : Option ℕ
  pub locked : List PriceItem

-- `for pid in product_ids: if pid not in price_item_map: raise`
unfoldable pub ensure_in_contract : List PriceItem → List ℕ → Result (Unit {0})
ensure_in_contract locked [] = ok tt
ensure_in_contract locked (k ∷ ks) = do
  raise_if (not (any (λ pi. pi.product_id == k) locked)) (Error.product_not_in_contract k)
  ensure_in_contract locked ks

-- Block A of `create_order`
unfoldable pub find_agreement : OrderCreate → ℕ → Role → ℕ → Db → Result Agreement
find_agreement dto client_id role today db =
    if same_payment_method dto.payment_method PaymentMethod.contract
    then (do
      contract ← get_and_validate_contract_locked client_id role today db
      let locked = get_for_products_locked contract.id (product_ids dto.items) db.price_items
      ensure_in_contract locked (product_ids dto.items)
      ok (record { contract_id = some contract.id; locked = locked }))
    else ok (record { contract_id = none; locked = [] })

-- Block B: `if contract is not None`
unfoldable pub reserve_agreed : Agreement → List Line → Db → Result Db
reserve_agreed agreement items db =
    if is_some agreement.contract_id
    then check_and_reserve_quantities agreement.locked items db
    else ok db

-- The INSERT of an order with its lines; `draft` has every column but the ids.
unfoldable pub add_order : Order → Db → Db
add_order order db = record db {
  orders = db.orders ++ order ∷ [];
  next_id = db.next_id + 1 + length order.items;
}

-- `create_order`; `today` is the date of the call.
unfoldable pub create_order : ℕ → OrderCreate → ℕ → Db → Result Db
create_order client_id dto today db = do
  raise_if (is_empty dto.items) Error.empty_cart
  let ids = product_ids dto.items
  raise_if (has_duplicates ids) Error.duplicate_products
  let products = get_by_ids ids db.products
  raise_if (not (is_empty (missing_ids ids products)))
      (Error.products_unavailable (missing_ids ids products))
  client ← or_raise (get_client client_id db.users) Error.client_not_found
  agreement ← find_agreement dto client_id client.role today db
  db₁ ← reserve_agreed agreement dto.items db
  (capitalized, db₂) ←
      settle_tara (exchange_items products dto.items) dto.items dto.client_inventory_id
        dto.capitalize_missing_tara client_id db₁
  items ← build_order_items (price_map agreement.locked products) (db₂.next_id + 1) dto.items
  let order : Order = record {
    id = db₂.next_id;
    client_id = client_id;
    client_inventory_id = dto.client_inventory_id;
    courier_id = none;
    payment_method = dto.payment_method;
    status = OrderStatus.new;
    total_amount = total_amount items;
    capitalization_applied = capitalized;
    sale_type = SaleType.delivery;
    warehouse_id = none;
    contract_id = agreement.contract_id;
    quantities_reserved = is_some agreement.contract_id;
    cancellation_reason = none;
    notes = dto.notes;
    is_active = true;
    items = items;
  }
  ok (log_transition order.id none OrderStatus.new (some client_id) none (add_order order db₂))

-- The request body of `create_warehouse_sale`.
pub record WarehouseSaleCreate : Type 0 where
  pub items : List Line
  pub warehouse_id : ℕ
  pub capitalize_missing_tara : Bool

-- `client_id or WALKIN_USER_ID`
abbrev pub effective_client : Option ℕ → ℕ
effective_client none = walkin_user_id
effective_client (some k) = k

-- `create_warehouse_sale`
unfoldable pub create_warehouse_sale : WarehouseSaleCreate → Option ℕ → ℕ → Db → Result Db
create_warehouse_sale dto client_id created_by db = do
  let client = effective_client client_id
  let walkin = client == walkin_user_id
  raise_if (is_empty dto.items) Error.empty_cart
  let ids = product_ids dto.items
  let products = get_by_ids ids db.products
  raise_if (not (is_empty (missing_ids ids products)))
      (Error.products_unavailable (missing_ids ids products))
  let exchanges = exchange_items products dto.items
  warehouse ←
      or_raise (find_inventory_of InventoryType.warehouse dto.warehouse_id db.inventories)
        Error.inventory_not_found
  client_inventory ←
      or_raise (get_client_inventory client db.inventories) Error.client_inventory_not_found
  (capitalized, db₁) ←
      if walkin
      then ok (false, db)
      else settle_tara exchanges dto.items client_inventory.id
          (dto.capitalize_missing_tara || walkin) created_by db
  items ← build_order_items (price_map [] products) (db₁.next_id + 1) dto.items
  let order : Order = record {
    id = db₁.next_id;
    client_id = client;
    client_inventory_id = client_inventory.id;
    courier_id = none;
    payment_method = PaymentMethod.cash;
    status = OrderStatus.pickup_completed;
    total_amount = total_amount items;
    capitalization_applied = capitalized;
    sale_type = SaleType.warehouse_pickup;
    warehouse_id = some dto.warehouse_id;
    contract_id = none;
    quantities_reserved = false;
    cancellation_reason = none;
    notes = none;
    is_active = true;
    items = items;
  }
  db₂ ← handle_warehouse_pickup order created_by (add_order order db₁)
  ok (log_transition order.id none OrderStatus.pickup_completed (some created_by) none db₂)
