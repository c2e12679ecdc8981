-- ===== src/Inventory/Transfers.antt =====
-- `StockTransferService.create_transfer` (src/modules/inventory/services.py): the table of routes,
-- the permission for adjustments, the virtual ends, the check of the stock and the posting.
pub mod Ends
pub mod Laws
pub mod Posted
pub mod Covered
use munavvar_a.Prelude.{
  ℕ, ⊤, Bool, true, false, not, ◌&&◌, ◌+◌, ◌==◌, Option, none, some, String, List, [], ◌∷◌, ◌++◌,
  any, if◌then◌else◌,
}
use munavvar_a.Prelude.Int.{ℤ, pos, pos_part, ltb_ℤ, ◌-ℤ◌}
use munavvar_a.Store.{
  InventoryType, TransferType, TransferStatus, Inventory, Line, StockTransfer, Db, Error, Result,
  ok, err, ◌>>=◌, ◌>>◌, raise_if, or_raise, same_inventory_type, find_inventory,
  get_system_inventory,
}
use munavvar_a.Access.{Scope, has_scope}
use munavvar_a.Inventory.Ledger.{insert_stock_transactions}
use munavvar_a.Orders.Cart.{product_ids, get_by_ids, missing_ids}
use munavvar_a.Orders.Dict.{add_key}
use munavvar_a.Orders.Tara.{is_empty}

-- `CreateTransferRequest`
pub record TransferRequest : Type 0 where
  pub type : TransferType
  pub from_id : Option ℕ
  pub to_id : Option ℕ
  pub items : List Line
  pub reason : Option String

pub record Route : Type 0 where
  pub allowed_from : List InventoryType
  pub allowed_to : List InventoryType

-- `_VALID_ROUTES`
unfoldable pub valid_routes : TransferType → Route
valid_routes TransferType.courier_load = record {
  allowed_from = InventoryType.warehouse ∷ [];
  allowed_to = InventoryType.courier ∷ [];
}
valid_routes TransferType.courier_return = record {
  allowed_from = InventoryType.courier ∷ [];
  allowed_to = InventoryType.warehouse ∷ [];
}
valid_routes TransferType.client_delivery = record {
  allowed_from = InventoryType.courier ∷ [];
  allowed_to = InventoryType.client ∷ [];
}
valid_routes TransferType.client_return = record {
  allowed_from = InventoryType.client ∷ [];
  allowed_to = InventoryType.courier ∷ [];
}
valid_routes TransferType.loss_write_off = record {
  allowed_from = InventoryType.warehouse ∷ InventoryType.courier ∷ InventoryType.client ∷ [];
  allowed_to = InventoryType.virtual_loss ∷ [];
}
valid_routes TransferType.inventory_finding = record {
  allowed_from = InventoryType.virtual_vendor ∷ [];
  allowed_to = InventoryType.warehouse ∷ InventoryType.courier ∷ [];
}
valid_routes TransferType.initial_balance = record {
  allowed_from = InventoryType.virtual_vendor ∷ [];
  allowed_to = InventoryType.client ∷ InventoryType.warehouse ∷ InventoryType.courier ∷ [];
}
valid_routes TransferType.warehouse_sale = record {
  allowed_from = InventoryType.warehouse ∷ [];
  allowed_to = InventoryType.client ∷ [];
}
valid_routes TransferType.warehouse_tara_return = record {
  allowed_from = InventoryType.client ∷ [];
  allowed_to = InventoryType.warehouse ∷ [];
}

abbrev pub is_allowed : InventoryType → List InventoryType → Bool
is_allowed t = any (λ a. same_inventory_type t a)

-- `_ADJUSTMENT_TRANSFER_TYPES`
abbrev pub is_adjustment : TransferType → Bool
is_adjustment TransferType.inventory_finding = true
is_adjustment TransferType.initial_balance = true
is_adjustment TransferType.loss_write_off = true
is_adjustment _ = false

-- `caller_scopes is None or Scope.LOGISTICS_ADJUSTMENT not in caller_scopes`
abbrev pub lacks_adjustment : Option (List Scope) → Bool
lacks_adjustment none = true
lacks_adjustment (some scopes) = not (has_scope Scope.logistics_adjustment scopes)

-- The sender: the vendor for what enters the books, and else the one of the request.
unfoldable pub resolve_from : TransferRequest → List Inventory → Result (Option ℕ)
resolve_from schema is = elim schema.type [
  | TransferType.inventory_finding ↦ do
    vendor_inv ← get_system_inventory InventoryType.virtual_vendor is
    ok (some vendor_inv.id)
  | TransferType.initial_balance ↦ do
    vendor_inv ← get_system_inventory InventoryType.virtual_vendor is
    ok (some vendor_inv.id)
  | _ ↦ ok schema.from_id
]

-- The receiver: the loss inventory for a write-off, and else the one of the request.
unfoldable pub resolve_to : TransferRequest → List Inventory → Result (Option ℕ)
resolve_to schema is = elim schema.type [
  | TransferType.loss_write_off ↦ do
    loss_inv ← get_system_inventory InventoryType.virtual_loss is
    ok (some loss_inv.id)
  | _ ↦ ok schema.to_id
]

-- Step 3: do the types of both ends fit the route?
unfoldable pub check_route : TransferType → Inventory → Inventory → Result ⊤
check_route type from_inventory to_inventory = do
  raise_if (not (is_allowed from_inventory.type (valid_routes type).allowed_from))
      (Error.inventory_type_mismatch from_inventory.id)
  raise_if (not (is_allowed to_inventory.type (valid_routes type).allowed_to))
      (Error.inventory_type_mismatch to_inventory.id)

-- `requested_quantities`
unfoldable pub requested_quantities : List Line → List Line → List Line
requested_quantities [] d = d
requested_quantities (l ∷ ls) d = requested_quantities ls (add_key l.product_id l.quantity d)

-- `shortages`: the products whose balance does not cover what is requested.
unfoldable pub transfer_shortages : (ℕ → ℤ) → List Line → List (ℕ × ℕ)
transfer_shortages balances [] = []
transfer_shortages balances (r ∷ rs) =
    let rest = transfer_shortages balances rs in
    if ltb_ℤ (balances r.product_id) (pos r.quantity)
    then (r.product_id, pos_part (pos r.quantity -ℤ balances r.product_id)) ∷ rest
    else rest

-- Step 4: only the vendor may go below zero.
unfoldable pub check_stock : Inventory → List Line → Db → Result ⊤
check_stock from_inventory items db =
    if same_inventory_type from_inventory.type InventoryType.virtual_vendor then ok tt else do
      locked ← or_raise (find_inventory from_inventory.id db.inventories) Error.inventory_not_found
      let missing =
          transfer_shortages (λ p. db.stock_balances p locked.id) (requested_quantities items [])
      raise_if (not (is_empty missing)) (Error.insufficient_stock missing)

-- `except IntegrityError: raise InsufficientStockError(shortages={})`
unfoldable pub as_shortage : Result Db → Result Db
as_shortage (ok db) = ok db
as_shortage (err e) = err (Error.insufficient_stock [])

-- Steps 5 and 6: the transfer with its lines, and the rows of the ledger. A line of quantity 0
-- violates the check constraint of stock_transfer_items.
unfoldable pub post_transfer : ℕ → TransferRequest → ℕ → ℕ → Db → Result Db
post_transfer by schema from_id to_id db = do
  raise_if (any (λ l. l.quantity == 0) schema.items) Error.integrity_error
  let transfer : StockTransfer = record {
    id = db.next_id;
    from_id = from_id;
    to_id = to_id;
    type = schema.type;
    status = TransferStatus.completed;
    created_by_id = by;
    accepted_by_id = by;
    order_id = none;
    reason = schema.reason;
    items = schema.items;
  }
  as_shortage (
      insert_stock_transactions db.next_id from_id to_id schema.items
        (record db { transfers = db.transfers ++ transfer ∷ []; next_id = db.next_id + 1 }))

-- Steps 3 to 6, for two ends that differ.
unfoldable pub transfer_between : ℕ → TransferRequest → ℕ → ℕ → Db → Result Db
transfer_between by schema from_id to_id db = do
  from_inventory ← or_raise (find_inventory from_id db.inventories) Error.inventory_not_found
  to_inventory ← or_raise (find_inventory to_id db.inventories) Error.inventory_not_found
  check_route schema.type from_inventory to_inventory
  check_stock from_inventory schema.items db
  post_transfer by schema from_id to_id db

-- `create_transfer`
unfoldable pub create_transfer : ℕ → TransferRequest → Option (List Scope) → Db → Result Db
create_transfer by schema caller_scopes db = do
  raise_if (is_adjustment schema.type && lacks_adjustment caller_scopes)
      Error.insufficient_permissions
  let ids = product_ids schema.items
  let archived_ids = missing_ids ids (get_by_ids ids db.products)
  raise_if (not (is_empty archived_ids)) (Error.archived_products_in_transfer archived_ids)
  from ← resolve_from schema db.inventories
  to ← resolve_to schema db.inventories
  from_id ← or_raise from Error.missing_from_id
  to_id ← or_raise to Error.missing_to_id
  raise_if (from_id == to_id) Error.route_loop
  transfer_between by schema from_id to_id db
