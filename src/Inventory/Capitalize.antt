-- ===== src/Inventory/Capitalize.antt =====
-- `CapitalizeTaraService` (src/modules/inventory/services.py): containers that a client holds and
-- the books do not know enter from the vendor.
pub mod Grown
pub mod Laws
use munavvar_a.Prelude.{
  ℕ, Bool, not, ◌+◌, ◌==◌, Option, none, some, List, [], ◌∷◌, ◌++◌, ltb, any, if◌then◌else◌,
}
use munavvar_a.Prelude.Int.{ℤ, pos, pos_part, ltb_ℤ, ◌-ℤ◌}
use munavvar_a.Store.{
  InventoryType, TransferType, TransferStatus, Line, StockTransfer, Db, Error, Result, ok, ◌>>=◌,
  ◌>>◌, raise_if, or_raise, find_inventory_of, get_client_inventory, get_system_inventory,
}
use munavvar_a.Inventory.Ledger.{insert_stock_transactions}
use munavvar_a.Orders.Cart.{product_ids, get_by_ids}
use munavvar_a.Orders.Tara.{Exchange, exchange_items, is_empty}

-- The dict that the calls return, with the store.
pub record Capitalized : Type 0 where
  pub transfer_id : Option ℕ
  pub capitalized_items : List Line
  pub db : Db

-- A transfer from the vendor to the client's inventory, with a row of the ledger for each line. The
-- code inserts a line and its row in turn: a line of quantity 0 fails at its first insert.
unfoldable pub post_initial_balance : ℕ → List Line → ℕ → Db → Result Capitalized
post_initial_balance inventory items by db = do
  vendor_inv ← get_system_inventory InventoryType.virtual_vendor db.inventories
  raise_if (vendor_inv.id == inventory) Error.integrity_error
  let transfer : StockTransfer = record {
    id = db.next_id;
    from_id = vendor_inv.id;
    to_id = inventory;
    type = TransferType.initial_balance;
    status = TransferStatus.completed;
    created_by_id = by;
    accepted_by_id = by;
    order_id = none;
    reason = none;
    items = items;
  }
  db' ←
      insert_stock_transactions db.next_id vendor_inv.id inventory items
        (record db { transfers = db.transfers ++ transfer ∷ []; next_id = db.next_id + 1 })
  ok (record { transfer_id = some db.next_id; capitalized_items = items; db = db' })

-- `capitalize_tara`
unfoldable pub capitalize_tara : ℕ → List Line → ℕ → Db → Result Capitalized
capitalize_tara inventory_id items by db = do
  inventory ←
      or_raise (find_inventory_of InventoryType.client inventory_id db.inventories)
        Error.inventory_not_found
  post_initial_balance inventory.id items by db

-- `capitalize_tara_for_client`
unfoldable pub capitalize_tara_for_client : ℕ → List Line → ℕ → Db → Result Capitalized
capitalize_tara_for_client client_id items by db = do
  client_inv ← or_raise (get_client_inventory client_id db.inventories) Error.inventory_not_found
  post_initial_balance client_inv.id items by db

-- The loop that fills `items_to_capitalize`: what the balance of a container lacks for a line.
unfoldable pub items_to_capitalize : (ℕ → ℤ) → List Exchange → List Line
items_to_capitalize balances [] = []
items_to_capitalize balances (e ∷ es) =
    let rest = items_to_capitalize balances es in
    if ltb_ℤ (balances e.tare_id) (pos e.quantity)
    then record {
      product_id = e.tare_id;
      quantity = pos_part (pos e.quantity -ℤ balances e.tare_id);
    }
      ∷ rest
    else rest

abbrev pub nothing_capitalized : Db → Capitalized
nothing_capitalized db = record { transfer_id = none; capitalized_items = []; db = db }

-- `capitalize_deficit`
unfoldable pub capitalize_deficit : List Line → ℕ → ℕ → Db → Result Capitalized
capitalize_deficit items inventory_id client_id db =
    let exchanges = exchange_items (get_by_ids (product_ids items) db.products) items in
    if is_empty exchanges then ok (nothing_capitalized db) else do
      inventory ←
          or_raise (find_inventory_of InventoryType.client inventory_id db.inventories)
            Error.inventory_not_found
      raise_if (not (inventory.user_id == client_id)) Error.inventory_not_found
      let missing = items_to_capitalize (λ k. db.stock_balances k inventory.id) exchanges
      if is_empty missing
          then ok (nothing_capitalized db)
          else post_initial_balance inventory.id missing client_id db
