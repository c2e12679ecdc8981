-- ===== src/Inventory/Ledger.antt =====
-- The stock ledger: a row of stock_transactions and the trigger that keeps inventory_balances
-- (src/infrastructure/database/scripts/update_inventory_balances.sql), and the helper by which
-- every order operation moves goods (`BaseOrderService._create_stock_transfer`).
pub mod Laws
pub mod Solvency
use munavvar_a.Prelude.{
  ℕ, Bool, true, false, not, ◌&&◌, ◌||◌, Option, none, some, String, List, [], ◌∷◌, ◌++◌, ◌+◌, ◌==◌,
  ltb, find, keep, sum_of, if◌then◌else◌,
}
use munavvar_a.Prelude.Int.{ltb_ℤ, pos}
use munavvar_a.Prelude.Book.{Balances, move}
use munavvar_a.Store.{
  InventoryType, TransferType, TransferStatus, Inventory, Line, StockTransaction, StockTransfer, Db,
  Error, Result, ok, ◌>>=◌, ◌>>◌, raise_if,
}

abbrev pub is_virtual : InventoryType → Bool
is_virtual InventoryType.virtual_vendor = true
is_virtual InventoryType.virtual_loss = true
is_virtual _ = false

-- The trigger's join on inventories: does the row exist with a type that may not go negative?
unfoldable pub is_guarded : ℕ → List Inventory → Bool
is_guarded k is = elim (find (λ i. i.id == k) is) [
  | none ↦ false
  | some i ↦ not (is_virtual i.type)
]

-- The upsert of both ends, for the product of the row.
unfoldable pub post_stock : StockTransaction → (ℕ → Balances) → ℕ → Balances
post_stock t balance p =
    if t.product_id == p then move t.from_id t.to_id t.quantity (balance p) else balance p

-- The guard of the trigger at one inventory.
unfoldable pub went_negative : StockTransaction → Db → (ℕ → Balances) → ℕ → Bool
went_negative t db balance k = is_guarded k db.inventories && ltb_ℤ (balance t.product_id k) (pos 0)

-- INSERT INTO stock_transactions, its check constraints and its trigger.
unfoldable pub insert_stock_transaction : StockTransaction → Db → Result Db
insert_stock_transaction t db = do
  raise_if (t.quantity == 0) Error.integrity_error
  raise_if (t.from_id == t.to_id) Error.integrity_error
  let balance = post_stock t db.stock_balances
  raise_if (went_negative t db balance t.from_id || went_negative t db balance t.to_id)
      Error.integrity_error
  ok (record db { stock_balances = balance; stock_transactions = db.stock_transactions ++ t ∷ [] })

-- `transactions.add_many`: the row trigger runs once for each row, in order.
unfoldable pub insert_stock_transactions : ℕ → ℕ → ℕ → List Line → Db → Result Db
insert_stock_transactions transfer from to [] db = ok db
insert_stock_transactions transfer from to (l ∷ ls) db = do
  db' ←
      insert_stock_transaction
        (record {
          transfer_id = transfer;
          product_id = l.product_id;
          from_id = from;
          to_id = to;
          quantity = l.quantity;
        })
        db
  insert_stock_transactions transfer from to ls db'

abbrev pub or_else : Option ℕ → ℕ → ℕ
or_else none d = d
or_else (some a) d = a

abbrev pub is_positive : Line → Bool
is_positive l = ltb 0 l.quantity

-- `_create_stock_transfer`; lines of quantity 0 are skipped.
unfoldable pub create_stock_transfer :
    ℕ → ℕ → TransferType → List Line → ℕ → Option ℕ → Option ℕ → Option String → Db → Result Db
create_stock_transfer from to type items created_by accepted_by order_id reason db = do
  raise_if (from == to) Error.integrity_error
  let effective_items = keep is_positive items
  let transfer : StockTransfer = record {
    id = db.next_id;
    from_id = from;
    to_id = to;
    type = type;
    status = TransferStatus.completed;
    created_by_id = created_by;
    accepted_by_id = or_else accepted_by created_by;
    order_id = order_id;
    reason = reason;
    items = effective_items;
  }
  insert_stock_transactions db.next_id from to effective_items
      (record db { transfers = db.transfers ++ transfer ∷ []; next_id = db.next_id + 1 })

-- How many units of a product the lines hold.
abbrev pub units : ℕ → List Line → ℕ
units p = sum_of (λ l. if l.product_id == p then l.quantity else 0)
