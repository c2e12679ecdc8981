-- ===== src/Inventory/Transfers/Ends.antt =====
-- The two ends that `create_transfer` resolves from a request, and the row that it stores.
use munavvar_a.Prelude.{ℕ, ◌≡◌, ◌==◌, ◌&&◌, refl, subst, Option, some, none, List, [], ◌∷◌, keep}
use munavvar_a.Store.{
  InventoryType, TransferType, TransferStatus, Inventory, Line, StockTransfer, Db, Error, ok, ◌>>=◌,
  >>=-eq-ok, or_raise, ok-injective, same_inventory_type, system_user_id, get_system_inventory,
  one_or_none, some-injective,
}
use munavvar_a.Inventory.Ledger.{insert_stock_transactions}
use munavvar_a.Inventory.Ledger.Laws.{insert_stock_transaction-Inserted}
use munavvar_a.Inventory.Transfers.{TransferRequest, resolve_from, resolve_to}

-- The one inventory of the type that the system user has.
abbrev pub IsSystem : InventoryType → List Inventory → ℕ → Type 0
IsSystem t is k =
    (v : Inventory) × (keep (λ i. i.user_id == system_user_id && same_inventory_type i.type t) is
      ≡ v ∷ [])
    × (v.id ≡ k)

-- What enters the books comes from the vendor, all else from the inventory that is asked for.
abbrev pub IsSender : TransferType → Option ℕ → List Inventory → ℕ → Type 0
IsSender TransferType.inventory_finding asked is k = IsSystem InventoryType.virtual_vendor is k
IsSender TransferType.initial_balance asked is k = IsSystem InventoryType.virtual_vendor is k
IsSender _ asked is k = asked ≡ some k

-- What is written off goes to the losses, all else to the inventory that is asked for.
abbrev pub IsReceiver : TransferType → Option ℕ → List Inventory → ℕ → Type 0
IsReceiver TransferType.loss_write_off asked is k = IsSystem InventoryType.virtual_loss is k
IsReceiver _ asked is k = asked ≡ some k

found_alone :
    (rows : List Inventory) {v : Inventory}
    → (do found ← one_or_none rows; or_raise found Error.virtual_inventory_configuration) ≡ ok v
    → rows ≡ v ∷ []
found_alone [] h = cc
found_alone (x ∷ []) {v} h = let same : x ≡ v = ok-injective h in rw same
found_alone (x ∷ y ∷ rows) h = cc

get_system_inventory-IsSystem :
    (t : InventoryType) (is : List Inventory) {v : Inventory}
    → get_system_inventory t is ≡ ok v
    → IsSystem t is v.id
unfolding get_system_inventory
get_system_inventory-IsSystem t is {v} h = (v, found_alone _ h, refl)

resolved_id :
    (t : InventoryType) (is : List Inventory) {k : ℕ}
    → (do v ← get_system_inventory t is; ok (some v.id)) ≡ ok (some k)
    → IsSystem t is k
resolved_id t is h =
    let (v, found, same) = >>=-eq-ok (get_system_inventory t is) (λ v. ok (some v.id)) h in
    subst (IsSystem t is) (some-injective (ok-injective same))
      (get_system_inventory-IsSystem t is found)

resolved_from :
    (type : TransferType) (schema : TransferRequest) (is : List Inventory) {k : ℕ}
    → schema.type ≡ type
    → resolve_from schema is ≡ ok (some k)
    → IsSender type schema.from_id is k
unfolding resolve_from
resolved_from TransferType.inventory_finding schema is e h =
    resolved_id InventoryType.virtual_vendor is (rw e at h)
resolved_from TransferType.initial_balance schema is e h =
    resolved_id InventoryType.virtual_vendor is (rw e at h)
resolved_from TransferType.courier_load schema is e h = ok-injective (rw e at h)
resolved_from TransferType.courier_return schema is e h = ok-injective (rw e at h)
resolved_from TransferType.client_delivery schema is e h = ok-injective (rw e at h)
resolved_from TransferType.client_return schema is e h = ok-injective (rw e at h)
resolved_from TransferType.loss_write_off schema is e h = ok-injective (rw e at h)
resolved_from TransferType.warehouse_sale schema is e h = ok-injective (rw e at h)
resolved_from TransferType.warehouse_tara_return schema is e h = ok-injective (rw e at h)

resolved_to :
    (type : TransferType) (schema : TransferRequest) (is : List Inventory) {k : ℕ}
    → schema.type ≡ type
    → resolve_to schema is ≡ ok (some k)
    → IsReceiver type schema.to_id is k
unfolding resolve_to
resolved_to TransferType.loss_write_off schema is e h =
    resolved_id InventoryType.virtual_loss is (rw e at h)
resolved_to TransferType.inventory_finding schema is e h = ok-injective (rw e at h)
resolved_to TransferType.initial_balance schema is e h = ok-injective (rw e at h)
resolved_to TransferType.courier_load schema is e h = ok-injective (rw e at h)
resolved_to TransferType.courier_return schema is e h = ok-injective (rw e at h)
resolved_to TransferType.client_delivery schema is e h = ok-injective (rw e at h)
resolved_to TransferType.client_return schema is e h = ok-injective (rw e at h)
resolved_to TransferType.warehouse_sale schema is e h = ok-injective (rw e at h)
resolved_to TransferType.warehouse_tara_return schema is e h = ok-injective (rw e at h)

pub resolve_from-IsSender :
    (schema : TransferRequest) (is : List Inventory) {k : ℕ}
    → resolve_from schema is ≡ ok (some k)
    → IsSender schema.type schema.from_id is k
resolve_from-IsSender schema is h = resolved_from schema.type schema is refl h

pub resolve_to-IsReceiver :
    (schema : TransferRequest) (is : List Inventory) {k : ℕ}
    → resolve_to schema is ≡ ok (some k)
    → IsReceiver schema.type schema.to_id is k
resolve_to-IsReceiver schema is h = resolved_to schema.type schema is refl h

-- The rows of the ledger leave the table of transfers alone.
pub insert_stock_transactions-transfers :
    (n from to : ℕ) (ls : List Line) (db : Db) {db' : Db}
    → insert_stock_transactions n from to ls db ≡ ok db'
    → db'.transfers ≡ db.transfers
unfolding insert_stock_transactions
insert_stock_transactions-transfers n from to [] db h = rw (← ok-injective h)
insert_stock_transactions-transfers n from to (l ∷ ls) db h =
    let (mid, first, rest) = >>=-eq-ok _ _ h in
    rw (
      insert_stock_transactions-transfers n from to ls mid rest,
      (insert_stock_transaction-Inserted _ db first).stored,
    )

-- The completed transfer that a request leaves behind.
abbrev pub completed : ℕ → TransferRequest → ℕ → ℕ → ℕ → StockTransfer
completed by schema from to n = record {
  id = n;
  from_id = from;
  to_id = to;
  type = schema.type;
  status = TransferStatus.completed;
  created_by_id = by;
  accepted_by_id = by;
  order_id = none;
  reason = schema.reason;
  items = schema.items;
}
