-- ===== src/Orders/Frame.antt =====
-- Which parts of the store the stock and money entries of an order leave as they are.
use munavvar_a.Prelude.{
  ℕ, Bool, true, false, not, ◌&&◌, ◌≡◌, refl, sym, subst, ◌∙◌, inl, inr, ◌+◌, ◌≤◌, ◌==◌, Bool-cases,
  Option, none, some, String, List, [], ◌∷◌, ◌++◌, keep, if◌then◌else◌, arith,
}
use munavvar_a.Store.{
  OrderStatus, TransferType, StockTransfer, InventoryType, Shortage, find_inventory,
  find_inventory_of, get_system_inventory, AccountType, get_client_account, get_system_account,
  Line, Order, Transaction, StockTransaction, Db, ok, ◌>>=◌, >>=-eq-ok, raise_if-eq-ok,
  or_raise-eq-ok, ok-injective,
}
use munavvar_a.Inventory.Ledger.{
  insert_stock_transaction, insert_stock_transactions, is_positive, create_stock_transfer,
}
use munavvar_a.Inventory.Ledger.Laws.{insert_stock_transaction-Inserted}
use munavvar_a.Finances.Ledger.{insert_transaction, insert_transactions}
use munavvar_a.Finances.Ledger.Consistency.{insert_transaction-stored}
use munavvar_a.Orders.Tara.{
  Exchange, is_empty, shortages, deficit_lines, build_returnable_items, settle_tara,
}
use munavvar_a.Orders.Fulfillment.{
  item_lines, stock_shortages, transfer_unless_empty, deliver_goods,
}
use munavvar_a.Orders.Pickup.{
  log_transition, is_walkin, returnable_for_pickup, sale_lines, issue_containers,
  handle_warehouse_pickup,
}
use munavvar_a.Orders.Settlement.{
  delivery_payment, pickup_payment, process_financial_settlement, process_pickup_settlement,
}

-- Orders and quotas are untouched; ids only grow.
pub record Frame (db db' : Db) : Type 0 where
  pub orders : db'.orders ≡ db.orders
  pub price_items : db'.price_items ≡ db.price_items
  pub next_id : db.next_id ≤ db'.next_id

pub Frame-refl : (db : Db) → Frame db db
Frame-refl db = record { orders = refl; price_items = refl; next_id = omega arith }

pub Frame-trans : {a b c : Db} → Frame a b → Frame b c → Frame a c
Frame-trans f g = record {
  orders = g.orders ∙ f.orders;
  price_items = g.price_items ∙ f.price_items;
  next_id = omega (arith, f.next_id, g.next_id);
}

insert_stock_transaction-Frame :
    (t : StockTransaction) (db : Db) {db' : Db}
    → insert_stock_transaction t db ≡ ok db'
    → Frame db db'
insert_stock_transaction-Frame t db h =
    subst (Frame db) (sym (insert_stock_transaction-Inserted t db h).stored)
      (record { orders = refl; price_items = refl; next_id = omega arith })

insert_stock_transactions-Frame :
    (n from to : ℕ) (ls : List Line) (db : Db) {db' : Db}
    → insert_stock_transactions n from to ls db ≡ ok db'
    → Frame db db'
unfolding insert_stock_transactions
insert_stock_transactions-Frame n from to [] db h =
    subst (Frame db) (ok-injective h) (Frame-refl db)
insert_stock_transactions-Frame n from to (l ∷ ls) db h =
    let (mid, first, rest) = >>=-eq-ok _ _ h in
    Frame-trans (insert_stock_transaction-Frame _ db first)
      (insert_stock_transactions-Frame n from to ls mid rest)

next-Frame :
    (db : Db) (ts : List StockTransfer) {db' : Db}
    → Frame (record db { transfers = ts; next_id = db.next_id + 1 }) db'
    → Frame db db'
next-Frame db ts f = record {
  orders = f.orders;
  price_items = f.price_items;
  next_id = omega (arith, f.next_id);
}

pub create_stock_transfer-Frame :
    (from to : ℕ) (type : TransferType) (items : List Line) (created_by : ℕ)
    (accepted_by order_id : Option ℕ) (reason : Option String) (db : Db) {db' : Db}
    → create_stock_transfer from to type items created_by accepted_by order_id reason db ≡ ok db'
    → Frame db db'
unfolding create_stock_transfer
create_stock_transfer-Frame from to type items created_by accepted_by order_id reason db {db'} h =
    let (_, stored) = raise_if-eq-ok (from == to) _ _ h in
    next-Frame db _
      (insert_stock_transactions-Frame db.next_id from to (keep is_positive items) _ stored)

insert_transaction-Frame :
    (t : Transaction) (db : Db) {db' : Db} → insert_transaction t db ≡ ok db' → Frame db db'
insert_transaction-Frame t db h =
    subst (Frame db) (sym (insert_transaction-stored t db h))
      (record { orders = refl; price_items = refl; next_id = omega arith })

pub insert_transactions-Frame :
    (ts : List Transaction) (db : Db) {db' : Db} → insert_transactions ts db ≡ ok db' → Frame db db'
unfolding insert_transactions
insert_transactions-Frame [] db h = subst (Frame db) (ok-injective h) (Frame-refl db)
insert_transactions-Frame (t ∷ ts) db h =
    let (mid, first, rest) = >>=-eq-ok _ _ h in
    Frame-trans (insert_transaction-Frame t db first) (insert_transactions-Frame ts mid rest)

pub process_financial_settlement-Frame :
    (o : Order) (db : Db) {db' : Db} → process_financial_settlement o db ≡ ok db' → Frame db db'
unfolding process_financial_settlement
process_financial_settlement-Frame o db h =
    let (client, _, h₁) = or_raise-eq-ok (get_client_account o.client_id db.accounts) _ _ h in
    let (_, _, h₂) = or_raise-eq-ok (get_system_account AccountType.revenue db.accounts) _ _ h₁ in
    let (_, _, h₃) = >>=-eq-ok (delivery_payment o.payment_method o client db.accounts) _ h₂ in
    insert_transactions-Frame _ db h₃

pub process_pickup_settlement-Frame :
    (o : Order) (db : Db) {db' : Db} → process_pickup_settlement o db ≡ ok db' → Frame db db'
unfolding process_pickup_settlement
process_pickup_settlement-Frame o db h =
    let (client, _, h₁) = or_raise-eq-ok (get_client_account o.client_id db.accounts) _ _ h in
    let (_, _, h₂) = or_raise-eq-ok (get_system_account AccountType.revenue db.accounts) _ _ h₁ in
    let (_, _, h₃) = >>=-eq-ok (pickup_payment o.payment_method o client db.accounts) _ h₂ in
    insert_transactions-Frame _ db h₃

transfer_unless_empty-Frame :
    (from to : ℕ) (type : TransferType) (items : List Line) (by accepted order_id : ℕ) (db : Db)
    {db' : Db}
    → transfer_unless_empty from to type items by accepted order_id db ≡ ok db'
    → Frame db db'
unfolding transfer_unless_empty
transfer_unless_empty-Frame from to type [] by accepted order_id db h =
    subst (Frame db) (ok-injective h) (Frame-refl db)
transfer_unless_empty-Frame from to type (x ∷ xs) by accepted order_id db h =
    create_stock_transfer-Frame _ _ _ _ _ _ _ _ db h

pub deliver_goods-Frame :
    (o : Order) (courier inventory : ℕ) (db : Db) {db' : Db}
    → deliver_goods o courier inventory db ≡ ok db'
    → Frame db db'
unfolding deliver_goods
deliver_goods-Frame o courier inventory db h =
    let (mid, first, rest) =
      >>=-eq-ok
        (create_stock_transfer inventory o.client_inventory_id TransferType.client_delivery
          (item_lines o.items ++ build_returnable_items db.products o.items) courier
          (some o.client_id) (some o.id) none db)
        _ h in
    Frame-trans (create_stock_transfer-Frame _ _ _ _ _ _ _ _ db first)
      (transfer_unless_empty-Frame _ _ _ _ _ _ _ mid rest)

capitalize-Frame :
    (inventory by : ℕ) (missing : List Shortage) (db : Db) {r : Bool × Db}
    → (if is_empty missing then ok (false, db) else do
      vendor_inv ← get_system_inventory InventoryType.virtual_vendor db.inventories
      db' ←
          create_stock_transfer vendor_inv.id inventory TransferType.initial_balance
            (deficit_lines missing)
            by
            (some by)
            none
            none
            db
      ok (true, db'))
      ≡ ok r
    → Frame db r.1
capitalize-Frame inventory by [] db h = subst (λ x. Frame db x.1) (ok-injective h) (Frame-refl db)
capitalize-Frame inventory by (x ∷ xs) db h =
    let (vendor, _, h₁) =
      >>=-eq-ok (get_system_inventory InventoryType.virtual_vendor db.inventories) _ h in
    let (mid, moved, h₂) =
      >>=-eq-ok
        (create_stock_transfer vendor.id inventory TransferType.initial_balance
          (deficit_lines (x ∷ xs)) by (some by) none none db)
        _ h₁ in
    subst (λ y. Frame db y.1) (ok-injective h₂)
      (create_stock_transfer-Frame _ _ _ _ _ _ _ _ db moved)

pub settle_tara-Frame :
    (es : List Exchange) (items : List Line) (inventory : ℕ) (capitalize : Bool) (by : ℕ) (db : Db)
    {r : Bool × Db}
    → settle_tara es items inventory capitalize by db ≡ ok r
    → Frame db r.1
unfolding settle_tara
settle_tara-Frame es items inventory capitalize by db {r} h = elim (Bool-cases (is_empty es)) [
  | inl e ↦ subst (λ x. Frame db x.1) (ok-injective (rw e at h)) (Frame-refl db)
  | inr e ↦
      let (row, _, h₁) = or_raise-eq-ok (find_inventory inventory db.inventories) _ _ (rw e at h) in
      let missing : List Shortage = shortages (λ k. db.stock_balances k row.id) items es in
      let (_, h₂) = raise_if-eq-ok (not (is_empty missing) && not capitalize) _ _ h₁ in
      capitalize-Frame row.id by missing db h₂
]

issue_containers-Frame :
    (o : Order) (warehouse : ℕ) (returnable : List Line) (by : ℕ) (db : Db) {db' : Db}
    → issue_containers o warehouse returnable by db ≡ ok db'
    → Frame db db'
unfolding issue_containers
issue_containers-Frame o warehouse returnable by db h =
    elim (Bool-cases (not (is_empty returnable) && not (is_walkin o.client_id))) [
      | inr e ↦ subst (Frame db) (ok-injective (rw e at h)) (Frame-refl db)
      | inl e ↦
          let (vendor, _, h₁) =
            >>=-eq-ok (get_system_inventory InventoryType.virtual_vendor db.inventories) _
              (rw e at h) in
          create_stock_transfer-Frame _ _ _ _ _ _ _ _ db h₁
    ]

pub handle_warehouse_pickup-Frame :
    (o : Order) (by : ℕ) (db : Db) {db' : Db}
    → handle_warehouse_pickup o by db ≡ ok db'
    → Frame db db'
unfolding handle_warehouse_pickup
handle_warehouse_pickup-Frame o by db h =
    let (w, _, h₁) = or_raise-eq-ok o.warehouse_id _ _ h in
    let (row, _, h₂) =
      or_raise-eq-ok (find_inventory_of InventoryType.warehouse w db.inventories) _ _ h₁ in
    let (_, h₃) =
      raise_if-eq-ok (not (is_empty (stock_shortages (λ k. db.stock_balances k row.id) o.items))) _
        _ h₂ in
    let returnable : List Line = build_returnable_items db.products o.items in
    let (db₁, issued, h₄) = >>=-eq-ok (issue_containers o row.id returnable by db) _ h₃ in
    let (db₂, sold, h₅) =
      >>=-eq-ok
        (create_stock_transfer row.id o.client_inventory_id TransferType.warehouse_sale
          (sale_lines o returnable) by (some o.client_id) (some o.id) none db₁)
        _ h₄ in
    let (db₃, back, h₆) =
      >>=-eq-ok
        (transfer_unless_empty o.client_inventory_id row.id TransferType.warehouse_tara_return
          (returnable_for_pickup o returnable) by by o.id db₂)
        _ h₅ in
    Frame-trans (issue_containers-Frame o row.id returnable by db issued) (
      Frame-trans (create_stock_transfer-Frame _ _ _ _ _ _ _ _ db₁ sold) (
        Frame-trans (transfer_unless_empty-Frame _ _ _ _ _ _ _ db₂ back)
          (process_pickup_settlement-Frame o db₃ h₆)))

-- An entry of the status log.
pub log_transition-Frame :
    (k : ℕ) (before : Option OrderStatus) (after : OrderStatus) (by : Option ℕ)
    (reason : Option String) (db : Db)
    → Frame db (log_transition k before after by reason db)
unfolding log_transition
log_transition-Frame k before after by reason db = record {
  orders = refl;
  price_items = refl;
  next_id = omega arith;
}
