-- ===== src/Inventory/Ledger/Solvency.antt =====
-- Invariants of the stock ledger: no guarded inventory is ever below zero, and every product's
-- units are conserved.
use munavvar_a.Prelude.{
  ℕ, Bool, true, false, ◌≡◌, ◌∙◌, inl, inr, Option, String, List, [], ◌∷◌, ◌==◌, ◌&&◌, Bool-cases,
  ==_iff, count, arith, keep,
}
use munavvar_a.Prelude.Int.{ℤ, pos, ◌≤ℤ◌, ltb_ℤ}
use munavvar_a.Prelude.Book.{Balances, move, total, total-move}
use munavvar_a.Store.{
  Line, StockTransaction, TransferType, Db, ok, >>=-eq-ok, raise_if-eq-ok, ok-injective,
}
use munavvar_a.Inventory.Ledger.{
  is_guarded, post_stock, went_negative, insert_stock_transaction, insert_stock_transactions,
  is_positive, create_stock_transfer,
}
use munavvar_a.Inventory.Ledger.Laws.{Inserted, insert_stock_transaction-Inserted}

abbrev pub IsSolvent : Db → Type 0
IsSolvent db = (p i : ℕ) → is_guarded i db.inventories ≡ true → pos 0 ≤ℤ db.stock_balances p i

ltb_ℤ-nonneg : (a : ℤ) → ltb_ℤ a (pos 0) ≡ false → pos 0 ≤ℤ a
ltb_ℤ-nonneg a h = ground arith

and-false_right : (a b : Bool) → (a && b) ≡ false → a ≡ true → b ≡ false
and-false_right a b h g = ground arith

post_stock_other :
    (t : StockTransaction) (balance : ℕ → Balances) (p i : ℕ)
    → (t.from_id == i) ≡ false
    → (t.to_id == i) ≡ false
    → post_stock t balance p i ≡ balance p i
unfolding post_stock move
post_stock_other t balance p i a b = elim (Bool-cases (t.product_id == p)) [
  | inl e ↦ rw (e, a, b)
  | inr e ↦ rw e
]

post_stock_product :
    (t : StockTransaction) (balance : ℕ → Balances) (p i : ℕ)
    → (t.product_id == p) ≡ false
    → post_stock t balance p i ≡ balance p i
unfolding post_stock
post_stock_product t balance p i e = rw e

-- The guard of the trigger, read at an inventory and a product known to be those of the row.
went_negative-nonneg :
    (t : StockTransaction) (db : Db) (balance : ℕ → Balances) (p i k : ℕ)
    → (t.product_id == p) ≡ true
    → (k == i) ≡ true
    → went_negative t db balance k ≡ false
    → is_guarded i db.inventories ≡ true
    → pos 0 ≤ℤ balance p i
unfolding went_negative
went_negative-nonneg t db balance p i k e a h g =
    let at : k ≡ i = (==_iff k i).0 a in
    let of : t.product_id ≡ p = (==_iff t.product_id p).0 e in
    rw (← at, ← of)
      (ltb_ℤ-nonneg (balance t.product_id k) (
        and-false_right (is_guarded k db.inventories) (ltb_ℤ (balance t.product_id k) (pos 0)) h
          (rw at g)))

post_stock-nonneg :
    (t : StockTransaction) (db db' : Db)
    → Inserted t db db'
    → IsSolvent db
    → (p i : ℕ) → is_guarded i db.inventories ≡ true
    → pos 0 ≤ℤ post_stock t db.stock_balances p i
post_stock-nonneg t db db' ins s p i g = elim (Bool-cases (t.product_id == p)) [
  | inr e ↦ rw (post_stock_product t db.stock_balances p i e) (s p i g)
  | inl e ↦ elim (Bool-cases (t.from_id == i)) [
    | inl a ↦ went_negative-nonneg t db _ p i t.from_id e a ins.from_allowed g
    | inr a ↦ elim (Bool-cases (t.to_id == i)) [
      | inl b ↦ went_negative-nonneg t db _ p i t.to_id e b ins.to_allowed g
      | inr b ↦ rw (post_stock_other t db.stock_balances p i a b) (s p i g)
    ]
  ]
]

pub insert_stock_transaction-IsSolvent :
    (t : StockTransaction) (db : Db) {db' : Db}
    → insert_stock_transaction t db ≡ ok db'
    → IsSolvent db
    → IsSolvent db'
insert_stock_transaction-IsSolvent t db {db'} h s =
    let ins = insert_stock_transaction-Inserted t db h in
    rw ins.stored (post_stock-nonneg t db db' ins s)

pub insert_stock_transactions-IsSolvent :
    (n from to : ℕ) (ls : List Line) (db : Db) {db' : Db}
    → insert_stock_transactions n from to ls db ≡ ok db'
    → IsSolvent db
    → IsSolvent db'
unfolding insert_stock_transactions
insert_stock_transactions-IsSolvent n from to [] db h s = rw (← ok-injective h) s
insert_stock_transactions-IsSolvent n from to (l ∷ ls) db h s =
    let (mid, first, rest) = >>=-eq-ok _ _ h in
    insert_stock_transactions-IsSolvent n from to ls mid rest
      (insert_stock_transaction-IsSolvent _ db first s)

-- A stored transfer leaves every guarded inventory at zero or more, if it found them so.
pub create_stock_transfer-IsSolvent :
    (from to : ℕ) (type : TransferType) (items : List Line) (created_by : ℕ)
    (accepted_by order_id : Option ℕ) (reason : Option String) (db : Db) {db' : Db}
    → create_stock_transfer from to type items created_by accepted_by order_id reason db ≡ ok db'
    → IsSolvent db
    → IsSolvent db'
unfolding create_stock_transfer
create_stock_transfer-IsSolvent from to type items created_by accepted_by order_id reason db h s =
    let (different, stored) = raise_if-eq-ok _ _ _ h in
    insert_stock_transactions-IsSolvent db.next_id from to (keep is_positive items) _ stored s

insert_stock_transaction-total :
    (t : StockTransaction) (db : Db) {db' : Db}
    → insert_stock_transaction t db ≡ ok db'
    → (p : ℕ) (is : List ℕ) → count t.from_id is ≡ count t.to_id is
    → total (db'.stock_balances p) is ≡ total (db.stock_balances p) is
unfolding post_stock
insert_stock_transaction-total t db {db'} h p is e =
    rw (insert_stock_transaction-Inserted t db h).stored (elim (Bool-cases (t.product_id == p)) [
      | inl a ↦ rw a (total-move t.from_id t.to_id t.quantity (db.stock_balances p) is e)
      | inr a ↦ rw a
    ])

insert_stock_transactions-total :
    (n from to : ℕ) (ls : List Line) (db : Db) {db' : Db}
    → insert_stock_transactions n from to ls db ≡ ok db'
    → (p : ℕ) (is : List ℕ) → count from is ≡ count to is
    → total (db'.stock_balances p) is ≡ total (db.stock_balances p) is
unfolding insert_stock_transactions
insert_stock_transactions-total n from to [] db h p is e = rw (← ok-injective h)
insert_stock_transactions-total n from to (l ∷ ls) db h p is e =
    let (mid, first, rest) = >>=-eq-ok _ _ h in
    insert_stock_transactions-total n from to ls mid rest p is e
    ∙ insert_stock_transaction-total _ db first p is e

-- A stored transfer conserves the units of each product over any inventories that hold both of
-- its ends equally often, such as a list of all inventories without repetition.
pub create_stock_transfer-conserves :
    (from to : ℕ) (type : TransferType) (items : List Line) (created_by : ℕ)
    (accepted_by order_id : Option ℕ) (reason : Option String) (db : Db) {db' : Db}
    → create_stock_transfer from to type items created_by accepted_by order_id reason db ≡ ok db'
    → (p : ℕ) (is : List ℕ) → count from is ≡ count to is
    → total (db'.stock_balances p) is ≡ total (db.stock_balances p) is
unfolding create_stock_transfer
create_stock_transfer-conserves from to type items created_by accepted_by order_id reason db h =
    let (different, stored) = raise_if-eq-ok _ _ _ h in
    insert_stock_transactions-total db.next_id from to (keep is_positive items) _ stored
