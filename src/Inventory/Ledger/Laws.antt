-- ===== src/Inventory/Ledger/Laws.antt =====
-- What an entry in the stock ledger does to the balances: it moves units between two inventories
-- and never takes a guarded one below zero.
use munavvar_a.Prelude.{
  ℕ, false, ◌≡◌, refl, inl, inr, Option, String, List, [], ◌∷◌, ◌++◌, ◌+◌, ◌==◌, Bool-cases, keep,
  if◌then◌else◌, arith,
}
use munavvar_a.Prelude.Int.{ℤ, pos_part, neg_part}
use munavvar_a.Prelude.Book.{Balances, share, move-parts}
use munavvar_a.Store.{
  Line, StockTransaction, TransferType, Db, ok, >>=-eq-ok, raise_if-eq-ok, ok-injective,
}
use munavvar_a.Inventory.Ledger.{
  post_stock, went_negative, insert_stock_transaction, insert_stock_transactions, is_positive,
  create_stock_transfer, units,
}

-- The balance `b'` is `b` with `got` units more and `gave` units less.
abbrev pub Shifts : ℤ → ℤ → ℕ → ℕ → Type 0
Shifts b b' got gave = pos_part b' + neg_part b + gave ≡ neg_part b' + pos_part b + got

abbrev pub units_of : StockTransaction → ℕ → ℕ
units_of t p = if t.product_id == p then t.quantity else 0

pub share-zero : (k i : ℕ) → share k i 0 ≡ 0
share-zero k i = ground arith

pub post_stock_at :
    (t : StockTransaction) (balance : ℕ → Balances) (p i : ℕ)
    → Shifts
        (balance p i)
        (post_stock t balance p i)
        (share t.to_id i (units_of t p))
        (share t.from_id i (units_of t p))
unfolding post_stock
post_stock_at t balance p i = elim (Bool-cases (t.product_id == p)) [
  | inl e ↦ rw e (omega (arith, move-parts t.from_id t.to_id t.quantity (balance p) i))
  | inr e ↦ rw e (omega (arith, share-zero t.from_id i, share-zero t.to_id i))
]

-- What a successful INSERT has checked and written.
pub record Inserted (t : StockTransaction) (db db' : Db) : Type 0 where
  pub positive : (t.quantity == 0) ≡ false
  pub not_circular : (t.from_id == t.to_id) ≡ false
  pub from_allowed : went_negative t db (post_stock t db.stock_balances) t.from_id ≡ false
  pub to_allowed : went_negative t db (post_stock t db.stock_balances) t.to_id ≡ false
  pub stored : db' ≡ record db {
    stock_balances = post_stock t db.stock_balances;
    stock_transactions = db.stock_transactions ++ t ∷ [];
  }

pub insert_stock_transaction-Inserted :
    (t : StockTransaction) (db : Db) {db' : Db}
    → insert_stock_transaction t db ≡ ok db'
    → Inserted t db db'
unfolding insert_stock_transaction
insert_stock_transaction-Inserted t db h = ground arith

insert_stock_transaction-Shifts :
    (t : StockTransaction) (db : Db) {db' : Db}
    → insert_stock_transaction t db ≡ ok db'
    → (p i : ℕ)
    → Shifts
        (db.stock_balances p i)
        (db'.stock_balances p i)
        (share t.to_id i (units_of t p))
        (share t.from_id i (units_of t p))
insert_stock_transaction-Shifts t db h p i =
    rw (insert_stock_transaction-Inserted t db h).stored (post_stock_at t db.stock_balances p i)

pub share_add : (k i a b : ℕ) → share k i (a + b) ≡ share k i a + share k i b
share_add k i a b = ground arith

-- The entries of a transfer together move the units of its lines.
pub insert_stock_transactions-Shifts :
    (n from to : ℕ) (ls : List Line) (db : Db) {db' : Db}
    → insert_stock_transactions n from to ls db ≡ ok db'
    → (p i : ℕ)
    → Shifts
        (db.stock_balances p i)
        (db'.stock_balances p i)
        (share to i (units p ls))
        (share from i (units p ls))
unfolding insert_stock_transactions
insert_stock_transactions-Shifts n from to [] db h p i =
    rw (← ok-injective h) (omega (arith, share-zero from i, share-zero to i))
insert_stock_transactions-Shifts n from to (l ∷ ls) db h p i =
    let (mid, first, rest) = >>=-eq-ok _ _ h in
    omega (
      arith,
      insert_stock_transaction-Shifts _ db first p i,
      insert_stock_transactions-Shifts n from to ls mid rest p i,
      share_add from i (if l.product_id == p then l.quantity else 0) (units p ls),
      share_add to i (if l.product_id == p then l.quantity else 0) (units p ls),
    )

keep-units : (p : ℕ) (ls : List Line) → units p (keep is_positive ls) ≡ units p ls
keep-units p [] = refl
keep-units p (l ∷ ls) = ground (arith, keep-units p ls)

-- A transfer that is stored shifts every balance by the units that its lines hold of the product:
-- up at the receiver, down at the sender, and nowhere else.
pub create_stock_transfer-Shifts :
    (from to : ℕ) (type : TransferType) (items : List Line) (created_by : ℕ)
    (accepted_by order_id : Option ℕ) (reason : Option String) (db : Db) {db' : Db}
    → create_stock_transfer from to type items created_by accepted_by order_id reason db ≡ ok db'
    → (p i : ℕ)
    → Shifts
        (db.stock_balances p i)
        (db'.stock_balances p i)
        (share to i (units p items))
        (share from i (units p items))
unfolding create_stock_transfer
create_stock_transfer-Shifts from to type items created_by accepted_by order_id reason db h p i =
    let (different, stored) = raise_if-eq-ok _ _ _ h in
    rw (← keep-units p items)
      (insert_stock_transactions-Shifts db.next_id from to (keep is_positive items) _ stored p i)
