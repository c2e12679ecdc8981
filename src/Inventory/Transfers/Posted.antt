-- ===== src/Inventory/Transfers/Posted.antt =====
-- The trigger accepts the rows of a transfer whose sender covers them.
use munavvar_a.Prelude.{
  ℕ, true, false, ◌≡◌, ◌==◌, refl, inl, inr, Bool-cases, or-false, List, [], ◌∷◌, ◌++◌, any, arith,
}
use munavvar_a.Prelude.Int.{ℤ, pos, ◌≤ℤ◌, ltb_ℤ}
use munavvar_a.Prelude.Book.{Balances, share}
use munavvar_a.Store.{Inventory, Line, StockTransaction, Db, ok}
use munavvar_a.Inventory.Ledger.{
  is_guarded, post_stock, went_negative, insert_stock_transaction, insert_stock_transactions, units,
}
use munavvar_a.Inventory.Ledger.Laws.{units_of, post_stock_at}

abbrev pub inventory_id : Inventory → ℕ
inventory_id i = i.id

-- The sender holds the lines, where it may not go below zero.
abbrev pub Covers : ℕ → List Line → Db → Type 0
Covers from ls db =
    is_guarded from db.inventories ≡ true → (p : ℕ) → pos (units p ls) ≤ℤ db.stock_balances p from

abbrev pub Receives : ℕ → Db → Type 0
Receives to db = is_guarded to db.inventories ≡ true → (p : ℕ) → pos 0 ≤ℤ db.stock_balances p to

row_of : ℕ → ℕ → ℕ → Line → StockTransaction
row_of n from to l = record {
  transfer_id = n;
  product_id = l.product_id;
  from_id = from;
  to_id = to;
  quantity = l.quantity;
}

abbrev pub posted : StockTransaction → Db → Db
posted t db = record db {
  stock_balances = post_stock t db.stock_balances;
  stock_transactions = db.stock_transactions ++ t ∷ [];
}

insert_allowed :
    (t : StockTransaction) (db : Db)
    → (t.quantity == 0) ≡ false
    → (t.from_id == t.to_id) ≡ false
    → went_negative t db (post_stock t db.stock_balances) t.from_id ≡ false
    → went_negative t db (post_stock t db.stock_balances) t.to_id ≡ false
    → insert_stock_transaction t db ≡ ok (posted t db)
unfolding insert_stock_transaction
insert_allowed t db q d a b = rw (q, d, a, b)

nonneg-ltb : (a : ℤ) → pos 0 ≤ℤ a → ltb_ℤ a (pos 0) ≡ false
nonneg-ltb a h = ground arith

stays_up :
    (t : StockTransaction) (db : Db) (balance : ℕ → Balances) (k : ℕ)
    → (is_guarded k db.inventories ≡ true → pos 0 ≤ℤ balance t.product_id k)
    → went_negative t db balance k ≡ false
unfolding went_negative
stays_up t db balance k h = elim (Bool-cases (is_guarded k db.inventories)) [
  | inl g ↦ rw g (nonneg-ltb _ (h g))
  | inr g ↦ rw g
]

pub share_self : (k q : ℕ) → share k k q ≡ q
share_self k q = ground arith

pub share_other : (k i q : ℕ) → (k == i) ≡ false → share k i q ≡ 0
share_other k i q h = rw h

swapped : (a b : ℕ) → (a == b) ≡ false → (b == a) ≡ false
swapped a b h = ground arith

module _ (n from to : ℕ) (different : (from == to) ≡ false) where
  -- One row of the transfer is accepted, and what is left stays covered.
  sender_left :
      (l : Line) (ls : List Line) (db : Db)
      → Covers from (l ∷ ls) db
      → Covers from ls (posted (row_of n from to l) db)
  unfolding row_of
  sender_left l ls db c g p = omega (
    arith,
    post_stock_at (row_of n from to l) db.stock_balances p from,
    c g p,
    share_self from (units_of (row_of n from to l) p),
    share_other to from (units_of (row_of n from to l) p) (swapped from to different),
  )

  receiver_grows :
      (l : Line) (db : Db) → Receives to db → Receives to (posted (row_of n from to l) db)
  unfolding row_of
  receiver_grows l db r g p = omega (
    arith,
    post_stock_at (row_of n from to l) db.stock_balances p to,
    r g p,
    share_self to (units_of (row_of n from to l) p),
    share_other from to (units_of (row_of n from to l) p) different,
  )

  row_accepted :
      (l : Line) (ls : List Line) (db : Db)
      → (l.quantity == 0) ≡ false
      → Covers from (l ∷ ls) db
      → Receives to db
      → insert_stock_transaction (row_of n from to l) db ≡ ok (posted (row_of n from to l) db)
  unfolding row_of
  row_accepted l ls db q c r =
      insert_allowed (row_of n from to l) db q different
        (stays_up (row_of n from to l) db _ from
          (λ g. omega (arith, sender_left l ls db c g l.product_id)))
        (stays_up (row_of n from to l) db _ to (λ g. receiver_grows l db r g l.product_id))

  pub rows_accepted :
      (ls : List Line) (db : Db)
      → any (λ l. l.quantity == 0) ls ≡ false
      → Covers from ls db
      → Receives to db
      → (db' : Db) × (insert_stock_transactions n from to ls db ≡ ok db')
  unfolding insert_stock_transactions row_of
  rows_accepted [] db q c r = (db, refl)
  rows_accepted (l ∷ ls) db q c r =
      let (first, others) = or-false (l.quantity == 0) _ q in
      let (db', done) =
        rows_accepted ls (posted (row_of n from to l) db) others (sender_left l ls db c)
          (receiver_grows l db r) in
      (db', rw (row_accepted l ls db first c r) done)
