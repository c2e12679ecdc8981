-- ===== src/Orders/Fulfillment/Laws.antt =====
-- What a delivery moves between inventories.
use munavvar_a.Prelude.{ℕ, ◌≡◌, ◌+◌, some, none, List, [], ◌∷◌, ◌++◌, sum_of-append, subst, arith}
use munavvar_a.Prelude.Int.{ℤ}
use munavvar_a.Prelude.Book.{share}
use munavvar_a.Store.{TransferType, Line, Order, Db, ok, >>=-eq-ok, ok-injective}
use munavvar_a.Inventory.Ledger.{create_stock_transfer, units}
use munavvar_a.Inventory.Ledger.Laws.{Shifts, share_add, share-zero, create_stock_transfer-Shifts}
use munavvar_a.Orders.Tara.{build_returnable_items}
use munavvar_a.Orders.Fulfillment.{item_lines, transfer_unless_empty, deliver_goods}

Shifts-none : (b : ℤ) (to from i : ℕ) → Shifts b b (share to i 0) (share from i 0)
Shifts-none b to from i = omega (arith, share-zero to i, share-zero from i)

transfer_unless_empty-Shifts :
    (from to : ℕ) (type : TransferType) (items : List Line) (by accepted order_id : ℕ) (db : Db)
    {db' : Db}
    → transfer_unless_empty from to type items by accepted order_id db ≡ ok db'
    → (p i : ℕ)
    → Shifts
        (db.stock_balances p i)
        (db'.stock_balances p i)
        (share to i (units p items))
        (share from i (units p items))
unfolding transfer_unless_empty
transfer_unless_empty-Shifts from to type [] by accepted order_id db h p i =
    subst
      (λ x. Shifts (db.stock_balances p i) (x.stock_balances p i) (share to i 0) (share from i 0))
      (ok-injective h) (Shifts-none (db.stock_balances p i) to from i)
transfer_unless_empty-Shifts from to type (x ∷ xs) by accepted order_id db h p i =
    create_stock_transfer-Shifts from to type (x ∷ xs) by (some accepted) (some order_id) none db h
      p i

units-append : (p : ℕ) (xs ys : List Line) → units p (xs ++ ys) ≡ units p xs + units p ys
units-append p xs ys = sum_of-append _ xs ys

share-append :
    (k i p : ℕ) (xs ys : List Line)
    → share k i (units p (xs ++ ys)) ≡ share k i (units p xs) + share k i (units p ys)
share-append k i p xs ys = rw (units-append p xs ys) (share_add k i (units p xs) (units p ys))

-- The two transfers of a delivery together move the goods of the order from the courier to the
-- client and nothing else: the returnable containers that go along come back in full.
pub deliver_goods-Shifts :
    (o : Order) (courier inventory : ℕ) (db : Db) {db' : Db}
    → deliver_goods o courier inventory db ≡ ok db'
    → (p i : ℕ)
    → Shifts
        (db.stock_balances p i)
        (db'.stock_balances p i)
        (share o.client_inventory_id i (units p (item_lines o.items)))
        (share inventory i (units p (item_lines o.items)))
unfolding deliver_goods
deliver_goods-Shifts o courier inventory db h p i =
    let returnable : List Line = build_returnable_items db.products o.items in
    let (mid, out, back) =
      >>=-eq-ok
        (create_stock_transfer inventory o.client_inventory_id TransferType.client_delivery
          (item_lines o.items ++ returnable) courier (some o.client_id) (some o.id) none db)
        _ h in
    omega (
      arith,
      create_stock_transfer-Shifts inventory o.client_inventory_id TransferType.client_delivery
          (item_lines o.items ++ returnable) courier (some o.client_id) (some o.id) none db out p i,
      transfer_unless_empty-Shifts o.client_inventory_id inventory TransferType.client_return
          returnable courier courier o.id mid back p i,
      share-append o.client_inventory_id i p (item_lines o.items) returnable,
      share-append inventory i p (item_lines o.items) returnable,
    )
