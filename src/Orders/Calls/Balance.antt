-- ===== src/Orders/Calls/Balance.antt =====
-- The quota ledger under each call of the order service.
use munavvar_a.Prelude.{
  ℕ, List, [], ◌∷◌, ◌≡◌, subst, inl, inr, ◌⊎◌, ◌≤◌, some, find, Bool-cases, arith,
}
use munavvar_a.Store.{PriceItem, Db, ok}
use munavvar_a.Orders.Quota.Balance.{reserved, IsBalanced}
use munavvar_a.Orders.Quota.{is_price_of}
use munavvar_a.Orders.Quota.Counter.{IsWithin, AllWithin, used_row}
use munavvar_a.Orders.Checkout.Balance.{create_order-IsBalanced, create_warehouse_sale-IsBalanced}
use munavvar_a.Orders.Edit.Quotas.{add_product_to_order-IsBalanced}
use munavvar_a.Orders.Edit.Removal.{remove_product_from_order-IsBalanced}
use munavvar_a.Orders.Status.Quotas.{
  assign_courier-IsBalanced, update_status-IsBalanced, cancel_order-IsBalanced,
  complete_pickup-IsBalanced,
}
use munavvar_a.Orders.Calls.{OrderCall, run_order}

pub run_order-IsBalanced :
    (c : OrderCall) (db : Db) {db' : Db} → IsBalanced db → run_order c db ≡ ok db' → IsBalanced db'
unfolding run_order
run_order-IsBalanced (OrderCall.create client dto today) db b h =
    create_order-IsBalanced client dto today db b h
run_order-IsBalanced (OrderCall.sell dto client by) db b h =
    create_warehouse_sale-IsBalanced dto client by db b h
run_order-IsBalanced (OrderCall.add_product k p q user) db b h =
    add_product_to_order-IsBalanced k p q user db b h
run_order-IsBalanced (OrderCall.remove_product k p user) db b h =
    remove_product_from_order-IsBalanced k p user db b h
run_order-IsBalanced (OrderCall.assign k courier) db b h =
    assign_courier-IsBalanced k courier db b h
run_order-IsBalanced (OrderCall.change_status k s actual user reason) db b h =
    update_status-IsBalanced k s actual user reason db b h
run_order-IsBalanced (OrderCall.cancel k user reason) db b h =
    cancel_order-IsBalanced k user reason db b h
run_order-IsBalanced (OrderCall.pick_up k by) db b h = complete_pickup-IsBalanced k by db b h

IsWithin-used :
    (c p : ℕ) (pis : List PriceItem) {pi : PriceItem}
    → AllWithin pis
    → find (is_price_of c p) pis ≡ some pi
    → IsWithin pi
IsWithin-used c p [] w h = cc
IsWithin-used c p (x ∷ xs) {pi} w h = elim (Bool-cases (is_price_of c p x)) [
  | inl e ↦ let same : x ≡ pi = ground arith in subst IsWithin same w.0
  | inr e ↦ IsWithin-used c p xs w.1 (rw e at h)
]

pub row_within :
    (c p : ℕ) (db : Db) {pi : PriceItem}
    → IsBalanced db
    → find (is_price_of c p) db.price_items ≡ some pi
    → (pi.quantity ≡ 0) ⊎ (reserved c p db.orders ≤ pi.quantity)
row_within c p db {pi} b found = elim (IsWithin-used c p db.price_items b.prices.within found) [
  | inl e ↦ inl e
  | inr e ↦ inr (omega (arith, b.balance c p, used_row c p db.price_items b.prices.keys found))
]
