-- ===== src/Orders/Life/Entries.antt =====
-- The checkouts and the edits of an order keep each order on its life.
use munavvar_a.Prelude.{
  ℕ, ◌+◌, Bool, true, false, not, ◌≡◌, ◌==◌, ◌||◌, refl, sym, ap, subst, inl, inr, Bool-cases,
  Option, none, some, String, List, [], ◌∷◌, find, leb, length, is_some, if◌then◌else◌,
}
use munavvar_a.Store.{
  OrderStatus, InventoryType, Order, OrderItem, Line, Product, Db, ok, >>=-eq-ok, raise_if-eq-ok,
  or_raise-eq-ok, ok-injective, same_status, same_contract_status, ContractStatus, find_order,
  update_order, find_product, find_contract, find_inventory_of, get_client_inventory,
  walkin_user_id,
}
use munavvar_a.Orders.Quota.{
  plan_increments, increment_quantities_used, decrement_quantities_used,
  check_and_reserve_quantities, is_price_of, exceeds,
}
use munavvar_a.Orders.Cart.{
  product_ids, has_duplicates, get_by_ids, missing_ids, price_map, build_order_items,
}
use munavvar_a.Orders.Tara.{Exchange, exchange_items, is_empty, settle_tara}
use munavvar_a.Orders.Frame.{settle_tara-Frame, handle_warehouse_pickup-Frame, log_transition-Frame}
use munavvar_a.Orders.Checkout.{
  get_client, effective_client, OrderCreate, Agreement, find_agreement, reserve_agreed, add_order,
  create_order, WarehouseSaleCreate, create_warehouse_sale,
}
use munavvar_a.Orders.Checkout.Balance.{sale_draft, sale_tara-Frame}
use munavvar_a.Orders.Edit.{
  is_denied, get_by_order_and_product, contract_of, reserve_addition, with_addition,
  add_product_to_order, release_removal, without_product, remove_item, remove_product_from_order,
}
use munavvar_a.Orders.Pickup.{handle_warehouse_pickup, log_transition}
use munavvar_a.Orders.Life.{
  Course, here, Follows, Moves, Moves-trans, Moves-same, Moves-Frame, Moves-update, Moves-append,
}

-- An update that leaves type of sale and status alone.
abbrev pub IsQuiet : (Order → Order) → Type 0
IsQuiet f = (x : Order) → ((f x).sale_type ≡ x.sale_type) × ((f x).status ≡ x.status)

quiet-Follows : (f : Order → Order) (x : Order) → IsQuiet f → Follows x (f x)
quiet-Follows f x q = record {
  sale = (q x).0;
  path = subst (Course x.sale_type x.status) (sym (q x).1) here;
}

pub quiet-Moves :
    (k : ℕ) (f : Order → Order) {db db' : Db}
    → db'.orders ≡ update_order k f db.orders
    → ((x : Order) → (f x).id ≡ x.id)
    → IsQuiet f
    → Moves db db'
quiet-Moves k f e same q = Moves-update k f e same (λ x _. quiet-Follows f x q)

pub log-Moves :
    (k : ℕ) (from : Option OrderStatus) (to : OrderStatus) (by : Option ℕ) (reason : Option String)
    (db : Db)
    → Moves db (log_transition k from to by reason db)
log-Moves k from to by reason db = Moves-Frame (log_transition-Frame k from to by reason db)

reserve_agreed-Moves :
    (a : Agreement) (ls : List Line) (db : Db) {db' : Db}
    → reserve_agreed a ls db ≡ ok db'
    → Moves db db'
unfolding reserve_agreed check_and_reserve_quantities
reserve_agreed-Moves a ls db h = elim (Bool-cases (is_some a.contract_id)) [
  | inr e ↦ subst (Moves db) (ok-injective (rw e at h)) (Moves-same refl)
  | inl e ↦
      let (increments, _, h₁) = >>=-eq-ok (plan_increments a.locked ls) _ (rw e at h) in
      let (pis, _, h₂) = >>=-eq-ok (increment_quantities_used increments db.price_items) _ h₁ in
      subst (Moves db) (ok-injective h₂) (Moves-same refl)
]

add_order-Moves : (o : Order) (db : Db) → Moves db (add_order o db)
unfolding add_order
add_order-Moves o db = Moves-append (o ∷ []) refl

pub create_order-Moves :
    (client_id : ℕ) (dto : OrderCreate) (today : ℕ) (db : Db) {db' : Db}
    → create_order client_id dto today db ≡ ok db'
    → Moves db db'
unfolding create_order
create_order-Moves client_id dto today db h =
    let (_, h₁) = raise_if-eq-ok (is_empty dto.items) _ _ h in
    let (_, h₂) = raise_if-eq-ok (has_duplicates (product_ids dto.items)) _ _ h₁ in
    let products : List Product = get_by_ids (product_ids dto.items) db.products in
    let (_, h₃) =
      raise_if-eq-ok (not (is_empty (missing_ids (product_ids dto.items) products))) _ _ h₂ in
    let (client, _, h₄) = or_raise-eq-ok (get_client client_id db.users) _ _ h₃ in
    let (a, _, h₅) = >>=-eq-ok (find_agreement dto client_id client.role today db) _ h₄ in
    let (db₁, reserved, h₆) = >>=-eq-ok (reserve_agreed a dto.items db) _ h₅ in
    let (r, settled, h₇) =
      >>=-eq-ok
        (settle_tara (exchange_items products dto.items) dto.items dto.client_inventory_id
          dto.capitalize_missing_tara client_id db₁)
        _ h₆ in
    let (items, _, h₈) =
      >>=-eq-ok (build_order_items (price_map a.locked products) (r.1.next_id + 1) dto.items) _
        h₇ in
    subst (Moves db) (ok-injective h₈) (
      Moves-trans (reserve_agreed-Moves a dto.items db reserved) (
        Moves-trans (Moves-Frame (settle_tara-Frame _ dto.items _ _ client_id db₁ settled))
          (Moves-trans (add_order-Moves _ r.1) (log-Moves _ none OrderStatus.new _ none _))))

pub create_warehouse_sale-Moves :
    (dto : WarehouseSaleCreate) (client_id : Option ℕ) (by : ℕ) (db : Db) {db' : Db}
    → create_warehouse_sale dto client_id by db ≡ ok db'
    → Moves db db'
unfolding create_warehouse_sale
create_warehouse_sale-Moves dto client_id by db h =
    let client : ℕ = effective_client client_id in
    let walkin : Bool = client == walkin_user_id in
    let (_, h₁) = raise_if-eq-ok (is_empty dto.items) _ _ h in
    let products : List Product = get_by_ids (product_ids dto.items) db.products in
    let (_, h₂) =
      raise_if-eq-ok (not (is_empty (missing_ids (product_ids dto.items) products))) _ _ h₁ in
    let es : List Exchange = exchange_items products dto.items in
    let (warehouse, _, h₃) =
      or_raise-eq-ok (find_inventory_of InventoryType.warehouse dto.warehouse_id db.inventories) _ _
        h₂ in
    let (inventory, _, h₄) = or_raise-eq-ok (get_client_inventory client db.inventories) _ _ h₃ in
    let (r, settled, h₅) =
      >>=-eq-ok
        (if walkin
          then ok (false, db)
          else settle_tara es dto.items inventory.id (dto.capitalize_missing_tara || walkin) by db)
        _ h₄ in
    let (items, _, h₆) =
      >>=-eq-ok (build_order_items (price_map [] products) (r.1.next_id + 1) dto.items) _ h₅ in
    let order : Order = sale_draft r.1.next_id client inventory.id dto.warehouse_id r.0 items in
    let (db₂, sold, h₇) = >>=-eq-ok (handle_warehouse_pickup order by (add_order order r.1)) _ h₆ in
    subst (Moves db) (ok-injective h₇) (
      Moves-trans
        (Moves-Frame (
          sale_tara-Frame walkin es dto.items inventory.id (dto.capitalize_missing_tara || walkin)
            by db settled))
        (Moves-trans (add_order-Moves order r.1) (
          Moves-trans (Moves-Frame (handle_warehouse_pickup-Frame order by _ sold))
            (log-Moves order.id none OrderStatus.pickup_completed _ none db₂))))

reserve_addition-orders :
    (c : Option ℕ) (p q price : ℕ) (db : Db) {r : ℕ × Db}
    → reserve_addition c p q price db ≡ ok r
    → r.1.orders ≡ db.orders
unfolding reserve_addition
reserve_addition-orders none p q price db h = ap (λ x. x.1.orders) (sym (ok-injective h))
reserve_addition-orders (some c) p q price db h =
    let (contract, _, h₁) = or_raise-eq-ok (find_contract c db.contracts) _ _ h in
    let (_, h₂) =
      raise_if-eq-ok (not (same_contract_status contract.status ContractStatus.active)) _ _ h₁ in
    let (pi, _, h₃) = or_raise-eq-ok (find (is_price_of contract.id p) db.price_items) _ _ h₂ in
    let (_, h₄) = raise_if-eq-ok (exceeds pi q) _ _ h₃ in
    let (pis, _, h₅) =
      >>=-eq-ok (increment_quantities_used (record { key = pi.id; amount = q } ∷ []) db.price_items)
        _ h₄ in
    ap (λ x. x.1.orders) (sym (ok-injective h₅))

pub add_product_to_order-Moves :
    (k p q : ℕ) (user : Option ℕ) (db : Db) {db' : Db}
    → add_product_to_order k p q user db ≡ ok db'
    → Moves db db'
unfolding add_product_to_order with_addition
add_product_to_order-Moves k p q user db h =
    let (_, h₁) = raise_if-eq-ok (q == 0) _ _ h in
    let (product, _, h₂) = or_raise-eq-ok (find_product p db.products) _ _ h₁ in
    let (o, _, h₃) = or_raise-eq-ok (find_order k db.orders) _ _ h₂ in
    let (_, h₄) = raise_if-eq-ok (is_denied o user) _ _ h₃ in
    let (_, h₅) = raise_if-eq-ok (not (same_status o.status OrderStatus.new)) _ _ h₄ in
    let (existing, _, h₆) = >>=-eq-ok (get_by_order_and_product o p) _ h₅ in
    let (r, reserved, h₇) =
      >>=-eq-ok (reserve_addition (contract_of o) p q product.price db) _ h₆ in
    subst (Moves db) (ok-injective h₇) (
      quiet-Moves k (with_addition existing (contract_of o) db.next_id p q r.0)
        (ap (update_order k (with_addition existing (contract_of o) db.next_id p q r.0))
          (reserve_addition-orders (contract_of o) p q product.price db reserved))
        (λ x. refl) (λ x. (refl, refl)))

release_removal-orders :
    (c : Option ℕ) (flag : Bool) (p q : ℕ) (db : Db) {db' : Db}
    → release_removal c flag p q db ≡ ok db'
    → db'.orders ≡ db.orders
unfolding release_removal
release_removal-orders none flag p q db h = ap (λ x. x.orders) (sym (ok-injective h))
release_removal-orders (some c) false p q db h = ap (λ x. x.orders) (sym (ok-injective h))
release_removal-orders (some c) true p q db h =
    let (pis, _, h₁) =
      >>=-eq-ok (decrement_quantities_used c (record { key = p; amount = q } ∷ []) db.price_items) _
        h in
    ap (λ x. x.orders) (sym (ok-injective h₁))

removed-Moves :
    (existing : Option OrderItem) (k p : ℕ) (o : Order) (db : Db) {db' : Db}
    → (elim existing [ none ↦ ok db | some item ↦ remove_item o p item db ]) ≡ ok db'
    → Moves db db'
unfolding remove_item without_product
removed-Moves none k p o db h = subst (Moves db) (ok-injective h) (Moves-same refl)
removed-Moves (some item) k p o db h =
    let (_, h₁) = raise_if-eq-ok (leb (length o.items) 1) _ _ h in
    let (mid, released, h₂) =
      >>=-eq-ok (release_removal (contract_of o) o.quantities_reserved p item.quantity db) _ h₁ in
    subst (Moves db) (ok-injective h₂) (
      quiet-Moves o.id (without_product p item)
        (ap (update_order o.id (without_product p item)) (
          release_removal-orders (contract_of o) o.quantities_reserved p item.quantity db released))
        (λ x. refl) (λ x. (refl, refl)))

pub remove_product_from_order-Moves :
    (k p : ℕ) (user : Option ℕ) (db : Db) {db' : Db}
    → remove_product_from_order k p user db ≡ ok db'
    → Moves db db'
unfolding remove_product_from_order
remove_product_from_order-Moves k p user db h =
    let (o, _, h₁) = or_raise-eq-ok (find_order k db.orders) _ _ h in
    let (_, h₂) = raise_if-eq-ok (is_denied o user) _ _ h₁ in
    let (_, h₃) = raise_if-eq-ok (not (same_status o.status OrderStatus.new)) _ _ h₂ in
    let (existing, _, h₄) = >>=-eq-ok (get_by_order_and_product o p) _ h₃ in
    removed-Moves existing k p o db h₄
