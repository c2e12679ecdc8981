-- ===== src/Orders/Checkout/Balance.antt =====
-- The quota ledger stays balanced under `create_order` and `create_warehouse_sale`.
use munavvar_a.Prelude.{
  ℕ, Bool, true, false, not, ◌≡◌, refl, sym, ap, subst, ◌∙◌, ◌||◌, ◌+◌, ◌≤◌, ◌==◌, Option, none,
  some, List, [], length, is_some, if◌then◌else◌, arith,
}
use munavvar_a.Store.{
  OrderStatus, PaymentMethod, SaleType, InventoryType, walkin_user_id, find_inventory_of,
  get_client_inventory, Order, OrderItem, Product, Line, Db, ok, >>=-eq-ok, raise_if-eq-ok,
  or_raise-eq-ok, ok-injective,
}
use munavvar_a.Orders.Quota.Counter.{IsPriceTable}
use munavvar_a.Orders.Quota.Balance.{
  contract_of-tied, quantity_of, reserved_by, item_id, IsSound, IsBalanced, AllBelow-mono,
  IsBalanced-Frame,
}
use munavvar_a.Orders.Frame.{
  log_transition-Frame, Frame, Frame-refl, settle_tara-Frame, handle_warehouse_pickup-Frame,
}
use munavvar_a.Orders.Edit.{contract_of}
use munavvar_a.Orders.Edit.Quotas.{at_contract}
use munavvar_a.Orders.Cart.{product_ids, get_by_ids, price_map, build_order_items, total_amount}
use munavvar_a.Orders.Cart.{has_duplicates, missing_ids}
use munavvar_a.Orders.Tara.{Exchange, is_empty, exchange_items, settle_tara}
use munavvar_a.Orders.Pickup.{handle_warehouse_pickup}
use munavvar_a.Orders.Checkout.{
  get_client, effective_client, OrderCreate, Agreement, find_agreement, reserve_agreed, add_order,
  create_order, WarehouseSaleCreate, create_warehouse_sale,
}
use munavvar_a.Orders.Checkout.Quotas.{
  Agreed, without, with_contract, find_agreement-Agreed, Taken, reserve_agreed-Taken,
}
use munavvar_a.Orders.Checkout.Entry.{Built, build_order_items-Built, add_order-IsBalanced}

-- The order that `create_order` inserts.
abbrev draft : ℕ → ℕ → OrderCreate → Bool → Option ℕ → List OrderItem → Order
draft n client dto capitalized contract items = record {
  id = n;
  client_id = client;
  client_inventory_id = dto.client_inventory_id;
  courier_id = none;
  payment_method = dto.payment_method;
  status = OrderStatus.new;
  total_amount = total_amount items;
  capitalization_applied = capitalized;
  sale_type = SaleType.delivery;
  warehouse_id = none;
  contract_id = contract;
  quantities_reserved = is_some contract;
  cancellation_reason = none;
  notes = dto.notes;
  is_active = true;
  items = items;
}

draft_contract :
    (n client : ℕ) (dto : OrderCreate) (capitalized : Bool) (items : List OrderItem) (db : Db)
    (a : Agreement)
    → Agreed dto db a
    → contract_of (draft n client dto capitalized a.contract_id items) ≡ a.contract_id
unfolding contract_of
draft_contract n client dto capitalized items db _ without = ground arith
draft_contract n client dto capitalized items db _ (with_contract c e) = rw e

draft_holds :
    (c p : ℕ) (o : Order) (contract : Option ℕ)
    → contract_of o ≡ contract
    → o.quantities_reserved ≡ is_some contract
    → reserved_by c p o ≡ at_contract c contract (quantity_of p o.items)
draft_holds c p o none e f = rw e
draft_holds c p o (some k) e f = rw (e, f) (ground arith)

draft-IsSound :
    (m n : ℕ) (o : Order) (ls : List Line) (contract : Option ℕ)
    → Built n ls o.items
    → n + length o.items ≤ m
    → contract_of o ≡ contract
    → o.quantities_reserved ≡ is_some contract
    → IsSound m o
draft-IsSound m n o ls contract built le e f = record {
  item_ids = built.keyed;
  items_below = AllBelow-mono item_id o.items le built.below;
  held = λ live has. f ∙ ap is_some (sym e) ∙ has;
  tied = λ flagged. contract_of-tied o (ap is_some e ∙ sym f ∙ flagged);
}

at_cong :
    (c : ℕ) (contract : Option ℕ) {m n : ℕ}
    → m ≡ n
    → at_contract c contract m ≡ at_contract c contract n
at_cong c contract e = rw e

-- A new order enters the ledger with what has been taken for it.
enter :
    (o : Order) (ls : List Line) (contract : Option ℕ) (db db₁ db₂ : Db)
    → IsBalanced db
    → Taken contract ls db db₁
    → Frame db₁ db₂
    → o.id ≡ db₂.next_id
    → contract_of o ≡ contract
    → o.quantities_reserved ≡ is_some contract
    → Built (db₂.next_id + 1) ls o.items
    → IsBalanced (add_order o db₂)
enter o ls contract db db₁ db₂ b taken frame fresh on_contract flag built =
    add_order-IsBalanced o db db₂ b (frame.orders ∙ taken.orders)
      (omega (arith, frame.next_id, taken.next_id)) (rw frame.price_items taken.prices) fresh
      (draft-IsSound (db₂.next_id + 1 + length o.items) (db₂.next_id + 1) o ls contract built
        (omega arith) on_contract flag)
      (λ c p. rw frame.price_items (
        omega (
          arith,
          taken.counted c p,
          draft_holds c p o contract on_contract flag,
          at_cong c contract (built.counted p),
        )))

pub create_order-IsBalanced :
    (client_id : ℕ) (dto : OrderCreate) (today : ℕ) (db : Db) {db' : Db}
    → IsBalanced db
    → create_order client_id dto today db ≡ ok db'
    → IsBalanced db'
unfolding create_order
create_order-IsBalanced client_id dto today db b h =
    let (_, h₁) = raise_if-eq-ok (is_empty dto.items) _ _ h in
    let (distinct, h₂) = raise_if-eq-ok (has_duplicates (product_ids dto.items)) _ _ h₁ in
    let products : List Product = get_by_ids (product_ids dto.items) db.products in
    let (_, h₃) =
      raise_if-eq-ok (not (is_empty (missing_ids (product_ids dto.items) products))) _ _ h₂ in
    let (client, _, h₄) = or_raise-eq-ok (get_client client_id db.users) _ _ h₃ in
    let (a, agreed, h₅) = >>=-eq-ok (find_agreement dto client_id client.role today db) _ h₄ in
    let (db₁, reserved, h₆) = >>=-eq-ok (reserve_agreed a dto.items db) _ h₅ in
    let (r, settled, h₇) =
      >>=-eq-ok
        (settle_tara (exchange_items products dto.items) dto.items dto.client_inventory_id
          dto.capitalize_missing_tara client_id db₁)
        _ h₆ in
    let (items, built, h₈) =
      >>=-eq-ok (build_order_items (price_map a.locked products) (r.1.next_id + 1) dto.items) _
        h₇ in
    let agreement : Agreed dto db a =
      find_agreement-Agreed dto client_id client.role today db agreed in
    subst IsBalanced (ok-injective h₈) (
      IsBalanced-Frame (log_transition-Frame _ none OrderStatus.new (some client_id) none _) (
        enter (draft r.1.next_id client_id dto r.0 a.contract_id items) dto.items a.contract_id db
          db₁ r.1 b (reserve_agreed-Taken dto db a b.prices distinct agreement reserved)
          (settle_tara-Frame _ dto.items dto.client_inventory_id dto.capitalize_missing_tara
            client_id db₁ settled)
          refl (draft_contract r.1.next_id client_id dto r.0 items db a agreement) refl
          (build_order_items-Built (price_map a.locked products) (r.1.next_id + 1) dto.items
            built)))

-- The order that `create_warehouse_sale` inserts.
abbrev pub sale_draft : ℕ → ℕ → ℕ → ℕ → Bool → List OrderItem → Order
sale_draft n client inventory warehouse capitalized items = record {
  id = n;
  client_id = client;
  client_inventory_id = inventory;
  courier_id = none;
  payment_method = PaymentMethod.cash;
  status = OrderStatus.pickup_completed;
  total_amount = total_amount items;
  capitalization_applied = capitalized;
  sale_type = SaleType.warehouse_pickup;
  warehouse_id = some warehouse;
  contract_id = none;
  quantities_reserved = false;
  cancellation_reason = none;
  notes = none;
  is_active = true;
  items = items;
}

sale_contract :
    (n client inventory warehouse : ℕ) (capitalized : Bool) (items : List OrderItem)
    → contract_of (sale_draft n client inventory warehouse capitalized items) ≡ none
unfolding contract_of
sale_contract n client inventory warehouse capitalized items = refl

not-Taken : (ls : List Line) (db : Db) → IsPriceTable db.price_items → Taken none ls db db
not-Taken ls db t = record {
  orders = refl;
  next_id = refl;
  prices = t;
  counted = λ c p. omega arith;
}

-- A walk-in client settles no containers.
pub sale_tara-Frame :
    (walkin : Bool) (es : List Exchange) (ls : List Line) (inventory : ℕ) (capitalize : Bool)
    (by : ℕ) (db : Db) {r : Bool × Db}
    → (if walkin then ok (false, db) else settle_tara es ls inventory capitalize by db) ≡ ok r
    → Frame db r.1
sale_tara-Frame true es ls inventory capitalize by db h =
    subst (λ r. Frame db r.1) (ok-injective h) (Frame-refl db)
sale_tara-Frame false es ls inventory capitalize by db h =
    settle_tara-Frame es ls inventory capitalize by db h

pub create_warehouse_sale-IsBalanced :
    (dto : WarehouseSaleCreate) (client_id : Option ℕ) (by : ℕ) (db : Db) {db' : Db}
    → IsBalanced db
    → create_warehouse_sale dto client_id by db ≡ ok db'
    → IsBalanced db'
unfolding create_warehouse_sale
create_warehouse_sale-IsBalanced dto client_id by db b h =
    let client : ℕ = effective_client client_id in
    let walkin : Bool = client == walkin_user_id in
    let (_, h₁) = raise_if-eq-ok (is_empty dto.items) _ _ h in
    let products : List Product = get_by_ids (product_ids dto.items) db.products in
    let (_, h₂) =
      raise_if-eq-ok (not (is_empty (missing_ids (product_ids dto.items) products))) _ _ h₁ in
    let es : List Exchange = exchange_items products dto.items in
    let (warehouse, _, h₃) =
      or_raise-eq-ok (find_inventory_of InventoryType.warehouse dto.warehouse_id db.inventories) _ _
        h₂ in
    let (inventory, _, h₄) = or_raise-eq-ok (get_client_inventory client db.inventories) _ _ h₃ in
    let (r, settled, h₅) =
      >>=-eq-ok
        (if walkin
          then ok (false, db)
          else settle_tara es dto.items inventory.id (dto.capitalize_missing_tara || walkin) by db)
        _ h₄ in
    let (items, built, h₆) =
      >>=-eq-ok (build_order_items (price_map [] products) (r.1.next_id + 1) dto.items) _ h₅ in
    let order : Order = sale_draft r.1.next_id client inventory.id dto.warehouse_id r.0 items in
    let (db₂, sold, h₇) = >>=-eq-ok (handle_warehouse_pickup order by (add_order order r.1)) _ h₆ in
    subst IsBalanced (ok-injective h₇) (
      IsBalanced-Frame
        (log_transition-Frame order.id none OrderStatus.pickup_completed (some by) none db₂)
        (IsBalanced-Frame (handle_warehouse_pickup-Frame order by (add_order order r.1) sold) (
          enter order dto.items none db db r.1 b (not-Taken dto.items db b.prices)
            (sale_tara-Frame walkin es dto.items inventory.id
              (dto.capitalize_missing_tara || walkin) by db settled)
            refl (sale_contract r.1.next_id client inventory.id dto.warehouse_id r.0 items) refl
            (build_order_items-Built (price_map [] products) (r.1.next_id + 1) dto.items built))))
