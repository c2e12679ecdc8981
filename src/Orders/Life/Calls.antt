-- ===== src/Orders/Life/Calls.antt =====
-- Every call of the order service keeps each order on its life.
use munavvar_a.Prelude.{
  ℕ, false, not, ◌≡◌, ◌==◌, ◌||◌, ◌&&◌, refl, subst, inl, inr, ◌⊎◌, Option, none, some, String,
  List, [], find, is_some, arith,
}
use munavvar_a.Store.{
  OrderStatus, SaleType, Role, Order, Line, Db, ok, >>=-eq-ok, raise_if-eq-ok, or_raise-eq-ok,
  ok-injective, same_status, same_sale_type, find_order, get_courier_inventory, find_user,
}
use munavvar_a.Orders.Fsm.{ensure_status_transition_allowed}
use munavvar_a.Orders.Fsm.Laws.{guard_sound}
use munavvar_a.Orders.Frame.{handle_warehouse_pickup-Frame}
use munavvar_a.Orders.Pickup.{set_status, complete_pickup}
use munavvar_a.Orders.Status.{
  assign_courier, is_stranger, fulfill_on_delivery, release_on_cancel, update_status, cancel_order,
}
use munavvar_a.Orders.Calls.{OrderCall, run_order}
use munavvar_a.Orders.Life.{
  by_edge, assign, pick_up, Course, here, onward, Moves, Moves-trans, Moves-Frame,
  Moves-update_found,
}
use munavvar_a.Orders.Life.Entries.{
  log-Moves, create_order-Moves, create_warehouse_sale-Moves, add_product_to_order-Moves,
  remove_product_from_order-Moves,
}
use munavvar_a.Orders.Life.Effects.{
  fulfill_on_delivery-Moves, release_on_cancel-Moves, save_reason-Moves, set_status-Moves,
}

accepted-Course :
    (o : Order) (s : OrderStatus)
    → ensure_status_transition_allowed o s ≡ ok tt
    → Course o.sale_type o.status s
accepted-Course o s h = elim (guard_sound o s h) [
  | inl same ↦ subst (Course o.sale_type o.status) same here
  | inr edge ↦ onward here (by_edge edge)
]

update_status-Moves :
    (k : ℕ) (s : OrderStatus) (actual : List Line) (user : Option ℕ) (reason : Option String)
    (db : Db) {db' : Db}
    → update_status k s actual user reason db ≡ ok db'
    → Moves db db'
unfolding update_status
update_status-Moves k s actual user reason db h =
    let (o, found, h₁) = or_raise-eq-ok (find_order k db.orders) _ _ h in
    let (_, h₂) = raise_if-eq-ok (is_stranger o user) _ _ h₁ in
    let (u, allowed, h₃) = >>=-eq-ok (ensure_status_transition_allowed o s) _ h₂ in
    let (db₁, delivered, h₄) =
      >>=-eq-ok (fulfill_on_delivery o s actual (set_status k s db)) _ h₃ in
    let (db₂, released, h₅) = >>=-eq-ok (release_on_cancel o s db₁) _ h₄ in
    subst (Moves db) (ok-injective h₅) (
      Moves-trans (set_status-Moves k s db found (accepted-Course o s allowed)) (
        Moves-trans (fulfill_on_delivery-Moves o s actual _ delivered) (
          Moves-trans (release_on_cancel-Moves o s db₁ released) (
            Moves-trans (save_reason-Moves k s reason db₂)
              (log-Moves k (some o.status) s user reason _)))))

cancel_order-Moves :
    (k user : ℕ) (reason : Option String) (db : Db) {db' : Db}
    → cancel_order k user reason db ≡ ok db'
    → Moves db db'
unfolding cancel_order
cancel_order-Moves k user reason db h =
    let (o, _, h₁) = or_raise-eq-ok (find (λ o. o.id == k && o.is_active) db.orders) _ _ h in
    let (_, h₂) = raise_if-eq-ok (not (o.client_id == user)) _ _ h₁ in
    let (_, h₃) = raise_if-eq-ok (not (same_status o.status OrderStatus.new)) _ _ h₂ in
    update_status-Moves k OrderStatus.cancelled [] (some user) reason db h₃

pickup-Course :
    (t : SaleType) (s : OrderStatus)
    → not (same_sale_type t SaleType.warehouse_pickup) ≡ false
    → not (same_status s OrderStatus.new) ≡ false
    → Course t s OrderStatus.pickup_completed
pickup-Course t s h g =
    let pickup : t ≡ SaleType.warehouse_pickup = ground arith in
    let unstarted : s ≡ OrderStatus.new = ground arith in
    rw (pickup, unstarted) (onward here pick_up)

complete_pickup-Moves :
    (k by : ℕ) (db : Db) {db' : Db} → complete_pickup k by db ≡ ok db' → Moves db db'
unfolding complete_pickup
complete_pickup-Moves k by db h =
    let (o, found, h₁) = or_raise-eq-ok (find_order k db.orders) _ _ h in
    let (pickup, h₂) =
      raise_if-eq-ok (not (same_sale_type o.sale_type SaleType.warehouse_pickup)) _ _ h₁ in
    let (is_new, h₃) = raise_if-eq-ok (not (same_status o.status OrderStatus.new)) _ _ h₂ in
    Moves-trans
      (set_status-Moves k OrderStatus.pickup_completed db found
        (pickup-Course o.sale_type o.status pickup is_new))
      (Moves-trans (log-Moves k _ _ _ _ (set_status k OrderStatus.pickup_completed db))
        (Moves-Frame (handle_warehouse_pickup-Frame _ by _ h₃)))

assigned-Course :
    (t : SaleType) (s : OrderStatus)
    → same_sale_type t SaleType.warehouse_pickup ≡ false
    → not (same_status s OrderStatus.new || same_status s OrderStatus.assigned) ≡ false
    → Course t s OrderStatus.assigned
assigned-Course SaleType.warehouse_pickup s d h = cc
assigned-Course SaleType.delivery s d h =
    let early : (s ≡ OrderStatus.new) ⊎ (s ≡ OrderStatus.assigned) = ground arith in
    elim early [ inl e ↦ rw e (onward here assign) | inr e ↦ rw e here ]

assign_courier-Moves :
    (k courier : ℕ) (db : Db) {db' : Db} → assign_courier k courier db ≡ ok db' → Moves db db'
unfolding assign_courier
assign_courier-Moves k courier db h =
    let (o, found, h₁) = or_raise-eq-ok (find_order k db.orders) _ _ h in
    let (delivered, h₂) =
      raise_if-eq-ok (same_sale_type o.sale_type SaleType.warehouse_pickup) _ _ h₁ in
    let (early, h₃) =
      raise_if-eq-ok
        (not (same_status o.status OrderStatus.new || same_status o.status OrderStatus.assigned)) _
        _ h₂ in
    let (_, h₄) = raise_if-eq-ok (not (is_some (find_user Role.courier courier db.users))) _ _ h₃ in
    let (row, _, h₅) = >>=-eq-ok (get_courier_inventory courier db.inventories) _ h₄ in
    let (_, h₆) = raise_if-eq-ok (not (is_some row)) _ _ h₅ in
    subst (Moves db) (ok-injective h₆) (
      Moves-trans
        (Moves-update_found k
          (λ x. record x { courier_id = some courier; status = OrderStatus.assigned }) refl
          (λ x. refl) found
          (record { sale = refl; path = assigned-Course o.sale_type o.status delivered early }))
        (log-Moves k (some o.status) OrderStatus.assigned none none _))

pub run_order-Moves : (c : OrderCall) (db : Db) {db' : Db} → run_order c db ≡ ok db' → Moves db db'
unfolding run_order
run_order-Moves (OrderCall.create client dto today) db h = create_order-Moves client dto today db h
run_order-Moves (OrderCall.sell dto client by) db h = create_warehouse_sale-Moves dto client by db h
run_order-Moves (OrderCall.add_product k p q user) db h = add_product_to_order-Moves k p q user db h
run_order-Moves (OrderCall.remove_product k p user) db h =
    remove_product_from_order-Moves k p user db h
run_order-Moves (OrderCall.assign k courier) db h = assign_courier-Moves k courier db h
run_order-Moves (OrderCall.change_status k s actual user reason) db h =
    update_status-Moves k s actual user reason db h
run_order-Moves (OrderCall.cancel k user reason) db h = cancel_order-Moves k user reason db h
run_order-Moves (OrderCall.pick_up k by) db h = complete_pickup-Moves k by db h
