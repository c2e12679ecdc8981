-- ===== src/Orders/Status/Quotas.antt =====
-- The quota ledger under `assign_courier`, `update_status`, `cancel_order` and `complete_pickup`.
use munavvar_a.Prelude.{
  ℕ, false, not, ◌≡◌, refl, sym, subst, ◌∙◌, inl, inr, ◌&&◌, ◌||◌, ◌==◌, Bool-cases, Option, none,
  some, String, List, [], find, is_some, arith,
}
use munavvar_a.Store.{
  some-injective, OrderStatus, SaleType, Role, Order, Line, Db, ok, is_truthy, find_user,
  same_status, same_sale_type, >>=-eq-ok, raise_if-eq-ok, or_raise-eq-ok, ok-injective, find_order,
  update_order, get_courier_inventory,
}
use munavvar_a.Orders.Quota.Balance.{
  IsBalanced, IsBalanced-Frame, IsBalanced-bystander, IsBystander, find_order-id,
}
use munavvar_a.Orders.Frame.{log_transition-Frame, handle_warehouse_pickup-Frame}
use munavvar_a.Orders.Fsm.{ensure_status_transition_allowed}
use munavvar_a.Orders.Edit.{contract_of}
use munavvar_a.Orders.Pickup.{set_status, complete_pickup}
use munavvar_a.Orders.Status.{
  assign_courier, is_stranger, fulfill_on_delivery, release_on_cancel, save_reason, update_status,
  cancel_order,
}
use munavvar_a.Orders.Status.Transition.{
  guard_live, set_status-IsBalanced, set_status-find, transition-IsBalanced,
}

pub reason-IsBystander :
    (reason : Option String) → IsBystander (λ o. record o { cancellation_reason = reason })
unfolding contract_of
reason-IsBystander reason = record {
  id = λ x. refl;
  items = λ x. refl;
  contract = λ x. refl;
  flag = λ x. refl;
  place = λ x. refl;
}

save_reason-IsBalanced :
    (k : ℕ) (s : OrderStatus) (reason : Option String) (db : Db)
    → IsBalanced db
    → IsBalanced (save_reason k s reason db)
unfolding save_reason
save_reason-IsBalanced k s reason db b =
    elim (Bool-cases (same_status s OrderStatus.cancelled && is_truthy reason)) [
      | inl e ↦ rw e (
          IsBalanced-bystander k (λ o. record o { cancellation_reason = reason }) db
            (reason-IsBystander reason) (λ o _ live. live) b)
      | inr e ↦ rw e b
    ]

find_order-own_status :
    (k : ℕ) (s : OrderStatus) (db : Db) {o : Order}
    → IsBalanced db
    → find_order k db.orders ≡ some o
    → find_order o.id (set_status k s db).orders ≡ some (record o { status = s })
find_order-own_status k s db {o} b found =
    subst (λ j. find_order j (set_status k s db).orders ≡ some (record o { status = s }))
      (sym (find_order-id k db.orders found)) (set_status-find k s db found)

pub update_status-IsBalanced :
    (k : ℕ) (s : OrderStatus) (actual : List Line) (user : Option ℕ) (reason : Option String)
    (db : Db) {db' : Db}
    → IsBalanced db
    → update_status k s actual user reason db ≡ ok db'
    → IsBalanced db'
unfolding update_status
update_status-IsBalanced k s actual user reason db b h =
    let (o, found, h₁) = or_raise-eq-ok (find_order k db.orders) _ _ h in
    let (_, h₂) = raise_if-eq-ok (is_stranger o user) _ _ h₁ in
    let (u, allowed, h₃) = >>=-eq-ok (ensure_status_transition_allowed o s) _ h₂ in
    let (db₁, delivered, h₄) =
      >>=-eq-ok (fulfill_on_delivery o s actual (set_status k s db)) _ h₃ in
    let (db₂, released, h₅) = >>=-eq-ok (release_on_cancel o s db₁) _ h₄ in
    subst IsBalanced (ok-injective h₅) (
      IsBalanced-Frame
        (log_transition-Frame k (some o.status) s user reason (save_reason k s reason db₂))
        (save_reason-IsBalanced k s reason db₂ (
          transition-IsBalanced o s actual (set_status k s db) db₁
            (set_status-IsBalanced k s db b found (guard_live o s allowed))
            (find_order-own_status k s db b found) delivered released)))

pub cancel_order-IsBalanced :
    (k user : ℕ) (reason : Option String) (db : Db) {db' : Db}
    → IsBalanced db
    → cancel_order k user reason db ≡ ok db'
    → IsBalanced db'
unfolding cancel_order
cancel_order-IsBalanced k user reason db b h =
    let (o, _, h₁) = or_raise-eq-ok (find (λ o. o.id == k && o.is_active) db.orders) _ _ h in
    let (_, h₂) = raise_if-eq-ok (not (o.client_id == user)) _ _ h₁ in
    let (_, h₃) = raise_if-eq-ok (not (same_status o.status OrderStatus.new)) _ _ h₂ in
    update_status-IsBalanced k OrderStatus.cancelled [] (some user) reason db b h₃

was_live :
    (s : OrderStatus)
    → not (same_status s OrderStatus.new) ≡ false
    → same_status s OrderStatus.cancelled ≡ false
was_live s h = ground arith

pub complete_pickup-IsBalanced :
    (k by : ℕ) (db : Db) {db' : Db}
    → IsBalanced db
    → complete_pickup k by db ≡ ok db'
    → IsBalanced db'
unfolding complete_pickup
complete_pickup-IsBalanced k by db b h =
    let (o, found, h₁) = or_raise-eq-ok (find_order k db.orders) _ _ h in
    let (_, h₂) =
      raise_if-eq-ok (not (same_sale_type o.sale_type SaleType.warehouse_pickup)) _ _ h₁ in
    let (is_new, h₃) = raise_if-eq-ok (not (same_status o.status OrderStatus.new)) _ _ h₂ in
    IsBalanced-Frame (handle_warehouse_pickup-Frame _ by _ h₃) (
      IsBalanced-Frame
        (log_transition-Frame k _ _ _ _ (set_status k OrderStatus.pickup_completed db))
        (set_status-IsBalanced k OrderStatus.pickup_completed db b found
          (λ _. was_live o.status is_new)))

was_early :
    (s : OrderStatus)
    → not (same_status s OrderStatus.new || same_status s OrderStatus.assigned) ≡ false
    → same_status s OrderStatus.cancelled ≡ false
was_early s h = ground arith

abbrev assign : ℕ → Order → Order
assign courier o = record o { courier_id = some courier; status = OrderStatus.assigned }

assign-IsBystander : (courier : ℕ) → IsBystander (assign courier)
unfolding contract_of
assign-IsBystander courier = record {
  id = λ x. refl;
  items = λ x. refl;
  contract = λ x. refl;
  flag = λ x. refl;
  place = λ x. refl;
}

assigned-IsBalanced :
    (k courier : ℕ) (db : Db) {o : Order}
    → IsBalanced db
    → find_order k db.orders ≡ some o
    → not (same_status o.status OrderStatus.new || same_status o.status OrderStatus.assigned)
      ≡ false
    → IsBalanced (record db { orders = update_order k (assign courier) db.orders })
assigned-IsBalanced k courier db {o} b found early =
    IsBalanced-bystander k (assign courier) db (assign-IsBystander courier)
      (λ x again _. was_early x.status (
        subst
          (λ y.
            not (same_status y.status OrderStatus.new || same_status y.status OrderStatus.assigned)
            ≡ false)
          (some-injective (sym found ∙ again)) early))
      b

pub assign_courier-IsBalanced :
    (k courier : ℕ) (db : Db) {db' : Db}
    → IsBalanced db
    → assign_courier k courier db ≡ ok db'
    → IsBalanced db'
unfolding assign_courier
assign_courier-IsBalanced k courier db b h =
    let (o, found, h₁) = or_raise-eq-ok (find_order k db.orders) _ _ h in
    let (_, h₂) = raise_if-eq-ok (same_sale_type o.sale_type SaleType.warehouse_pickup) _ _ h₁ in
    let (early, h₃) =
      raise_if-eq-ok
        (not (same_status o.status OrderStatus.new || same_status o.status OrderStatus.assigned)) _
        _ h₂ in
    let (_, h₄) = raise_if-eq-ok (not (is_some (find_user Role.courier courier db.users))) _ _ h₃ in
    let (row, _, h₅) = >>=-eq-ok (get_courier_inventory courier db.inventories) _ h₄ in
    let (_, h₆) = raise_if-eq-ok (not (is_some row)) _ _ h₅ in
    subst IsBalanced (ok-injective h₆) (
      IsBalanced-Frame (log_transition-Frame k (some o.status) OrderStatus.assigned none none _)
        (assigned-IsBalanced k courier db b found early))
