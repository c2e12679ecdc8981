-- ===== src/Orders/Status.antt =====
-- `assign_courier`, `update_status` and `cancel_order`.
pub mod Release
pub mod Correction
pub mod Transition
pub mod Quotas
use munavvar_a.Prelude.{
  ℕ, ⊤, Bool, true, false, not, ◌&&◌, ◌||◌, ◌==◌, Option, none, some, String, List, [], ◌∷◌, find,
  is_some, if◌then◌else◌,
}
use munavvar_a.Store.{
  OrderStatus, SaleType, PaymentMethod, Role, Line, Order, Db, Error, Result, ok, ◌>>=◌, ◌>>◌,
  raise_if, or_raise, same_status, same_sale_type, is_id, is_truthy, find_order, update_order,
  find_user, get_courier_inventory,
}
use munavvar_a.Orders.Fsm.{ensure_status_transition_allowed}
use munavvar_a.Orders.Quota.{release_order_quantities}
use munavvar_a.Orders.Fulfillment.{handle_order_fulfillment}
use munavvar_a.Orders.Pickup.{log_transition, set_status}
use munavvar_a.Orders.Edit.{contract_of}

-- `assign_courier`
unfoldable pub assign_courier : ℕ → ℕ → Db → Result Db
assign_courier order_id courier_id db = do
  order ← or_raise (find_order order_id db.orders) Error.order_not_found
  raise_if (same_sale_type order.sale_type SaleType.warehouse_pickup) Error.invalid_pickup_operation
  raise_if
      (not
        (same_status order.status OrderStatus.new || same_status order.status OrderStatus.assigned))
      Error.courier_assignment
  raise_if (not (is_some (find_user Role.courier courier_id db.users))) Error.courier_assignment
  found ← get_courier_inventory courier_id db.inventories
  raise_if (not (is_some found)) Error.courier_assignment
  ok (
      log_transition order_id (some order.status) OrderStatus.assigned none none (record db {
        orders =
            update_order order_id
              (λ o. record o { courier_id = some courier_id; status = OrderStatus.assigned })
              db.orders;
      }))

-- `requesting_user_id and (requesting_user_id != order.courier_id and ... != order.client_id)`
abbrev pub is_stranger : Order → Option ℕ → Bool
is_stranger order none = false
is_stranger order (some u) = not (is_id u order.courier_id) && not (order.client_id == u)

-- The step of `update_status` on entering DELIVERED.
unfoldable pub fulfill_on_delivery : Order → OrderStatus → List Line → Db → Result Db
fulfill_on_delivery order new_status actual db =
    if not (same_status order.status OrderStatus.delivered)
      && same_status new_status OrderStatus.delivered
    then handle_order_fulfillment (record order { status = new_status }) actual db
    else ok db

-- The statuses after which an order holds no open reservation.
abbrev pub is_settled : OrderStatus → Bool
is_settled s = same_status s OrderStatus.delivered || same_status s OrderStatus.pickup_completed

-- Does this call cancel an open order?
abbrev pub cancels : Order → OrderStatus → Bool
cancels order new_status =
    same_status new_status OrderStatus.cancelled
    && not (same_status order.status OrderStatus.cancelled)
    && order.quantities_reserved
    && not (is_settled order.status)

-- The step of `update_status` that gives the quota of a cancelled order back.
unfoldable pub release_on_cancel : Order → OrderStatus → Db → Result Db
release_on_cancel order new_status db =
    if cancels order new_status
    then elim (contract_of order) [
      | none ↦ ok db
      | some contract_id ↦ release_order_quantities contract_id order db
    ]
    else ok db

unfoldable pub save_reason : ℕ → OrderStatus → Option String → Db → Db
save_reason order_id new_status reason db =
    if same_status new_status OrderStatus.cancelled && is_truthy reason
    then record db {
      orders = update_order order_id (λ o. record o { cancellation_reason = reason }) db.orders;
    }
    else db

-- `update_status`
unfoldable pub update_status :
    ℕ → OrderStatus → List Line → Option ℕ → Option String → Db → Result Db
update_status order_id new_status actual user reason db = do
  order ← or_raise (find_order order_id db.orders) Error.order_not_found
  raise_if (is_stranger order user) Error.order_access_denied
  ensure_status_transition_allowed order new_status
  db₁ ← fulfill_on_delivery order new_status actual (set_status order_id new_status db)
  db₂ ← release_on_cancel order new_status db₁
  ok (
      log_transition order_id (some order.status) new_status user reason
        (save_reason order_id new_status reason db₂))

-- `cancel_order`: its own check is a read that comes before the transaction of `update_status`.
unfoldable pub cancel_order : ℕ → ℕ → Option String → Db → Result Db
cancel_order order_id user reason db = do
  order ← or_raise (find (λ o. o.id == order_id && o.is_active) db.orders) Error.order_not_found
  raise_if (not (order.client_id == user)) Error.order_access_denied
  raise_if (not (same_status order.status OrderStatus.new)) Error.invalid_order_status
  update_status order_id OrderStatus.cancelled [] (some user) reason db
