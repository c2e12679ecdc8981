-- ===== src/Orders/Fsm.antt =====
-- The transition tables of `BaseOrderService` and the guard `_ensure_status_transition_allowed`.
pub mod Laws
use munavvar_a.Prelude.{ℕ, ⊤, Bool, true, false, ◌||◌, List, [], ◌∷◌, any, leb, if◌then◌else◌}
use munavvar_a.Store.{
  OrderStatus, SaleType, order_status_code, same_status, same_sale_type, Order, Error, Result, ok,
  err, ◌>>=◌, ◌>>◌, raise_if,
}

-- `_DELIVERY_ALLOWED_TRANSITIONS`, in the order in which the sets are written.
unfoldable pub delivery_allowed_transitions : OrderStatus → List OrderStatus
delivery_allowed_transitions OrderStatus.new = OrderStatus.cancelled ∷ []
delivery_allowed_transitions OrderStatus.assigned =
    OrderStatus.in_transit ∷ OrderStatus.cancelled ∷ []
delivery_allowed_transitions OrderStatus.in_transit =
    OrderStatus.arrived ∷ OrderStatus.cancelled ∷ []
delivery_allowed_transitions OrderStatus.arrived =
    OrderStatus.delivered ∷ OrderStatus.cancelled ∷ []
delivery_allowed_transitions _ = []

-- `_PICKUP_ALLOWED_TRANSITIONS`
unfoldable pub pickup_allowed_transitions : OrderStatus → List OrderStatus
pickup_allowed_transitions OrderStatus.new = OrderStatus.cancelled ∷ []
pickup_allowed_transitions _ = []

-- `sorted(..., key=lambda status: status.value)`
unfoldable pub insert_sorted : OrderStatus → List OrderStatus → List OrderStatus
insert_sorted s [] = s ∷ []
insert_sorted s (t ∷ ts) =
    if leb (order_status_code s) (order_status_code t) then s ∷ t ∷ ts else t ∷ insert_sorted s ts

unfoldable pub sort_statuses : List OrderStatus → List OrderStatus
sort_statuses [] = []
sort_statuses (s ∷ ss) = insert_sorted s (sort_statuses ss)

-- `_get_allowed_statuses`
unfoldable pub get_allowed_statuses : SaleType → OrderStatus → List OrderStatus
unfolding delivery_allowed_transitions pickup_allowed_transitions insert_sorted sort_statuses
get_allowed_statuses sale_type current = sort_statuses (
    if same_sale_type sale_type SaleType.warehouse_pickup
    then pickup_allowed_transitions current
    else delivery_allowed_transitions current)

-- The statuses that a pickup order never takes by this way.
unfoldable pub is_delivery_status : OrderStatus → Bool
is_delivery_status s =
    same_status s OrderStatus.assigned
    || same_status s OrderStatus.in_transit
    || same_status s OrderStatus.arrived
    || same_status s OrderStatus.delivered

-- `_ensure_status_transition_allowed`
unfoldable pub ensure_status_transition_allowed : Order → OrderStatus → Result ⊤
unfolding get_allowed_statuses is_delivery_status
ensure_status_transition_allowed order new_status =
    if same_status order.status new_status then ok tt else do
      if same_sale_type order.sale_type SaleType.warehouse_pickup
          then (do
            raise_if (same_status new_status OrderStatus.pickup_completed)
                Error.invalid_pickup_operation
            raise_if (is_delivery_status new_status) Error.invalid_pickup_operation)
          else ok tt
      if any (same_status new_status) (get_allowed_statuses order.sale_type order.status)
          then ok tt
          else err Error.invalid_order_status
