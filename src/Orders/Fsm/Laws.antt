-- ===== src/Orders/Fsm/Laws.antt =====
-- What the guard accepts: exactly the edges of the life cycle, and a status that does not change.
use munavvar_a.Prelude.{true, false, ◌≡◌, refl, ◌⊎◌, inl, inr, ◌↔◌, arith}
use munavvar_a.Store.{OrderStatus, SaleType, same_status, Order, ok}
use munavvar_a.Orders.Fsm.{ensure_status_transition_allowed}

-- The life cycle of an order, as `update_status` may drive it.
pub data Edge : SaleType → OrderStatus → OrderStatus → Type 0 where
  depart : Edge SaleType.delivery OrderStatus.assigned OrderStatus.in_transit
  arrive : Edge SaleType.delivery OrderStatus.in_transit OrderStatus.arrived
  deliver : Edge SaleType.delivery OrderStatus.arrived OrderStatus.delivered
  cancel_new : {t : SaleType} → Edge t OrderStatus.new OrderStatus.cancelled
  cancel_assigned : Edge SaleType.delivery OrderStatus.assigned OrderStatus.cancelled
  cancel_in_transit : Edge SaleType.delivery OrderStatus.in_transit OrderStatus.cancelled
  cancel_arrived : Edge SaleType.delivery OrderStatus.arrived OrderStatus.cancelled

pub ruleset edges =
    (depart, arrive, deliver, cancel_new, cancel_assigned, cancel_in_transit, cancel_arrived)

-- The guard as a function of the three values that it reads.
pub guard_sound :
    (o : Order) (s : OrderStatus)
    → ensure_status_transition_allowed o s ≡ ok tt
    → (o.status ≡ s) ⊎ Edge o.sale_type o.status s
unfolding ensure_status_transition_allowed
guard_sound o s h = grind (arith, edges)

-- No edge leaves a cancelled order.
pub Edge-live :
    {t : SaleType} {a b : OrderStatus} → Edge t a b → same_status a OrderStatus.cancelled ≡ false
Edge-live depart = refl
Edge-live arrive = refl
Edge-live deliver = refl
Edge-live cancel_new = refl
Edge-live cancel_assigned = refl
Edge-live cancel_in_transit = refl
Edge-live cancel_arrived = refl

cancel_new_allowed :
    (o : Order) (t : SaleType)
    → o.sale_type ≡ t
    → o.status ≡ OrderStatus.new
    → ensure_status_transition_allowed o OrderStatus.cancelled ≡ ok tt
unfolding ensure_status_transition_allowed
cancel_new_allowed o SaleType.delivery e f = rw (e, f)
cancel_new_allowed o SaleType.warehouse_pickup e f = rw (e, f)

Edge-allowed :
    (o : Order) {t : SaleType} {a s : OrderStatus}
    → o.sale_type ≡ t
    → o.status ≡ a
    → Edge t a s
    → ensure_status_transition_allowed o s ≡ ok tt
unfolding ensure_status_transition_allowed
Edge-allowed o e f depart = rw (e, f)
Edge-allowed o e f arrive = rw (e, f)
Edge-allowed o e f deliver = rw (e, f)
Edge-allowed o e f (cancel_new {t}) = cancel_new_allowed o t e f
Edge-allowed o e f cancel_assigned = rw (e, f)
Edge-allowed o e f cancel_in_transit = rw (e, f)
Edge-allowed o e f cancel_arrived = rw (e, f)

same_refl : (s : OrderStatus) → same_status s s ≡ true
same_refl s = ground arith

unchanged_allowed :
    (o : Order) (s : OrderStatus) → o.status ≡ s → ensure_status_transition_allowed o s ≡ ok tt
unfolding ensure_status_transition_allowed
unchanged_allowed o s e = rw (e, same_refl s)

guard_complete :
    (o : Order) (s : OrderStatus)
    → (o.status ≡ s) ⊎ Edge o.sale_type o.status s
    → ensure_status_transition_allowed o s ≡ ok tt
guard_complete o s h = elim h [
  | inl e ↦ unchanged_allowed o s e
  | inr e ↦ Edge-allowed o refl refl e
]

-- The guard of `update_status` accepts a new status exactly when it is the present one or an edge
-- of the life cycle leads to it.
pub ensure_status_transition_allowed-Edge :
    (o : Order) (s : OrderStatus)
    → (ensure_status_transition_allowed o s ≡ ok tt)
      ↔ ((o.status ≡ s) ⊎ Edge o.sale_type o.status s)
ensure_status_transition_allowed-Edge o s = (guard_sound o s, guard_complete o s)
