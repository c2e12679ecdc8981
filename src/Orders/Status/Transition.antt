-- ===== src/Orders/Status/Transition.antt =====
-- The quota ledger under the steps of one change of status.
use munavvar_a.Prelude.{
  ℕ, Bool, true, false, not, ◌≡◌, refl, sym, subst, ◌∙◌, inl, inr, ◌&&◌, Bool-cases, Option, none,
  some, List, arith,
}
use munavvar_a.Prelude.Keyed.{find-update_where_self}
use munavvar_a.Store.{
  some-injective, OrderStatus, Order, Line, Db, ok, same_status, >>=-eq-ok, raise_if-eq-ok,
  or_raise-eq-ok, ok-injective, find_order, find_inventory, get_courier_inventory,
}
use munavvar_a.Orders.Quota.{release_order_quantities}
use munavvar_a.Orders.Quota.Balance.{
  order_id, IsBalanced, IsBalanced-Frame, IsBalanced-bystander, IsBystander,
}
use munavvar_a.Orders.Frame.{Frame-trans, deliver_goods-Frame, process_financial_settlement-Frame}
use munavvar_a.Orders.Fsm.{ensure_status_transition_allowed}
use munavvar_a.Orders.Fsm.Laws.{Edge-live, guard_sound}
use munavvar_a.Orders.Edit.{contract_of}
use munavvar_a.Orders.Tara.{is_empty}
use munavvar_a.Orders.Fulfillment.{
  adjust_order, stock_shortages, deliver_goods, handle_order_fulfillment,
}
use munavvar_a.Orders.Pickup.{set_status}
use munavvar_a.Orders.Status.{fulfill_on_delivery, cancels, release_on_cancel}
use munavvar_a.Orders.Status.Correction.{adjust_order-IsBalanced}
use munavvar_a.Orders.Status.Release.{release_order_quantities-IsBalanced}

-- An order that is being changed is not reopened by the guard.
pub guard_live :
    (o : Order) (s : OrderStatus)
    → ensure_status_transition_allowed o s ≡ ok tt
    → same_status s OrderStatus.cancelled ≡ false
    → same_status o.status OrderStatus.cancelled ≡ false
guard_live o s h live = elim (guard_sound o s h) [ inl e ↦ rw e live | inr e ↦ Edge-live e ]

handle_order_fulfillment-IsBalanced :
    (o : Order) (actual : List Line) (k : ℕ) (db : Db) {db' : Db}
    → IsBalanced db
    → find_order k db.orders ≡ some o
    → same_status o.status OrderStatus.cancelled ≡ false
    → handle_order_fulfillment o actual db ≡ ok db'
    → IsBalanced db'
unfolding handle_order_fulfillment
handle_order_fulfillment-IsBalanced o actual k db b found live h =
    let (courier, _, h₁) = or_raise-eq-ok o.courier_id _ _ h in
    let (r, adjusted, h₂) = >>=-eq-ok (adjust_order actual o db) _ h₁ in
    let (row, _, h₃) = >>=-eq-ok (get_courier_inventory courier r.1.inventories) _ h₂ in
    let (own, _, h₄) = or_raise-eq-ok row _ _ h₃ in
    let (place, _, h₅) = or_raise-eq-ok (find_inventory own.id r.1.inventories) _ _ h₄ in
    let (_, h₆) =
      raise_if-eq-ok
        (not (is_empty (stock_shortages (λ p. r.1.stock_balances p place.id) r.0.items))) _ _ h₅ in
    let (db₂, delivered, h₇) = >>=-eq-ok (deliver_goods r.0 courier place.id r.1) _ h₆ in
    IsBalanced-Frame
      (Frame-trans (deliver_goods-Frame r.0 courier place.id r.1 delivered)
        (process_financial_settlement-Frame r.0 db₂ h₇))
      (adjust_order-IsBalanced actual k o db b found live adjusted)

status-IsBystander : (s : OrderStatus) → IsBystander (λ o. record o { status = s })
unfolding contract_of
status-IsBystander s = record {
  id = λ x. refl;
  items = λ x. refl;
  contract = λ x. refl;
  flag = λ x. refl;
  place = λ x. refl;
}

pub set_status-IsBalanced :
    (k : ℕ) (s : OrderStatus) (db : Db) {o : Order}
    → IsBalanced db
    → find_order k db.orders ≡ some o
    → (same_status s OrderStatus.cancelled ≡ false
        → same_status o.status OrderStatus.cancelled ≡ false)
    → IsBalanced (set_status k s db)
unfolding set_status
set_status-IsBalanced k s db {o} b found live =
    IsBalanced-bystander k (λ x. record x { status = s }) db (status-IsBystander s)
      (λ x again.
        subst
          (λ y.
            same_status s OrderStatus.cancelled ≡ false
            → same_status y.status OrderStatus.cancelled ≡ false)
          (some-injective (sym found ∙ again)) live)
      b

pub set_status-find :
    (k : ℕ) (s : OrderStatus) (db : Db) {o : Order}
    → find_order k db.orders ≡ some o
    → find_order k (set_status k s db).orders ≡ some (record o { status = s })
unfolding set_status
set_status-find k s db found =
    find-update_where_self order_id k (λ x. record x { status = s }) db.orders (λ x. refl) found

-- The delivery step: nothing, or a fulfillment of an order that is delivered.
fulfill_on_delivery-IsBalanced :
    (o : Order) (s : OrderStatus) (actual : List Line) (k : ℕ) (db : Db) {db' : Db}
    → IsBalanced db
    → find_order k db.orders ≡ some (record o { status = s })
    → fulfill_on_delivery o s actual db ≡ ok db'
    → IsBalanced db'
unfolding fulfill_on_delivery
fulfill_on_delivery-IsBalanced o s actual k db b found h =
    elim (Bool-cases
      (not (same_status o.status OrderStatus.delivered) && same_status s OrderStatus.delivered)) [
        | inr e ↦ subst IsBalanced (ok-injective (rw e at h)) b
        | inl e ↦
            handle_order_fulfillment-IsBalanced (record o { status = s }) actual k db b found
              (ground arith) (rw e at h)
      ]

-- What a call that cancels has seen.
record Cancelling (o : Order) (s : OrderStatus) : Type 0 where
  now : same_status s OrderStatus.cancelled ≡ true
  flagged : o.quantities_reserved ≡ true
  not_delivered : same_status s OrderStatus.delivered ≡ false

cancels-Cancelling : (o : Order) (s : OrderStatus) → cancels o s ≡ true → Cancelling o s
cancels-Cancelling o s e = ground arith

and-false_second : (a b : Bool) → b ≡ false → (a && b) ≡ false
and-false_second a b e = ground arith

-- A call that cancels does not deliver.
cancels-fulfill :
    (o : Order) (s : OrderStatus) (actual : List Line) (db : Db) {db' : Db}
    → Cancelling o s
    → fulfill_on_delivery o s actual db ≡ ok db'
    → db ≡ db'
unfolding fulfill_on_delivery
cancels-fulfill o s actual db c h = ok-injective (
    rw (and-false_second (not (same_status o.status OrderStatus.delivered)) _ c.not_delivered) at h)

release_held :
    (o : Order) (s : OrderStatus) (contract : Option ℕ) (db : Db) {db' : Db}
    → Cancelling o s
    → contract_of o ≡ contract
    → IsBalanced db
    → find_order o.id db.orders ≡ some (record o { status = s })
    → (elim contract [ none ↦ ok db | some c' ↦ release_order_quantities c' o db ]) ≡ ok db'
    → IsBalanced db'
unfolding contract_of
release_held o s none db c e b found h = subst IsBalanced (ok-injective h) b
release_held o s (some c') db c e b found h =
    release_order_quantities-IsBalanced c' (record o { status = s }) o db b found refl e c.flagged
      c.now h

-- The steps of a delivery and of a cancellation, on the stored order with its new status.
pub transition-IsBalanced :
    (o : Order) (s : OrderStatus) (actual : List Line) (db db₁ : Db) {db₂ : Db}
    → IsBalanced db
    → find_order o.id db.orders ≡ some (record o { status = s })
    → fulfill_on_delivery o s actual db ≡ ok db₁
    → release_on_cancel o s db₁ ≡ ok db₂
    → IsBalanced db₂
unfolding release_on_cancel
transition-IsBalanced o s actual db db₁ {db₂} b found delivered released =
    elim (Bool-cases (cancels o s)) [
      | inr e ↦
          subst IsBalanced (ok-injective (rw e at released))
            (fulfill_on_delivery-IsBalanced o s actual o.id db b found delivered)
      | inl e ↦
          let c : Cancelling o s = cancels-Cancelling o s e in
          let same : db ≡ db₁ = cancels-fulfill o s actual db c delivered in
          release_held o s (contract_of o) db₁ c refl (subst IsBalanced same b)
            (subst (λ x. find_order o.id x.orders ≡ some (record o { status = s })) same found)
            (rw e at released)
    ]
