-- ===== src/Orders/Life/Effects.antt =====
-- The effects of a change of status keep each order on its life.
use munavvar_a.Prelude.{
  ℕ, false, not, ◌≡◌, ◌&&◌, refl, sym, ap, subst, inl, inr, Bool-cases, Option, none, some, String,
  List, map,
}
use munavvar_a.Store.{
  OrderStatus, PaymentMethod, Order, Line, Db, ok, ◌>>=◌, >>=-eq-ok, raise_if-eq-ok, or_raise-eq-ok,
  ok-injective, same_status, same_payment_method, find_order, update_order, find_inventory,
  get_courier_inventory, is_truthy,
}
use munavvar_a.Orders.Quota.{Delta, delta_of, decrement_quantities_used, release_order_quantities}
use munavvar_a.Orders.Tara.{is_empty}
use munavvar_a.Orders.Frame.{deliver_goods-Frame, process_financial_settlement-Frame}
use munavvar_a.Orders.Edit.{contract_of}
use munavvar_a.Orders.Fulfillment.{
  adjust_items, release_undelivered, adjust_order, stock_shortages, deliver_goods,
  handle_order_fulfillment,
}
use munavvar_a.Orders.Pickup.{set_status}
use munavvar_a.Orders.Status.{fulfill_on_delivery, cancels, release_on_cancel, save_reason}
use munavvar_a.Orders.Life.{Course, Moves, Moves-trans, Moves-same, Moves-Frame, Moves-update_found}
use munavvar_a.Orders.Life.Entries.{quiet-Moves}

release_undelivered-orders :
    (o : Order) (ds : List Delta) (db : Db) {db' : Db}
    → release_undelivered o ds db ≡ ok db'
    → db'.orders ≡ db.orders
unfolding release_undelivered
release_undelivered-orders o ds db {db'} h = elim (Bool-cases (is_empty ds)) [
  | inl e ↦ ap (λ x. x.orders) (sym (ok-injective (rw e at h)))
  | inr e ↦ elim (Bool-cases (same_payment_method o.payment_method PaymentMethod.contract)) [
    | inr f ↦ ap (λ x. x.orders) (sym (ok-injective (rw (e, f) at h)))
    | inl f ↦ given o.contract_id (rw (e, f) at h)
  ]
]
  where
    given :
        (c : Option ℕ)
        → (elim c [
          | none ↦ ok db
          | some contract_id ↦ do
            pis ← decrement_quantities_used contract_id ds db.price_items
            ok (record db { price_items = pis })
        ])
          ≡ ok db'
        → db'.orders ≡ db.orders
    given none g = ap (λ x. x.orders) (sym (ok-injective g))
    given (some c) g =
        let (pis, _, g₁) = >>=-eq-ok (decrement_quantities_used c ds db.price_items) _ g in
        ap (λ x. x.orders) (sym (ok-injective g₁))

adjust_order-Moves :
    (actual : List Line) (o : Order) (db : Db) {r : Order × Db}
    → adjust_order actual o db ≡ ok r
    → Moves db r.1
unfolding adjust_order
adjust_order-Moves actual o db h = elim (Bool-cases (is_empty actual)) [
  | inl e ↦ subst (λ r. Moves db r.1) (ok-injective (rw e at h)) (Moves-same refl)
  | inr e ↦
      let (a, _, h₁) = >>=-eq-ok (adjust_items actual o.items) _ (rw e at h) in
      let (mid, released, h₂) = >>=-eq-ok (release_undelivered o a.quota_deltas db) _ h₁ in
      let change : Order → Order = λ x. record x { items = a.items; total_amount = a.new_total } in
      subst (λ r. Moves db r.1) (ok-injective h₂)
        (quiet-Moves o.id change
          (ap (update_order o.id change) (release_undelivered-orders o a.quota_deltas db released))
          (λ x. refl) (λ x. (refl, refl)))
]

handle_order_fulfillment-Moves :
    (o : Order) (actual : List Line) (db : Db) {db' : Db}
    → handle_order_fulfillment o actual db ≡ ok db'
    → Moves db db'
unfolding handle_order_fulfillment
handle_order_fulfillment-Moves o actual db h =
    let (courier, _, h₁) = or_raise-eq-ok o.courier_id _ _ h in
    let (r, adjusted, h₂) = >>=-eq-ok (adjust_order actual o db) _ h₁ in
    let (row, _, h₃) = >>=-eq-ok (get_courier_inventory courier r.1.inventories) _ h₂ in
    let (own, _, h₄) = or_raise-eq-ok row _ _ h₃ in
    let (place, _, h₅) = or_raise-eq-ok (find_inventory own.id r.1.inventories) _ _ h₄ in
    let (_, h₆) =
      raise_if-eq-ok
        (not (is_empty (stock_shortages (λ p. r.1.stock_balances p place.id) r.0.items))) _ _ h₅ in
    let (db₂, delivered, h₇) = >>=-eq-ok (deliver_goods r.0 courier place.id r.1) _ h₆ in
    Moves-trans (adjust_order-Moves actual o db adjusted) (
      Moves-trans (Moves-Frame (deliver_goods-Frame r.0 courier place.id r.1 delivered))
        (Moves-Frame (process_financial_settlement-Frame r.0 db₂ h₇)))

pub fulfill_on_delivery-Moves :
    (o : Order) (s : OrderStatus) (actual : List Line) (db : Db) {db' : Db}
    → fulfill_on_delivery o s actual db ≡ ok db'
    → Moves db db'
unfolding fulfill_on_delivery
fulfill_on_delivery-Moves o s actual db h =
    elim (Bool-cases
      (not (same_status o.status OrderStatus.delivered) && same_status s OrderStatus.delivered)) [
        | inr e ↦ subst (Moves db) (ok-injective (rw e at h)) (Moves-same refl)
        | inl e ↦ handle_order_fulfillment-Moves (record o { status = s }) actual db (rw e at h)
      ]

pub release_held-Moves :
    (o : Order) (contract : Option ℕ) (db : Db) {db' : Db}
    → (elim contract [ none ↦ ok db | some c ↦ release_order_quantities c o db ]) ≡ ok db'
    → Moves db db'
unfolding release_order_quantities
release_held-Moves o none db h = subst (Moves db) (ok-injective h) (Moves-same refl)
release_held-Moves o (some c) db h =
    let (pis, _, h₁) =
      >>=-eq-ok (decrement_quantities_used c (map delta_of o.items) db.price_items) _ h in
    subst (Moves db) (ok-injective h₁) (
      quiet-Moves o.id (λ x. record x { quantities_reserved = false }) refl (λ x. refl)
        (λ x. (refl, refl)))

pub release_on_cancel-Moves :
    (o : Order) (s : OrderStatus) (db : Db) {db' : Db}
    → release_on_cancel o s db ≡ ok db'
    → Moves db db'
unfolding release_on_cancel
release_on_cancel-Moves o s db h = elim (Bool-cases (cancels o s)) [
  | inr e ↦ subst (Moves db) (ok-injective (rw e at h)) (Moves-same refl)
  | inl e ↦ release_held-Moves o (contract_of o) db (rw e at h)
]

pub save_reason-Moves :
    (k : ℕ) (s : OrderStatus) (reason : Option String) (db : Db)
    → Moves db (save_reason k s reason db)
unfolding save_reason
save_reason-Moves k s reason db =
    elim (Bool-cases (same_status s OrderStatus.cancelled && is_truthy reason)) [
      | inr e ↦ rw e (Moves-same refl)
      | inl e ↦ rw e (
          quiet-Moves k (λ x. record x { cancellation_reason = reason }) refl (λ x. refl)
            (λ x. (refl, refl)))
    ]

pub set_status-Moves :
    (k : ℕ) (s : OrderStatus) (db : Db) {o : Order}
    → find_order k db.orders ≡ some o
    → Course o.sale_type o.status s
    → Moves db (set_status k s db)
unfolding set_status
set_status-Moves k s db found p =
    Moves-update_found k (λ x. record x { status = s }) refl (λ x. refl) found
      (record { sale = refl; path = p })
