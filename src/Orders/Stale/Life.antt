-- ===== src/Orders/Stale/Life.antt =====
-- `expire_stale_orders` keeps each order on its life.
use munavvar_a.Prelude.{
  ℕ, zero, suc, Bool, true, ◌≡◌, ◌⊎◌, ◌||◌, ◌-◌, refl, subst, inl, inr, Bool-cases, Option, some,
  String, List, [], ◌∷◌, keep, take, arith,
}
use munavvar_a.Prelude.Keyed.{IsKeyed, keep-IsKeyed}
use munavvar_a.Store.{
  OrderStatus, SaleType, Order, Db, ok, >>=-eq-ok, ok-injective, same_status, find_order,
}
use munavvar_a.Orders.Edit.{contract_of}
use munavvar_a.Orders.Pickup.{set_status}
use munavvar_a.Orders.Fsm.Laws.{Edge}
use munavvar_a.Orders.Quota.Balance.{order_id, IsBalanced}
use munavvar_a.Orders.Life.{by_edge, withdraw, Course, here, onward, Moves, Moves-trans, Moves-same}
use munavvar_a.Orders.Life.Entries.{quiet-Moves, log-Moves}
use munavvar_a.Orders.Life.Effects.{set_status-Moves, release_held-Moves}
use munavvar_a.Orders.Stale.{
  is_stale, get_stale_orders, release_stale, expire_order, expire_orders, StaleRun,
  expire_stale_orders,
}
use munavvar_a.Orders.Stale.Quotas.{
  AllFound, AllFound-expired, take-AllFound, take-IsKeyed, keep-AllFound, batch-IsBalanced,
}

-- An order that no courier has taken along can be withdrawn.
pub withdrawn-Course :
    (t : SaleType) (s : OrderStatus)
    → (same_status s OrderStatus.new || same_status s OrderStatus.assigned) ≡ true
    → Course t s OrderStatus.cancelled
withdrawn-Course t s h =
    let early : (s ≡ OrderStatus.new) ⊎ (s ≡ OrderStatus.assigned) = ground arith in
    elim early [
      | inl e ↦ rw e (onward here (by_edge Edge.cancel_new))
      | inr e ↦ rw e (onward here withdraw)
    ]

abbrev is_early : Order → Bool
is_early o = same_status o.status OrderStatus.new || same_status o.status OrderStatus.assigned

abbrev AllEarly : List Order → Type 0
AllEarly [] = Unit
AllEarly (o ∷ os) = (is_early o ≡ true) × AllEarly os

stale_early :
    (date_of : ℕ → ℕ) (older : ℕ) (s : OrderStatus) (o : Order)
    → (same_status s OrderStatus.new || same_status s OrderStatus.assigned) ≡ true
    → is_stale date_of older s o ≡ true
    → is_early o ≡ true
stale_early date_of older s o h stale = ground arith

keep-AllEarly :
    (t : Order → Bool) (xs : List Order)
    → ((o : Order) → t o ≡ true → is_early o ≡ true)
    → AllEarly (keep t xs)
keep-AllEarly t [] h = tt
keep-AllEarly t (x ∷ xs) h = elim (Bool-cases (t x)) [
  | inl e ↦ rw e (h x e, keep-AllEarly t xs h)
  | inr e ↦ rw e (keep-AllEarly t xs h)
]

take-AllEarly : (n : ℕ) (xs : List Order) → AllEarly xs → AllEarly (take n xs)
take-AllEarly zero xs h = tt
take-AllEarly (suc n) [] h = tt
take-AllEarly (suc n) (x ∷ xs) h = (h.0, take-AllEarly n xs h.1)

release_stale-Moves : (o : Order) (db : Db) {db' : Db} → release_stale o db ≡ ok db' → Moves db db'
unfolding release_stale contract_of
release_stale-Moves o db h = elim (Bool-cases o.quantities_reserved) [
  | inl e ↦ release_held-Moves o (contract_of o) db (rw e at h)
  | inr e ↦ subst (Moves db) (ok-injective (rw e at h)) (Moves-same refl)
]

expire_order-Moves :
    (s : OrderStatus) (reason : String) (admin : Option ℕ) (o : Order) (db : Db) {db' : Db}
    → is_early o ≡ true
    → find_order o.id db.orders ≡ some o
    → expire_order s reason admin o db ≡ ok db'
    → Moves db db'
unfolding expire_order
expire_order-Moves s reason admin o db early found h =
    let (mid, released, h₁) =
      >>=-eq-ok (release_stale o (set_status o.id OrderStatus.cancelled db)) _ h in
    subst (Moves db) (ok-injective h₁) (
      Moves-trans
        (set_status-Moves o.id OrderStatus.cancelled db found
          (withdrawn-Course o.sale_type o.status early))
        (Moves-trans (release_stale-Moves o _ released) (
          Moves-trans
            (quiet-Moves o.id (λ x. record x { cancellation_reason = some reason }) refl (λ x. refl)
              (λ x. (refl, refl)))
            (log-Moves o.id (some s) OrderStatus.cancelled admin (some reason) _))))

expire_orders-Moves :
    (s : OrderStatus) (reason : String) (admin : Option ℕ) (os : List Order) (db : Db) {db' : Db}
    → AllEarly os
    → IsKeyed order_id os
    → AllFound os db.orders
    → expire_orders s reason admin os db ≡ ok db'
    → Moves db db'
unfolding expire_orders
expire_orders-Moves s reason admin [] db early u found h =
    subst (Moves db) (ok-injective h) (Moves-same refl)
expire_orders-Moves s reason admin (o ∷ os) db early u found h =
    let (mid, first, rest) = >>=-eq-ok (expire_order s reason admin o db) _ h in
    Moves-trans (expire_order-Moves s reason admin o db early.0 found.0 first) (
      expire_orders-Moves s reason admin os mid early.1 u.1
        (AllFound-expired s reason admin o os db mid u.0 first found.1) rest)

batch-Moves :
    (date_of : ℕ → ℕ) (older : ℕ) (s : OrderStatus) (reason : String) (admin : Option ℕ) (db : Db)
    {db' : Db}
    → (same_status s OrderStatus.new || same_status s OrderStatus.assigned) ≡ true
    → IsBalanced db
    → expire_orders s reason admin (get_stale_orders date_of older s db.orders) db ≡ ok db'
    → Moves db db'
unfolding get_stale_orders
batch-Moves date_of older s reason admin db early b h =
    expire_orders-Moves s reason admin _ db
      (take-AllEarly 500 _ (
        keep-AllEarly (is_stale date_of older s) db.orders
          (λ o stale. stale_early date_of older s o early stale)))
      (take-IsKeyed 500 _ (keep-IsKeyed order_id (is_stale date_of older s) db.orders b.keyed))
      (take-AllFound 500 _ db.orders (keep-AllFound (is_stale date_of older s) db.orders b.keyed)) h

pub expire_stale_orders-Moves :
    (run : StaleRun) (db : Db) {db' : Db}
    → IsBalanced db
    → expire_stale_orders run db ≡ ok db'
    → Moves db db'
unfolding expire_stale_orders
expire_stale_orders-Moves run db b h =
    let (mid, first, rest) =
      >>=-eq-ok
        (expire_orders OrderStatus.new run.new_reason run.admin_id
          (get_stale_orders run.created_at (run.now - run.max_age_hours) OrderStatus.new db.orders)
          db)
        _ h in
    Moves-trans
      (batch-Moves run.created_at (run.now - run.max_age_hours) OrderStatus.new run.new_reason
        run.admin_id db refl b first)
      (batch-Moves run.updated_at (run.now - run.assigned_max_age_hours) OrderStatus.assigned
        run.assigned_reason run.admin_id mid refl
        (batch-IsBalanced run.created_at (run.now - run.max_age_hours) OrderStatus.new
          run.new_reason run.admin_id db b first)
        rest)
