-- ===== src/Contracts/Lifecycle/Inflight.antt =====
-- `_cancel_inflight_orders` leaves the contracts alone and draws no ids.
use munavvar_a.Prelude.{ℕ, ◌≡◌, ◌≤◌, refl, subst, String, List, [], ◌∷◌, keep, arith}
use munavvar_a.Store.{Order, Db, ok, >>=-eq-ok, ok-injective}
use munavvar_a.Orders.Pickup.{log_transition}
use munavvar_a.Contracts.Lifecycle.{
  is_cancellable, product_totals, log_cancelled, release_totals, cancel_inflight_orders,
}

log_cancelled-contracts :
    (os : List Order) (reason : String) (db : Db)
    → ((log_cancelled os reason db).contracts ≡ db.contracts)
      × ((log_cancelled os reason db).next_id ≡ db.next_id)
unfolding log_cancelled log_transition
log_cancelled-contracts [] reason db = (refl, refl)
log_cancelled-contracts (o ∷ os) reason db = log_cancelled-contracts os reason _

pub cancel_inflight_orders-contracts :
    (k : ℕ) (reason : String) (db : Db) {db' : Db}
    → cancel_inflight_orders k reason db ≡ ok db'
    → (db'.contracts ≡ db.contracts) × (db'.next_id ≡ db.next_id)
unfolding cancel_inflight_orders
cancel_inflight_orders-contracts k reason db h =
    let cancelled : List Order = keep (is_cancellable k) db.orders in
    let reserved : List Order = keep (λ o. o.quantities_reserved) cancelled in
    let (pis, _, h₁) =
      >>=-eq-ok (release_totals k (product_totals reserved []) db.price_items) _ h in
    subst (λ x. (x.contracts ≡ db.contracts) × (x.next_id ≡ db.next_id)) (ok-injective h₁)
      (log_cancelled-contracts cancelled reason _)

pub kept_next : {m n : ℕ} → n ≡ m → m ≤ n
kept_next e = omega arith
