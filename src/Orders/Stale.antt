-- ===== src/Orders/Stale.antt =====
-- `expire_stale_orders` with `OrderRepository.get_stale_orders`: the job that cancels orders which
-- waited too long. Times are hours; the columns created_at and updated_at, as they stand when the
-- job runs, are functions of the order's id.
pub mod Quotas
pub mod Life
use munavvar_a.Prelude.{
  ℕ, Bool, true, false, ◌&&◌, ◌-◌, Option, none, some, String, List, [], ◌∷◌, ltb, keep, take,
  if◌then◌else◌,
}
use munavvar_a.Store.{OrderStatus, Order, Db, Result, ok, ◌>>=◌, same_status, update_order}
use munavvar_a.Orders.Edit.{contract_of}
use munavvar_a.Orders.Pickup.{log_transition, set_status}
use munavvar_a.Orders.Quota.{release_order_quantities}

-- The WHERE of `get_stale_orders`.
abbrev pub is_stale : (ℕ → ℕ) → ℕ → OrderStatus → Order → Bool
is_stale date_of older_than status o =
    same_status o.status status && ltb (date_of o.id) older_than && o.is_active

-- `get_stale_orders`, with its default limit; which rows a limited query gives is not fixed, here it
-- is the first ones.
unfoldable pub get_stale_orders : (ℕ → ℕ) → ℕ → OrderStatus → List Order → List Order
get_stale_orders date_of older_than status orders =
    take 500 (keep (is_stale date_of older_than status) orders)

-- `payment_method == CONTRACT and contract_id is not None and quantities_reserved`
unfoldable pub release_stale : Order → Db → Result Db
release_stale order db =
    if order.quantities_reserved
    then elim (contract_of order) [
      | none ↦ ok db
      | some contract_id ↦ release_order_quantities contract_id order db
    ]
    else ok db

-- One round of the inner loop.
unfoldable pub expire_order : OrderStatus → String → Option ℕ → Order → Db → Result Db
expire_order status reason admin_id order db = do
  db' ← release_stale order (set_status order.id OrderStatus.cancelled db)
  ok (
      log_transition order.id (some status) OrderStatus.cancelled admin_id (some reason)
        (record db' {
          orders =
              update_order order.id (λ o. record o { cancellation_reason = some reason })
                db'.orders;
        }))

unfoldable pub expire_orders : OrderStatus → String → Option ℕ → List Order → Db → Result Db
expire_orders status reason admin_id [] db = ok db
expire_orders status reason admin_id (o ∷ os) db = do
  db' ← expire_order status reason admin_id o db
  expire_orders status reason admin_id os db'

-- What the job reads of the clock and of its arguments.
pub record StaleRun : Type 0 where
  pub now : ℕ
  pub max_age_hours : ℕ
  pub assigned_max_age_hours : ℕ
  pub created_at : ℕ → ℕ
  pub updated_at : ℕ → ℕ
  pub new_reason : String
  pub assigned_reason : String
  pub admin_id : Option ℕ

-- `expire_stale_orders`: the two batches, the second on what the first leaves.
unfoldable pub expire_stale_orders : StaleRun → Db → Result Db
expire_stale_orders run db = do
  db' ←
      expire_orders OrderStatus.new run.new_reason run.admin_id
        (get_stale_orders run.created_at (run.now - run.max_age_hours) OrderStatus.new db.orders) db
  expire_orders OrderStatus.assigned run.assigned_reason run.admin_id
      (get_stale_orders run.updated_at (run.now - run.assigned_max_age_hours) OrderStatus.assigned
        db'.orders)
      db'
