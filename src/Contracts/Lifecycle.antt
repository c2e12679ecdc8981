-- ===== src/Contracts/Lifecycle.antt =====
-- `activate_contract`, `suspend_contract`, `reinstate_contract` and `terminate_contract` of
-- `ContractService`, with `_cancel_inflight_orders`.
pub mod Force
pub mod Inflight
pub mod Closing
pub mod Totals
pub mod Quotas
pub mod Exclusive
use munavvar_a.Prelude.{
  ℕ, Bool, true, false, not, ◌&&◌, ◌||◌, ◌==◌, Option, none, some, String, List, [], ◌∷◌, ◌++◌, map,
  elem, keep, update_where, if◌then◌else◌,
}
use munavvar_a.Store.{
  OrderStatus, ContractStatus, Contract, ContractStatusLog, Order, OrderItem, OrderStatusLog, Line,
  PriceItem, Db, Error, Result, ok, ◌>>=◌, ◌>>◌, raise_if, or_raise, is_id, same_status,
  same_contract_status, find_contract, update_contract_row, committed,
}
use munavvar_a.Orders.Dict.{add_key}
use munavvar_a.Orders.Quota.{Delta, get_active_for_client, decrement_quantities_used}
use munavvar_a.Orders.Pickup.{log_transition}
use munavvar_a.Orders.Tara.{is_empty}

-- `self.uow.status_logs.add` of a contract
unfoldable pub log_contract :
    ℕ → ContractStatus → ContractStatus → Option ℕ → Option String → Db → Db
log_contract contract_id from to by reason db = record db {
  contract_logs =
      db.contract_logs
      ++ record {
        contract_id = contract_id;
        from_status = from;
        to_status = to;
        changed_by_id = by;
        reason = reason;
      }
        ∷ [];
}

-- `existing and existing.id != contract_id`
abbrev pub is_other_contract : ℕ → Option Contract → Bool
is_other_contract contract_id none = false
is_other_contract contract_id (some c) = not (c.id == contract_id)

abbrev pub sign : ℕ → ℕ → Contract → Contract
sign now by c = record c {
  status = ContractStatus.active;
  signed_at = some now;
  signed_by_id = some by;
}

-- `activate_contract`
unfoldable pub activate_contract : ℕ → ℕ → ℕ → Db → Result Db
activate_contract contract_id by now db = do
  contract ← or_raise (find_contract contract_id db.contracts) Error.contract_not_found
  raise_if (not (same_contract_status contract.status ContractStatus.draft))
      Error.contract_status_transition
  existing ← get_active_for_client contract.client_id db.contracts
  raise_if (is_other_contract contract_id existing) Error.contract_already_active
  ok (
      log_contract contract_id contract.status ContractStatus.active (some by) none
        (record db { contracts = update_contract_row contract_id (sign now by) db.contracts }))

abbrev pub resume : Contract → Contract
resume c = record c {
  status = ContractStatus.active;
  suspended_at = none;
  suspension_reason = none;
}

-- `reinstate_contract`
unfoldable pub reinstate_contract : ℕ → Option ℕ → Db → Result Db
reinstate_contract contract_id by db = do
  contract ← or_raise (find_contract contract_id db.contracts) Error.contract_not_found
  raise_if (not (same_contract_status contract.status ContractStatus.suspended))
      Error.contract_status_transition
  existing ← get_active_for_client contract.client_id db.contracts
  raise_if (is_other_contract contract_id existing) Error.contract_already_active
  ok (
      log_contract contract_id contract.status ContractStatus.active by none
        (record db { contracts = update_contract_row contract_id resume db.contracts }))

-- The WHERE of `bulk_cancel_by_contract`.
abbrev pub is_cancellable : ℕ → Order → Bool
is_cancellable contract_id o =
    is_id contract_id o.contract_id
    && (same_status o.status OrderStatus.new || same_status o.status OrderStatus.assigned)
    && o.is_active

-- `product_totals`, over the lines of one order and of all of them.
unfoldable pub add_items : List OrderItem → List Line → List Line
add_items [] d = d
add_items (i ∷ is) d = add_items is (add_key i.product_id i.quantity d)

unfoldable pub product_totals : List Order → List Line → List Line
product_totals [] d = d
product_totals (o ∷ os) d = product_totals os (add_items o.items d)

-- The log entries of the cancelled orders.
unfoldable pub log_cancelled : List Order → String → Db → Db
log_cancelled [] reason db = db
log_cancelled (o ∷ os) reason db =
    log_cancelled os reason
      (log_transition o.id (some o.status) OrderStatus.cancelled none (some reason) db)

unfoldable pub release_totals : ℕ → List Line → List PriceItem → Result (List PriceItem)
release_totals contract_id totals pis =
    if is_empty totals
    then ok pis
    else decrement_quantities_used contract_id
        (map (λ l. record { key = l.product_id; amount = l.quantity }) totals) pis

abbrev pub is_among : List Order → Order → Bool
is_among os o = elem o.id (map (λ x. x.id) os)

-- `_cancel_inflight_orders`
unfoldable pub cancel_inflight_orders : ℕ → String → Db → Result Db
cancel_inflight_orders contract_id reason db = do
  let cancelled = keep (is_cancellable contract_id) db.orders
  let reserved = keep (λ o. o.quantities_reserved) cancelled
  pis ← release_totals contract_id (product_totals reserved []) db.price_items
  ok (
      log_cancelled cancelled reason (record db {
        price_items = pis;
        orders =
            update_where (is_among cancelled) (λ o. record o { cancellation_reason = some reason })
              (update_where (is_among reserved) (λ o. record o { quantities_reserved = false })
                (update_where (is_among cancelled)
                  (λ o. record o { status = OrderStatus.cancelled }) db.orders));
      }))

abbrev pub suspend : ℕ → String → Contract → Contract
suspend now reason c = record c {
  status = ContractStatus.suspended;
  suspended_at = some now;
  suspension_reason = some reason;
}

-- `suspend_contract`
unfoldable pub suspend_contract : ℕ → String → Option ℕ → ℕ → Db → Result Db
suspend_contract contract_id reason by now db = do
  contract ← or_raise (find_contract contract_id db.contracts) Error.contract_not_found
  raise_if (not (same_contract_status contract.status ContractStatus.active))
      Error.contract_status_transition
  db' ←
      cancel_inflight_orders contract_id "Приостановка договора" (record db {
        contracts = update_contract_row contract_id (suspend now reason) db.contracts;
      })
  ok (log_contract contract_id contract.status ContractStatus.suspended by (some reason) db')

abbrev pub terminate : ℕ → String → Contract → Contract
terminate now reason c = record c {
  status = ContractStatus.terminated;
  terminated_at = some now;
  termination_reason = some reason;
}

-- `terminate_contract`
unfoldable pub terminate_contract : ℕ → String → Option ℕ → ℕ → Db → Result Db
terminate_contract contract_id reason by now db = do
  contract ← or_raise (find_contract contract_id db.contracts) Error.contract_not_found
  raise_if
      (not (
        same_contract_status contract.status ContractStatus.active
        || same_contract_status contract.status ContractStatus.suspended))
      Error.contract_status_transition
  db' ← cancel_inflight_orders contract_id "Расторжение договора" (record db {
    contracts = update_contract_row contract_id (terminate now reason) db.contracts;
  })
  ok (log_contract contract_id contract.status ContractStatus.terminated by (some reason) db')
