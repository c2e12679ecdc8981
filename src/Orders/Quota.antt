-- ===== src/Orders/Quota.antt =====
-- Contract quotas: the price items that an order locks, the check of the limits, and the counter
-- `quantity_used` (src/modules/contracts/repositories.py, ContractPriceItemRepository).
pub mod Counter
pub mod Room
pub mod Deltas
pub mod Balance
use munavvar_a.Prelude.{
  ℕ, Bool, not, ◌&&◌, ◌||◌, ◌+◌, ◌-◌, ◌==◌, ltb, Option, false, none, some, List, [], ◌∷◌, map, any,
  elem, find, keep, update_where, if◌then◌else◌,
}
use munavvar_a.Store.{
  ContractStatus, Role, Line, Contract, PriceItem, Order, OrderItem, Db, Error, Result, ok, ◌>>=◌,
  ◌>>◌, raise_if, or_raise, one_or_none, same_contract_status, same_role, update_order,
}

-- The row of a product in a contract.
abbrev pub is_price_of : ℕ → ℕ → PriceItem → Bool
is_price_of contract_id product_id pi =
    pi.contract_id == contract_id && pi.product_id == product_id && pi.is_active

-- `get_for_products_locked`; the order of the rows serves the locks only.
unfoldable pub get_for_products_locked : ℕ → List ℕ → List PriceItem → List PriceItem
get_for_products_locked contract_id ids =
    keep (λ pi. pi.contract_id == contract_id && elem pi.product_id ids && pi.is_active)

-- One UPDATE of `increment_quantities_used`.
abbrev pub use_more : ℕ → PriceItem → PriceItem
use_more delta pi = record pi { quantity_used = pi.quantity_used + delta }

-- One UPDATE of `decrement_quantities_used`; `greatest(quantity_used - delta, 0)` is `-` on ℕ.
abbrev pub use_less : ℕ → PriceItem → PriceItem
use_less delta pi = record pi { quantity_used = pi.quantity_used - delta }

-- An entry `(price_item_id, delta)` or `(product_id, delta)`.
pub record Delta : Type 0 where
  pub key : ℕ
  pub amount : ℕ

-- `increment_quantities_used`
unfoldable pub increment_quantities_used : List Delta → List PriceItem → Result (List PriceItem)
increment_quantities_used [] pis = ok pis
increment_quantities_used (d ∷ ds) pis = do
  raise_if (d.amount == 0) Error.value_error
  raise_if (not (any (λ pi. pi.id == d.key) pis)) Error.value_error
  increment_quantities_used ds (update_where (λ pi. pi.id == d.key) (use_more d.amount) pis)

-- `decrement_quantities_used`
unfoldable pub decrement_quantities_used : ℕ → List Delta → List PriceItem → Result (List PriceItem)
decrement_quantities_used contract_id [] pis = ok pis
decrement_quantities_used contract_id (d ∷ ds) pis = do
  raise_if (d.amount == 0) Error.value_error
  raise_if (not (any (is_price_of contract_id d.key) pis)) Error.value_error
  decrement_quantities_used contract_id ds
      (update_where (is_price_of contract_id d.key) (use_less d.amount) pis)

-- `pi.quantity != 0 and requested > pi.quantity - pi.quantity_used`
abbrev pub exceeds : PriceItem → ℕ → Bool
exceeds pi requested = not (pi.quantity == 0) && ltb (pi.quantity - pi.quantity_used) requested

-- The loop of `_check_and_reserve_quantities`; `locked` is `price_item_map`.
unfoldable pub plan_increments : List PriceItem → List Line → Result (List Delta)
plan_increments locked [] = ok []
plan_increments locked (l ∷ ls) = do
  pi ← or_raise (find (λ pi. pi.product_id == l.product_id) locked) Error.key_error
  raise_if (exceeds pi l.quantity)
      (Error.quantity_limit_exceeded l.product_id pi.quantity pi.quantity_used l.quantity)
  rest ← plan_increments locked ls
  ok (record { key = pi.id; amount = l.quantity } ∷ rest)

-- `_check_and_reserve_quantities`
unfoldable pub check_and_reserve_quantities : List PriceItem → List Line → Db → Result Db
check_and_reserve_quantities locked items db = do
  increments ← plan_increments locked items
  pis ← increment_quantities_used increments db.price_items
  ok (record db { price_items = pis })

-- `contract.end_date and contract.end_date < today`
abbrev pub is_past : Option ℕ → ℕ → Bool
is_past none today = false
is_past (some d) today = ltb d today

-- ContractRepository.get_active_for_client
unfoldable pub get_active_for_client : ℕ → List Contract → Result (Option Contract)
get_active_for_client client_id cs = one_or_none (
    keep
      (λ c.
        c.client_id == client_id
        && same_contract_status c.status ContractStatus.active
        && c.is_active)
      cs)

-- `_get_and_validate_contract_locked`
unfoldable pub get_and_validate_contract_locked : ℕ → Role → ℕ → Db → Result Contract
get_and_validate_contract_locked client_id client_role today db = do
  raise_if (not (same_role client_role Role.client_b2b)) Error.contract_payment_not_allowed
  found ← get_active_for_client client_id db.contracts
  contract ← or_raise found Error.contract_required
  raise_if (not (same_contract_status contract.status ContractStatus.active))
      Error.contract_not_active
  raise_if (is_past contract.end_date today) Error.contract_expired
  ok contract

abbrev pub delta_of : OrderItem → Delta
delta_of i = record { key = i.product_id; amount = i.quantity }

-- `_release_order_quantities`, for an order whose `contract_id` is known.
unfoldable pub release_order_quantities : ℕ → Order → Db → Result Db
release_order_quantities contract_id order db = do
  pis ← decrement_quantities_used contract_id (map delta_of order.items) db.price_items
  ok (record db {
    price_items = pis;
    orders = update_order order.id (λ o. record o { quantities_reserved = false }) db.orders;
  })
