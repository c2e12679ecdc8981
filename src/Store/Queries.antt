-- ===== src/Store/Queries.antt =====
-- The store that a session of a unit of work sees (src/infrastructure/database/uow.py), and the
-- queries of the repositories that the services share.
use munavvar_a.Prelude.{
  ◌≡◌, refl, ℕ, Bool, true, false, ◌&&◌, Option, none, some, String, List, [], ◌∷◌, ◌==◌, find,
  keep, update_where,
}
use munavvar_a.Prelude.Book.{Balances}
use munavvar_a.Store.Enums.{
  InventoryType, AccountType, Role, same_inventory_type, same_account_type, same_role,
}
use munavvar_a.Store.Errors.{ok-injective, Error, Result, ok, err, ◌>>=◌, or_raise}
use munavvar_a.Store.Rows.{
  Order, OrderStatusLog, Contract, PriceItem, ContractStatusLog, Invoice, Product, Inventory, User,
  Account, StockTransfer, StockTransaction, Transaction,
}

-- `stock_balances` is the table inventory_balances, by product and inventory (a missing row is 0);
-- `account_balances` is the column accounts.balance. `next_id` stands for the fresh UUID of an
-- INSERT.
pub record Db : Type 0 where
  pub orders : List Order
  pub status_logs : List OrderStatusLog
  pub contracts : List Contract
  pub price_items : List PriceItem
  pub contract_logs : List ContractStatusLog
  pub invoices : List Invoice
  pub products : List Product
  pub inventories : List Inventory
  pub users : List User
  pub accounts : List Account
  pub transfers : List StockTransfer
  pub stock_transactions : List StockTransaction
  pub stock_balances : ℕ → Balances
  pub transactions : List Transaction
  pub account_balances : Balances
  pub next_id : ℕ

-- `x == id`, where `x` may be None.
abbrev pub is_id : ℕ → Option ℕ → Bool
is_id k none = false
is_id k (some j) = j == k

-- `scalar_one_or_none`: two rows are an error.
abbrev pub one_or_none {ℓ} : {A : Type ℓ} → List A → Result (Option A)
one_or_none [] = ok none
one_or_none (x ∷ []) = ok (some x)
one_or_none (x ∷ y ∷ xs) = err Error.multiple_results

-- OrderRepository.get_with_details; ids are primary keys.
abbrev pub find_order : ℕ → List Order → Option Order
find_order k = find (λ o. o.id == k)

-- UPDATE orders ... WHERE id = k
abbrev pub update_order : ℕ → (Order → Order) → List Order → List Order
update_order k = update_where (λ o. o.id == k)

-- BaseRepository.get over contracts, with its `active_only` default.
abbrev pub find_contract : ℕ → List Contract → Option Contract
find_contract k = find (λ c. c.id == k && c.is_active)

abbrev pub update_contract_row : ℕ → (Contract → Contract) → List Contract → List Contract
update_contract_row k = update_where (λ c. c.id == k)

-- BaseRepository.get over inventories.
abbrev pub find_inventory : ℕ → List Inventory → Option Inventory
find_inventory k = find (λ i. i.id == k && i.is_active)

-- InventoryRepository.get_inventory_with_balances with an `inv_type`.
abbrev pub find_inventory_of : InventoryType → ℕ → List Inventory → Option Inventory
find_inventory_of t k = find (λ i. i.id == k && i.is_active && same_inventory_type i.type t)

-- InventoryRepository.get_courier_inventory
unfoldable pub get_courier_inventory : ℕ → List Inventory → Result (Option Inventory)
get_courier_inventory k is = one_or_none (
    keep (λ i. i.user_id == k && same_inventory_type i.type InventoryType.courier && i.is_active)
      is)

-- InventoryRepository.get_client_inventory takes the first row.
unfoldable pub get_client_inventory : ℕ → List Inventory → Option Inventory
get_client_inventory k =
    find (λ i. i.user_id == k && same_inventory_type i.type InventoryType.client && i.is_active)

-- CatalogService.get_by_ids gives the active products only.
abbrev pub find_product : ℕ → List Product → Option Product
find_product k = find (λ p. p.id == k && p.is_active)

abbrev pub is_account_of : AccountType → ℕ → Account → Bool
is_account_of t k a = is_id k a.user_id && same_account_type a.type t && a.is_active

-- AccountRepository.get_user_account_by_type takes the oldest active account; the table is kept in
-- that order.
unfoldable pub get_user_account_by_type : ℕ → AccountType → List Account → Option Account
get_user_account_by_type k t = find (is_account_of t k)

-- SYSTEM_USER_ID and WALKIN_USER_ID
abbrev pub system_user_id : ℕ
system_user_id = 0

abbrev pub walkin_user_id : ℕ
walkin_user_id = 2

unfoldable pub get_system_account : AccountType → List Account → Option Account
get_system_account t = get_user_account_by_type system_user_id t

unfoldable pub get_client_account : ℕ → List Account → Option Account
get_client_account k = get_user_account_by_type k AccountType.client

unfoldable pub get_courier_account : ℕ → List Account → Option Account
get_courier_account k = get_user_account_by_type k AccountType.courier

-- InventoryRepository.get_system_inventory
unfoldable pub get_system_inventory : InventoryType → List Inventory → Result Inventory
get_system_inventory t is = do
  found ← one_or_none (keep (λ i. i.user_id == system_user_id && same_inventory_type i.type t) is)
  or_raise found Error.virtual_inventory_configuration

-- `if reason:`, false on None and on the empty text.
abbrev pub is_truthy : Option String → Bool
is_truthy none = false
is_truthy (some String.[]) = false
is_truthy (some (String.◌∷◌ c s)) = true

abbrev pub find_user : Role → ℕ → List User → Option User
find_user r k = find (λ u. u.id == k && same_role u.role r && u.is_active)

-- `async with self.uow`: a call that raises is rolled back.
abbrev pub committed : Result Db → Db → Db
committed (ok db') db = db'
committed (err e) db = db

pub some-injective {ℓ} : {A : Type ℓ} {a b : A} → some a ≡ some b → a ≡ b
some-injective h = cc

-- What `scalar_one_or_none` says of the rows.
pub one_or_none-some {ℓ} :
    {A : Type ℓ} (xs : List A) {a : A} → one_or_none xs ≡ ok (some a) → xs ≡ a ∷ []
one_or_none-some [] h = cc
one_or_none-some (x ∷ []) {a} h = let same : x ≡ a = some-injective (ok-injective h) in rw same
one_or_none-some (x ∷ y ∷ xs) h = cc

pub one_or_none-none {ℓ} : {A : Type ℓ} (xs : List A) → one_or_none xs ≡ ok none → xs ≡ []
one_or_none-none [] h = refl
one_or_none-none (x ∷ []) h = cc
one_or_none-none (x ∷ y ∷ xs) h = cc

-- What a call keeps when it succeeds it keeps at all, since a call that raises is rolled back.
pub committed-keeps {ℓ} :
    (P : Db → Type ℓ) (r : Result Db) (db : Db)
    → P db
    → ((db' : Db) → r ≡ ok db' → P db')
    → P (committed r db)
committed-keeps P (ok db') db before after = after db' refl
committed-keeps P (err e) db before after = before
