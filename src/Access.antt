-- ===== src/Access.antt =====
-- Permissions (src/core/security/permissions.py) and the check of a token's scopes
-- (`get_token_payload` of src/modules/auth/dependencies.py).
use munavvar_a.Prelude.{ℕ, ⊤, Bool, not, ◌==◌, List, [], ◌∷◌, ◌++◌, any}
use munavvar_a.Store.{Role, Error, Result, ok, ◌>>◌, raise_if}

pub data Scope : Type 0 where
  users_read users_write profile_read profile_write catalog_read catalog_write : Scope
  orders_read orders_create orders_edit orders_deliver orders_cancel : Scope
  transports_read inventory_read inventory_write : Scope
  logistics_supply logistics_transfer logistics_adjustment routes_read : Scope
  finances_read finances_write payments_create bills_read : Scope
  contracts_read contracts_write contracts_manage : Scope
  settings_read settings_write system_exec : Scope

abbrev pub scope_code : Scope → ℕ
scope_code Scope.users_read = 0
scope_code Scope.users_write = 1
scope_code Scope.profile_read = 2
scope_code Scope.profile_write = 3
scope_code Scope.catalog_read = 4
scope_code Scope.catalog_write = 5
scope_code Scope.orders_read = 6
scope_code Scope.orders_create = 7
scope_code Scope.orders_edit = 8
scope_code Scope.orders_deliver = 9
scope_code Scope.orders_cancel = 10
scope_code Scope.transports_read = 11
scope_code Scope.inventory_read = 12
scope_code Scope.inventory_write = 13
scope_code Scope.logistics_supply = 14
scope_code Scope.logistics_transfer = 15
scope_code Scope.logistics_adjustment = 16
scope_code Scope.routes_read = 17
scope_code Scope.finances_read = 18
scope_code Scope.finances_write = 19
scope_code Scope.payments_create = 20
scope_code Scope.bills_read = 21
scope_code Scope.contracts_read = 22
scope_code Scope.contracts_write = 23
scope_code Scope.contracts_manage = 24
scope_code Scope.settings_read = 25
scope_code Scope.settings_write = 26
scope_code Scope.system_exec = 27

-- `scope in scopes`
abbrev pub has_scope : Scope → List Scope → Bool
has_scope s = any (λ t. scope_code s == scope_code t)

unfoldable pub base_scopes : List Scope
base_scopes = Scope.profile_read ∷ Scope.profile_write ∷ Scope.catalog_read ∷ []

unfoldable pub role_scopes : Role → List Scope
unfolding base_scopes
role_scopes Role.system = Scope.system_exec ∷ []
role_scopes Role.admin =
    base_scopes
    ++ (Scope.users_read ∷ Scope.users_write ∷ Scope.catalog_write ∷ Scope.orders_read
        ∷ Scope.orders_create ∷ Scope.orders_edit ∷ Scope.orders_cancel ∷ Scope.inventory_read
        ∷ Scope.inventory_write ∷ Scope.transports_read ∷ Scope.logistics_supply
        ∷ Scope.logistics_transfer ∷ Scope.logistics_adjustment ∷ Scope.routes_read
        ∷ Scope.finances_read ∷ Scope.finances_write ∷ Scope.payments_create ∷ Scope.contracts_read
        ∷ Scope.contracts_write ∷ Scope.contracts_manage ∷ Scope.settings_read
        ∷ Scope.settings_write ∷ [])
role_scopes Role.accountant =
    base_scopes
    ++ (Scope.users_read ∷ Scope.finances_read ∷ Scope.finances_write ∷ Scope.bills_read
        ∷ Scope.contracts_read ∷ Scope.inventory_read ∷ [])
role_scopes Role.storekeeper =
    base_scopes
    ++ (Scope.users_read ∷ Scope.transports_read ∷ Scope.inventory_read ∷ Scope.inventory_write
        ∷ Scope.logistics_supply ∷ Scope.logistics_transfer ∷ [])
role_scopes Role.cashier =
    base_scopes
    ++ (Scope.users_read ∷ Scope.orders_read ∷ Scope.orders_create ∷ Scope.inventory_read
        ∷ Scope.finances_read ∷ Scope.finances_write ∷ Scope.payments_create ∷ [])
role_scopes Role.courier =
    base_scopes
    ++ (Scope.orders_read ∷ Scope.orders_deliver ∷ Scope.routes_read ∷ Scope.payments_create
        ∷ Scope.inventory_read ∷ [])
role_scopes Role.client_b2c =
    base_scopes ++ (Scope.orders_read ∷ Scope.orders_create ∷ Scope.orders_cancel ∷ [])
role_scopes Role.client_b2b =
    base_scopes
    ++ (Scope.orders_read ∷ Scope.orders_create ∷ Scope.orders_cancel ∷ Scope.bills_read
        ∷ Scope.contracts_read ∷ [])

-- `get_token_payload`: the loop over the scopes that a route requires.
unfoldable pub require_scopes : List Scope → List Scope → Result ⊤
require_scopes [] token_scopes = ok tt
require_scopes (s ∷ ss) token_scopes = do
  raise_if (not (has_scope s token_scopes)) Error.insufficient_permissions
  require_scopes ss token_scopes
