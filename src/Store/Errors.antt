-- ===== src/Store/Errors.antt =====
-- The exceptions of the services (src/modules/*/exceptions.py, src/core/exceptions.py), with the
-- data that the code computes for them; messages and echoed ids are left out. `Result` is how a
-- call ends: `async with self.uow` rolls back on a raise, so a raise carries no store.
use munavvar_a.Prelude.{ℕ, ⊤, Bool, true, false, Option, none, some, List, ◌≡◌, refl}
use munavvar_a.Prelude.Int.{ℤ}

-- A row of `InsufficientTaraError.shortages`.
pub record Shortage : Type 0 where
  pub product_id : ℕ
  pub returnable_item_id : ℕ
  pub required : ℕ
  pub available : ℤ
  pub deficit : ℕ

pub data Error : Type 0 where
  empty_cart duplicate_products : Error
  products_unavailable : List ℕ → Error
  client_not_found contract_payment_not_allowed contract_required : Error
  contract_not_active contract_expired : Error
  product_not_in_contract : ℕ → Error
  quantity_limit_exceeded : ℕ → ℕ → ℕ → ℕ → Error
  client_inventory_not_found : Error
  insufficient_tara : List Shortage → Error
  order_not_found order_access_denied invalid_order_status : Error
  invalid_pickup_operation courier_assignment cannot_remove_last_item : Error
  invalid_quantity courier_not_assigned courier_inventory_not_found : Error
  insufficient_stock : List (ℕ × ℕ) → Error
  delivery_quantity_exceeded : ℕ → ℕ → ℕ → Error
  warehouse_id_missing inventory_not_found inventory_access_denied : Error
  account_not_found not_found key_error value_error multiple_results integrity_error : Error
  virtual_inventory_configuration : Error
  contract_not_found contract_already_active contract_status_transition : Error
  price_item_has_usage price_item_not_found duplicate_amendment_number : Error
  invoice_not_found invalid_invoice_transition duplicate_invoice_period : Error
  insufficient_permissions missing_from_id missing_to_id route_loop : Error
  archived_products_in_transfer : List ℕ → Error
  inventory_type_mismatch : ℕ → Error
  self_transfer transaction_not_found invalid_transaction_status : Error
  amount_conflict amount_range_invalid date_preset_conflict date_range_invalid : Error
  pagination_too_deep : ℕ → ℕ → Error

pub data Result {ℓ} (V : Type ℓ) : Type ℓ where
  err : Error → Result V
  ok : V → Result V

-- `if c: raise e`
abbrev pub raise_if : Bool → Error → Result ⊤
raise_if true e = err e
raise_if false e = ok tt

infixl 5 ◌>>=◌
abbrev pub ◌>>=◌ {ℓ κ} : {V : Type ℓ} {W : Type κ} → Result V → (V → Result W) → Result W
err e >>= next = err e
ok v >>= next = next v

infixl 5 ◌>>◌
abbrev pub ◌>>◌ {ℓ} : {W : Type ℓ} → Result ⊤ → Result W → Result W
check >> rest = check >>= λ _. rest

-- `if not x: raise e`
abbrev pub or_raise {ℓ} : {A : Type ℓ} → Option A → Error → Result A
or_raise none e = err e
or_raise (some a) e = ok a

-- The three inversions that proofs about a successful call use.
pub >>=-eq-ok {ℓ κ} :
    {V : Type ℓ} {W : Type κ} (call : Result V) (next : V → Result W) {w : W}
    → (call >>= next) ≡ ok w
    → (v : V) × (call ≡ ok v) × (next v ≡ ok w)
>>=-eq-ok (err e) next h = cc
>>=-eq-ok (ok v) next h = (v, refl, h)

pub raise_if-eq-ok {ℓ} :
    {B : Type ℓ} (c : Bool) (e : Error) (k : Result B) {b : B}
    → (raise_if c e >> k) ≡ ok b
    → (c ≡ false) × (k ≡ ok b)
raise_if-eq-ok true e k h = cc
raise_if-eq-ok false e k h = (refl, h)

pub or_raise-eq-ok {ℓ κ} :
    {A : Type ℓ} {B : Type κ} (o : Option A) (e : Error) (f : A → Result B) {b : B}
    → (or_raise o e >>= f) ≡ ok b
    → (a : A) × (o ≡ some a) × (f a ≡ ok b)
or_raise-eq-ok none e f h = cc
or_raise-eq-ok (some a) e f h = (a, refl, h)

pub ok-injective {ℓ} : {A : Type ℓ} {a b : A} → ok a ≡ ok b → a ≡ b
ok-injective h = cc
