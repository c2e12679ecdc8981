-- ===== src/Inventory/Transfers/Laws.antt =====
-- What an accepted `create_transfer` has checked and done.
use munavvar_a.Prelude.{
  ℕ, Bool, true, false, not, ◌≡◌, ◌==◌, refl, ◌&&◌, ==_iff, find-test, and-true, Option, some, List,
  [], ◌∷◌, ◌++◌, any, arith,
}
use munavvar_a.Prelude.Book.{share}
use munavvar_a.Store.{
  TransferType, Role, Inventory, Db, Error, Result, ok, err, >>=-eq-ok, raise_if-eq-ok,
  or_raise-eq-ok, find_inventory,
}
use munavvar_a.Access.{Scope, has_scope, role_scopes}
use munavvar_a.Inventory.Ledger.{units}
use munavvar_a.Inventory.Ledger.Laws.{Shifts, insert_stock_transactions-Shifts}
use munavvar_a.Inventory.Transfers.Ends.{
  IsSender, IsReceiver, resolve_from-IsSender, resolve_to-IsReceiver,
  insert_stock_transactions-transfers, completed,
}
use munavvar_a.Inventory.Transfers.{
  TransferRequest, valid_routes, is_allowed, is_adjustment, lacks_adjustment, check_route,
  check_stock, as_shortage, post_transfer, transfer_between, create_transfer, resolve_from,
  resolve_to,
}
use munavvar_a.Orders.Tara.{is_empty}
use munavvar_a.Orders.Cart.{product_ids, missing_ids, get_by_ids}

-- The transfer ran between the two inventories that the request is for, which differ and whose
-- types its route allows, was stored with what the request says, and moved the lines of the request
-- and nothing else.
pub record Routed (by : ℕ) (schema : TransferRequest) (db db' : Db) : Type 0 where
  pub sender : Inventory
  pub receiver : Inventory
  pub sender_found : find_inventory sender.id db.inventories ≡ some sender
  pub receiver_found : find_inventory receiver.id db.inventories ≡ some receiver
  pub sender_meant : IsSender schema.type schema.from_id db.inventories sender.id
  pub receiver_meant : IsReceiver schema.type schema.to_id db.inventories receiver.id
  pub distinct : (sender.id == receiver.id) ≡ false
  pub stored :
      db'.transfers ≡ db.transfers ++ completed by schema sender.id receiver.id db.next_id ∷ []
  pub sender_allowed : is_allowed sender.type (valid_routes schema.type).allowed_from ≡ true
  pub receiver_allowed : is_allowed receiver.type (valid_routes schema.type).allowed_to ≡ true
  pub shifts :
      (p i : ℕ)
      → Shifts
          (db.stock_balances p i)
          (db'.stock_balances p i)
          (share receiver.id i (units p schema.items))
          (share sender.id i (units p schema.items))

pub find_inventory-id :
    (k : ℕ) (is : List Inventory) {i : Inventory} → find_inventory k is ≡ some i → i.id ≡ k
find_inventory-id k is {i} h =
    (==_iff i.id k).0 (and-true (i.id == k) i.is_active (find-test _ is h)).0

as_shortage-eq-ok : (r : Result Db) {db : Db} → as_shortage r ≡ ok db → r ≡ ok db
unfolding as_shortage
as_shortage-eq-ok (ok db) h = h
as_shortage-eq-ok (err e) h = cc

not-false : (b : Bool) → not b ≡ false → b ≡ true
not-false b h = ground arith

check_route-allowed :
    (type : TransferType) (f t : Inventory)
    → check_route type f t ≡ ok tt
    → (is_allowed f.type (valid_routes type).allowed_from ≡ true)
      × (is_allowed t.type (valid_routes type).allowed_to ≡ true)
unfolding check_route
check_route-allowed type f t h =
    let (from_fits, rest) = raise_if-eq-ok _ (Error.inventory_type_mismatch f.id) _ h in
    (not-false _ from_fits, ground arith)

post_transfer-Shifts :
    (by : ℕ) (schema : TransferRequest) (from to : ℕ) (db : Db) {db' : Db}
    → post_transfer by schema from to db ≡ ok db'
    → (p i : ℕ)
    → Shifts
        (db.stock_balances p i)
        (db'.stock_balances p i)
        (share to i (units p schema.items))
        (share from i (units p schema.items))
unfolding post_transfer
post_transfer-Shifts by schema from to db h p i =
    let (_, posted) = raise_if-eq-ok (any (λ l. l.quantity == 0) schema.items) _ _ h in
    insert_stock_transactions-Shifts db.next_id from to schema.items _ (as_shortage-eq-ok _ posted)
      p i

post_transfer-stored :
    (by : ℕ) (schema : TransferRequest) (from to : ℕ) (db : Db) {db' : Db}
    → post_transfer by schema from to db ≡ ok db'
    → db'.transfers ≡ db.transfers ++ completed by schema from to db.next_id ∷ []
unfolding post_transfer
post_transfer-stored by schema from to db h =
    let (_, posted) = raise_if-eq-ok (any (λ l. l.quantity == 0) schema.items) _ _ h in
    insert_stock_transactions-transfers db.next_id from to schema.items _
      (as_shortage-eq-ok _ posted)

transfer_between-Routed :
    (by : ℕ) (schema : TransferRequest) (from to : ℕ) (db : Db) {db' : Db}
    → IsSender schema.type schema.from_id db.inventories from
    → IsReceiver schema.type schema.to_id db.inventories to
    → (from == to) ≡ false
    → transfer_between by schema from to db ≡ ok db'
    → Routed by schema db db'
unfolding transfer_between
transfer_between-Routed by schema from to db meant_from meant_to differ h =
    let (f, from_found, h₁) = or_raise-eq-ok (find_inventory from db.inventories) _ _ h in
    let (t, to_found, h₂) = or_raise-eq-ok (find_inventory to db.inventories) _ _ h₁ in
    let (u, route, h₃) = >>=-eq-ok (check_route schema.type f t) _ h₂ in
    let (v, _, posted) = >>=-eq-ok (check_stock f schema.items db) _ h₃ in
    let fits = check_route-allowed schema.type f t route in
    let from_id : f.id ≡ from = find_inventory-id from db.inventories from_found in
    let to_id : t.id ≡ to = find_inventory-id to db.inventories to_found in
    record {
      sender = f;
      receiver = t;
      sender_found = rw from_id from_found;
      receiver_found = rw to_id to_found;
      sender_meant = rw from_id meant_from;
      receiver_meant = rw to_id meant_to;
      distinct = rw (from_id, to_id) differ;
      stored = rw (from_id, to_id) (post_transfer-stored by schema from to db posted);
      sender_allowed = fits.0;
      receiver_allowed = fits.1;
      shifts = λ p i. rw (from_id, to_id) (post_transfer-Shifts by schema from to db posted p i);
    }

-- An accepted transfer runs between two different inventories: from the one of the request, or the
-- only vendor of the system where goods enter the books, to the one of the request, or the only
-- loss inventory of the system for a write-off. Its route allows the types of both. It is stored as
-- completed with its ends, lines and reason, and shifts the balances of both ends by the lines of
-- the request, and no other balance.
pub create_transfer-Routed :
    (by : ℕ) (schema : TransferRequest) (scopes : Option (List Scope)) (db : Db) {db' : Db}
    → create_transfer by schema scopes db ≡ ok db'
    → Routed by schema db db'
unfolding create_transfer
create_transfer-Routed by schema scopes db h =
    let (_, h₁) = raise_if-eq-ok (is_adjustment schema.type && lacks_adjustment scopes) _ _ h in
    let ids = product_ids schema.items in
    let (_, h₂) =
      raise_if-eq-ok (not (is_empty (missing_ids ids (get_by_ids ids db.products)))) _ _ h₁ in
    let (from?, sends, h₃) = >>=-eq-ok (resolve_from schema db.inventories) _ h₂ in
    let (to?, receives, h₄) = >>=-eq-ok (resolve_to schema db.inventories) _ h₃ in
    let (from, some_from, h₅) = or_raise-eq-ok from? _ _ h₄ in
    let (to, some_to, h₆) = or_raise-eq-ok to? _ _ h₅ in
    let (differ, between) = raise_if-eq-ok (from == to) _ _ h₆ in
    transfer_between-Routed by schema from to db
      (resolve_from-IsSender schema db.inventories (rw some_from at sends))
      (resolve_to-IsReceiver schema db.inventories (rw some_to at receives)) differ between

adjuster : (r : Role) → has_scope Scope.logistics_adjustment (role_scopes r) ≡ true → r ≡ Role.admin
unfolding role_scopes
adjuster Role.admin h = refl
adjuster Role.system h = cc
adjuster Role.accountant h = cc
adjuster Role.storekeeper h = cc
adjuster Role.cashier h = cc
adjuster Role.courier h = cc
adjuster Role.client_b2c h = cc
adjuster Role.client_b2b h = cc

-- Where `create_transfer` accepts a write-off, a finding or a first balance under the scopes of a
-- role, the role is the administrator's. (The transfers that a checkout and a capitalization make
-- for a client do not go through `create_transfer`.)
pub create_transfer-by_admin :
    (by : ℕ) (schema : TransferRequest) (r : Role) (db : Db) {db' : Db}
    → is_adjustment schema.type ≡ true
    → create_transfer by schema (some (role_scopes r)) db ≡ ok db'
    → r ≡ Role.admin
unfolding create_transfer
create_transfer-by_admin by schema r db adjusts h =
    let (granted, _) =
      raise_if-eq-ok (is_adjustment schema.type && lacks_adjustment (some (role_scopes r))) _ _ h in
    adjuster r (not-false _ (rw adjusts at granted))
