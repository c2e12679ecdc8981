-- ===== src/Examples/Transfers.antt =====
-- Transfers between inventories, on the small store with its virtual inventories.
use munavvar_a.Prelude.{true, ◌≡◌, refl, some, none, List, [], ◌∷◌, ◌++◌, arith}
use munavvar_a.Prelude.Int.{◌+ℤ◌, ◌-ℤ◌}
use munavvar_a.Prelude.Book.{move}
use munavvar_a.Prelude.Keyed.{IsKeyed}
use munavvar_a.Store.{
  InventoryType, TransferType, Role, Line, Db, ok, committed, get_system_inventory,
}
use munavvar_a.Access.{base_scopes, role_scopes}
use munavvar_a.Inventory.Ledger.{
  insert_stock_transactions, insert_stock_transaction, post_stock, went_negative, is_guarded,
}
use munavvar_a.Inventory.Ledger.Solvency.{IsSolvent}
use munavvar_a.Inventory.Transfers.{
  TransferRequest, valid_routes, resolve_from, resolve_to, check_route, requested_quantities,
  transfer_shortages, check_stock, as_shortage, post_transfer, transfer_between, create_transfer,
}
use munavvar_a.Inventory.Transfers.Laws.{Routed, create_transfer-Routed, create_transfer-by_admin}
use munavvar_a.Inventory.Transfers.Covered.{transfer_between_succeeds}
use munavvar_a.Inventory.Transfers.Posted.{inventory_id}
use munavvar_a.Inventory.Capitalize.{
  Capitalized, post_initial_balance, items_to_capitalize, nothing_capitalized, capitalize_deficit,
}
use munavvar_a.Inventory.Capitalize.Laws.{capitalize_deficit-covers}
use munavvar_a.Orders.Cart.{product_ids, get_by_ids, missing_ids}
use munavvar_a.Orders.Dict.{add_key, set_key, get_or_zero}
use munavvar_a.Orders.Tara.{check_tara_availability, exchange_items}
use munavvar_a.Examples.Sample.{store, inventory_rows}

-- Water bottles (7) come in containers (8).
abbrev depot : Db
depot = record store {
  inventories =
      inventory_rows
      ++ (record { id = 22; user_id = 0; type = InventoryType.virtual_vendor; is_active = true }
          ∷ record { id = 23; user_id = 0; type = InventoryType.virtual_loss; is_active = true }
          ∷ []);
  products =
      record { id = 7; price = 120; returnable_item_id = some 8; is_active = true }
      ∷ record { id = 8; price = 50; returnable_item_id = none; is_active = true }
      ∷ [];
}

abbrev two_bottles : List Line
two_bottles = record { product_id = 7; quantity = 2 } ∷ []

abbrev hand_over : TransferRequest
hand_over = record {
  type = TransferType.client_delivery;
  from_id = some 21;
  to_id = some 20;
  items = two_bottles;
  reason = none;
}

abbrev moved : Db
moved = committed (create_transfer 1 hand_over (some (role_scopes Role.storekeeper)) depot) depot

moved_stored : create_transfer 1 hand_over (some (role_scopes Role.storekeeper)) depot ≡ ok moved
unfolding create_transfer resolve_from resolve_to valid_routes check_route check_stock
    requested_quantities transfer_shortages post_transfer transfer_between as_shortage
    insert_stock_transactions insert_stock_transaction post_stock went_negative is_guarded move ◌+ℤ◌
    ◌-ℤ◌ role_scopes base_scopes add_key set_key get_or_zero missing_ids get_by_ids product_ids
moved_stored = refl

create_transfer-Routed_example : Routed 1 hand_over depot moved
create_transfer-Routed_example =
    create_transfer-Routed 1 hand_over (some (role_scopes Role.storekeeper)) depot moved_stored

abbrev write_off : TransferRequest
write_off = record {
  type = TransferType.loss_write_off;
  from_id = some 21;
  to_id = none;
  items = two_bottles;
  reason = some "broken";
}

abbrev written_off : Db
written_off = committed (create_transfer 1 write_off (some (role_scopes Role.admin)) depot) depot

write_off_stored :
    create_transfer 1 write_off (some (role_scopes Role.admin)) depot ≡ ok written_off
unfolding create_transfer resolve_from resolve_to valid_routes check_route check_stock
    requested_quantities transfer_shortages post_transfer transfer_between as_shortage
    insert_stock_transactions insert_stock_transaction post_stock went_negative is_guarded move ◌+ℤ◌
    ◌-ℤ◌ role_scopes base_scopes add_key set_key get_or_zero missing_ids get_by_ids product_ids
    get_system_inventory
write_off_stored = refl

create_transfer-by_admin_example : Role.admin ≡ Role.admin
create_transfer-by_admin_example =
    create_transfer-by_admin 1 write_off Role.admin depot refl write_off_stored

depot-IsKeyed : IsKeyed inventory_id depot.inventories
depot-IsKeyed = (refl, (refl, (refl, (refl, tt))))

depot-IsSolvent : IsSolvent depot
depot-IsSolvent p i h = ground arith

bottles_there :
    check_stock
      (record { id = 21; user_id = 6; type = InventoryType.courier; is_active = true })
      two_bottles
      depot
    ≡ ok tt
unfolding check_stock requested_quantities transfer_shortages add_key set_key get_or_zero
bottles_there = refl

route_fits :
    check_route TransferType.client_delivery
      (record { id = 21; user_id = 6; type = InventoryType.courier; is_active = true })
      (record { id = 20; user_id = 5; type = InventoryType.client; is_active = true })
    ≡ ok tt
unfolding check_route valid_routes
route_fits = refl

transfer_between_succeeds_example : (db' : Db) × (transfer_between 1 hand_over 21 20 depot ≡ ok db')
transfer_between_succeeds_example =
    transfer_between_succeeds 1 hand_over 21 20 depot depot-IsKeyed depot-IsSolvent refl refl refl
      refl route_fits bottles_there

abbrev capitalized : Capitalized
capitalized = elim (capitalize_deficit two_bottles 20 5 depot) [
  | ok r ↦ r
  | _ ↦ nothing_capitalized depot
]

capitalized_stored : capitalize_deficit two_bottles 20 5 depot ≡ ok capitalized
unfolding capitalize_deficit post_initial_balance items_to_capitalize exchange_items get_by_ids
    product_ids get_system_inventory insert_stock_transactions insert_stock_transaction post_stock
    went_negative is_guarded move ◌+ℤ◌ ◌-ℤ◌
capitalized_stored = refl

capitalize_deficit-covers_example :
    check_tara_availability two_bottles 20 (some 5) capitalized.db ≡ ok []
capitalize_deficit-covers_example =
    capitalize_deficit-covers two_bottles 20 5 depot depot-IsKeyed capitalized_stored
