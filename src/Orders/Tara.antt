-- ===== src/Orders/Tara.antt =====
-- Returnable containers: the shortages that block an order, their capitalization, and the
-- containers that travel with delivered goods.
use munavvar_a.Prelude.{
  ℕ, Bool, true, false, not, ◌&&◌, ◌==◌, ltb, Option, none, some, List, [], ◌∷◌, map, find,
  if◌then◌else◌,
}
use munavvar_a.Prelude.Int.{ℤ, pos, pos_part, ltb_ℤ, ◌+ℤ◌, ◌-ℤ◌}
use munavvar_a.Store.{
  InventoryType, TransferType, Line, Product, OrderItem, Shortage, Db, Error, Result, ok, ◌>>=◌,
  ◌>>◌, raise_if, or_raise, find_inventory, get_system_inventory,
}
use munavvar_a.Inventory.Ledger.{create_stock_transfer}
use munavvar_a.Orders.Cart.{product_ids, get_by_ids}
use munavvar_a.Orders.Dict.{add_key, last_quantity}

abbrev pub is_empty {ℓ} : {A : Type ℓ} → List A → Bool
is_empty [] = true
is_empty (x ∷ xs) = false

-- A product with a returnable container, and the line that orders it.
pub record Exchange : Type 0 where
  pub product_id : ℕ
  pub tare_id : ℕ
  pub quantity : ℕ

-- `exchange_items`: a product of the cart with its (first) line.
unfoldable pub exchange_items : List Product → List Line → List Exchange
exchange_items [] items = []
exchange_items (p ∷ ps) items =
    let rest = exchange_items ps items in
    elim p.returnable_item_id [
      | none ↦ rest
      | some tare ↦ elim (find (λ l. l.product_id == p.id) items) [
        | none ↦ rest
        | some l ↦ record { product_id = p.id; tare_id = tare; quantity = l.quantity } ∷ rest
      ]
    ]

unfoldable pub ordering_now : ℕ → List Line → ℕ
ordering_now k items = elim (last_quantity k items) [ some q ↦ q | none ↦ 0 ]

-- The loop over `exchange_items`; `ordered` is the cart, or nothing for the check beforehand.
unfoldable pub shortages : (ℕ → ℤ) → List Line → List Exchange → List Shortage
shortages balances ordered [] = []
shortages balances ordered (e ∷ es) =
    let available = balances e.tare_id +ℤ pos (ordering_now e.tare_id ordered) in
    let rest = shortages balances ordered es in
    if ltb_ℤ available (pos e.quantity)
    then record {
      product_id = e.product_id;
      returnable_item_id = e.tare_id;
      required = e.quantity;
      available = available;
      deficit = pos_part (pos e.quantity -ℤ available);
    }
      ∷ rest
    else rest

unfoldable pub deficit_lines : List Shortage → List Line
deficit_lines = map (λ s. record { product_id = s.returnable_item_id; quantity = s.deficit })

-- The block `if exchange_items:` of both checkouts: does the client hold the containers, and if
-- not, may the deficit be capitalized from the vendor? The Boolean is `capitalization_applied`.
unfoldable pub settle_tara : List Exchange → List Line → ℕ → Bool → ℕ → Db → Result (Bool × Db)
settle_tara exchanges items inventory_id capitalize by db =
    if is_empty exchanges then ok (false, db) else do
      inventory ←
          or_raise (find_inventory inventory_id db.inventories) Error.client_inventory_not_found
      let missing = shortages (λ k. db.stock_balances k inventory.id) items exchanges
      raise_if (not (is_empty missing) && not capitalize) (Error.insufficient_tara missing)
      if is_empty missing then ok (false, db) else do
        vendor_inv ← get_system_inventory InventoryType.virtual_vendor db.inventories
        db' ←
            create_stock_transfer vendor_inv.id inventory.id TransferType.initial_balance
              (deficit_lines missing) by (some by) none none db
        ok (true, db')

-- `client_id is not None and inventory.user_id != client_id`
abbrev pub is_other_user : ℕ → Option ℕ → Bool
is_other_user user none = false
is_other_user user (some c) = not (user == c)

-- `check_tara_availability`: the shortages without what the cart itself orders.
unfoldable pub check_tara_availability : List Line → ℕ → Option ℕ → Db → Result (List Shortage)
check_tara_availability items inventory_id client_id db =
    let exchanges = exchange_items (get_by_ids (product_ids items) db.products) items in
    if is_empty exchanges then ok [] else do
      inventory ←
          or_raise (find_inventory inventory_id db.inventories) Error.client_inventory_not_found
      raise_if (is_other_user inventory.user_id client_id) Error.inventory_access_denied
      ok (shortages (λ k. db.stock_balances k inventory.id) [] exchanges)

-- `item.product.returnable_item_id`
unfoldable pub returnable_of : ℕ → List Product → Option ℕ
returnable_of k products = elim (find (λ p. p.id == k) products) [
  | none ↦ none
  | some p ↦ p.returnable_item_id
]

-- The dict that `_build_returnable_items` fills.
unfoldable pub collect_returnable : List Product → List OrderItem → List Line → List Line
collect_returnable products [] d = d
collect_returnable products (i ∷ is) d =
    collect_returnable products is (elim (returnable_of i.product_id products) [
      | none ↦ d
      | some tare ↦ if ltb 0 i.quantity then add_key tare i.quantity d else d
    ])

-- `_build_returnable_items`
unfoldable pub build_returnable_items : List Product → List OrderItem → List Line
build_returnable_items products items = collect_returnable products items []
