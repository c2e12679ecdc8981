-- ===== src/Inventory/Capitalize/Laws.antt =====
-- Capitalization of a deficit against the container check of a checkout.
use munavvar_a.Prelude.{
  ℕ, true, false, not, ◌≡◌, ◌==◌, subst, inl, inr, Bool-cases, Option, some, List, [], ◌∷◌,
  if◌then◌else◌, arith,
}
use munavvar_a.Prelude.Int.{ℤ, pos, ltb_ℤ}
use munavvar_a.Prelude.Keyed.{IsKeyed}
use munavvar_a.Store.{
  InventoryType, Inventory, Line, Db, ok, raise_if-eq-ok, or_raise-eq-ok, ok-injective,
  find_inventory, find_inventory_of,
}
use munavvar_a.Inventory.Transfers.Posted.{inventory_id}
use munavvar_a.Inventory.Capitalize.{
  Capitalized, post_initial_balance, items_to_capitalize, nothing_capitalized, capitalize_deficit,
}
use munavvar_a.Orders.Cart.{product_ids, get_by_ids}
use munavvar_a.Orders.Tara.{Exchange, exchange_items, is_empty, check_tara_availability}
use munavvar_a.Inventory.Capitalize.Grown.{
  AllCovered, fits-covers, items_to_capitalize-covers, shortages-none, post_initial_balance-Grown,
  find_inventory_of-find_inventory,
}

-- The check on a store where the client's inventory holds what the cart asks for.
check-none :
    (items : List Line) (k c : ℕ) (db : Db) {i : Inventory}
    → find_inventory k db.inventories ≡ some i
    → not (i.user_id == c) ≡ false
    → AllCovered
        (λ p. db.stock_balances p i.id)
        (exchange_items (get_by_ids (product_ids items) db.products) items)
    → check_tara_availability items k (some c) db ≡ ok []
unfolding check_tara_availability
check-none items k c db {i} found own covered =
    elim (Bool-cases
      (is_empty (exchange_items (get_by_ids (product_ids items) db.products) items))) [
        | inl e ↦ rw e
        | inr e ↦ rw (e, found, own, shortages-none (λ p. db.stock_balances p i.id) _ covered)
      ]

nothing_to_capitalize :
    (b : ℕ → ℤ) (es : List Exchange) → is_empty (items_to_capitalize b es) ≡ true → AllCovered b es
unfolding items_to_capitalize
nothing_to_capitalize b [] h = tt
nothing_to_capitalize b (e ∷ es) h = elim (Bool-cases (ltb_ℤ (b e.tare_id) (pos e.quantity))) [
  | inl short ↦ cc (rw short at h)
  | inr fits ↦ (
    fits-covers (b e.tare_id) (b e.tare_id) e.quantity 0 fits (omega arith),
    nothing_to_capitalize b es (rw fits at h),
  )
]

-- A cart without containers passes the check on any store.
no_exchange :
    (items : List Line) (k : ℕ) (c : Option ℕ) (db : Db)
    → is_empty (exchange_items (get_by_ids (product_ids items) db.products) items) ≡ true
    → check_tara_availability items k c db ≡ ok []
unfolding check_tara_availability
no_exchange items k c db e = rw e

exchange_capitalized :
    (items : List Line) (k c : ℕ) (db : Db) {i : Inventory} {r : Capitalized}
    → find_inventory k db.inventories ≡ some i
    → not (i.user_id == c) ≡ false
    → (if is_empty (
          items_to_capitalize
            (λ p. db.stock_balances p i.id)
            (exchange_items (get_by_ids (product_ids items) db.products) items))
        then ok (nothing_capitalized db)
        else post_initial_balance i.id
            (items_to_capitalize
              (λ p. db.stock_balances p i.id)
              (exchange_items (get_by_ids (product_ids items) db.products) items))
            c
            db)
      ≡ ok r
    → check_tara_availability items k (some c) r.db ≡ ok []
exchange_capitalized items k c db {i} {r} found own h =
    let es = exchange_items (get_by_ids (product_ids items) db.products) items in
    elim (Bool-cases (is_empty (items_to_capitalize (λ p. db.stock_balances p i.id) es))) [
      | inl e ↦
          subst (λ x. check_tara_availability items k (some c) x.db ≡ ok [])
            (ok-injective (rw e at h))
            (check-none items k c db found own
              (nothing_to_capitalize (λ p. db.stock_balances p i.id) es e))
      | inr e ↦
          let (catalog, places, grown) = post_initial_balance-Grown i.id _ c db (rw e at h) in
          let there : find_inventory k r.db.inventories ≡ some i = rw places found in
          check-none items k c r.db there own (
            rw catalog (
              items_to_capitalize-covers (λ p. db.stock_balances p i.id)
                (λ p. r.db.stock_balances p i.id) es grown))
    ]

-- In a store where inventory ids are unique, after a client has capitalized the deficit of a cart
-- the container check of that cart, made for that client and inventory, finds no shortage.
pub capitalize_deficit-covers :
    (items : List Line) (k c : ℕ) (db : Db) {r : Capitalized}
    → IsKeyed inventory_id db.inventories
    → capitalize_deficit items k c db ≡ ok r
    → check_tara_availability items k (some c) r.db ≡ ok []
unfolding capitalize_deficit
capitalize_deficit-covers items k c db {r} u h =
    elim (Bool-cases
      (is_empty (exchange_items (get_by_ids (product_ids items) db.products) items))) [
        | inl e ↦
            subst (λ x. check_tara_availability items k (some c) x.db ≡ ok [])
              (ok-injective (rw e at h)) (no_exchange items k (some c) db e)
        | inr e ↦
            let (i, found, h₁) =
              or_raise-eq-ok (find_inventory_of InventoryType.client k db.inventories) _ _
                (rw e at h) in
            let (own, h₂) = raise_if-eq-ok (not (i.user_id == c)) _ _ h₁ in
            exchange_capitalized items k c db
              (find_inventory_of-find_inventory InventoryType.client k db.inventories u found) own
              h₂
      ]
