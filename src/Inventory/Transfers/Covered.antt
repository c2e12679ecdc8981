-- ===== src/Inventory/Transfers/Covered.antt =====
-- The stock check of `create_transfer` is enough: the trigger of the ledger, which runs after it,
-- refuses nothing that the check lets through.
use munavvar_a.Prelude.{
  ℕ, Bool, true, false, not, ◌≡◌, ◌==◌, ◌+◌, refl, sym, subst, ◌∙◌, inl, inr, Bool-cases, ==_iff,
  find, none, some, List, [], ◌∷◌, ◌++◌, any, if◌then◌else◌, arith,
}
use munavvar_a.Prelude.Int.{ℤ, pos, ◌≤ℤ◌, ltb_ℤ}
use munavvar_a.Prelude.Keyed.{IsKeyed, has_key}
use munavvar_a.Store.{
  InventoryType, TransferStatus, Inventory, Line, StockTransfer, Db, Error, ok, raise_if,
  find_inventory, same_inventory_type,
}
use munavvar_a.Inventory.Ledger.{is_virtual, is_guarded, units}
use munavvar_a.Inventory.Ledger.Solvency.{IsSolvent}
use munavvar_a.Inventory.Transfers.{
  TransferRequest, check_route, requested_quantities, transfer_shortages, check_stock, as_shortage,
  post_transfer, transfer_between,
}
use munavvar_a.Inventory.Transfers.Laws.{find_inventory-id}
use munavvar_a.Orders.Dict.{get_or_zero, set_key, add_key}
use munavvar_a.Orders.Tara.{is_empty}
use munavvar_a.Inventory.Transfers.Posted.{rows_accepted, inventory_id, Covers, Receives}

get_or_zero-set_key :
    (p k v : ℕ) (d : List Line)
    → get_or_zero p (set_key k v d) ≡ (if k == p then v else get_or_zero p d)
unfolding get_or_zero set_key
get_or_zero-set_key p k v [] = refl
get_or_zero-set_key p k v (e ∷ d) = ground (arith, get_or_zero-set_key p k v d)

get_or_zero-add_key :
    (p k v : ℕ) (d : List Line)
    → get_or_zero p (add_key k v d) ≡ get_or_zero p d + (if k == p then v else 0)
unfolding add_key
get_or_zero-add_key p k v d = ground (arith, get_or_zero-set_key p k (get_or_zero k d + v) d)

-- The dict holds, for each product, the units that the lines ask for.
pub requested-units :
    (p : ℕ) (ls d : List Line)
    → get_or_zero p (requested_quantities ls d) ≡ get_or_zero p d + units p ls
unfolding requested_quantities
requested-units p [] d = omega arith
requested-units p (l ∷ ls) d = omega (
  arith,
  requested-units p ls (add_key l.product_id l.quantity d),
  get_or_zero-add_key p l.product_id l.quantity d,
)

enough : (a : ℤ) (q : ℕ) → ltb_ℤ a (pos q) ≡ false → pos q ≤ℤ a
enough a q h = ground arith

none_missing :
    (balances : ℕ → ℤ) (p : ℕ) (d : List Line)
    → is_empty (transfer_shortages balances d) ≡ true
    → pos 0 ≤ℤ balances p
    → pos (get_or_zero p d) ≤ℤ balances p
unfolding transfer_shortages get_or_zero
none_missing balances p [] h z = z
none_missing balances p (r ∷ rs) h z =
    elim (Bool-cases (ltb_ℤ (balances r.product_id) (pos r.quantity))) [
      | inl short ↦ cc (rw short at h)
      | inr fits ↦ elim (Bool-cases (r.product_id == p)) [
        | inl e ↦ rw (e, ← (==_iff r.product_id p).0 e) (enough _ _ fits)
        | inr e ↦ rw e (none_missing balances p rs (rw fits at h) z)
      ]
    ]

find_inventory-any :
    (k : ℕ) (is : List Inventory) {i : Inventory}
    → IsKeyed inventory_id is
    → find_inventory k is ≡ some i
    → find (has_key inventory_id k) is ≡ some i
find_inventory-any k [] u h = cc
find_inventory-any k (x ∷ xs) {i} u h = elim (Bool-cases (x.id == k)) [
  | inr e ↦ rw e (find_inventory-any k xs u.1 (rw e at h))
  | inl e ↦ elim (Bool-cases x.is_active) [
    | inl a ↦ ground arith
    | inr a ↦
        let p : x.id ≡ k = (==_iff x.id k).0 e in
        let absent : find (has_key inventory_id k) xs ≡ none = rw (← p) u.0 in
        let later : find (has_key inventory_id k) xs ≡ some i =
          find_inventory-any k xs u.1 (ground arith) in
        cc
  ]
]

vendor_unguarded :
    (k : ℕ) (db : Db) {f : Inventory}
    → IsKeyed inventory_id db.inventories
    → find_inventory k db.inventories ≡ some f
    → same_inventory_type f.type InventoryType.virtual_vendor ≡ true
    → is_guarded k db.inventories ≡ false
unfolding is_guarded
vendor_unguarded k db {f} u found v =
    rw (find_inventory-any k db.inventories u found, is_guarded) (of_type f.type v)
  where
    of_type :
        (t : InventoryType)
        → same_inventory_type t InventoryType.virtual_vendor ≡ true
        → not (is_virtual t) ≡ false
    of_type InventoryType.virtual_vendor h = refl
    of_type InventoryType.virtual_loss h = refl
    of_type InventoryType.warehouse h = cc
    of_type InventoryType.courier h = cc
    of_type InventoryType.client h = cc

not-false : (b : Bool) → not b ≡ false → b ≡ true
not-false b h = ground arith

raise_if-ok : (b : Bool) (e : Error) → raise_if b e ≡ ok tt → b ≡ false
raise_if-ok true e h = cc
raise_if-ok false e h = refl

check_stock-Covers :
    (k : ℕ) (items : List Line) (db : Db) {f : Inventory}
    → IsKeyed inventory_id db.inventories
    → IsSolvent db
    → find_inventory k db.inventories ≡ some f
    → check_stock f items db ≡ ok tt
    → Covers k items db
unfolding check_stock get_or_zero
check_stock-Covers k items db {f} u s found h g p =
    elim (Bool-cases (same_inventory_type f.type InventoryType.virtual_vendor)) [
      | inl v ↦ let shut = vendor_unguarded k db u found v in cc
      | inr v ↦
          let same : f.id ≡ k = find_inventory-id k db.inventories found in
          let at : find_inventory f.id db.inventories ≡ some f =
            subst (λ j. find_inventory j db.inventories ≡ some f) (sym same) found in
          let enough_stock = raise_if-ok _ _ (rw (v, at) at h) in
          let fits =
            none_missing (λ q. db.stock_balances q f.id) p (requested_quantities items [])
              (not-false _ enough_stock) (rw same (s p k g)) in
          let asked : get_or_zero p (requested_quantities items []) ≡ units p items =
            requested-units p items [] ∙ zero_left p items in
          rw (← asked, ← same) fits
    ]
  where
    zero_left : (p : ℕ) (ls : List Line) → get_or_zero p [] + units p ls ≡ units p ls
    zero_left p ls = omega arith

receiver-Receives : (to : ℕ) (db : Db) → IsSolvent db → Receives to db
receiver-Receives to db s g p = s p to g

-- In a store where inventory ids are unique and no guarded inventory is below zero, a transfer of
-- positive lines between two inventories that differ, whose types fit the route and whose stock
-- passes the check, is posted: the trigger of the ledger refuses none of its rows.
pub transfer_between_succeeds :
    (by : ℕ) (schema : TransferRequest) (from to : ℕ) (db : Db) {f t : Inventory}
    → IsKeyed inventory_id db.inventories
    → IsSolvent db
    → any (λ l. l.quantity == 0) schema.items ≡ false
    → (from == to) ≡ false
    → find_inventory from db.inventories ≡ some f
    → find_inventory to db.inventories ≡ some t
    → check_route schema.type f t ≡ ok tt
    → check_stock f schema.items db ≡ ok tt
    → (db' : Db) × (transfer_between by schema from to db ≡ ok db')
unfolding transfer_between post_transfer as_shortage
transfer_between_succeeds by schema from to db u s positive different ff ft route stock =
    let covered : Covers from schema.items db =
      check_stock-Covers from schema.items db u s ff stock in
    let transfer : StockTransfer = record {
      id = db.next_id;
      from_id = from;
      to_id = to;
      type = schema.type;
      status = TransferStatus.completed;
      created_by_id = by;
      accepted_by_id = by;
      order_id = none;
      reason = schema.reason;
      items = schema.items;
    } in
    let (db', done) =
      rows_accepted db.next_id from to different schema.items
        (record db { transfers = db.transfers ++ transfer ∷ []; next_id = db.next_id + 1 }) positive
        covered (receiver-Receives to db s) in
    (db', rw (ff, ft, route, stock, positive, done))
