-- ===== src/Inventory/Capitalize/Grown.antt =====
-- Balances that grow by a capitalization cover what it was made for.
use munavvar_a.Prelude.{
  ℕ, true, false, ◌≡◌, ◌==◌, ◌+◌, ◌≤◌, refl, inl, inr, Bool-cases, ==_iff, find, none, some, List,
  [], ◌∷◌, arith, ◌&&◌, find-test,
}
use munavvar_a.Prelude.Int.{ℤ, pos, pos_part, neg_part, ltb_ℤ, ◌+ℤ◌, ◌-ℤ◌, ◌≤ℤ◌, int_laws}
use munavvar_a.Prelude.Keyed.{IsKeyed, has_key}
use munavvar_a.Store.{
  InventoryType, Inventory, Line, Db, ok, >>=-eq-ok, raise_if-eq-ok, ok-injective, find_inventory,
  find_inventory_of, same_inventory_type, get_system_inventory,
}
use munavvar_a.Inventory.Ledger.{insert_stock_transactions, units}
use munavvar_a.Inventory.Ledger.Laws.{
  insert_stock_transaction-Inserted, insert_stock_transactions-Shifts,
}
use munavvar_a.Inventory.Transfers.Posted.{inventory_id, share_self, share_other}
use munavvar_a.Inventory.Capitalize.{Capitalized, post_initial_balance, items_to_capitalize}
use munavvar_a.Orders.Tara.{Exchange, ordering_now, shortages}
use munavvar_a.Orders.Dict.{last_quantity}

-- Every container that a line asks for is there.
abbrev pub AllCovered : (ℕ → ℤ) → List Exchange → Type 0
AllCovered balances [] = Unit
AllCovered balances (e ∷ es) = (pos e.quantity ≤ℤ balances e.tare_id) × AllCovered balances es

-- The balances grew by the lines at least.
abbrev Grown : (ℕ → ℤ) → (ℕ → ℤ) → List Line → Type 0
Grown b b' ls =
    (k : ℕ) → neg_part (b' k) + pos_part (b k) + units k ls ≤ pos_part (b' k) + neg_part (b k)

Grown-tail : (b b' : ℕ → ℤ) (l : Line) (ls : List Line) → Grown b b' (l ∷ ls) → Grown b b' ls
Grown-tail b b' l ls g k = omega (arith, g k)

deficit-covers :
    (a c : ℤ) (q u : ℕ)
    → neg_part c + pos_part a + (pos_part (pos q -ℤ a) + u) ≤ pos_part c + neg_part a
    → pos q ≤ℤ c
deficit-covers a c q u h = omega (int_laws, h)

pub fits-covers :
    (a c : ℤ) (q u : ℕ)
    → ltb_ℤ a (pos q) ≡ false
    → neg_part c + pos_part a + u ≤ pos_part c + neg_part a
    → pos q ≤ℤ c
fits-covers a c q u h g = ground arith

own_units :
    (k q : ℕ) (ls : List Line)
    → units k (record { product_id = k; quantity = q } ∷ ls) ≡ q + units k ls
own_units k q ls = ground arith

pub items_to_capitalize-covers :
    (b b' : ℕ → ℤ) (es : List Exchange) → Grown b b' (items_to_capitalize b es) → AllCovered b' es
unfolding items_to_capitalize
items_to_capitalize-covers b b' [] g = tt
items_to_capitalize-covers b b' (e ∷ es) g =
    elim (Bool-cases (ltb_ℤ (b e.tare_id) (pos e.quantity))) [
      | inl short ↦
          let lacks : Line = record {
            product_id = e.tare_id;
            quantity = pos_part (pos e.quantity -ℤ b e.tare_id);
          } in
          let more : Grown b b' (lacks ∷ items_to_capitalize b es) = rw short at g in
          (
            deficit-covers (b e.tare_id) (b' e.tare_id) e.quantity
                (units e.tare_id (items_to_capitalize b es))
                (rw (← own_units e.tare_id lacks.quantity (items_to_capitalize b es))
                  (more e.tare_id)),
            items_to_capitalize-covers b b' es
                (Grown-tail b b' lacks (items_to_capitalize b es) more),
          )
      | inr fits ↦
          let more : Grown b b' (items_to_capitalize b es) = rw fits at g in
          (
            fits-covers (b e.tare_id) (b' e.tare_id) e.quantity
                (units e.tare_id (items_to_capitalize b es)) fits (more e.tare_id),
            items_to_capitalize-covers b b' es more,
          )
    ]

not_short : (a : ℤ) (q : ℕ) → pos q ≤ℤ a → ltb_ℤ (a +ℤ pos 0) (pos q) ≡ false
unfolding ◌+ℤ◌
not_short a q h = ground arith

-- Where every container is there, the check finds no shortage.
pub shortages-none : (b : ℕ → ℤ) (es : List Exchange) → AllCovered b es → shortages b [] es ≡ []
unfolding shortages ordering_now last_quantity
shortages-none b [] c = refl
shortages-none b (e ∷ es) c = rw (not_short (b e.tare_id) e.quantity c.0) (shortages-none b es c.1)

insert_stock_transactions-kept :
    (n from to : ℕ) (ls : List Line) (db : Db) {db' : Db}
    → insert_stock_transactions n from to ls db ≡ ok db'
    → (db'.products ≡ db.products) × (db'.inventories ≡ db.inventories)
unfolding insert_stock_transactions
insert_stock_transactions-kept n from to [] db h = rw (← ok-injective h) (refl, refl)
insert_stock_transactions-kept n from to (l ∷ ls) db h =
    let (mid, first, rest) = >>=-eq-ok _ _ h in
    let later = insert_stock_transactions-kept n from to ls mid rest in
    rw (later.0, later.1, (insert_stock_transaction-Inserted _ db first).stored) (refl, refl)

-- A capitalization as the check sees it: the same catalog, and balances that grew by its lines.
pub post_initial_balance-Grown :
    (k : ℕ) (items : List Line) (by : ℕ) (db : Db) {r : Capitalized}
    → post_initial_balance k items by db ≡ ok r
    → (r.db.products ≡ db.products)
      × (r.db.inventories ≡ db.inventories)
      × Grown (λ p. db.stock_balances p k) (λ p. r.db.stock_balances p k) items
unfolding post_initial_balance
post_initial_balance-Grown k items by db h =
    let (vendor, _, h₁) =
      >>=-eq-ok (get_system_inventory InventoryType.virtual_vendor db.inventories) _ h in
    let (different, h₂) = raise_if-eq-ok (vendor.id == k) _ _ h₁ in
    let (db', inserted, h₃) = >>=-eq-ok _ _ h₂ in
    let kept = insert_stock_transactions-kept db.next_id vendor.id k items _ inserted in
    rw (← ok-injective h₃) (
      kept.0,
      kept.1,
      λ p. omega (
        arith,
        insert_stock_transactions-Shifts db.next_id vendor.id k items _ inserted p k,
        share_self k (units p items),
        share_other vendor.id k (units p items) different,
      ),
    )

find_inventory_of-any :
    (t : InventoryType) (k : ℕ) (is : List Inventory) {i : Inventory}
    → IsKeyed inventory_id is
    → find_inventory_of t k is ≡ some i
    → find (has_key inventory_id k) is ≡ some i
find_inventory_of-any t k [] u h = cc
find_inventory_of-any t k (x ∷ xs) {i} u h = elim (Bool-cases (x.id == k)) [
  | inr e ↦ rw e (find_inventory_of-any t k xs u.1 (rw e at h))
  | inl e ↦ elim (Bool-cases (x.is_active && same_inventory_type x.type t)) [
    | inl a ↦ ground arith
    | inr a ↦
        let p : x.id ≡ k = (==_iff x.id k).0 e in
        let absent : find (has_key inventory_id k) xs ≡ none = rw (← p) u.0 in
        let later : find (has_key inventory_id k) xs ≡ some i =
          find_inventory_of-any t k xs u.1 (ground arith) in
        cc
  ]
]

find_inventory_first :
    (k : ℕ) (is : List Inventory) {i : Inventory}
    → find (has_key inventory_id k) is ≡ some i
    → i.is_active ≡ true
    → find_inventory k is ≡ some i
find_inventory_first k [] h a = cc
find_inventory_first k (x ∷ xs) {i} h a = elim (Bool-cases (x.id == k)) [
  | inl e ↦ ground arith
  | inr e ↦ rw e (find_inventory_first k xs (rw e at h) a)
]

pub find_inventory_of-find_inventory :
    (t : InventoryType) (k : ℕ) (is : List Inventory) {i : Inventory}
    → IsKeyed inventory_id is
    → find_inventory_of t k is ≡ some i
    → find_inventory k is ≡ some i
find_inventory_of-find_inventory t k is {i} u h =
    let passes = find-test (λ j. j.id == k && j.is_active && same_inventory_type j.type t) is h in
    find_inventory_first k is (find_inventory_of-any t k is u h) (ground arith)
