-- ===== src/Orders/Quota/Balance.antt =====
-- The quota ledger: `contract_price_items.quantity_used` against the orders that hold a quota.
use munavvar_a.Prelude.{
  ℕ, Bool, true, false, ◌≡◌, refl, sym, ap, subst, ◌∙◌, inl, inr, ◌&&◌, ◌+◌, ◌≤◌, ◌==◌, Bool-cases,
  Option-cases, update_where_absent, ==_iff, some, List, [], ◌∷◌, find-test, sum_of, is_some,
  if◌then◌else◌, arith,
}
use munavvar_a.Prelude.Keyed.{
  IsKeyed, AllBelow, sum_of-update_where, update_where-IsKeyed, update_where-AllBelow,
  update_where-none,
}
use munavvar_a.Store.{
  OrderStatus, Order, OrderItem, Db, same_status, is_id, find_order, update_order,
}
use munavvar_a.Orders.Frame.{Frame}
use munavvar_a.Orders.Edit.{contract_of}
use munavvar_a.Orders.Quota.Counter.{used, IsPriceTable}

abbrev pub quantity_of : ℕ → List OrderItem → ℕ
quantity_of p = sum_of (λ i. if i.product_id == p then i.quantity else 0)

-- Does the order hold quota of the contract?
abbrev pub holds : ℕ → Order → Bool
holds c o = is_id c (contract_of o) && o.quantities_reserved

abbrev pub reserved_by : ℕ → ℕ → Order → ℕ
reserved_by c p o = if holds c o then quantity_of p o.items else 0

-- What the orders hold of a product in a contract.
abbrev pub reserved : ℕ → ℕ → List Order → ℕ
reserved c p = sum_of (reserved_by c p)

abbrev pub order_id : Order → ℕ
order_id o = o.id

abbrev pub item_id : OrderItem → ℕ
item_id i = i.id

-- The lines of an order have ids of their own below the next id, and an order on a contract that
-- is not cancelled holds its quota. Only an order that is paid by contract holds quota.
pub record IsSound (n : ℕ) (o : Order) : Type 0 where
  pub item_ids : IsKeyed item_id o.items
  pub items_below : AllBelow item_id n o.items
  pub held :
      same_status o.status OrderStatus.cancelled ≡ false
      → is_some (contract_of o) ≡ true
      → o.quantities_reserved ≡ true
  pub tied : o.quantities_reserved ≡ true → contract_of o ≡ o.contract_id

-- An order with a contract to its name is paid by contract.
pub contract_of-tied : (o : Order) → is_some (contract_of o) ≡ true → contract_of o ≡ o.contract_id
unfolding contract_of
contract_of-tied o h = ground arith

abbrev pub AllSound : ℕ → List Order → Type 0
AllSound n [] = Unit
AllSound n (o ∷ os) = IsSound n o × AllSound n os

-- The ledger balances: every counter is what the orders hold.
pub record IsBalanced (db : Db) : Type 0 where
  pub prices : IsPriceTable db.price_items
  pub keyed : IsKeyed order_id db.orders
  pub below : AllBelow order_id db.next_id db.orders
  pub sound : AllSound db.next_id db.orders
  pub balance : (c p : ℕ) → used c p db.price_items ≡ reserved c p db.orders

pub AllBelow-mono {ℓ} :
    {A : Type ℓ} (key : A → ℕ) {m n : ℕ} (xs : List A)
    → m ≤ n
    → AllBelow key m xs
    → AllBelow key n xs
AllBelow-mono key [] le h = tt
AllBelow-mono key (x ∷ xs) le h = (omega arith, AllBelow-mono key xs le h.1)

pub IsSound-mono : {m n : ℕ} {o : Order} → m ≤ n → IsSound m o → IsSound n o
IsSound-mono {o = o} le h = record {
  item_ids = h.item_ids;
  items_below = AllBelow-mono item_id o.items le h.items_below;
  held = h.held;
  tied = h.tied;
}

pub AllSound-mono : {m n : ℕ} (os : List Order) → m ≤ n → AllSound m os → AllSound n os
AllSound-mono [] le h = tt
AllSound-mono (o ∷ os) le h = (IsSound-mono {o = o} le h.0, AllSound-mono os le h.1)

pub AllSound-find :
    (n k : ℕ) (os : List Order) {o : Order} → AllSound n os → find_order k os ≡ some o → IsSound n o
AllSound-find n k [] h found = cc
AllSound-find n k (x ∷ xs) {o} h found = elim (Bool-cases (x.id == k)) [
  | inl e ↦ subst (IsSound n) (ground arith) h.0
  | inr e ↦ AllSound-find n k xs h.1 (rw e at found)
]

AllSound-update :
    (m n k : ℕ) (f : Order → Order) (os : List Order) {o : Order}
    → m ≤ n
    → IsKeyed order_id os
    → AllSound m os
    → find_order k os ≡ some o
    → IsSound n (f o)
    → AllSound n (update_order k f os)
AllSound-update m n k f [] le u h found new = cc
AllSound-update m n k f (x ∷ xs) {o} le u h found new = elim (Bool-cases (x.id == k)) [
  | inl e ↦
      let p : x.id ≡ k = (==_iff x.id k).0 e in
      let q : x ≡ o = ground arith in
      rw (e, update_where-none order_id k f xs (rw p at u.0))
        (subst (λ y. IsSound n (f y)) (sym q) new, AllSound-mono xs le h.1)
  | inr e ↦
      rw e (IsSound-mono {o = x} le h.0, AllSound-update m n k f xs le u.1 h.1 (rw e at found) new)
]

-- A call that changes one order and the counters keeps the balance when both change alike.
pub IsBalanced-update :
    (k : ℕ) (f : Order → Order) (db db' : Db) {o : Order}
    → IsBalanced db
    → find_order k db.orders ≡ some o
    → ((x : Order) → (f x).id ≡ x.id)
    → db.next_id ≤ db'.next_id
    → IsSound db'.next_id (f o)
    → db'.orders ≡ update_order k f db.orders
    → IsPriceTable db'.price_items
    → ((c p : ℕ)
        → used c p db'.price_items + reserved_by c p o
          ≡ used c p db.price_items + reserved_by c p (f o))
    → IsBalanced db'
IsBalanced-update k f db db' {o} b found same le new e prices alike = record {
  prices = prices;
  keyed = rw e (update_where-IsKeyed order_id k f db.orders same b.keyed);
  below = rw e (
      AllBelow-mono order_id (update_order k f db.orders) le
        (update_where-AllBelow order_id db.next_id k f db.orders same b.below));
  sound = rw e (AllSound-update db.next_id db'.next_id k f db.orders le b.keyed b.sound found new);
  balance = λ c p. rw e (
      omega (
        arith,
        b.balance c p,
        alike c p,
        sum_of-update_where order_id (reserved_by c p) k f db.orders b.keyed found,
      ));
}

-- A call outside the quota ledger keeps the balance.
pub IsBalanced-Frame : {db db' : Db} → Frame db db' → IsBalanced db → IsBalanced db'
IsBalanced-Frame {db} {db'} f b = record {
  prices = rw f.price_items b.prices;
  keyed = rw f.orders b.keyed;
  below = rw f.orders (AllBelow-mono order_id db.orders f.next_id b.below);
  sound = rw f.orders (AllSound-mono db.orders f.next_id b.sound);
  balance = λ c p. rw (f.orders, f.price_items) (b.balance c p);
}

pub find_order-id : (k : ℕ) (os : List Order) {o : Order} → find_order k os ≡ some o → o.id ≡ k
find_order-id k os found = (==_iff _ k).0 (find-test (λ o. o.id == k) os found)

-- A change that the quota ledger does not read.
pub record IsBystander (f : Order → Order) : Type 0 where
  pub id : (x : Order) → (f x).id ≡ x.id
  pub items : (x : Order) → (f x).items ≡ x.items
  pub contract : (x : Order) → contract_of (f x) ≡ contract_of x
  pub flag : (x : Order) → (f x).quantities_reserved ≡ x.quantities_reserved
  pub place : (x : Order) → (f x).contract_id ≡ x.contract_id

bystander-IsSound :
    (n : ℕ) (f : Order → Order) (o : Order)
    → IsBystander f
    → (same_status (f o).status OrderStatus.cancelled ≡ false
        → same_status o.status OrderStatus.cancelled ≡ false)
    → IsSound n o
    → IsSound n (f o)
bystander-IsSound n f o y stays s = record {
  item_ids = rw (y.items o) s.item_ids;
  items_below = rw (y.items o) s.items_below;
  held = λ live_after has.
      y.flag o ∙ s.held (stays live_after) (ap is_some (sym (y.contract o)) ∙ has);
  tied = λ flagged. y.contract o ∙ s.tied (sym (y.flag o) ∙ flagged) ∙ sym (y.place o);
}

bystander_holds :
    (c p : ℕ) (f : Order → Order) (o : Order)
    → IsBystander f
    → reserved_by c p (f o) ≡ reserved_by c p o
bystander_holds c p f o y = rw (y.contract o, y.flag o, y.items o)

-- A change of one order that neither reopens it nor touches its quota.
pub IsBalanced-bystander :
    (k : ℕ) (f : Order → Order) (db : Db)
    → IsBystander f
    → ((o : Order)
        → find_order k db.orders ≡ some o
        → same_status (f o).status OrderStatus.cancelled ≡ false
        → same_status o.status OrderStatus.cancelled ≡ false)
    → IsBalanced db
    → IsBalanced (record db { orders = update_order k f db.orders })
IsBalanced-bystander k f db y live b = elim (Option-cases (find_order k db.orders)) [
  | inl e ↦ rw (update_where_absent (λ o. o.id == k) f db.orders e) b
  | inr (o, found) ↦
      IsBalanced-update k f db _ b found y.id (omega arith)
        (bystander-IsSound db.next_id f o y (live o found)
          (AllSound-find db.next_id k db.orders b.sound found))
        refl b.prices (λ c p. omega (arith, bystander_holds c p f o y))
]
