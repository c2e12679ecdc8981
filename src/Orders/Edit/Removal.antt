-- ===== src/Orders/Edit/Removal.antt =====
-- The quota ledger under `remove_product_from_order`.
use munavvar_a.Prelude.{
  ℕ, Bool, true, false, not, ◌≡◌, refl, sym, ap, subst, ◌∙◌, ◌&&◌, ◌+◌, ◌-◌, ◌≤◌, ◌==◌, leb, Option,
  none, some, [], ◌∷◌, find-le, length, is_some, if◌then◌else◌, arith,
}
use munavvar_a.Prelude.Keyed.{find-key, keep-IsKeyed, keep-AllBelow}
use munavvar_a.Store.{
  OrderStatus, Order, OrderItem, Db, ok, same_status, >>=-eq-ok, raise_if-eq-ok, or_raise-eq-ok,
  ok-injective, find_order, update_order,
}
use munavvar_a.Orders.Quota.{decrement_quantities_used}
use munavvar_a.Orders.Quota.Counter.{used, IsPriceTable}
use munavvar_a.Orders.Quota.Deltas.{in_contract, returned, decrement_quantities_used-used}
use munavvar_a.Orders.Quota.Balance.{
  quantity_of, reserved_by, item_id, order_id, IsSound, IsBalanced, AllSound-find,
  IsBalanced-update,
}
use munavvar_a.Orders.Edit.{
  is_denied, get_by_order_and_product, contract_of, release_removal, without_product, remove_item,
  remove_product_from_order,
}
use munavvar_a.Orders.Edit.Items.{IsOnly, get_by_order_and_product-IsOnly, added, keep-quantity}
use munavvar_a.Orders.Edit.Quotas.{at_contract}

one_delta :
    (c c' p p' q : ℕ)
    → in_contract c c' (returned p' (record { key = p; amount = q } ∷ []))
      ≡ in_contract c c' (added p p' q)
one_delta c c' p p' q = ground arith

-- What a removal gives back: nothing where the order holds no quota.
abbrev freed : Bool → ℕ → ℕ → ℕ → ℕ
freed reserved p p' q = if reserved then added p p' q else 0

record Freed (contract : Option ℕ) (reserved : Bool) (p q : ℕ) (db db' : Db) : Type 0 where
  orders : db'.orders ≡ db.orders
  next_id : db'.next_id ≡ db.next_id
  prices : IsPriceTable db'.price_items
  counted :
      (c p' : ℕ)
      → used c p' db'.price_items
        ≡ used c p' db.price_items - at_contract c contract (freed reserved p p' q)

Freed-refl :
    (contract : Option ℕ) (reserved : Bool) (p q : ℕ) (db : Db)
    → IsPriceTable db.price_items
    → ((c p' : ℕ) → at_contract c contract (freed reserved p p' q) ≡ 0)
    → Freed contract reserved p q db db
Freed-refl contract reserved p q db t zero = record {
  orders = refl;
  next_id = refl;
  prices = t;
  counted = λ c p'. omega (arith, zero c p');
}

release_removal-Freed :
    (contract : Option ℕ) (reserved : Bool) (p q : ℕ) (db : Db) {db' : Db}
    → IsPriceTable db.price_items
    → release_removal contract reserved p q db ≡ ok db'
    → Freed contract reserved p q db db'
unfolding release_removal
release_removal-Freed none reserved p q db t h =
    subst (Freed none reserved p q db) (ok-injective h)
      (Freed-refl none reserved p q db t (λ c p'. refl))
release_removal-Freed (some c') false p q db t h =
    subst (Freed (some c') false p q db) (ok-injective h)
      (Freed-refl (some c') false p q db t (λ c p'. ground arith))
release_removal-Freed (some c') true p q db t h =
    let (pis, lessened, h₁) =
      >>=-eq-ok (decrement_quantities_used c' (record { key = p; amount = q } ∷ []) db.price_items)
        _ h in
    let (table, counted) = decrement_quantities_used-used c' _ db.price_items t lessened in
    subst (Freed (some c') true p q db) (ok-injective h₁) (record {
      orders = refl;
      next_id = refl;
      prices = table;
      counted = λ c p'. omega (arith, counted c p', one_delta c c' p p' q);
    })

removal_kept :
    (p : ℕ) (a : OrderItem) (o : Order) → contract_of (without_product p a o) ≡ contract_of o
unfolding contract_of without_product
removal_kept p a o = refl

removal-IsSound :
    (n p : ℕ) (a : OrderItem) (o : Order) → IsSound n o → IsSound n (without_product p a o)
unfolding without_product
removal-IsSound n p a o s = record {
  item_ids = keep-IsKeyed item_id _ o.items s.item_ids;
  items_below = keep-AllBelow item_id n _ o.items s.items_below;
  held = λ is_new has. s.held is_new (ap is_some (sym (removal_kept p a o)) ∙ has);
  tied = λ flagged. removal_kept p a o ∙ s.tied flagged;
}

holds_less :
    (t reserved : Bool) (p p' : ℕ) (a : OrderItem) (o : Order)
    → IsOnly p a o.items
    → (if t && reserved then quantity_of p' (without_product p a o).items else 0)
        + (if t then freed reserved p p' a.quantity else 0)
      ≡ (if t && reserved then quantity_of p' o.items else 0)
unfolding without_product
holds_less false reserved p p' a o only = refl
holds_less true false p p' a o only = refl
holds_less true true p p' a o only = keep-quantity p p' a o.items only

removal_flag :
    (p : ℕ) (a : OrderItem) (o : Order)
    → (without_product p a o).quantities_reserved ≡ o.quantities_reserved
unfolding without_product
removal_flag p a o = refl

removal_holds :
    (c p p' : ℕ) (a : OrderItem) (o : Order) (contract : Option ℕ)
    → contract_of o ≡ contract
    → IsOnly p a o.items
    → reserved_by c p' (without_product p a o)
        + at_contract c contract (freed o.quantities_reserved p p' a.quantity)
      ≡ reserved_by c p' o
removal_holds c p p' a o none e only = rw (removal_kept p a o, e)
removal_holds c p p' a o (some c') e only =
    rw (removal_kept p a o, removal_flag p a o, e)
      (holds_less (c' == c) o.quantities_reserved p p' a o only)

removal_id : (p : ℕ) (a : OrderItem) (o : Order) → (without_product p a o).id ≡ o.id
unfolding without_product
removal_id p a o = refl

-- The order holds what the removal gives back, so the counter covers it.
removal_covered :
    (k p c p' : ℕ) (a : OrderItem) (o : Order) (db : Db)
    → IsBalanced db
    → find_order k db.orders ≡ some o
    → IsOnly p a o.items
    → at_contract c (contract_of o) (freed o.quantities_reserved p p' a.quantity)
      ≤ used c p' db.price_items
removal_covered k p c p' a o db b found only = omega (
  arith,
  b.balance c p',
  find-le (reserved_by c p') (λ x. x.id == k) db.orders found,
  removal_holds c p p' a o (contract_of o) refl only,
)

-- The store that a removal leaves balances.
removal-IsBalanced :
    (k p : ℕ) (a : OrderItem) (o : Order) (db db₁ : Db)
    → IsBalanced db
    → find_order k db.orders ≡ some o
    → get_by_order_and_product o p ≡ ok (some a)
    → Freed (contract_of o) o.quantities_reserved p a.quantity db db₁
    → IsBalanced (record db₁ { orders = update_order k (without_product p a) db₁.orders })
removal-IsBalanced k p a o db db₁ b found at r =
    let sound : IsSound db.next_id o = AllSound-find db.next_id k db.orders b.sound found in
    let only : IsOnly p a o.items = get_by_order_and_product-IsOnly o p sound.item_ids at in
    IsBalanced-update k (without_product p a) db _ b found (removal_id p a)
      (omega (arith, r.next_id)) (rw r.next_id (removal-IsSound db.next_id p a o sound))
      (rw r.orders) r.prices
      (λ c p'. omega (
        arith,
        r.counted c p',
        removal_covered k p c p' a o db b found only,
        removal_holds c p p' a o (contract_of o) refl only,
      ))

remove_item-IsBalanced :
    (k p : ℕ) (a : OrderItem) (o : Order) (db : Db) {db' : Db}
    → IsBalanced db
    → find_order k db.orders ≡ some o
    → get_by_order_and_product o p ≡ ok (some a)
    → remove_item o p a db ≡ ok db'
    → IsBalanced db'
unfolding remove_item
remove_item-IsBalanced k p a o db b found at h =
    let (_, h₁) = raise_if-eq-ok (leb (length o.items) 1) _ _ h in
    let (db₁, freed, h₂) =
      >>=-eq-ok (release_removal (contract_of o) o.quantities_reserved p a.quantity db) _ h₁ in
    subst IsBalanced (ok-injective h₂) (
      removal-IsBalanced o.id p a o db db₁ b
        (find-key order_id (λ x. x.id == k) db.orders b.keyed found) at
        (release_removal-Freed (contract_of o) o.quantities_reserved p a.quantity db b.prices
          freed))

removed :
    (existing : Option OrderItem) (k p : ℕ) (o : Order) (db : Db) {db' : Db}
    → IsBalanced db
    → find_order k db.orders ≡ some o
    → get_by_order_and_product o p ≡ ok existing
    → (elim existing [ none ↦ ok db | some item ↦ remove_item o p item db ]) ≡ ok db'
    → IsBalanced db'
removed none k p o db b found at h = subst IsBalanced (ok-injective h) b
removed (some a) k p o db b found at h = remove_item-IsBalanced k p a o db b found at h

pub remove_product_from_order-IsBalanced :
    (k p : ℕ) (user : Option ℕ) (db : Db) {db' : Db}
    → IsBalanced db
    → remove_product_from_order k p user db ≡ ok db'
    → IsBalanced db'
unfolding remove_product_from_order
remove_product_from_order-IsBalanced k p user db b h =
    let (o, found, h₁) = or_raise-eq-ok (find_order k db.orders) _ _ h in
    let (_, h₂) = raise_if-eq-ok (is_denied o user) _ _ h₁ in
    let (is_new, h₃) = raise_if-eq-ok (not (same_status o.status OrderStatus.new)) _ _ h₂ in
    let (existing, at, h₄) = >>=-eq-ok (get_by_order_and_product o p) _ h₃ in
    removed existing k p o db b found at h₄
