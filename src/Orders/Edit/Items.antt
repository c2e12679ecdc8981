-- ===== src/Orders/Edit/Items.antt =====
-- The lines of an order under an addition and a removal.
use munavvar_a.Prelude.{
  ℕ, false, not, ◌≡◌, refl, sym, subst, ◌∙◌, inl, inr, ◌+◌, ◌==◌, Bool-cases, ==_iff, Option, none,
  some, List, [], ◌∷◌, find, keep, sum_of-append, if◌then◌else◌, arith,
}
use munavvar_a.Prelude.Keyed.{
  IsKeyed, AllBelow, sum_of-update_where, append-IsKeyed, append-AllBelow, update_where-IsKeyed,
  update_where-AllBelow,
}
use munavvar_a.Store.{one_or_none-some, one_or_none-none, Order, OrderItem, ok}
use munavvar_a.Orders.Edit.{get_by_order_and_product, put_item}
use munavvar_a.Orders.Quota.Balance.{quantity_of, item_id, AllBelow-mono}

kept_none :
    (p : ℕ) (xs : List OrderItem) → keep (λ i. i.product_id == p) xs ≡ [] → quantity_of p xs ≡ 0
kept_none p [] h = refl
kept_none p (x ∷ xs) h = elim (Bool-cases (x.product_id == p)) [
  | inl e ↦ let q : (x ∷ keep (λ i. i.product_id == p) xs) ≡ [] = rw e at h in cc
  | inr e ↦ rw e (omega (arith, kept_none p xs (rw e at h)))
]

-- A row that is the only one of its product: where it stands and what it counts.
pub record IsOnly (p : ℕ) (a : OrderItem) (xs : List OrderItem) : Type 0 where
  pub product : a.product_id ≡ p
  pub found : find (λ i. i.id == a.id) xs ≡ some a
  pub counted : quantity_of p xs ≡ a.quantity

IsOnly-here :
    (p : ℕ) (a x : OrderItem) (xs : List OrderItem)
    → x.product_id ≡ p
    → x ≡ a
    → quantity_of p xs ≡ 0
    → IsOnly p a (x ∷ xs)
IsOnly-here p a x xs e same zero =
    subst (λ y. IsOnly p y (x ∷ xs)) same
      (record { product = e; found = ground arith; counted = ground arith })

skipped :
    (a x : OrderItem) (xs : List OrderItem)
    → find (λ i. i.id == x.id) xs ≡ none
    → find (λ i. i.id == a.id) xs ≡ some a
    → (x.id == a.id) ≡ false
skipped a x xs free found = elim (Bool-cases (x.id == a.id)) [
  | inr e ↦ e
  | inl e ↦
      let same : x.id ≡ a.id = (==_iff x.id a.id).0 e in
      let clash : none ≡ some a = sym (rw same at free) ∙ found in cc
]

IsOnly-row :
    (p : ℕ) (xs : List OrderItem) {a : OrderItem}
    → IsKeyed item_id xs
    → keep (λ i. i.product_id == p) xs ≡ a ∷ []
    → IsOnly p a xs
IsOnly-row p [] u h = cc
IsOnly-row p (x ∷ xs) {a} u h = elim (Bool-cases (x.product_id == p)) [
  | inl e ↦
      let q : (x ∷ keep (λ i. i.product_id == p) xs) ≡ a ∷ [] = rw e at h in
      IsOnly-here p a x xs ((==_iff x.product_id p).0 e) (ground arith)
        (kept_none p xs (ground arith))
  | inr e ↦
      let rest : IsOnly p a xs = IsOnly-row p xs u.1 (rw e at h) in
      record {
        product = rest.product;
        found = rw (skipped a x xs u.0 rest.found) rest.found;
        counted = rw e (omega (arith, rest.counted));
      }
]

-- The line that the query finds.
pub get_by_order_and_product-IsOnly :
    (o : Order) (p : ℕ) {a : OrderItem}
    → IsKeyed item_id o.items
    → get_by_order_and_product o p ≡ ok (some a)
    → IsOnly p a o.items
unfolding get_by_order_and_product
get_by_order_and_product-IsOnly o p u h = IsOnly-row p o.items u (one_or_none-some _ h)

pub get_by_order_and_product-none :
    (o : Order) (p : ℕ) → get_by_order_and_product o p ≡ ok none → quantity_of p o.items ≡ 0
unfolding get_by_order_and_product
get_by_order_and_product-none o p h = kept_none p o.items (one_or_none-none _ h)

abbrev pub added : ℕ → ℕ → ℕ → ℕ
added p p' q = if p == p' then q else 0

counts_more :
    (p p' q : ℕ) (a : OrderItem)
    → a.product_id ≡ p
    → (if a.product_id == p' then a.quantity + q else 0)
      ≡ (if a.product_id == p' then a.quantity else 0) + added p p' q
counts_more p p' q a e = rw (← e) (ground arith)

-- An addition counts for its own product only.
pub put_item-quantity :
    (o : Order) (existing : Option OrderItem) (n p q price p' : ℕ)
    → IsKeyed item_id o.items
    → get_by_order_and_product o p ≡ ok existing
    → quantity_of p' (put_item existing n p q price o.items) ≡ quantity_of p' o.items + added p p' q
unfolding put_item
put_item-quantity o none n p q price p' u h = omega (
  arith,
  sum_of-append (λ (i : OrderItem). if i.product_id == p' then i.quantity else 0) o.items
      (record { id = n; product_id = p; quantity = q; unit_price = price } ∷ []),
)
put_item-quantity o (some a) n p q price p' u h =
    let only : IsOnly p a o.items = get_by_order_and_product-IsOnly o p u h in
    omega (
      arith,
      sum_of-update_where item_id (λ (i : OrderItem). if i.product_id == p' then i.quantity else 0)
          a.id (λ i. record i { quantity = a.quantity + q }) o.items u only.found,
      counts_more p p' q a only.product,
    )

pub put_item-IsKeyed :
    (o : Order) (existing : Option OrderItem) (n p q price : ℕ)
    → IsKeyed item_id o.items
    → AllBelow item_id n o.items
    → IsKeyed item_id (put_item existing n p q price o.items)
      × AllBelow item_id (n + 1) (put_item existing n p q price o.items)
unfolding put_item
put_item-IsKeyed o none n p q price u b =
    (append-IsKeyed item_id n o.items _ u b refl, append-AllBelow item_id n o.items _ b refl)
put_item-IsKeyed o (some a) n p q price u b = (
  update_where-IsKeyed item_id a.id _ o.items (λ x. refl) u,
  AllBelow-mono item_id _ (omega arith)
      (update_where-AllBelow item_id n a.id _ o.items (λ x. refl) b),
)

keep_all :
    (p : ℕ) (xs : List OrderItem) → quantity_of p (keep (λ i. not (i.product_id == p)) xs) ≡ 0
keep_all p [] = refl
keep_all p (x ∷ xs) = ground (arith, keep_all p xs)

keep_other :
    (p p' : ℕ) (xs : List OrderItem)
    → (p == p') ≡ false
    → quantity_of p' (keep (λ i. not (i.product_id == p)) xs) ≡ quantity_of p' xs
keep_other p p' [] e = refl
keep_other p p' (x ∷ xs) e = ground (arith, keep_other p p' xs e)

-- A removal takes its product out and leaves every other product as it was.
pub keep-quantity :
    (p p' : ℕ) (a : OrderItem) (xs : List OrderItem)
    → IsOnly p a xs
    → quantity_of p' (keep (λ i. not (i.product_id == p)) xs) + added p p' a.quantity
      ≡ quantity_of p' xs
keep-quantity p p' a xs only = elim (Bool-cases (p == p')) [
  | inl e ↦ rw (e, ← (==_iff p p').0 e, keep_all p xs) (omega (arith, only.counted))
  | inr e ↦ rw (e, keep_other p p' xs e) (omega arith)
]
