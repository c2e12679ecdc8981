-- ===== src/Orders/Life.antt =====
-- The life of an order as a relation on its statuses, and what it means that a call keeps to it.
pub mod Entries
pub mod Effects
pub mod Calls
use munavvar_a.Prelude.{
  ℕ, Bool, ◌≡◌, ◌≢◌, ◌==◌, refl, sym, ap, subst, ◌∙◌, inl, inr, Bool-cases, ==_iff, false, true,
  Option, some, List, [], ◌∷◌, ◌++◌, find, update_where, if◌then◌else◌, arith,
}
use munavvar_a.Prelude.Keyed.{find-update_where_self, find-update_where_ne}
use munavvar_a.Store.{OrderStatus, SaleType, Order, Db, find_order, update_order, some-injective}
use munavvar_a.Orders.Fsm.Laws.{Edge}
use munavvar_a.Orders.Frame.{Frame}
use munavvar_a.Orders.Quota.Balance.{order_id}

-- One step: a change that the guard of `update_status` accepts, an assignment of a delivery, a
-- pickup, or the cancellation by a contract or by the job on stale orders, which looks at no type of
-- sale.
pub data Step : SaleType → OrderStatus → OrderStatus → Type 0 where
  by_edge : {t : SaleType} {a b : OrderStatus} → Edge t a b → Step t a b
  assign : Step SaleType.delivery OrderStatus.new OrderStatus.assigned
  pick_up : Step SaleType.warehouse_pickup OrderStatus.new OrderStatus.pickup_completed
  withdraw : {t : SaleType} → Step t OrderStatus.assigned OrderStatus.cancelled

pub data Course (t : SaleType) (a : OrderStatus) : OrderStatus → Type 0 where
  here : Course t a a
  onward : {b c : OrderStatus} → Course t a b → Step t b c → Course t a c

pub Course-trans : {t : SaleType} {a b c : OrderStatus} → Course t a b → Course t b c → Course t a c
Course-trans p here = p
Course-trans p (onward q s) = onward (Course-trans p q) s

-- A later state of an order.
pub record Follows (o o' : Order) : Type 0 where
  pub sale : o'.sale_type ≡ o.sale_type
  pub path : Course o.sale_type o.status o'.status

pub Follows-refl : (o : Order) → Follows o o
Follows-refl o = record { sale = refl; path = here }

pub Follows-trans : {a b c : Order} → Follows a b → Follows b c → Follows a c
Follows-trans {a} {b} {c} f g = record {
  sale = g.sale ∙ f.sale;
  path = Course-trans f.path (subst (λ t. Course t b.status c.status) f.sale g.path);
}

-- Every order of the first store is in the second one, at a later point of its life.
pub record Moves (db db' : Db) : Type 0 where
  pub kept :
      (j : ℕ) (o : Order)
      → find_order j db.orders ≡ some o
      → (o' : Order) × (find_order j db'.orders ≡ some o') × Follows o o'

pub Moves-trans : {a b c : Db} → Moves a b → Moves b c → Moves a c
Moves-trans m n = record {
  kept = λ j o found.
      let (o₁, found₁, f) = m.kept j o found in
      let (o₂, found₂, g) = n.kept j o₁ found₁ in (o₂, found₂, Follows-trans f g);
}

pub Moves-same : {db db' : Db} → db'.orders ≡ db.orders → Moves db db'
Moves-same e = record { kept = λ j o found. (o, rw e found, Follows-refl o) }

pub Moves-Frame : {db db' : Db} → Frame db db' → Moves db db'
Moves-Frame f = Moves-same f.orders

-- An update of one order that lets it go on.
pub Moves-update :
    (k : ℕ) (f : Order → Order) {db db' : Db}
    → db'.orders ≡ update_order k f db.orders
    → ((x : Order) → (f x).id ≡ x.id)
    → ((x : Order) → find_order k db.orders ≡ some x → Follows x (f x))
    → Moves db db'
Moves-update k f {db} {db'} e same goes = record {
  kept = λ j o found. elim (Bool-cases (j == k)) [
    | inl at ↦
        let p : j ≡ k = (==_iff j k).0 at in
        let found_k : find_order k db.orders ≡ some o =
          subst (λ i. find_order i db.orders ≡ some o) p found in
        (
          f o,
          rw (e, p) (find-update_where_self order_id k f db.orders same found_k),
          goes o found_k,
        )
    | inr other ↦ (
      o,
      rw e (find-update_where_ne order_id j k f db.orders same (ne other) ∙ found),
      Follows-refl o,
    )
  ];
}
  where
    ne : {j : ℕ} → (j == k) ≡ false → j ≢ k
    ne h at = ground arith

-- The same, where the order that the update meets is known.
pub Moves-update_found :
    (k : ℕ) (f : Order → Order) {db db' : Db} {o : Order}
    → db'.orders ≡ update_order k f db.orders
    → ((x : Order) → (f x).id ≡ x.id)
    → find_order k db.orders ≡ some o
    → Follows o (f o)
    → Moves db db'
Moves-update_found k f e same found goes =
    Moves-update k f e same
      (λ x again. subst (λ y. Follows y (f y)) (some-injective (sym found ∙ again)) goes)

find-append_some :
    (t : Order → Bool) (xs ys : List Order) {o : Order}
    → find t xs ≡ some o
    → find t (xs ++ ys) ≡ some o
find-append_some t [] ys h = cc
find-append_some t (x ∷ xs) ys h = elim (Bool-cases (t x)) [
  | inl e ↦ rw e (rw e at h)
  | inr e ↦ rw e (find-append_some t xs ys (rw e at h))
]

pub Moves-append : (os : List Order) {db db' : Db} → db'.orders ≡ db.orders ++ os → Moves db db'
Moves-append os {db} e = record {
  kept =
      λ j o found. (o, rw e (find-append_some (λ x. x.id == j) db.orders os found), Follows-refl o);
}

find-update_where-some :
    (q t : Order → Bool) (f : Order → Order) (xs : List Order) {o : Order}
    → ((x : Order) → q (f x) ≡ q x)
    → find q xs ≡ some o
    → find q (update_where t f xs) ≡ some (if t o then f o else o)
find-update_where-some q t f [] same h = cc
find-update_where-some q t f (x ∷ xs) {o} same h = elim (Bool-cases (q x)) [
  | inl e ↦
      let at : x ≡ o = some-injective (rw e at h) in
      subst (λ y. find q (update_where t f (x ∷ xs)) ≡ some (if t y then f y else y)) at
        (ground (arith, same x))
  | inr e ↦ ground (arith, same x, find-update_where-some q t f xs same (rw e at h))
]

-- An update of many orders that lets each of them go on.
pub Moves-update_where :
    (t : Order → Bool) (f : Order → Order) {db db' : Db}
    → db'.orders ≡ update_where t f db.orders
    → ((x : Order) → (f x).id ≡ x.id)
    → ((x : Order) → t x ≡ true → Follows x (f x))
    → Moves db db'
Moves-update_where t f {db} {db'} e same goes = record {
  kept = λ j o found. (
    if t o then f o else o,
    rw e (
        find-update_where-some (λ x. x.id == j) t f db.orders (λ x. ap (λ (i : ℕ). i == j) (same x))
          found),
    elim (Bool-cases (t o)) [ inl hit ↦ rw hit (goes o hit) | inr miss ↦ rw miss (Follows-refl o) ],
  );
}
