-- ===== src/Orders/Status/Release.antt =====
-- The quota ledger under a change of status: the release on cancellation and the correction of a
-- partial delivery.
use munavvar_a.Prelude.{
  ℕ, Bool, true, false, ◌≡◌, refl, sym, subst, ◌∙◌, ◌&&◌, ◌+◌, ◌-◌, ◌*◌, ◌≤◌, ◌==◌, none, some,
  List, [], ◌∷◌, ◌++◌, map, find-le, sum_of, sum_of-append, if◌then◌else◌, arith,
}
use munavvar_a.Store.{
  OrderStatus, Order, OrderItem, Line, Db, ok, is_id, same_status, >>=-eq-ok, ok-injective,
  find_order,
}
use munavvar_a.Orders.Quota.{Delta, delta_of, decrement_quantities_used, release_order_quantities}
use munavvar_a.Orders.Quota.Deltas.{in_contract, returned, decrement_quantities_used-used}
use munavvar_a.Orders.Quota.Balance.{
  quantity_of, reserved_by, IsSound, IsBalanced, AllSound-find, IsBalanced-update,
}
use munavvar_a.Orders.Dict.{last_quantity}
use munavvar_a.Orders.Edit.{contract_of}
use munavvar_a.Orders.Fulfillment.{Adjusted, adjust_quantity, quota_delta, adjust_items}

returned-delta_of : (p : ℕ) (is : List OrderItem) → returned p (map delta_of is) ≡ quantity_of p is
returned-delta_of p [] = refl
returned-delta_of p (i ∷ is) = omega (arith, returned-delta_of p is)

-- The order without its flag.
abbrev pub unflag : Order → Order
unflag o = record o { quantities_reserved = false }

unflag_contract : (o : Order) → contract_of (unflag o) ≡ contract_of o
unfolding contract_of
unflag_contract o = refl

flag_off : (t : Bool) → (t && false) ≡ false
flag_off t = ground arith

unflag_holds : (c p : ℕ) (o : Order) → reserved_by c p (unflag o) ≡ 0
unflag_holds c p o = rw (flag_off (is_id c (contract_of (unflag o))))

flagged_holds :
    (c p c' : ℕ) (o : Order)
    → contract_of o ≡ some c'
    → o.quantities_reserved ≡ true
    → reserved_by c p o ≡ in_contract c c' (quantity_of p o.items)
flagged_holds c p c' o e flag = rw (e, flag) (ground arith)

unflag-IsSound :
    (n : ℕ) (o : Order)
    → same_status o.status OrderStatus.cancelled ≡ true
    → IsSound n o
    → IsSound n (unflag o)
unflag-IsSound n o gone s = record {
  item_ids = s.item_ids;
  items_below = s.items_below;
  held = λ live has. let clash : true ≡ false = sym gone ∙ live in cc;
  tied = λ flagged. cc;
}

released_part :
    (c p c' : ℕ) (o : Order) (items : List OrderItem)
    → items ≡ o.items
    → contract_of o ≡ some c'
    → o.quantities_reserved ≡ true
    → in_contract c c' (returned p (map delta_of items)) ≡ reserved_by c p o
released_part c p c' o items same at flag =
    rw (returned-delta_of p items, same) (sym (flagged_holds c p c' o at flag))

-- A release needs a cancelled order: it is the only one that may be without its flag.
pub release_order_quantities-IsBalanced :
    (c' : ℕ) (stored order : Order) (db : Db) {db' : Db}
    → IsBalanced db
    → find_order order.id db.orders ≡ some stored
    → order.items ≡ stored.items
    → contract_of stored ≡ some c'
    → stored.quantities_reserved ≡ true
    → same_status stored.status OrderStatus.cancelled ≡ true
    → release_order_quantities c' order db ≡ ok db'
    → IsBalanced db'
unfolding release_order_quantities
release_order_quantities-IsBalanced c' stored order db b found items at flag gone h =
    let (pis, lessened, h₁) =
      >>=-eq-ok (decrement_quantities_used c' (map delta_of order.items) db.price_items) _ h in
    let (table, counted) =
      decrement_quantities_used-used c' (map delta_of order.items) db.price_items b.prices
        lessened in
    subst IsBalanced (ok-injective h₁) (
      IsBalanced-update order.id unflag db _ b found (λ x. refl) (omega arith)
        (unflag-IsSound db.next_id stored gone
          (AllSound-find db.next_id order.id db.orders b.sound found))
        refl table
        (λ c p. omega (
          arith,
          counted c p,
          released_part c p c' stored order.items items at flag,
          unflag_holds c p stored,
          b.balance c p,
          find-le (reserved_by c p) (λ o. o.id == order.id) db.orders found,
        )))

-- What was delivered of a line: what the courier says of its product, or else all of it.
abbrev pub delivered : List Line → OrderItem → ℕ
delivered actual i = elim (last_quantity i.product_id actual) [ some q ↦ q | none ↦ i.quantity ]

abbrev pub as_delivered : List Line → OrderItem → OrderItem
as_delivered actual i = record i { quantity = delivered actual i }

abbrev pub NoneAbove : List Line → List OrderItem → Type 0
NoneAbove actual [] = Unit
NoneAbove actual (i ∷ is) = (delivered actual i ≤ i.quantity) × NoneAbove actual is

-- A correction of the lines by what was delivered.
pub record Corrects (actual : List Line) (is : List OrderItem) (a : Adjusted) : Type 0 where
  pub lines : a.items ≡ map (as_delivered actual) is
  pub none_above : NoneAbove actual is
  pub total : a.new_total ≡ sum_of (λ i. i.unit_price * i.quantity) a.items
  pub units : (p : ℕ) → quantity_of p a.items + returned p a.quota_deltas ≡ quantity_of p is

adjust_quantity-le :
    (actual : List Line) (i : OrderItem) {q : ℕ} → adjust_quantity actual i ≡ ok q → q ≤ i.quantity
unfolding adjust_quantity
adjust_quantity-le actual i h = ground arith

returned-append :
    (p : ℕ) (ds es : List Delta) → returned p (ds ++ es) ≡ returned p ds + returned p es
returned-append p ds es = sum_of-append _ ds es

returned-quota_delta :
    (p q : ℕ) (i : OrderItem)
    → returned p (quota_delta i q) ≡ (if i.product_id == p then i.quantity - q else 0)
unfolding quota_delta
returned-quota_delta p q i = ground arith

head_units :
    (p q : ℕ) (i : OrderItem)
    → q ≤ i.quantity
    → (if i.product_id == p then q else 0) + (if i.product_id == p then i.quantity - q else 0)
      ≡ (if i.product_id == p then i.quantity else 0)
head_units p q i le = ground arith

adjust_quantity-delivered :
    (actual : List Line) (i : OrderItem) {q : ℕ}
    → adjust_quantity actual i ≡ ok q
    → q ≡ delivered actual i
unfolding adjust_quantity
adjust_quantity-delivered actual i h = ground arith

correct_head :
    (actual : List Line) (i : OrderItem) (q : ℕ) (is : List OrderItem) (rest : Adjusted)
    → q ≤ i.quantity
    → q ≡ delivered actual i
    → Corrects actual is rest
    → Corrects actual (i ∷ is) (record {
      items = record i { quantity = q } ∷ rest.items;
      new_total = i.unit_price * q + rest.new_total;
      quota_deltas = quota_delta i q ++ rest.quota_deltas;
    })
correct_head actual i q is rest le e c = record {
  lines = rw (e, c.lines);
  none_above = (subst (λ x. x ≤ i.quantity) e le, c.none_above);
  total = rw c.total;
  units = λ p. omega (
    arith,
    c.units p,
    returned-append p (quota_delta i q) rest.quota_deltas,
    returned-quota_delta p q i,
    head_units p q i le,
  );
}

-- When the lines of a partial delivery are accepted, the order keeps its lines, in order and each
-- with its id, product and price; the quantity of a line becomes what the courier says of its
-- product, never more than was ordered, and stays where the courier says nothing. The new total is
-- what the corrected lines cost, and each product's ordered quantity is what the order keeps and
-- what goes back to the quota together.
pub adjust_items-Corrects :
    (actual : List Line) (is : List OrderItem) {a : Adjusted}
    → adjust_items actual is ≡ ok a
    → Corrects actual is a
unfolding adjust_items
adjust_items-Corrects actual [] h =
    subst (Corrects actual []) (ok-injective h)
      (record { lines = refl; none_above = tt; total = refl; units = λ p. refl })
adjust_items-Corrects actual (i ∷ is) h =
    let (q, at, h₁) = >>=-eq-ok (adjust_quantity actual i) _ h in
    let (rest, others, h₂) = >>=-eq-ok (adjust_items actual is) _ h₁ in
    subst (Corrects actual (i ∷ is)) (ok-injective h₂) (
      correct_head actual i q is rest (adjust_quantity-le actual i at)
        (adjust_quantity-delivered actual i at) (adjust_items-Corrects actual is others))
