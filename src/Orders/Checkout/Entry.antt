-- ===== src/Orders/Checkout/Entry.antt =====
-- A new order in the store: its lines, and the balance of the quota ledger after its insert.
use munavvar_a.Prelude.{
  ℕ, true, ◌≡◌, refl, subst, ◌&&◌, ◌+◌, ◌≤◌, ◌<◌, ◌==◌, Option, none, some, List, [], ◌∷◌, ◌++◌,
  elem, find, find-keep, length, sum_of-append, arith,
}
use munavvar_a.Prelude.Keyed.{IsKeyed, AllBelow, find-key, append-IsKeyed, append-AllBelow}
use munavvar_a.Store.{
  PriceItem, Order, OrderItem, Line, Db, ok, >>=-eq-ok, or_raise-eq-ok, ok-injective,
}
use munavvar_a.Inventory.Ledger.{units}
use munavvar_a.Orders.Quota.{get_for_products_locked}
use munavvar_a.Orders.Quota.Counter.{used, IsPriceTable}
use munavvar_a.Orders.Quota.Balance.{
  quantity_of, reserved_by, item_id, order_id, IsSound, AllSound, IsBalanced, AllBelow-mono,
  AllSound-mono,
}
use munavvar_a.Orders.Cart.{build_order_items}
use munavvar_a.Orders.Checkout.{add_order}

AllSound-append :
    (n : ℕ) (os : List Order) (o : Order) → AllSound n os → IsSound n o → AllSound n (os ++ o ∷ [])
AllSound-append n [] o h s = (s, tt)
AllSound-append n (x ∷ xs) o h s = (h.0, AllSound-append n xs o h.1 s)

-- An INSERT of an order whose quota has been taken beforehand.
pub add_order-IsBalanced :
    (o : Order) (db mid : Db)
    → IsBalanced db
    → mid.orders ≡ db.orders
    → db.next_id ≤ mid.next_id
    → IsPriceTable mid.price_items
    → o.id ≡ mid.next_id
    → IsSound (mid.next_id + 1 + length o.items) o
    → ((c p : ℕ) → used c p mid.price_items ≡ used c p db.price_items + reserved_by c p o)
    → IsBalanced (add_order o mid)
unfolding add_order
add_order-IsBalanced o db mid b same le table fresh sound counted =
    let below : AllBelow order_id mid.next_id db.orders =
      AllBelow-mono order_id db.orders le b.below in
    record {
      prices = table;
      keyed = rw same (append-IsKeyed order_id mid.next_id db.orders o b.keyed below fresh);
      below = rw same (
          AllBelow-mono order_id (db.orders ++ o ∷ []) (omega arith)
            (append-AllBelow order_id mid.next_id db.orders o below fresh));
      sound = rw same (
          AllSound-append (mid.next_id + 1 + length o.items) db.orders o
            (AllSound-mono db.orders (omega (arith, le)) b.sound) sound);
      balance = λ c p. rw same (
          omega (
            arith,
            counted c p,
            b.balance c p,
            sum_of-append (reserved_by c p) db.orders (o ∷ []),
          ));
    }

-- The lines of a new order: fresh ids, and the quantities of the cart.
pub record Built (n : ℕ) (ls : List Line) (is : List OrderItem) : Type 0 where
  pub absent : (k : ℕ) → k < n → find (λ (i : OrderItem). i.id == k) is ≡ none
  pub keyed : IsKeyed item_id is
  pub below : AllBelow item_id (n + length is) is
  pub counted : (p : ℕ) → quantity_of p is ≡ units p ls

Built-cons :
    (n q price : ℕ) (l : Line) (ls : List Line) (is : List OrderItem)
    → Built (n + 1) ls is
    → Built n (l ∷ ls) (
        record { id = n; product_id = l.product_id; quantity = l.quantity; unit_price = price }
        ∷ is)
Built-cons n q price l ls is b = record {
  absent = λ k lt. ground (arith, b.absent k);
  keyed = (b.absent n (omega arith), b.keyed);
  below = (omega arith, AllBelow-mono item_id is (omega arith) b.below);
  counted = λ p. omega (arith, b.counted p);
}

pub build_order_items-Built :
    (prices : ℕ → Option ℕ) (n : ℕ) (ls : List Line) {is : List OrderItem}
    → build_order_items prices n ls ≡ ok is
    → Built n ls is
unfolding build_order_items
build_order_items-Built prices n [] h =
    subst (Built n []) (ok-injective h)
      (record { absent = λ k lt. refl; keyed = tt; below = tt; counted = λ p. refl })
build_order_items-Built prices n (l ∷ ls) h =
    let (price, _, h₁) = or_raise-eq-ok (prices l.product_id) _ _ h in
    let (rest, built, h₂) = >>=-eq-ok (build_order_items prices (n + 1) ls) _ h₁ in
    subst (Built n (l ∷ ls)) (ok-injective h₂)
      (Built-cons n 0 price l ls rest (build_order_items-Built prices (n + 1) ls built))

pub locked_keys :
    (c p : ℕ) (ids : List ℕ) (a : PriceItem)
    → ((a.contract_id == c && elem a.product_id ids && a.is_active) && a.product_id == p) ≡ true
    → (a.contract_id ≡ c) × (a.product_id ≡ p)
locked_keys c p ids a h = ground arith

pub locked_row :
    (c p : ℕ) (ids : List ℕ) (pis : List PriceItem) {a : PriceItem}
    → IsPriceTable pis
    → find (λ pi. pi.product_id == p) (get_for_products_locked c ids pis) ≡ some a
    → find (λ x. x.id == a.id) pis ≡ some a
unfolding get_for_products_locked
locked_row c p ids pis t found =
    find-key (λ (pi : PriceItem). pi.id) _ pis t.ids (find-keep _ _ pis found)
