-- ===== src/Orders/Cart/Laws.antt =====
-- What the loop that freezes prices makes of a cart.
use munavvar_a.Prelude.{
  ℕ, ◌≡◌, refl, subst, ◌+◌, ◌*◌, Option, some, none, List, [], ◌∷◌, map, sum_of,
}
use munavvar_a.Store.{Line, OrderItem, ok, >>=-eq-ok, or_raise-eq-ok, ok-injective}
use munavvar_a.Orders.Cart.{build_order_items, total_amount}

-- What a line of the cart costs.
abbrev pub cost : (ℕ → Option ℕ) → Line → ℕ
cost prices l = elim (prices l.product_id) [ some price ↦ price * l.quantity | none ↦ 0 ]

cost_at :
    (prices : ℕ → Option ℕ) (l : Line) {price : ℕ}
    → prices l.product_id ≡ some price
    → cost prices l ≡ price * l.quantity
cost_at prices l e = rw (cost, e)

-- What an order line keeps of a line of the cart.
abbrev pub line_of : OrderItem → Line
line_of i = record { product_id = i.product_id; quantity = i.quantity }

-- The lines of the order are those of the cart, in order, and the total is what the cart costs.
pub record IsInvoiced (prices : ℕ → Option ℕ) (ls : List Line) (is : List OrderItem) : Type 0 where
  pub lines : map line_of is ≡ ls
  pub total : total_amount is ≡ sum_of (cost prices) ls

invoice_line :
    (prices : ℕ → Option ℕ) (n price : ℕ) (l : Line) (ls : List Line) (is : List OrderItem)
    → prices l.product_id ≡ some price
    → IsInvoiced prices ls is
    → IsInvoiced prices (l ∷ ls) (
        record { id = n; product_id = l.product_id; quantity = l.quantity; unit_price = price }
        ∷ is)
unfolding total_amount
invoice_line prices n price l ls is e rest = record {
  lines = rw rest.lines;
  total = rw (cost_at prices l e, rest.total);
}

-- When every line of a cart has a price, the frozen order lines are the lines of the cart, in
-- order, and their total is the sum of price times quantity over the cart.
pub build_order_items-IsInvoiced :
    (prices : ℕ → Option ℕ) (n : ℕ) (ls : List Line) {is : List OrderItem}
    → build_order_items prices n ls ≡ ok is
    → IsInvoiced prices ls is
unfolding build_order_items total_amount
build_order_items-IsInvoiced prices n [] h =
    subst (IsInvoiced prices []) (ok-injective h) (record { lines = refl; total = refl })
build_order_items-IsInvoiced prices n (l ∷ ls) h =
    let (price, at, h₁) = or_raise-eq-ok (prices l.product_id) _ _ h in
    let (rest, built, h₂) = >>=-eq-ok (build_order_items prices (n + 1) ls) _ h₁ in
    subst (IsInvoiced prices (l ∷ ls)) (ok-injective h₂) (
      invoice_line prices n price l ls rest at
        (build_order_items-IsInvoiced prices (n + 1) ls built))
