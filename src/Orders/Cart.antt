-- ===== src/Orders/Cart.antt =====
-- The cart of `create_order` and `create_warehouse_sale`: duplicates, missing products, prices
-- frozen into order lines, and the total.
pub mod Laws
use munavvar_a.Prelude.{
  ℕ, Bool, true, false, not, ◌&&◌, ◌||◌, ◌+◌, ◌*◌, ◌==◌, Option, none, some, List, [], ◌∷◌, map,
  elem, find, keep, any, if◌then◌else◌,
}
use munavvar_a.Store.{
  Line, Product, PriceItem, OrderItem, Error, Result, ok, ◌>>=◌, or_raise, find_product,
}

unfoldable pub product_ids : List Line → List ℕ
product_ids items = map (λ i. i.product_id) items

-- `len(product_ids) != len(set(product_ids))`
unfoldable pub has_duplicates : List ℕ → Bool
has_duplicates [] = false
has_duplicates (k ∷ ks) = elem k ks || has_duplicates ks

-- `CatalogService.get_by_ids`
unfoldable pub get_by_ids : List ℕ → List Product → List Product
get_by_ids ids = keep (λ p. elem p.id ids && p.is_active)

-- `price_map`: a contract price, where the contract has locked one, and else the catalog price.
unfoldable pub price_map : List PriceItem → List Product → ℕ → Option ℕ
price_map locked products k = elim (find (λ pi. pi.product_id == k) locked) [
  | some pi ↦ some pi.price
  | none ↦ elim (find (λ p. p.id == k) products) [ some p ↦ some p.price | none ↦ none ]
]

-- `[pid for pid in product_ids if pid not in price_map]`
unfoldable pub missing_ids : List ℕ → List Product → List ℕ
missing_ids ids products = keep (λ k. not (any (λ p. p.id == k) products)) ids

-- The loop that freezes `unit_price` into the lines; the ids of the new rows start at `n`.
unfoldable pub build_order_items : (ℕ → Option ℕ) → ℕ → List Line → Result (List OrderItem)
build_order_items prices n [] = ok []
build_order_items prices n (l ∷ ls) = do
  current_price ← or_raise (prices l.product_id) Error.key_error
  rest ← build_order_items prices (n + 1) ls
  ok (
      record {
        id = n;
        product_id = l.product_id;
        quantity = l.quantity;
        unit_price = current_price;
      }
      ∷ rest)

-- `total_amount += current_price * item.quantity`
unfoldable pub total_amount : List OrderItem → ℕ
total_amount [] = 0
total_amount (i ∷ is) = i.unit_price * i.quantity + total_amount is
