-- ===== src/Orders/Edit/Quotas.antt =====
-- The quota ledger under `add_product_to_order`.
use munavvar_a.Prelude.{
  ℕ, Bool, true, false, not, ◌≡◌, refl, sym, ap, subst, ◌∙◌, inl, inr, ◌&&◌, ◌+◌, ◌==◌, Bool-cases,
  Option, none, some, List, [], ◌∷◌, find, find-test, is_some, if◌then◌else◌, arith,
}
use munavvar_a.Prelude.Keyed.{find-key}
use munavvar_a.Store.{
  OrderStatus, ContractStatus, Contract, PriceItem, Order, OrderItem, Db, ok, same_status,
  same_contract_status, >>=-eq-ok, raise_if-eq-ok, or_raise-eq-ok, ok-injective, find_order,
  update_order, find_product, find_contract,
}
use munavvar_a.Inventory.Ledger.{units}
use munavvar_a.Orders.Quota.{is_price_of, exceeds, increment_quantities_used}
use munavvar_a.Orders.Quota.Counter.{used, price_keys, IsPriceTable}
use munavvar_a.Orders.Quota.Deltas.{in_contract, Aims, increment_quantities_used-used}
use munavvar_a.Orders.Quota.Balance.{
  contract_of-tied, quantity_of, reserved_by, IsSound, IsBalanced, AllSound-find, IsBalanced-update,
}
use munavvar_a.Orders.Edit.{
  is_denied, get_by_order_and_product, contract_of, reserve_addition, put_item, with_addition,
  add_product_to_order,
}
use munavvar_a.Orders.Edit.Items.{added, put_item-quantity, put_item-IsKeyed}

-- What an agreement on a contract adds to the counters of that contract.
abbrev pub at_contract : ℕ → Option ℕ → ℕ → ℕ
at_contract c none n = 0
at_contract c (some c') n = in_contract c c' n

find_contract-id :
    (k : ℕ) (cs : List Contract) {a : Contract} → find_contract k cs ≡ some a → a.id ≡ k
find_contract-id k [] h = cc
find_contract-id k (x ∷ xs) h = elim (Bool-cases (x.id == k && x.is_active)) [
  | inl e ↦ ground arith
  | inr e ↦ find_contract-id k xs (rw e at h)
]

-- What is untouched by the two contract blocks, and what they do to the counters.
pub record Reserved (contract : Option ℕ) (p q : ℕ) (db db' : Db) : Type 0 where
  pub orders : db'.orders ≡ db.orders
  pub next_id : db'.next_id ≡ db.next_id
  pub prices : IsPriceTable db'.price_items
  pub counted :
      (c p' : ℕ)
      → used c p' db'.price_items ≡ used c p' db.price_items + at_contract c contract (added p p' q)

one_line :
    (c c' p p' q : ℕ)
    → in_contract c c' (units p' (record { product_id = p; quantity = q } ∷ []))
      ≡ in_contract c c' (added p p' q)
one_line c c' p p' q = ground arith

row_again :
    (c p : ℕ) (pis : List PriceItem) {a b : PriceItem}
    → IsPriceTable pis
    → find (is_price_of c p) pis ≡ some a
    → find (λ pi. pi.id == a.id) pis ≡ some b
    → a ≡ b
row_again c p pis t found again =
    ground (arith, find-key (λ (pi : PriceItem). pi.id) (is_price_of c p) pis t.ids found)

price-Aims :
    (c p : ℕ) (pis : List PriceItem) {a : PriceItem}
    → IsPriceTable pis
    → find (is_price_of c p) pis ≡ some a
    → Aims c p a.id pis
price-Aims c p pis {a} t found b again =
    let same : a ≡ b = row_again c p pis t found again in
    subst (λ x. (x.contract_id ≡ c) × (x.product_id ≡ p)) same
      (price_keys c p a (find-test (is_price_of c p) pis found))

-- One increment for one product, by the row that the contract's price list has.
reserve_one :
    (k c' p q : ℕ) (pis : List PriceItem) {a : PriceItem} {pis' : List PriceItem}
    → k ≡ c'
    → IsPriceTable pis
    → find (is_price_of k p) pis ≡ some a
    → exceeds a q ≡ false
    → increment_quantities_used (record { key = a.id; amount = q } ∷ []) pis ≡ ok pis'
    → IsPriceTable pis'
      × ((c p' : ℕ) → used c p' pis' ≡ used c p' pis + in_contract c c' (added p p' q))
reserve_one k c' p q pis {a} {pis'} same t found fits h =
    let (table, counted) =
      increment_quantities_used-used k (record { product_id = p; quantity = q } ∷ []) _ pis t
        (
          (λ b again. subst (λ x. exceeds x q ≡ false) (row_again k p pis t found again) fits),
          tt,
          tt,
        )
        (refl, price-Aims k p pis t found, refl) h in
    (table, λ c p'. rw (← same) (omega (arith, counted c p', one_line c k p p' q)))

reserve_addition-Reserved :
    (contract : Option ℕ) (p q price : ℕ) (db : Db) {r : ℕ × Db}
    → IsPriceTable db.price_items
    → reserve_addition contract p q price db ≡ ok r
    → Reserved contract p q db r.1
unfolding reserve_addition
reserve_addition-Reserved none p q price db t h =
    subst (λ r. Reserved none p q db r.1) (ok-injective h)
      (record { orders = refl; next_id = refl; prices = t; counted = λ c p'. omega arith })
reserve_addition-Reserved (some c') p q price db t h =
    let (contract, at, h₁) = or_raise-eq-ok (find_contract c' db.contracts) _ _ h in
    let (_, h₂) =
      raise_if-eq-ok (not (same_contract_status contract.status ContractStatus.active)) _ _ h₁ in
    let (pi, found, h₃) = or_raise-eq-ok (find (is_price_of contract.id p) db.price_items) _ _ h₂ in
    let (fits, h₄) = raise_if-eq-ok (exceeds pi q) _ _ h₃ in
    let (pis, increased, h₅) =
      >>=-eq-ok (increment_quantities_used (record { key = pi.id; amount = q } ∷ []) db.price_items)
        _ h₄ in
    let (table, counted) =
      reserve_one contract.id c' p q db.price_items (find_contract-id c' db.contracts at) t found
        fits increased in
    subst (λ r. Reserved (some c') p q db r.1) (ok-injective h₅)
      (record { orders = refl; next_id = refl; prices = table; counted = counted })

addition_kept :
    (existing : Option OrderItem) (contract : Option ℕ) (n p q price : ℕ) (o : Order)
    → contract_of (with_addition existing contract n p q price o) ≡ contract_of o
unfolding contract_of with_addition
addition_kept existing contract n p q price o = refl

addition_id :
    (existing : Option OrderItem) (contract : Option ℕ) (n p q price : ℕ) (o : Order)
    → (with_addition existing contract n p q price o).id ≡ o.id
unfolding with_addition
addition_id existing contract n p q price o = refl

pub not-false : {a : Bool} → not a ≡ false → a ≡ true
not-false {a} h = ground arith

holds_more :
    (c c' p p' q : ℕ) (before after : ℕ)
    → after ≡ before + added p p' q
    → (if (c' == c) && true then after else 0)
      ≡ (if (c' == c) && true then before else 0) + in_contract c c' (added p p' q)
holds_more c c' p p' q before after h = elim (Bool-cases (c' == c)) [
  | inl e ↦ rw (e, h)
  | inr e ↦ rw e (omega arith)
]

-- What the order holds after an addition.
addition_holds :
    (existing : Option OrderItem) (contract : Option ℕ) (n p q price c p' : ℕ) (o : Order)
    → contract_of o ≡ contract
    → (is_some contract ≡ true → o.quantities_reserved ≡ true)
    → quantity_of p' (put_item existing n p q price o.items) ≡ quantity_of p' o.items + added p p' q
    → reserved_by c p' (with_addition existing contract n p q price o)
      ≡ reserved_by c p' o + at_contract c contract (added p p' q)
unfolding with_addition put_item
addition_holds existing none n p q price c p' o at held more =
    rw (addition_kept existing none n p q price o, at) (omega arith)
addition_holds existing (some c') n p q price c p' o at held more =
    rw (addition_kept existing (some c') n p q price o, at, held refl)
      (holds_more c c' p p' q _ _ more)

addition-IsSound :
    (existing : Option OrderItem) (n p q price : ℕ) (o : Order)
    → IsSound n o
    → IsSound (n + 1) (with_addition existing (contract_of o) n p q price o)
unfolding with_addition
addition-IsSound existing n p q price o s =
    let (ids, below) = put_item-IsKeyed o existing n p q price s.item_ids s.items_below in
    record {
      item_ids = ids;
      items_below = below;
      held = λ is_new has.
          let h : is_some (contract_of o) ≡ true =
            ap is_some (sym (addition_kept existing (contract_of o) n p q price o)) ∙ has in
          rw h;
      tied = λ flagged.
          addition_kept existing (contract_of o) n p q price o
          ∙ elim (Bool-cases (is_some (contract_of o))) [
            | inl e ↦ contract_of-tied o e
            | inr e ↦ s.tied (rw e at flagged)
          ];
    }

open_new :
    (s : OrderStatus)
    → same_status s OrderStatus.new ≡ true
    → same_status s OrderStatus.cancelled ≡ false
open_new s h = ground arith

-- The store that an addition leaves balances.
addition-IsBalanced :
    (k p q price : ℕ) (o : Order) (existing : Option OrderItem) (db db₁ : Db)
    → IsBalanced db
    → find_order k db.orders ≡ some o
    → same_status o.status OrderStatus.new ≡ true
    → get_by_order_and_product o p ≡ ok existing
    → Reserved (contract_of o) p q db db₁
    → IsBalanced (record db₁ {
      orders =
          update_order k (with_addition existing (contract_of o) db.next_id p q price) db₁.orders;
      next_id = db.next_id + 1;
    })
addition-IsBalanced k p q price o existing db db₁ b found is_new at r =
    let sound : IsSound db.next_id o = AllSound-find db.next_id k db.orders b.sound found in
    IsBalanced-update k (with_addition existing (contract_of o) db.next_id p q price) db _ b found
      (λ x. addition_id existing (contract_of o) db.next_id p q price x) (omega arith)
      (addition-IsSound existing db.next_id p q price o sound) (rw r.orders) r.prices
      (λ c p'. omega (
        arith,
        r.counted c p',
        addition_holds existing (contract_of o) db.next_id p q price c p' o refl
            (sound.held (open_new o.status is_new))
            (put_item-quantity o existing db.next_id p q price p' sound.item_ids at),
      ))

-- The product is added to an order that is found, open and new.
pub add_product_to_order-IsBalanced :
    (k p q : ℕ) (user : Option ℕ) (db : Db) {db' : Db}
    → IsBalanced db
    → add_product_to_order k p q user db ≡ ok db'
    → IsBalanced db'
unfolding add_product_to_order
add_product_to_order-IsBalanced k p q user db b h =
    let (_, h₁) = raise_if-eq-ok (q == 0) _ _ h in
    let (product, _, h₂) = or_raise-eq-ok (find_product p db.products) _ _ h₁ in
    let (o, found, h₃) = or_raise-eq-ok (find_order k db.orders) _ _ h₂ in
    let (_, h₄) = raise_if-eq-ok (is_denied o user) _ _ h₃ in
    let (is_new, h₅) = raise_if-eq-ok (not (same_status o.status OrderStatus.new)) _ _ h₄ in
    let (existing, at, h₆) = >>=-eq-ok (get_by_order_and_product o p) _ h₅ in
    let (r, reserved, h₇) =
      >>=-eq-ok (reserve_addition (contract_of o) p q product.price db) _ h₆ in
    subst IsBalanced (ok-injective h₇) (
      addition-IsBalanced k p q r.0 o existing db r.1 b found (not-false is_new) at
        (reserve_addition-Reserved (contract_of o) p q product.price db b.prices reserved))
