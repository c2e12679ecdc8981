-- ===== src/Contracts/Prices/Upsert.antt =====
-- The quota ledger under an upsert of a price item.
use munavvar_a.Prelude.{
  ℕ, Bool, true, false, ◌≡◌, refl, sym, subst, ◌∙◌, inr, ◌&&◌, ◌==◌, ltb, Option, none, some, List,
  [], ◌∷◌, ◌++◌, find, sum_of-append, arith,
}
use munavvar_a.Prelude.Keyed.{append_free-IsKeyed}
use munavvar_a.Store.{
  PriceItem, Db, ok, one_or_none-none, some-injective, >>=-eq-ok, raise_if-eq-ok, ok-injective,
}
use munavvar_a.Orders.Quota.{is_price_of}
use munavvar_a.Orders.Quota.Counter.{matches, used_by, IsPriceKeyed, IsWithin, AllWithin}
use munavvar_a.Orders.Quota.Room.{update_where-IsPriceTable}
use munavvar_a.Orders.Quota.Balance.{IsBalanced}
use munavvar_a.Contracts.Prices.{get_by_contract_and_product, upsert_price_item, set_price_item}
use munavvar_a.Contracts.Prices.Balance.{
  price_id, recounted, kept_no_row, row_found, reprice, reprice-KeepsKeys, reprice-used,
  reprice-AllWithin, reprice_room,
}

unmatched :
    (c p : ℕ) (pis : List PriceItem)
    → IsPriceKeyed pis
    → find (is_price_of c p) pis ≡ none
    → find (matches c p) pis ≡ none
unmatched c p [] k h = refl
unmatched c p (x ∷ xs) (free, active, rest) h = ground (arith, unmatched c p xs rest)

-- The row that the upsert inserts.
abbrev new_row : ℕ → ℕ → ℕ → ℕ → ℕ → PriceItem
new_row n c p price quantity = record {
  id = n;
  contract_id = c;
  product_id = p;
  price = price;
  quantity = quantity;
  quantity_used = 0;
  is_active = true;
}

find-append :
    (t : PriceItem → Bool) (xs : List PriceItem) (y : PriceItem)
    → find t xs ≡ none
    → t y ≡ false
    → find t (xs ++ y ∷ []) ≡ none
find-append t [] y h e = rw e
find-append t (x ∷ xs) y h e = ground (arith, find-append t xs y)

both_free :
    (n c p price quantity : ℕ) (x : PriceItem) (xs : List PriceItem)
    → find (matches c p) (x ∷ xs) ≡ none
    → (matches x.contract_id x.product_id (new_row n c p price quantity) ≡ false)
      × (find (matches c p) xs ≡ none)
both_free n c p price quantity x xs h = ground arith

append-IsPriceKeyed :
    (n c p price quantity : ℕ) (pis : List PriceItem)
    → IsPriceKeyed pis
    → find (matches c p) pis ≡ none
    → IsPriceKeyed (pis ++ new_row n c p price quantity ∷ [])
append-IsPriceKeyed n c p price quantity [] k h = (refl, refl, tt)
append-IsPriceKeyed n c p price quantity (x ∷ xs) (free, active, rest) h =
    let (differs, later) = both_free n c p price quantity x xs h in
    (
      find-append (matches x.contract_id x.product_id) xs (new_row n c p price quantity) free
          differs,
      active,
      append-IsPriceKeyed n c p price quantity xs rest later,
    )

append-AllWithin :
    (n c p price quantity : ℕ) (pis : List PriceItem)
    → AllWithin pis
    → AllWithin (pis ++ new_row n c p price quantity ∷ [])
append-AllWithin n c p price quantity [] w = (inr (omega arith), tt)
append-AllWithin n c p price quantity (x ∷ xs) w =
    (w.0, append-AllWithin n c p price quantity xs w.1)

new_row-used : (c' p' n c p price quantity : ℕ) → used_by c' p' (new_row n c p price quantity) ≡ 0
new_row-used c' p' n c p price quantity = ground arith

upsert-IsBalanced :
    (existing : Option PriceItem) (c p price quantity : ℕ) (db : Db) {db' : Db}
    → IsBalanced db
    → find (λ pi. pi.id == db.next_id) db.price_items ≡ none
    → get_by_contract_and_product c p db.price_items ≡ ok existing
    → upsert_price_item existing c p price quantity db ≡ ok db'
    → IsBalanced db'
unfolding upsert_price_item get_by_contract_and_product
upsert-IsBalanced none c p price quantity db b fresh at h =
    let unused : find (matches c p) db.price_items ≡ none =
      unmatched c p db.price_items b.prices.keys
        (kept_no_row (is_price_of c p) db.price_items (one_or_none-none _ at)) in
    subst IsBalanced (ok-injective h) (
      recounted db _ b refl (omega arith)
        (record {
          ids =
              append_free-IsKeyed price_id db.price_items (new_row db.next_id c p price quantity)
                b.prices.ids fresh;
          keys =
              append-IsPriceKeyed db.next_id c p price quantity db.price_items b.prices.keys unused;
          within = append-AllWithin db.next_id c p price quantity db.price_items b.prices.within;
        })
        (λ c' p'. omega (
          arith,
          sum_of-append (used_by c' p') db.price_items (new_row db.next_id c p price quantity ∷ []),
          new_row-used c' p' db.next_id c p price quantity,
        )))
upsert-IsBalanced (some a) c p price quantity db b fresh at h =
    let (room, h₁) = raise_if-eq-ok (ltb 0 quantity && ltb quantity a.quantity_used) _ _ h in
    let row = row_found c p db.price_items b.prices at in
    subst IsBalanced (ok-injective h₁) (
      recounted db _ b refl (omega arith)
        (update_where-IsPriceTable (λ pi. pi.id == a.id) (reprice price quantity) db.price_items
          (reprice-KeepsKeys price quantity)
          (reprice-AllWithin a.id price quantity db.price_items
            (λ x again.
              subst (λ y. IsWithin (reprice price quantity y)) (some-injective (sym row ∙ again))
                (reprice_room price quantity a room))
            b.prices.ids b.prices.within)
          b.prices)
        (λ c' p'. reprice-used c' p' a.id price quantity db.price_items))

-- From a store whose quota ledger balances and whose next id no price item has, an upsert of a price
-- item that is accepted leads to a store whose quota ledger balances: its counters still are what
-- the orders hold, and the new limit is not below what is used.
pub set_price_item-IsBalanced :
    (c p price quantity : ℕ) (db : Db) {db' : Db}
    → IsBalanced db
    → find (λ pi. pi.id == db.next_id) db.price_items ≡ none
    → set_price_item c p price quantity db ≡ ok db'
    → IsBalanced db'
unfolding set_price_item
set_price_item-IsBalanced c p price quantity db b fresh h =
    let (existing, at, h₁) = >>=-eq-ok (get_by_contract_and_product c p db.price_items) _ h in
    upsert-IsBalanced existing c p price quantity db b fresh at h₁
