-- ===== src/Orders/Status/Correction.antt =====
-- The quota ledger under the correction of a partial delivery (`_handle_order_fulfillment`).
use munavvar_a.Prelude.{
  ℕ, Bool, true, false, ◌≡◌, refl, sym, ap, subst, ◌∙◌, inl, inr, ◌&&◌, ◌+◌, ◌-◌, ◌==◌, Bool-cases,
  Option, none, some, List, [], ◌∷◌, map, find, find-le, is_some, if◌then◌else◌, arith,
}
use munavvar_a.Prelude.Keyed.{IsKeyed, AllBelow, has_key, find-key}
use munavvar_a.Store.{
  OrderStatus, Order, OrderItem, Line, Db, Result, ok, ◌>>=◌, same_status, >>=-eq-ok, ok-injective,
  find_order, update_order,
}
use munavvar_a.Orders.Quota.{Delta, decrement_quantities_used}
use munavvar_a.Orders.Quota.Counter.{used, IsPriceTable}
use munavvar_a.Orders.Quota.Deltas.{returned, decrement_quantities_used-used}
use munavvar_a.Orders.Quota.Balance.{
  quantity_of, reserved_by, order_id, item_id, IsSound, IsBalanced, AllSound-find,
  IsBalanced-update,
}
use munavvar_a.Orders.Edit.{contract_of}
use munavvar_a.Orders.Edit.Quotas.{at_contract}
use munavvar_a.Orders.Tara.{is_empty}
use munavvar_a.Orders.Fulfillment.{Adjusted, adjust_items, release_undelivered, adjust_order}
use munavvar_a.Orders.Status.Release.{as_delivered, Corrects, adjust_items-Corrects}

-- What the release of an undelivered rest does to the counters.
record Lessened (contract : Option ℕ) (ds : List Delta) (db db' : Db) : Type 0 where
  orders : db'.orders ≡ db.orders
  next_id : db'.next_id ≡ db.next_id
  prices : IsPriceTable db'.price_items
  counted :
      (c p : ℕ)
      → used c p db'.price_items ≡ used c p db.price_items - at_contract c contract (returned p ds)

-- The release, by the contract that the order is on.
release_as : Option ℕ → List Delta → Db → Result Db
release_as none ds db = ok db
release_as (some c') [] db = ok db
release_as (some c') (d ∷ ds) db = do
  pis ← decrement_quantities_used c' (d ∷ ds) db.price_items
  ok (record db { price_items = pis })

release_undelivered-as :
    (o : Order) (ds : List Delta) (db : Db)
    → release_undelivered o ds db ≡ release_as (contract_of o) ds db
unfolding release_undelivered contract_of release_as
release_undelivered-as o [] db = ground arith
release_undelivered-as o (d ∷ ds) db = ground arith

Lessened-refl :
    (contract : Option ℕ) (ds : List Delta) (db : Db)
    → IsPriceTable db.price_items
    → ((c p : ℕ) → at_contract c contract (returned p ds) ≡ 0)
    → Lessened contract ds db db
Lessened-refl contract ds db t zero = record {
  orders = refl;
  next_id = refl;
  prices = t;
  counted = λ c p. omega (arith, zero c p);
}

release_as-Lessened :
    (contract : Option ℕ) (ds : List Delta) (db : Db) {db' : Db}
    → IsPriceTable db.price_items
    → release_as contract ds db ≡ ok db'
    → Lessened contract ds db db'
unfolding release_as
release_as-Lessened none ds db t h =
    subst (Lessened none ds db) (ok-injective h) (Lessened-refl none ds db t (λ c p. refl))
release_as-Lessened (some c') [] db t h =
    subst (Lessened (some c') [] db) (ok-injective h)
      (Lessened-refl (some c') [] db t (λ c p. ground arith))
release_as-Lessened (some c') (d ∷ ds) db t h =
    let (pis, lessened, h₁) =
      >>=-eq-ok (decrement_quantities_used c' (d ∷ ds) db.price_items) _ h in
    let (table, counted) = decrement_quantities_used-used c' (d ∷ ds) db.price_items t lessened in
    subst (Lessened (some c') (d ∷ ds) db) (ok-injective h₁)
      (record { orders = refl; next_id = refl; prices = table; counted = counted })

-- `change` of `adjust_order`.
abbrev pub correct : Adjusted → Order → Order
correct a o = record o { items = a.items; total_amount = a.new_total }

correct_kept : (a : Adjusted) (o : Order) → contract_of (correct a o) ≡ contract_of o
unfolding contract_of
correct_kept a o = refl

absent-as_delivered :
    (actual : List Line) (k : ℕ) (is : List OrderItem)
    → find (has_key item_id k) is ≡ none
    → find (has_key item_id k) (map (as_delivered actual) is) ≡ none
absent-as_delivered actual k [] h = refl
absent-as_delivered actual k (i ∷ is) h = ground (arith, absent-as_delivered actual k is)

IsKeyed-as_delivered :
    (actual : List Line) (is : List OrderItem)
    → IsKeyed item_id is
    → IsKeyed item_id (map (as_delivered actual) is)
IsKeyed-as_delivered actual [] u = tt
IsKeyed-as_delivered actual (i ∷ is) u =
    (absent-as_delivered actual i.id is u.0, IsKeyed-as_delivered actual is u.1)

AllBelow-as_delivered :
    (actual : List Line) (n : ℕ) (is : List OrderItem)
    → AllBelow item_id n is
    → AllBelow item_id n (map (as_delivered actual) is)
AllBelow-as_delivered actual n [] b = tt
AllBelow-as_delivered actual n (i ∷ is) b = (b.0, AllBelow-as_delivered actual n is b.1)

correct-IsSound :
    (n : ℕ) (actual : List Line) (a : Adjusted) (o : Order)
    → Corrects actual o.items a
    → IsSound n o
    → IsSound n (correct a o)
correct-IsSound n actual a o k s = record {
  item_ids = rw k.lines (IsKeyed-as_delivered actual o.items s.item_ids);
  items_below = rw k.lines (AllBelow-as_delivered actual n o.items s.items_below);
  held = λ live has. s.held live (ap is_some (sym (correct_kept a o)) ∙ has);
  tied = λ flagged. correct_kept a o ∙ s.tied flagged;
}

correct_id : (a : Adjusted) (o : Order) → (correct a o).id ≡ o.id
correct_id a o = refl

split_units :
    (t : Bool) (p : ℕ) (actual : List Line) (a : Adjusted) (o : Order)
    → Corrects actual o.items a
    → (if t && true then quantity_of p a.items else 0)
        + (if t then returned p a.quota_deltas else 0)
      ≡ (if t && true then quantity_of p o.items else 0)
split_units false p actual a o k = refl
split_units true p actual a o k = k.units p

held_units :
    (c p : ℕ) (actual : List Line) (a : Adjusted) (o : Order) (contract : Option ℕ)
    → contract_of o ≡ contract
    → Corrects actual o.items a
    → (is_some contract ≡ true → o.quantities_reserved ≡ true)
    → reserved_by c p (correct a o) + at_contract c contract (returned p a.quota_deltas)
      ≡ reserved_by c p o
held_units c p actual a o none e k held = rw (correct_kept a o, e)
held_units c p actual a o (some c') e k held =
    rw (correct_kept a o, e, held refl) (split_units (c' == c) p actual a o k)

-- The store after the correction of an order that is not cancelled.
correction-IsBalanced :
    (actual : List Line) (k : ℕ) (a : Adjusted) (o : Order) (db db₁ : Db)
    → IsBalanced db
    → find_order k db.orders ≡ some o
    → Corrects actual o.items a
    → same_status o.status OrderStatus.cancelled ≡ false
    → Lessened (contract_of o) a.quota_deltas db db₁
    → IsBalanced (record db₁ { orders = update_order k (correct a) db₁.orders })
correction-IsBalanced actual k a o db db₁ b found corrects live r =
    let sound : IsSound db.next_id o = AllSound-find db.next_id k db.orders b.sound found in
    IsBalanced-update k (correct a) db _ b found (correct_id a) (omega (arith, r.next_id))
      (rw r.next_id (correct-IsSound db.next_id actual a o corrects sound)) (rw r.orders) r.prices
      (λ c p. omega (
        arith,
        r.counted c p,
        b.balance c p,
        find-le (reserved_by c p) (λ x. x.id == k) db.orders found,
        held_units c p actual a o (contract_of o) refl corrects (sound.held live),
      ))

find_order-own :
    (k : ℕ) (os : List Order) {o : Order}
    → IsKeyed order_id os
    → find_order k os ≡ some o
    → find_order o.id os ≡ some o
find_order-own k os u found = find-key order_id (λ x. x.id == k) os u found

-- A delivered order is corrected, or taken as it is.
pub adjust_order-IsBalanced :
    (actual : List Line) (k : ℕ) (o : Order) (db : Db) {r : Order × Db}
    → IsBalanced db
    → find_order k db.orders ≡ some o
    → same_status o.status OrderStatus.cancelled ≡ false
    → adjust_order actual o db ≡ ok r
    → IsBalanced r.1
unfolding adjust_order
adjust_order-IsBalanced actual k o db b found live h = elim (Bool-cases (is_empty actual)) [
  | inl e ↦ subst (λ r. IsBalanced r.1) (ok-injective (rw e at h)) b
  | inr e ↦
      let (a, adjusted, h₁) = >>=-eq-ok (adjust_items actual o.items) _ (rw e at h) in
      let (db₁, released, h₂) = >>=-eq-ok (release_undelivered o a.quota_deltas db) _ h₁ in
      subst (λ r. IsBalanced r.1) (ok-injective h₂)
        (correction-IsBalanced actual o.id a o db db₁ b (find_order-own k db.orders b.keyed found)
          (adjust_items-Corrects actual o.items adjusted) live
          (release_as-Lessened (contract_of o) a.quota_deltas db b.prices
            (sym (release_undelivered-as o a.quota_deltas db) ∙ released)))
]
