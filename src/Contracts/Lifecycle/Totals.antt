-- ===== src/Contracts/Lifecycle/Totals.antt =====
-- What `product_totals` adds up to, and what orders hold before and after they are closed.
use munavvar_a.Prelude.{
  ℕ, Bool, true, false, ◌≡◌, ◌+◌, ◌-◌, ◌==◌, ◌&&◌, refl, ap, ◌∙◌, inl, inr, Bool-cases, ==_iff,
  some, String, List, [], ◌∷◌, map, sum_of, if◌then◌else◌, arith,
}
use munavvar_a.Store.{Order, OrderItem, Line, PriceItem, ok, ok-injective}
use munavvar_a.Inventory.Ledger.{units}
use munavvar_a.Contracts.Lifecycle.{is_cancellable, add_items, product_totals, release_totals}
use munavvar_a.Contracts.Lifecycle.Closing.{close_with}
use munavvar_a.Orders.Dict.{get_or_zero, set_key, add_key}
use munavvar_a.Orders.Quota.{Delta}
use munavvar_a.Orders.Quota.Counter.{used, IsPriceTable}
use munavvar_a.Orders.Quota.Deltas.{returned, in_contract, decrement_quantities_used-used}
use munavvar_a.Orders.Quota.Balance.{quantity_of, reserved_by, IsSound}
use munavvar_a.Orders.Edit.{contract_of}

abbrev delta : Line → Delta
delta l = record { key = l.product_id; amount = l.quantity }

returned-units : (p : ℕ) (d : List Line) → returned p (map delta d) ≡ units p d
returned-units p [] = refl
returned-units p (l ∷ ls) = omega (arith, returned-units p ls)

units-set_key :
    (p k v : ℕ) (d : List Line)
    → units p (set_key k v d) + (if k == p then get_or_zero k d else 0)
      ≡ units p d + (if k == p then v else 0)
unfolding set_key get_or_zero
units-set_key p k v [] = ground arith
units-set_key p k v (e ∷ d) = elim (Bool-cases (e.product_id == k)) [
  | inl same ↦
      let at : e.product_id ≡ k = (==_iff e.product_id k).0 same in rw (same, at) (ground arith)
  | inr other ↦ rw other (omega (arith, units-set_key p k v d))
]

units-add_key :
    (p k v : ℕ) (d : List Line) → units p (add_key k v d) ≡ units p d + (if k == p then v else 0)
unfolding add_key
units-add_key p k v d = ground (arith, units-set_key p k (get_or_zero k d + v) d)

units-add_items :
    (p : ℕ) (is : List OrderItem) (d : List Line)
    → units p (add_items is d) ≡ units p d + quantity_of p is
unfolding add_items
units-add_items p [] d = omega arith
units-add_items p (i ∷ is) d = omega (
  arith,
  units-add_items p is (add_key i.product_id i.quantity d),
  units-add_key p i.product_id i.quantity d,
)

-- The dict adds up what the orders have of each product.
pub units-product_totals :
    (p : ℕ) (os : List Order) (d : List Line)
    → units p (product_totals os d) ≡ units p d + sum_of (λ o. quantity_of p o.items) os
unfolding product_totals
units-product_totals p [] d = omega arith
units-product_totals p (o ∷ os) d =
    omega (arith, units-product_totals p os (add_items o.items d), units-add_items p o.items d)

pub release_totals-used :
    (k : ℕ) (d : List Line) (pis : List PriceItem) {pis' : List PriceItem}
    → IsPriceTable pis
    → release_totals k d pis ≡ ok pis'
    → IsPriceTable pis' × ((c p : ℕ) → used c p pis' ≡ used c p pis - in_contract c k (units p d))
unfolding release_totals
release_totals-used k [] pis t h = rw (← ok-injective h) (t, λ c p. ground arith)
release_totals-used k (l ∷ ls) pis t h =
    let (table, left) = decrement_quantities_used-used k (map delta (l ∷ ls)) pis t h in
    (
      table,
      λ c p.
          let same : returned p (map delta (l ∷ ls)) ≡ units p (l ∷ ls) =
            returned-units p (l ∷ ls) in
          left c p ∙ ap (λ (n : ℕ). used c p pis - in_contract c k n) same,
    )

off : (t : Bool) (n : ℕ) → (if t && false then n else 0) ≡ 0
off t n = ground arith

pub closed_holds :
    (c p : ℕ) (o : Order) (flag : Bool)
    → o.quantities_reserved ≡ flag
    → flag ≡ false
    → reserved_by c p o ≡ 0
closed_holds c p o flag e f = rw (e ∙ f) (off _ _)

-- A closed order holds nothing.
pub closing_holds :
    (c p : ℕ) (reason : String) (b : Bool) (o : Order)
    → o.quantities_reserved ≡ b
    → reserved_by c p (close_with b reason o) ≡ 0
closing_holds c p reason true o e = off _ _
closing_holds c p reason false o e = closed_holds c p (close_with false reason o) false e refl

cancellable_contract : (k : ℕ) (o : Order) → is_cancellable k o ≡ true → o.contract_id ≡ some k
cancellable_contract k o h = ground arith

-- What a cancellable order holds, it holds of the contract.
pub flagged_part :
    (k c p n : ℕ) (o : Order)
    → IsSound n o
    → is_cancellable k o ≡ true
    → o.quantities_reserved ≡ true
    → reserved_by c p o ≡ in_contract c k (quantity_of p o.items)
flagged_part k c p n o s cancellable flagged =
    let at : contract_of o ≡ some k = s.tied flagged ∙ cancellable_contract k o cancellable in
    rw (at, flagged) (ground arith)

pub in_contract_add :
    (c k m n : ℕ) → in_contract c k (m + n) ≡ in_contract c k m + in_contract c k n
in_contract_add c k m n = ground arith
