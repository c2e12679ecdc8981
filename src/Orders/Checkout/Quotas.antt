-- ===== src/Orders/Checkout/Quotas.antt =====
-- What the parts of a checkout do to the quota ledger.
use munavvar_a.Prelude.{
  ℕ, Bool, true, false, ◌≡◌, refl, sym, subst, ◌∙◌, inl, inr, ◌+◌, ◌==◌, Bool-cases, or-false,
  ==_iff, Option, none, some, List, [], ◌∷◌, elem, find, find-test, find-keep, arith,
}
use munavvar_a.Store.{
  some-injective, PaymentMethod, Role, PriceItem, Line, Db, ok, same_payment_method, >>=-eq-ok,
  raise_if-eq-ok, or_raise-eq-ok, ok-injective,
}
use munavvar_a.Inventory.Ledger.{units}
use munavvar_a.Orders.Quota.{
  Delta, exceeds, get_for_products_locked, increment_quantities_used, plan_increments,
  check_and_reserve_quantities, get_and_validate_contract_locked,
}
use munavvar_a.Orders.Quota.Counter.{used, IsPriceTable}
use munavvar_a.Orders.Quota.Deltas.{Aims, Planned, increment_quantities_used-used}
use munavvar_a.Orders.Quota.Room.{IsFresh, Fits}
use munavvar_a.Orders.Edit.Quotas.{at_contract}
use munavvar_a.Orders.Cart.{product_ids, has_duplicates}
use munavvar_a.Orders.Checkout.{
  OrderCreate, Agreement, ensure_in_contract, find_agreement, reserve_agreed,
}
use munavvar_a.Orders.Checkout.Entry.{locked_keys, locked_row}

-- What the lock gives is a row of the contract's price list.
locked-Aims :
    (c p : ℕ) (ids : List ℕ) (pis : List PriceItem) {a : PriceItem}
    → IsPriceTable pis
    → find (λ pi. pi.product_id == p) (get_for_products_locked c ids pis) ≡ some a
    → Aims c p a.id pis
unfolding get_for_products_locked
locked-Aims c p ids pis {a} t found b again =
    let same : a ≡ b = some-injective (sym (locked_row c p ids pis t found) ∙ again) in
    subst (λ x. (x.contract_id ≡ c) × (x.product_id ≡ p)) same
      (locked_keys c p ids a (find-test _ pis (find-keep _ _ pis found)))

locked_product :
    (c p : ℕ) (ids : List ℕ) (pis : List PriceItem) {a : PriceItem}
    → IsPriceTable pis
    → find (λ pi. pi.product_id == p) (get_for_products_locked c ids pis) ≡ some a
    → a.product_id ≡ p
locked_product c p ids pis {a} t found =
    (locked-Aims c p ids pis t found a (locked_row c p ids pis t found)).1

plan_increments-Planned :
    (c : ℕ) (ids : List ℕ) (pis : List PriceItem) (ls : List Line) {ds : List Delta}
    → IsPriceTable pis
    → plan_increments (get_for_products_locked c ids pis) ls ≡ ok ds
    → Planned c pis ls ds
unfolding plan_increments
plan_increments-Planned c ids pis [] t h = sym (ok-injective h)
plan_increments-Planned c ids pis (l ∷ ls) t h =
    let locked : List PriceItem = get_for_products_locked c ids pis in
    let (pi, found, h₁) = or_raise-eq-ok (find (λ x. x.product_id == l.product_id) locked) _ _ h in
    let (_, h₂) = raise_if-eq-ok (exceeds pi l.quantity) _ _ h₁ in
    let (rest, planned, h₃) = >>=-eq-ok (plan_increments locked ls) _ h₂ in
    subst (Planned c pis (l ∷ ls)) (ok-injective h₃) (
      refl,
      locked-Aims c l.product_id ids pis t found,
      plan_increments-Planned c ids pis ls t planned,
    )

not_elem : (b : Bool) (p q : ℕ) (ks : List ℕ) → p ≡ q → elem p (q ∷ ks) ≡ false → b ≡ false
not_elem b p q ks same e = ground arith

Planned-IsFresh :
    (c p : ℕ) (pis : List PriceItem) (ls : List Line) (ds : List Delta) {pi : PriceItem}
    → find (λ x. x.id == pi.id) pis ≡ some pi
    → pi.product_id ≡ p
    → elem p (product_ids ls) ≡ false
    → Planned c pis ls ds
    → IsFresh pi.id ds
unfolding product_ids
Planned-IsFresh c p pis [] [] row at e plan = tt
Planned-IsFresh c p pis [] (d ∷ ds) row at e plan = cc
Planned-IsFresh c p pis (l ∷ ls) [] row at e plan = absurd plan
Planned-IsFresh c p pis (l ∷ ls) (d ∷ ds) {pi} row at e (_, aim, plan) = (
  elim (Bool-cases (d.key == pi.id)) [
    | inr f ↦ f
    | inl f ↦
        let key : d.key ≡ pi.id = (==_iff d.key pi.id).0 f in
        let same : pi.product_id ≡ l.product_id =
          (aim pi (subst (λ j. find (λ x. x.id == j) pis ≡ some pi) (sym key) row)).1 in
        not_elem _ p l.product_id (product_ids ls) (sym at ∙ same) e
  ],
  Planned-IsFresh c p pis ls ds row at (ground arith) plan,
)

-- A cart without duplicates fits: each line has room in a row of its own.
plan_increments-Fits :
    (c : ℕ) (ids : List ℕ) (pis : List PriceItem) (ls : List Line) {ds : List Delta}
    → IsPriceTable pis
    → has_duplicates (product_ids ls) ≡ false
    → plan_increments (get_for_products_locked c ids pis) ls ≡ ok ds
    → Fits ds pis
unfolding plan_increments has_duplicates product_ids
plan_increments-Fits c ids pis [] t u h = subst (λ ds. Fits ds pis) (ok-injective h) tt
plan_increments-Fits c ids pis (l ∷ ls) t u h =
    let locked : List PriceItem = get_for_products_locked c ids pis in
    let (pi, found, h₁) = or_raise-eq-ok (find (λ x. x.product_id == l.product_id) locked) _ _ h in
    let (room, h₂) = raise_if-eq-ok (exceeds pi l.quantity) _ _ h₁ in
    let (rest, planned, h₃) = >>=-eq-ok (plan_increments locked ls) _ h₂ in
    let (alone, others) = or-false (elem l.product_id (product_ids ls)) _ u in
    let row = locked_row c l.product_id ids pis t found in
    subst (λ ds. Fits ds pis) (ok-injective h₃)
      (
        (λ b again.
            subst (λ x. exceeds x l.quantity ≡ false) (some-injective (sym row ∙ again)) room),
        Planned-IsFresh c l.product_id pis ls rest row
            (locked_product c l.product_id ids pis t found) alone
            (plan_increments-Planned c ids pis ls t planned),
        plan_increments-Fits c ids pis ls t others planned,
      )

-- What block A finds: a contract with its own locked rows, and only for payment by contract.
pub data Agreed (dto : OrderCreate) (db : Db) : Agreement → Type 0 where
  without : Agreed dto db (record { contract_id = none; locked = [] })
  with_contract :
      (c : ℕ)
      → same_payment_method dto.payment_method PaymentMethod.contract ≡ true
      → Agreed dto db (record {
        contract_id = some c;
        locked = get_for_products_locked c (product_ids dto.items) db.price_items;
      })

pub find_agreement-Agreed :
    (dto : OrderCreate) (client : ℕ) (role : Role) (today : ℕ) (db : Db) {a : Agreement}
    → find_agreement dto client role today db ≡ ok a
    → Agreed dto db a
unfolding find_agreement
find_agreement-Agreed dto client role today db h =
    elim (Bool-cases (same_payment_method dto.payment_method PaymentMethod.contract)) [
      | inr e ↦ subst (Agreed dto db) (ok-injective (rw e at h)) without
      | inl e ↦
          let (contract, _, h₁) =
            >>=-eq-ok (get_and_validate_contract_locked client role today db) _ (rw e at h) in
          let (_, _, h₂) =
            >>=-eq-ok
              (ensure_in_contract
                (get_for_products_locked contract.id (product_ids dto.items) db.price_items)
                (product_ids dto.items))
              _ h₁ in
          subst (Agreed dto db) (ok-injective h₂) (with_contract contract.id e)
    ]

-- What block B does to the counters.
pub record Taken (contract : Option ℕ) (ls : List Line) (db db' : Db) : Type 0 where
  pub orders : db'.orders ≡ db.orders
  pub next_id : db'.next_id ≡ db.next_id
  pub prices : IsPriceTable db'.price_items
  pub counted :
      (c p : ℕ)
      → used c p db'.price_items ≡ used c p db.price_items + at_contract c contract (units p ls)

pub reserve_agreed-Taken :
    (dto : OrderCreate) (db : Db) (a : Agreement) {db' : Db}
    → IsPriceTable db.price_items
    → has_duplicates (product_ids dto.items) ≡ false
    → Agreed dto db a
    → reserve_agreed a dto.items db ≡ ok db'
    → Taken a.contract_id dto.items db db'
unfolding reserve_agreed check_and_reserve_quantities
reserve_agreed-Taken dto db _ t u without h =
    subst (Taken none dto.items db) (ok-injective h)
      (record { orders = refl; next_id = refl; prices = t; counted = λ c p. omega arith })
reserve_agreed-Taken dto db _ t u (with_contract k e) h =
    let locked : List PriceItem =
      get_for_products_locked k (product_ids dto.items) db.price_items in
    let (ds, planned, h₁) = >>=-eq-ok (plan_increments locked dto.items) _ h in
    let (pis, more, h₂) = >>=-eq-ok (increment_quantities_used ds db.price_items) _ h₁ in
    let (table, counted) =
      increment_quantities_used-used k dto.items ds db.price_items t
        (plan_increments-Fits k (product_ids dto.items) db.price_items dto.items t u planned)
        (plan_increments-Planned k (product_ids dto.items) db.price_items dto.items t planned)
        more in
    subst (Taken (some k) dto.items db) (ok-injective h₂)
      (record { orders = refl; next_id = refl; prices = table; counted = counted })
