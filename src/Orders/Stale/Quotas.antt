-- ===== src/Orders/Stale/Quotas.antt =====
-- The quota ledger under `expire_stale_orders`.
use munavvar_a.Prelude.{
  ℕ, zero, suc, Bool, true, false, ◌≡◌, ◌≢◌, ◌==◌, ◌-◌, refl, sym, subst, ◌∙◌, inl, inr, Bool-cases,
  ==_iff, Option, none, some, String, List, [], ◌∷◌, map, find, keep, take, arith, if◌then◌else◌,
}
use munavvar_a.Prelude.Keyed.{IsKeyed, has_key, keep-IsKeyed, find-update_where_ne}
use munavvar_a.Store.{OrderStatus, Order, Db, ok, >>=-eq-ok, ok-injective, find_order}
use munavvar_a.Orders.Edit.{contract_of}
use munavvar_a.Orders.Frame.{log_transition-Frame}
use munavvar_a.Orders.Pickup.{log_transition, set_status}
use munavvar_a.Orders.Quota.{delta_of, release_order_quantities, decrement_quantities_used}
use munavvar_a.Orders.Quota.Balance.{order_id, IsBalanced, IsBalanced-Frame, IsBalanced-bystander}
use munavvar_a.Orders.Status.Quotas.{reason-IsBystander}
use munavvar_a.Orders.Status.Transition.{set_status-IsBalanced, set_status-find}
use munavvar_a.Orders.Status.Release.{release_order_quantities-IsBalanced}
use munavvar_a.Orders.Stale.{
  is_stale, get_stale_orders, release_stale, expire_order, expire_orders, StaleRun,
  expire_stale_orders,
}

release_found :
    (o : Order) (contract : Option ℕ) (db : Db) {db' : Db}
    → contract_of o ≡ contract
    → o.quantities_reserved ≡ true
    → IsBalanced db
    → find_order o.id db.orders ≡ some (record o { status = OrderStatus.cancelled })
    → (elim contract [ none ↦ ok db | some c ↦ release_order_quantities c o db ]) ≡ ok db'
    → IsBalanced db'
unfolding contract_of
release_found o none db at flag b found h = subst IsBalanced (ok-injective h) b
release_found o (some c) db at flag b found h =
    release_order_quantities-IsBalanced c (record o { status = OrderStatus.cancelled }) o db b found
      refl at flag refl h

release_stale-IsBalanced :
    (o : Order) (db : Db) {db' : Db}
    → IsBalanced db
    → find_order o.id db.orders ≡ some (record o { status = OrderStatus.cancelled })
    → release_stale o db ≡ ok db'
    → IsBalanced db'
unfolding release_stale contract_of
release_stale-IsBalanced o db b found h = elim (Bool-cases o.quantities_reserved) [
  | inl e ↦ release_found o (contract_of o) db refl e b found (rw e at h)
  | inr e ↦ subst IsBalanced (ok-injective (rw e at h)) b
]

expire_order-IsBalanced :
    (s : OrderStatus) (reason : String) (admin : Option ℕ) (o : Order) (db : Db) {db' : Db}
    → IsBalanced db
    → find_order o.id db.orders ≡ some o
    → expire_order s reason admin o db ≡ ok db'
    → IsBalanced db'
unfolding expire_order
expire_order-IsBalanced s reason admin o db b found h =
    let (mid, released, h₁) =
      >>=-eq-ok (release_stale o (set_status o.id OrderStatus.cancelled db)) _ h in
    let cancelled : IsBalanced (set_status o.id OrderStatus.cancelled db) =
      set_status-IsBalanced o.id OrderStatus.cancelled db b found (λ live. cc) in
    let b₁ : IsBalanced mid =
      release_stale-IsBalanced o _ cancelled (set_status-find o.id OrderStatus.cancelled db found)
        released in
    subst IsBalanced (ok-injective h₁) (
      IsBalanced-Frame
        (log_transition-Frame o.id (some s) OrderStatus.cancelled admin (some reason) _)
        (IsBalanced-bystander o.id (λ x. record x { cancellation_reason = some reason }) mid
          (reason-IsBystander (some reason)) (λ x _ live. live) b₁))

-- An expired order leaves every other one as it is.
abbrev Same : ℕ → Db → Db → Type 0
Same j db db' = find_order j db'.orders ≡ find_order j db.orders

release_part-other :
    (j : ℕ) (o : Order) (flag : Bool) (contract : Option ℕ) (db : Db) {db' : Db}
    → j ≢ o.id
    → (if flag
        then elim contract [ none ↦ ok db | some c ↦ release_order_quantities c o db ]
        else ok db)
      ≡ ok db'
    → Same j db db'
unfolding release_order_quantities
release_part-other j o false contract db other h = subst (Same j db) (ok-injective h) refl
release_part-other j o true none db other h = subst (Same j db) (ok-injective h) refl
release_part-other j o true (some c) db other h =
    let (pis, _, h₁) =
      >>=-eq-ok (decrement_quantities_used c (map delta_of o.items) db.price_items) _ h in
    subst (Same j db) (ok-injective h₁) (
      find-update_where_ne order_id j o.id (λ x. record x { quantities_reserved = false }) db.orders
        (λ x. refl) other)

expire_order-other :
    (j : ℕ) (s : OrderStatus) (reason : String) (admin : Option ℕ) (o : Order) (db : Db) {db' : Db}
    → j ≢ o.id
    → expire_order s reason admin o db ≡ ok db'
    → Same j db db'
unfolding expire_order release_stale set_status log_transition
expire_order-other j s reason admin o db other h =
    let (mid, released, h₁) =
      >>=-eq-ok (release_stale o (set_status o.id OrderStatus.cancelled db)) _ h in
    subst (Same j db) (ok-injective h₁) (
      find-update_where_ne order_id j o.id (λ x. record x { cancellation_reason = some reason })
        mid.orders (λ x. refl) other
      ∙ release_part-other j o o.quantities_reserved (contract_of o) _ other released
      ∙ find-update_where_ne order_id j o.id (λ x. record x { status = OrderStatus.cancelled })
          db.orders (λ x. refl) other)

-- The orders of a list are the rows that their ids find.
abbrev pub AllFound : List Order → List Order → Type 0
AllFound [] rows = Unit
AllFound (o ∷ os) rows = (find_order o.id rows ≡ some o) × AllFound os rows

absent_ne :
    (j k : ℕ) (os : List Order) {o : Order}
    → find (has_key order_id k) os ≡ none
    → find (has_key order_id j) os ≡ some o
    → j ≢ k
absent_ne j k os {o} free found e =
    let clash : find (has_key order_id k) os ≡ some o =
      subst (λ i. find (has_key order_id i) os ≡ some o) e found in
    cc

differs : (k : ℕ) (x : Order) → (x.id == k) ≡ false → x.id ≢ k
differs k x h e = ground arith

pub AllFound-expired :
    (s : OrderStatus) (reason : String) (admin : Option ℕ) (o : Order) (os : List Order)
    (db db' : Db)
    → find (has_key order_id o.id) os ≡ none
    → expire_order s reason admin o db ≡ ok db'
    → AllFound os db.orders
    → AllFound os db'.orders
AllFound-expired s reason admin o [] db db' free h found = tt
AllFound-expired s reason admin o (x ∷ xs) db db' free h found =
    let other : (x.id == o.id) ≡ false = ground arith in
    (
      expire_order-other x.id s reason admin o db (differs o.id x other) h ∙ found.0,
      AllFound-expired s reason admin o xs db db' (ground arith) h found.1,
    )

expire_orders-IsBalanced :
    (s : OrderStatus) (reason : String) (admin : Option ℕ) (os : List Order) (db : Db) {db' : Db}
    → IsBalanced db
    → IsKeyed order_id os
    → AllFound os db.orders
    → expire_orders s reason admin os db ≡ ok db'
    → IsBalanced db'
unfolding expire_orders
expire_orders-IsBalanced s reason admin [] db b u found h = subst IsBalanced (ok-injective h) b
expire_orders-IsBalanced s reason admin (o ∷ os) db b u found h =
    let (mid, first, rest) = >>=-eq-ok (expire_order s reason admin o db) _ h in
    expire_orders-IsBalanced s reason admin os mid
      (expire_order-IsBalanced s reason admin o db b found.0 first) u.1
      (AllFound-expired s reason admin o os db mid u.0 first found.1) rest

take-none :
    (n k : ℕ) (xs : List Order)
    → find (has_key order_id k) xs ≡ none
    → find (has_key order_id k) (take n xs) ≡ none
take-none zero k xs h = refl
take-none (suc n) k [] h = refl
take-none (suc n) k (x ∷ xs) h = ground (arith, take-none n k xs)

pub take-IsKeyed : (n : ℕ) (xs : List Order) → IsKeyed order_id xs → IsKeyed order_id (take n xs)
take-IsKeyed zero xs u = tt
take-IsKeyed (suc n) [] u = tt
take-IsKeyed (suc n) (x ∷ xs) u = (take-none n x.id xs u.0, take-IsKeyed n xs u.1)

pub take-AllFound : (n : ℕ) (xs rows : List Order) → AllFound xs rows → AllFound (take n xs) rows
take-AllFound zero xs rows h = tt
take-AllFound (suc n) [] rows h = tt
take-AllFound (suc n) (x ∷ xs) rows h = (h.0, take-AllFound n xs rows h.1)

AllFound-cons :
    (x : Order) (os rows : List Order)
    → find (has_key order_id x.id) rows ≡ none
    → AllFound os rows
    → AllFound os (x ∷ rows)
AllFound-cons x [] rows free h = tt
AllFound-cons x (o ∷ os) rows free h = elim (Bool-cases (x.id == o.id)) [
  | inr e ↦ (rw e h.0, AllFound-cons x os rows free h.1)
  | inl e ↦
      let same : x.id ≡ o.id = (==_iff x.id o.id).0 e in
      absurd (absent_ne o.id x.id rows free h.0 (sym same))
]

self_found : (x : Order) (xs : List Order) → find_order x.id (x ∷ xs) ≡ some x
self_found x xs = ground arith

pub keep-AllFound :
    (t : Order → Bool) (xs : List Order) → IsKeyed order_id xs → AllFound (keep t xs) xs
keep-AllFound t [] u = tt
keep-AllFound t (x ∷ xs) u =
    let rest = AllFound-cons x (keep t xs) xs u.0 (keep-AllFound t xs u.1) in
    elim (Bool-cases (t x)) [
      | inl e ↦ subst (λ os. AllFound os (x ∷ xs)) (sym (kept e)) (self_found x xs, rest)
      | inr e ↦ subst (λ os. AllFound os (x ∷ xs)) (sym (dropped e)) rest
    ]
  where
    kept : t x ≡ true → keep t (x ∷ xs) ≡ x ∷ keep t xs
    kept e = rw e

    dropped : t x ≡ false → keep t (x ∷ xs) ≡ keep t xs
    dropped e = rw e

pub batch-IsBalanced :
    (date_of : ℕ → ℕ) (older : ℕ) (s : OrderStatus) (reason : String) (admin : Option ℕ) (db : Db)
    {db' : Db}
    → IsBalanced db
    → expire_orders s reason admin (get_stale_orders date_of older s db.orders) db ≡ ok db'
    → IsBalanced db'
unfolding get_stale_orders
batch-IsBalanced date_of older s reason admin db b h =
    expire_orders-IsBalanced s reason admin _ db b
      (take-IsKeyed 500 _ (keep-IsKeyed order_id (is_stale date_of older s) db.orders b.keyed))
      (take-AllFound 500 _ db.orders (keep-AllFound (is_stale date_of older s) db.orders b.keyed)) h

pub expire_stale_orders-IsBalanced :
    (run : StaleRun) (db : Db) {db' : Db}
    → IsBalanced db
    → expire_stale_orders run db ≡ ok db'
    → IsBalanced db'
unfolding expire_stale_orders
expire_stale_orders-IsBalanced run db b h =
    let (mid, first, rest) =
      >>=-eq-ok
        (expire_orders OrderStatus.new run.new_reason run.admin_id
          (get_stale_orders run.created_at (run.now - run.max_age_hours) OrderStatus.new db.orders)
          db)
        _ h in
    batch-IsBalanced run.updated_at (run.now - run.assigned_max_age_hours) OrderStatus.assigned
      run.assigned_reason run.admin_id mid
      (batch-IsBalanced run.created_at (run.now - run.max_age_hours) OrderStatus.new run.new_reason
        run.admin_id db b first)
      rest
