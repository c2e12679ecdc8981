-- ===== src/Orders/Quota/Deltas.antt =====
-- The lists of increments and decrements: what a whole call does to the counters.
use munavvar_a.Prelude.{
  ℕ, false, not, ◌≡◌, sym, ◌∙◌, inl, inr, ◌+◌, ◌-◌, ◌==◌, Bool-cases, some, List, [], ◌∷◌, any,
  find, sum_of, update_where, if◌then◌else◌, arith,
}
use munavvar_a.Store.{Line, PriceItem, ok, ok-injective}
use munavvar_a.Orders.Quota.{
  is_price_of, use_more, use_less, Delta, increment_quantities_used, decrement_quantities_used,
}
use munavvar_a.Inventory.Ledger.{units}
use munavvar_a.Orders.Quota.Counter.{
  used, taken, IsPriceTable, use_more-KeepsKeys, use_less-KeepsKeys, used-use_more, used-use_less,
}
use munavvar_a.Orders.Quota.Room.{
  update_where-IsPriceTable, use_less-AllWithin, use_more-AllWithin, Fits, Fits-update,
}

-- How much a list of deltas gives back of a product.
abbrev pub returned : ℕ → List Delta → ℕ
returned p = sum_of (λ d. if d.key == p then d.amount else 0)

abbrev pub in_contract : ℕ → ℕ → ℕ → ℕ
in_contract c c' n = if c' == c then n else 0

taken_sum :
    (c p c' : ℕ) (d : Delta) (ds : List Delta)
    → in_contract c c' (returned p (d ∷ ds))
      ≡ taken c p c' d.key d.amount + in_contract c c' (returned p ds)
taken_sum c p c' d ds = elim (Bool-cases (c' == c)) [ inl e ↦ rw e | inr e ↦ rw e ]

decrement_step :
    (c' : ℕ) (d : Delta) (ds : List Delta) (pis : List PriceItem) {pis' : List PriceItem}
    → decrement_quantities_used c' (d ∷ ds) pis ≡ ok pis'
    → decrement_quantities_used c' ds (update_where (is_price_of c' d.key) (use_less d.amount) pis)
      ≡ ok pis'
unfolding decrement_quantities_used
decrement_step c' d ds pis h = ground arith

increment_step :
    (d : Delta) (ds : List Delta) (pis : List PriceItem) {pis' : List PriceItem}
    → increment_quantities_used (d ∷ ds) pis ≡ ok pis'
    → (not (any (λ pi. pi.id == d.key) pis) ≡ false)
      × (increment_quantities_used ds (update_where (λ pi. pi.id == d.key) (use_more d.amount) pis)
          ≡ ok pis')
unfolding increment_quantities_used
increment_step d ds pis h = ground arith

-- What the decrements of a call leave of a counter.
pub decrement_quantities_used-used :
    (c' : ℕ) (ds : List Delta) (pis : List PriceItem) {pis' : List PriceItem}
    → IsPriceTable pis
    → decrement_quantities_used c' ds pis ≡ ok pis'
    → IsPriceTable pis'
      × ((c p : ℕ) → used c p pis' ≡ used c p pis - in_contract c c' (returned p ds))
unfolding decrement_quantities_used
decrement_quantities_used-used c' [] pis t h = rw (← ok-injective h) (t, λ c p. ground arith)
decrement_quantities_used-used c' (d ∷ ds) pis {pis'} t h =
    let (t', rest) =
      decrement_quantities_used-used c' ds _
        (update_where-IsPriceTable (is_price_of c' d.key) (use_less d.amount) pis
          (use_less-KeepsKeys d.amount)
          (use_less-AllWithin (is_price_of c' d.key) d.amount pis t.within) t)
        (decrement_step c' d ds pis h) in
    (
      t',
      λ c p.
          omega (
            arith,
            rest c p,
            used-use_less c p c' d.key d.amount pis t.keys,
            taken_sum c p c' d ds,
          ),
    )

-- The row that a delta addresses is the one of a product in a contract.
abbrev pub Aims : ℕ → ℕ → ℕ → List PriceItem → Type 0
Aims c' p' k pis =
    (a : PriceItem)
    → find (λ pi. pi.id == k) pis ≡ some a
    → (a.contract_id ≡ c') × (a.product_id ≡ p')

abbrev pub Planned : ℕ → List PriceItem → List Line → List Delta → Type 0
Planned c' pis [] ds = ds ≡ []
Planned c' pis (l ∷ ls) [] = ⊥
Planned c' pis (l ∷ ls) (d ∷ ds) =
    (d.amount ≡ l.quantity) × Aims c' l.product_id d.key pis × Planned c' pis ls ds

found_before :
    (k j delta : ℕ) (pis : List PriceItem) {a : PriceItem}
    → find (λ pi. pi.id == k) (update_where (λ pi. pi.id == j) (use_more delta) pis) ≡ some a
    → (b : PriceItem) × (find (λ pi. pi.id == k) pis ≡ some b)
      × (b.contract_id ≡ a.contract_id)
      × (b.product_id ≡ a.product_id)
found_before k j delta [] found = cc
found_before k j delta (x ∷ xs) {a} found = elim (Bool-cases (x.id == k)) [
  | inl e ↦ (x, rw e, ground arith, ground arith)
  | inr e ↦ let (b, f, q, r) = found_before k j delta xs {a = a} (ground arith) in (b, rw e f, q, r)
]

Aims-update :
    (c' p' k j delta : ℕ) (pis : List PriceItem)
    → Aims c' p' k pis
    → Aims c' p' k (update_where (λ pi. pi.id == j) (use_more delta) pis)
Aims-update c' p' k j delta pis aim a found =
    let (b, before, same_c, same_p) = found_before k j delta pis found in
    let (is_c, is_p) = aim b before in (sym same_c ∙ is_c, sym same_p ∙ is_p)

Planned-update :
    (c' j delta : ℕ) (pis : List PriceItem) (ls : List Line) (ds : List Delta)
    → Planned c' pis ls ds
    → Planned c' (update_where (λ pi. pi.id == j) (use_more delta) pis) ls ds
Planned-update c' j delta pis [] ds h = h
Planned-update c' j delta pis (l ∷ ls) [] h = h
Planned-update c' j delta pis (l ∷ ls) (d ∷ ds) (e, aim, rest) =
    (e, Aims-update c' l.product_id d.key j delta pis aim, Planned-update c' j delta pis ls ds rest)

some_row :
    (k : ℕ) (pis : List PriceItem)
    → not (any (λ pi. pi.id == k) pis) ≡ false
    → (a : PriceItem) × (find (λ pi. pi.id == k) pis ≡ some a)
some_row k [] h = cc
some_row k (x ∷ xs) h = elim (Bool-cases (x.id == k)) [
  | inl e ↦ (x, rw e)
  | inr e ↦ let (a, f) = some_row k xs (rw e at h) in (a, rw e f)
]

-- One increment, seen from a product of a contract.
pub add_one :
    (c p c' p' k delta : ℕ) (pis : List PriceItem)
    → IsPriceTable pis
    → Aims c' p' k pis
    → not (any (λ pi. pi.id == k) pis) ≡ false
    → used c p (update_where (λ pi. pi.id == k) (use_more delta) pis)
      ≡ used c p pis + taken c p c' p' delta
add_one c p c' p' k delta pis t aim h =
    let (a, found) = some_row k pis h in
    let (is_c, is_p) = aim a found in rw (← is_c, ← is_p) (used-use_more c p k delta pis t found)

units_sum :
    (c p c' : ℕ) (l : Line) (ls : List Line)
    → in_contract c c' (units p (l ∷ ls))
      ≡ taken c p c' l.product_id l.quantity + in_contract c c' (units p ls)
units_sum c p c' l ls = elim (Bool-cases (c' == c)) [ inl e ↦ rw e | inr e ↦ rw e ]

taken_same : (c p c' p' : ℕ) {m n : ℕ} → m ≡ n → taken c p c' p' m ≡ taken c p c' p' n
taken_same c p c' p' e = rw e

-- What the increments of a call add to a counter.
pub increment_quantities_used-used :
    (c' : ℕ) (ls : List Line) (ds : List Delta) (pis : List PriceItem) {pis' : List PriceItem}
    → IsPriceTable pis
    → Fits ds pis
    → Planned c' pis ls ds
    → increment_quantities_used ds pis ≡ ok pis'
    → IsPriceTable pis' × ((c p : ℕ) → used c p pis' ≡ used c p pis + in_contract c c' (units p ls))
unfolding increment_quantities_used
increment_quantities_used-used c' [] [] pis t fits plan h =
    rw (← ok-injective h) (t, λ c p. ground arith)
increment_quantities_used-used c' [] (d ∷ ds) pis t fits plan h = cc
increment_quantities_used-used c' (l ∷ ls) [] pis t fits plan h = absurd plan
increment_quantities_used-used c' (l ∷ ls) (d ∷ ds) pis t fits (e, aim, plan) h =
    let (there, h₂) = increment_step d ds pis h in
    let (t', rest) =
      increment_quantities_used-used c' ls ds _
        (update_where-IsPriceTable (λ pi. pi.id == d.key) (use_more d.amount) pis
          (use_more-KeepsKeys d.amount)
          (use_more-AllWithin d.key d.amount pis t.ids fits.0 t.within) t)
        (Fits-update d.key d.amount ds pis fits.1 fits.2)
        (Planned-update c' d.key d.amount pis ls ds plan) h₂ in
    (
      t',
      λ c p. omega (
        arith,
        rest c p,
        add_one c p c' l.product_id d.key d.amount pis t aim there,
        taken_same c p c' l.product_id e,
        units_sum c p c' l ls,
      ),
    )
