-- ===== src/Orders/Quota/Counter.antt =====
-- The counter `quantity_used` of one product in one contract, and what an UPDATE adds to it.
use munavvar_a.Prelude.{
  ℕ, Bool, true, false, ◌≡◌, refl, subst, inl, inr, ◌&&◌, ◌+◌, ◌-◌, ◌≤◌, ◌==◌, ◌⊎◌, Bool-cases,
  none, some, List, [], ◌∷◌, find, sum_of, update_where, find-update_where_same,
  update_where_absent, if◌then◌else◌, arith,
}
use munavvar_a.Prelude.Keyed.{IsKeyed, sum_of-update_where}
use munavvar_a.Store.{PriceItem}
use munavvar_a.Orders.Quota.{is_price_of, use_more, use_less}

abbrev pub matches : ℕ → ℕ → PriceItem → Bool
matches c p pi = pi.contract_id == c && pi.product_id == p

abbrev pub used_by : ℕ → ℕ → PriceItem → ℕ
used_by c p pi = if matches c p pi then pi.quantity_used else 0

-- What the price list counts as used of a product in a contract.
abbrev pub used : ℕ → ℕ → List PriceItem → ℕ
used c p = sum_of (used_by c p)

-- uq_contract_price_item_product: one row for a product in a contract; and no row is archived.
abbrev pub IsPriceKeyed : List PriceItem → Type 0
IsPriceKeyed [] = Unit
IsPriceKeyed (x ∷ xs) =
    (find (matches x.contract_id x.product_id) xs ≡ none) × (x.is_active ≡ true) × IsPriceKeyed xs

-- A limit of 0 is no limit; any other is kept.
abbrev pub IsWithin : PriceItem → Type 0
IsWithin pi = (pi.quantity ≡ 0) ⊎ (pi.quantity_used ≤ pi.quantity)

abbrev pub AllWithin : List PriceItem → Type 0
AllWithin [] = Unit
AllWithin (x ∷ xs) = IsWithin x × AllWithin xs

pub record IsPriceTable (pis : List PriceItem) : Type 0 where
  pub ids : IsKeyed (λ (pi : PriceItem). pi.id) pis
  pub keys : IsPriceKeyed pis
  pub within : AllWithin pis

-- An UPDATE of the counters keeps the table a table.
pub record KeepsKeys (f : PriceItem → PriceItem) : Type 0 where
  pub same_id : (pi : PriceItem) → (f pi).id ≡ pi.id
  pub same_contract : (pi : PriceItem) → (f pi).contract_id ≡ pi.contract_id
  pub same_product : (pi : PriceItem) → (f pi).product_id ≡ pi.product_id
  pub same_active : (pi : PriceItem) → (f pi).is_active ≡ pi.is_active

abbrev pub use_more-KeepsKeys : (delta : ℕ) → KeepsKeys (use_more delta)
use_more-KeepsKeys delta = record {
  same_id = λ pi. refl;
  same_contract = λ pi. refl;
  same_product = λ pi. refl;
  same_active = λ pi. refl;
}

abbrev pub use_less-KeepsKeys : (delta : ℕ) → KeepsKeys (use_less delta)
use_less-KeepsKeys delta = record {
  same_id = λ pi. refl;
  same_contract = λ pi. refl;
  same_product = λ pi. refl;
  same_active = λ pi. refl;
}

matches_same :
    (f : PriceItem → PriceItem)
    → KeepsKeys f
    → (c p : ℕ) (pi : PriceItem) → matches c p (f pi) ≡ matches c p pi
matches_same f k c p pi = rw (k.same_contract pi, k.same_product pi)

pub update_where-IsPriceKeyed :
    (t : PriceItem → Bool) (f : PriceItem → PriceItem) (pis : List PriceItem)
    → KeepsKeys f
    → IsPriceKeyed pis
    → IsPriceKeyed (update_where t f pis)
update_where-IsPriceKeyed t f [] k h = tt
update_where-IsPriceKeyed t f (x ∷ xs) k (free, active, rest) = elim (Bool-cases (t x)) [
  | inl e ↦
      rw (e, k.same_contract x, k.same_product x, k.same_active x)
        (
          find-update_where_same _ t f xs (matches_same f k x.contract_id x.product_id) free,
          active,
          update_where-IsPriceKeyed t f xs k rest,
        )
  | inr e ↦ rw e (
    find-update_where_same _ t f xs (matches_same f k x.contract_id x.product_id) free,
    active,
    update_where-IsPriceKeyed t f xs k rest,
  )
]

used_absent : (c p : ℕ) (pis : List PriceItem) → find (matches c p) pis ≡ none → used c p pis ≡ 0
used_absent c p [] h = refl
used_absent c p (x ∷ xs) h = ground (arith, used_absent c p xs)

used_by-use_more :
    (c p delta : ℕ) (pi : PriceItem)
    → used_by c p (use_more delta pi) ≡ used_by c p pi + (if matches c p pi then delta else 0)
used_by-use_more c p delta pi = elim (Bool-cases (matches c p pi)) [ inl e ↦ rw e | inr e ↦ rw e ]

-- An increment of the row with an id adds to the counter of that row's product.
pub used-use_more :
    (c p k delta : ℕ) (pis : List PriceItem) {a : PriceItem}
    → IsPriceTable pis
    → find (λ pi. pi.id == k) pis ≡ some a
    → used c p (update_where (λ pi. pi.id == k) (use_more delta) pis)
      ≡ used c p pis + (if matches c p a then delta else 0)
used-use_more c p k delta pis {a} t found = omega (
  arith,
  sum_of-update_where _ (used_by c p) k (use_more delta) pis t.ids found,
  used_by-use_more c p delta a,
)

absent_price :
    (c p : ℕ) (pis : List PriceItem)
    → find (matches c p) pis ≡ none
    → find (is_price_of c p) pis ≡ none
absent_price c p [] h = refl
absent_price c p (x ∷ xs) h = ground (arith, absent_price c p xs)

-- The amount that a decrement for one product takes from another.
abbrev pub taken : ℕ → ℕ → ℕ → ℕ → ℕ → ℕ
taken c p c' p' delta = if c' == c && p' == p then delta else 0

pub price_keys :
    (c p : ℕ) (x : PriceItem) → is_price_of c p x ≡ true → (x.contract_id ≡ c) × (x.product_id ≡ p)
price_keys c p x e = ground arith

tail_unchanged :
    (c p : ℕ) (f : PriceItem → PriceItem) (x : PriceItem) (xs : List PriceItem)
    → is_price_of c p x ≡ true
    → find (matches x.contract_id x.product_id) xs ≡ none
    → update_where (is_price_of c p) f xs ≡ xs
tail_unchanged c p f x xs e free =
    let (a, b) = price_keys c p x e in
    update_where_absent _ f xs (absent_price c p xs (rw (a, b) at free))

tail_zero :
    (c p c' p' : ℕ) (x : PriceItem) (xs : List PriceItem)
    → is_price_of c' p' x ≡ true
    → find (matches x.contract_id x.product_id) xs ≡ none
    → matches c p x ≡ true
    → used c p xs ≡ 0
tail_zero c p c' p' x xs e free m = used_absent c p xs (ground (arith, free))

head_less :
    (c p c' p' delta : ℕ) (x : PriceItem)
    → is_price_of c' p' x ≡ true
    → used_by c p (use_less delta x) ≡ used_by c p x - taken c p c' p' delta
head_less c p c' p' delta x e = ground arith

taken-matches :
    (c p c' p' delta : ℕ) (x : PriceItem)
    → is_price_of c' p' x ≡ true
    → matches c p x ≡ false
    → taken c p c' p' delta ≡ 0
taken-matches c p c' p' delta x e m = ground arith

taken_other :
    (c p c' p' delta : ℕ) (x : PriceItem)
    → is_price_of c' p' x ≡ false
    → x.is_active ≡ true
    → (used_by c p x ≡ 0) ⊎ (taken c p c' p' delta ≡ 0)
taken_other c p c' p' delta x e active = ground arith

head_and_tail :
    (c p c' p' delta : ℕ) (x : PriceItem) (xs : List PriceItem)
    → is_price_of c' p' x ≡ true
    → find (matches x.contract_id x.product_id) xs ≡ none
    → (used c p xs ≡ 0) ⊎ (taken c p c' p' delta ≡ 0)
head_and_tail c p c' p' delta x xs e free = elim (Bool-cases (matches c p x)) [
  | inl m ↦ inl (tail_zero c p c' p' x xs e free m)
  | inr m ↦ inr (taken-matches c p c' p' delta x e m)
]

-- A decrement takes from the counter of its product, down to 0 at most.
pub used-use_less :
    (c p c' p' delta : ℕ) (pis : List PriceItem)
    → IsPriceKeyed pis
    → used c p (update_where (is_price_of c' p') (use_less delta) pis)
      ≡ used c p pis - taken c p c' p' delta
used-use_less c p c' p' delta [] h = omega arith
used-use_less c p c' p' delta (x ∷ xs) (free, active, rest) =
    elim (Bool-cases (is_price_of c' p' x)) [
      | inl e ↦
          rw (e, tail_unchanged c' p' (use_less delta) x xs e free)
            (omega
              (arith, head_less c p c' p' delta x e, head_and_tail c p c' p' delta x xs e free))
      | inr e ↦ rw e (
          omega
            (arith, used-use_less c p c' p' delta xs rest, taken_other c p c' p' delta x e active))
    ]

used_head :
    (c p : ℕ) (x : PriceItem) (xs : List PriceItem)
    → is_price_of c p x ≡ true
    → used c p xs ≡ 0
    → used c p (x ∷ xs) ≡ x.quantity_used
used_head c p x xs e zero = ground arith

used_later :
    (c p : ℕ) (x : PriceItem) (xs : List PriceItem) {n : ℕ}
    → is_price_of c p x ≡ false
    → x.is_active ≡ true
    → used c p xs ≡ n
    → used c p (x ∷ xs) ≡ n
used_later c p x xs e active rest = ground arith

-- The counter of a product is that of the row that the query finds.
pub used_row :
    (c p : ℕ) (pis : List PriceItem) {pi : PriceItem}
    → IsPriceKeyed pis
    → find (is_price_of c p) pis ≡ some pi
    → used c p pis ≡ pi.quantity_used
used_row c p [] k h = cc
used_row c p (x ∷ xs) {pi} (free, active, rest) h = elim (Bool-cases (is_price_of c p x)) [
  | inl e ↦
      let (a, b) = price_keys c p x e in
      let same : x ≡ pi = ground arith in
      subst (λ y. used c p (x ∷ xs) ≡ y.quantity_used) same
        (used_head c p x xs e (used_absent c p xs (rw (a, b) at free)))
  | inr e ↦ used_later c p x xs e active (used_row c p xs rest (rw e at h))
]
