-- ===== src/Contracts/Prices/Balance.antt =====
-- The quota ledger under a change of the price list.
use munavvar_a.Prelude.{
  ℕ, Bool, false, not, ◌≡◌, refl, sym, subst, ◌∙◌, inl, inr, ◌≤◌, ◌&&◌, ◌==◌, ltb, Bool-cases,
  ==_iff, none, some, List, [], ◌∷◌, find, keep, update_where, arith,
}
use munavvar_a.Prelude.Keyed.{IsKeyed, find-key, update_where-none, keep-IsKeyed}
use munavvar_a.Store.{
  PriceItem, Db, ok, one_or_none-some, some-injective, >>=-eq-ok, raise_if-eq-ok, or_raise-eq-ok,
  ok-injective,
}
use munavvar_a.Orders.Quota.{is_price_of}
use munavvar_a.Orders.Quota.Counter.{
  used_by, used, IsPriceKeyed, IsWithin, AllWithin, IsPriceTable, KeepsKeys,
}
use munavvar_a.Orders.Quota.Balance.{AllBelow-mono, AllSound-mono, IsBalanced, order_id}
use munavvar_a.Contracts.Prices.{get_by_contract_and_product, remove_price_item}

abbrev pub price_id : PriceItem → ℕ
price_id pi = pi.id

-- A change of the price list that keeps the counters keeps the ledger balanced.
pub recounted :
    (db db' : Db)
    → IsBalanced db
    → db'.orders ≡ db.orders
    → db.next_id ≤ db'.next_id
    → IsPriceTable db'.price_items
    → ((c p : ℕ) → used c p db'.price_items ≡ used c p db.price_items)
    → IsBalanced db'
recounted db db' b same le table counted = record {
  prices = table;
  keyed = rw same b.keyed;
  below = rw same (AllBelow-mono order_id db.orders le b.below);
  sound = rw same (AllSound-mono db.orders le b.sound);
  balance = λ c p. rw (same, counted c p) (b.balance c p);
}

kept_row :
    (t : PriceItem → Bool) (pis : List PriceItem) {a : PriceItem}
    → keep t pis ≡ a ∷ []
    → find t pis ≡ some a
kept_row t [] h = cc
kept_row t (x ∷ xs) {a} h = elim (Bool-cases (t x)) [
  | inl e ↦ let q : (x ∷ keep t xs) ≡ a ∷ [] = rw e at h in rw e (ground arith)
  | inr e ↦ rw e (kept_row t xs (rw e at h))
]

pub kept_no_row :
    (t : PriceItem → Bool) (pis : List PriceItem) → keep t pis ≡ [] → find t pis ≡ none
kept_no_row t [] h = refl
kept_no_row t (x ∷ xs) h = elim (Bool-cases (t x)) [
  | inl e ↦ let q : (x ∷ keep t xs) ≡ [] = rw e at h in cc
  | inr e ↦ rw e (kept_no_row t xs (rw e at h))
]

-- The row that `get_by_contract_and_product` finds, by its id.
pub row_found :
    (c p : ℕ) (pis : List PriceItem) {a : PriceItem}
    → IsPriceTable pis
    → get_by_contract_and_product c p pis ≡ ok (some a)
    → find (λ x. x.id == a.id) pis ≡ some a
unfolding get_by_contract_and_product
row_found c p pis t h =
    find-key price_id (is_price_of c p) pis t.ids
      (kept_row (is_price_of c p) pis (one_or_none-some _ h))

abbrev pub reprice : ℕ → ℕ → PriceItem → PriceItem
reprice price quantity pi = record pi { price = price; quantity = quantity }

pub reprice-KeepsKeys : (price quantity : ℕ) → KeepsKeys (reprice price quantity)
reprice-KeepsKeys price quantity = record {
  same_id = λ pi. refl;
  same_contract = λ pi. refl;
  same_product = λ pi. refl;
  same_active = λ pi. refl;
}

pub reprice-used :
    (c p k price quantity : ℕ) (pis : List PriceItem)
    → used c p (update_where (λ pi. pi.id == k) (reprice price quantity) pis) ≡ used c p pis
reprice-used c p k price quantity [] = refl
reprice-used c p k price quantity (x ∷ xs) = elim (Bool-cases (x.id == k)) [
  | inl e ↦ rw e (omega (arith, reprice-used c p k price quantity xs))
  | inr e ↦ rw e (omega (arith, reprice-used c p k price quantity xs))
]

pub reprice-AllWithin :
    (k price quantity : ℕ) (pis : List PriceItem)
    → ((a : PriceItem) → find (λ x. x.id == k) pis ≡ some a → IsWithin (reprice price quantity a))
    → IsKeyed price_id pis
    → AllWithin pis
    → AllWithin (update_where (λ pi. pi.id == k) (reprice price quantity) pis)
reprice-AllWithin k price quantity [] room u w = tt
reprice-AllWithin k price quantity (x ∷ xs) room u w = elim (Bool-cases (x.id == k)) [
  | inl e ↦
      let same : x.id ≡ k = (==_iff x.id k).0 e in
      rw (e, update_where-none price_id k (reprice price quantity) xs (rw same at u.0))
        (room x (rw e), w.1)
  | inr e ↦
      rw e (w.0, reprice-AllWithin k price quantity xs (λ a found. room a (rw e found)) u.1 w.1)
]

pub reprice_room :
    (price quantity : ℕ) (a : PriceItem)
    → (ltb 0 quantity && ltb quantity a.quantity_used) ≡ false
    → IsWithin (reprice price quantity a)
reprice_room price quantity a h = ground arith

keep-none :
    (t q : PriceItem → Bool) (xs : List PriceItem) → find q xs ≡ none → find q (keep t xs) ≡ none
keep-none t q [] h = refl
keep-none t q (x ∷ xs) h = ground (arith, keep-none t q xs)

kept_all :
    (k : ℕ) (xs : List PriceItem)
    → find (λ x. x.id == k) xs ≡ none
    → keep (λ x. not (x.id == k)) xs ≡ xs
kept_all k [] h = refl
kept_all k (x ∷ xs) h = ground (arith, kept_all k xs)

counts_nothing : (c p : ℕ) (x : PriceItem) → x.quantity_used ≡ 0 → used_by c p x ≡ 0
counts_nothing c p x h = ground arith

-- The removal of a row that counts nothing.
removed-used :
    (c p k : ℕ) (pis : List PriceItem)
    → ((a : PriceItem) → find (λ x. x.id == k) pis ≡ some a → a.quantity_used ≡ 0)
    → IsKeyed price_id pis
    → used c p (keep (λ pi. not (pi.id == k)) pis) ≡ used c p pis
removed-used c p k [] zero u = refl
removed-used c p k (x ∷ xs) zero u = elim (Bool-cases (x.id == k)) [
  | inl e ↦
      let same : x.id ≡ k = (==_iff x.id k).0 e in
      rw (e, kept_all k xs (rw same at u.0)) (omega (arith, counts_nothing c p x (zero x (rw e))))
  | inr e ↦ rw e (omega (arith, removed-used c p k xs (λ a found. zero a (rw e found)) u.1))
]

removed-IsPriceKeyed :
    (t : PriceItem → Bool) (pis : List PriceItem) → IsPriceKeyed pis → IsPriceKeyed (keep t pis)
removed-IsPriceKeyed t [] h = tt
removed-IsPriceKeyed t (x ∷ xs) (free, active, rest) = elim (Bool-cases (t x)) [
  | inl e ↦ rw e (keep-none t _ xs free, active, removed-IsPriceKeyed t xs rest)
  | inr e ↦ rw e (removed-IsPriceKeyed t xs rest)
]

removed-AllWithin :
    (t : PriceItem → Bool) (pis : List PriceItem) → AllWithin pis → AllWithin (keep t pis)
removed-AllWithin t [] w = tt
removed-AllWithin t (x ∷ xs) w = elim (Bool-cases (t x)) [
  | inl e ↦ rw e (w.0, removed-AllWithin t xs w.1)
  | inr e ↦ rw e (removed-AllWithin t xs w.1)
]

no_use : (pi : PriceItem) → ltb 0 pi.quantity_used ≡ false → pi.quantity_used ≡ 0
no_use pi h = ground arith

-- From a store whose quota ledger balances, a removal of a price item that is accepted leads to a
-- store whose quota ledger balances.
pub remove_price_item-IsBalanced :
    (c p : ℕ) (db : Db) {db' : Db}
    → IsBalanced db
    → remove_price_item c p db ≡ ok db'
    → IsBalanced db'
unfolding remove_price_item
remove_price_item-IsBalanced c p db b h =
    let (row, found, h₁) = >>=-eq-ok (get_by_contract_and_product c p db.price_items) _ h in
    let (item, is_row, h₂) = or_raise-eq-ok row _ _ h₁ in
    let (free, h₃) = raise_if-eq-ok (ltb 0 item.quantity_used) _ _ h₂ in
    let at = row_found c p db.price_items b.prices (rw is_row at found) in
    subst IsBalanced (ok-injective h₃) (
      recounted db _ b refl (omega arith)
        (record {
          ids = keep-IsKeyed price_id _ db.price_items b.prices.ids;
          keys = removed-IsPriceKeyed _ db.price_items b.prices.keys;
          within = removed-AllWithin _ db.price_items b.prices.within;
        })
        (λ c' p'.
          removed-used c' p' item.id db.price_items
            (λ a again.
              subst (λ x. x.quantity_used ≡ 0) (some-injective (sym at ∙ again)) (no_use item free))
            b.prices.ids))
