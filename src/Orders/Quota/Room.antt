-- ===== src/Orders/Quota/Room.antt =====
-- Limits of a price list under changes of its counters, and when a list of increments fits.
use munavvar_a.Prelude.{
  ℕ, Bool, false, ◌≡◌, refl, sym, ◌∙◌, inl, inr, ◌≢◌, ◌==◌, Bool-cases, ==_iff, some, List, [], ◌∷◌,
  find, update_where, find-update_where_same, arith,
}
use munavvar_a.Prelude.Keyed.{IsKeyed, update_where-none, find-update_where_ne}
use munavvar_a.Store.{PriceItem}
use munavvar_a.Orders.Quota.{use_more, use_less, Delta, exceeds}
use munavvar_a.Orders.Quota.Counter.{
  IsWithin, AllWithin, IsPriceTable, KeepsKeys, update_where-IsPriceKeyed,
}

update_any-IsKeyed :
    (t : PriceItem → Bool) (f : PriceItem → PriceItem) (pis : List PriceItem)
    → KeepsKeys f
    → IsKeyed (λ (pi : PriceItem). pi.id) pis
    → IsKeyed (λ (pi : PriceItem). pi.id) (update_where t f pis)
update_any-IsKeyed t f [] k h = tt
update_any-IsKeyed t f (x ∷ xs) k (free, rest) = elim (Bool-cases (t x)) [
  | inl e ↦
      rw (e, k.same_id x)
        (
          find-update_where_same _ t f xs (λ y. rw (k.same_id y)) free,
          update_any-IsKeyed t f xs k rest,
        )
  | inr e ↦ rw e (
    find-update_where_same _ t f xs (λ y. rw (k.same_id y)) free,
    update_any-IsKeyed t f xs k rest,
  )
]

-- An UPDATE of the counters keeps the table a table.
pub update_where-IsPriceTable :
    (t : PriceItem → Bool) (f : PriceItem → PriceItem) (pis : List PriceItem)
    → KeepsKeys f
    → AllWithin (update_where t f pis)
    → IsPriceTable pis
    → IsPriceTable (update_where t f pis)
update_where-IsPriceTable t f pis k w h = record {
  ids = update_any-IsKeyed t f pis k h.ids;
  keys = update_where-IsPriceKeyed t f pis k h.keys;
  within = w;
}

use_less-IsWithin : (delta : ℕ) (pi : PriceItem) → IsWithin pi → IsWithin (use_less delta pi)
use_less-IsWithin delta pi (inl e) = inl e
use_less-IsWithin delta pi (inr e) = inr (omega arith)

pub use_less-AllWithin :
    (t : PriceItem → Bool) (delta : ℕ) (pis : List PriceItem)
    → AllWithin pis
    → AllWithin (update_where t (use_less delta) pis)
use_less-AllWithin t delta [] w = tt
use_less-AllWithin t delta (x ∷ xs) w = elim (Bool-cases (t x)) [
  | inl e ↦ rw e (use_less-IsWithin delta x w.0, use_less-AllWithin t delta xs w.1)
  | inr e ↦ rw e (w.0, use_less-AllWithin t delta xs w.1)
]

-- The row with an id has room for an increment.
abbrev pub HasRoom : ℕ → ℕ → List PriceItem → Type 0
HasRoom k delta pis =
    (a : PriceItem) → find (λ pi. pi.id == k) pis ≡ some a → exceeds a delta ≡ false

use_more-IsWithin :
    (delta : ℕ) (pi : PriceItem)
    → exceeds pi delta ≡ false
    → IsWithin pi
    → IsWithin (use_more delta pi)
use_more-IsWithin delta pi e w = ground arith

pub use_more-AllWithin :
    (k delta : ℕ) (pis : List PriceItem)
    → IsKeyed (λ (pi : PriceItem). pi.id) pis
    → HasRoom k delta pis
    → AllWithin pis
    → AllWithin (update_where (λ pi. pi.id == k) (use_more delta) pis)
use_more-AllWithin k delta [] u room w = tt
use_more-AllWithin k delta (x ∷ xs) u room w = elim (Bool-cases (x.id == k)) [
  | inl e ↦
      let same : x.id ≡ k = (==_iff x.id k).0 e in
      rw (e, update_where-none (λ (pi : PriceItem). pi.id) k (use_more delta) xs (rw same at u.0))
        (use_more-IsWithin delta x (room x (rw e)) w.0, w.1)
  | inr e ↦ rw e (w.0, use_more-AllWithin k delta xs u.1 (λ a found. room a (rw e found)) w.1)
]

-- No later delta addresses the row of an earlier one, and each has room.
abbrev pub IsFresh : ℕ → List Delta → Type 0
IsFresh k [] = Unit
IsFresh k (d ∷ ds) = ((d.key == k) ≡ false) × IsFresh k ds

abbrev pub Fits : List Delta → List PriceItem → Type 0
Fits [] pis = Unit
Fits (d ∷ ds) pis = HasRoom d.key d.amount pis × IsFresh d.key ds × Fits ds pis

differ : (j k : ℕ) → (j == k) ≡ false → j ≢ k
differ j k e same = ground arith

HasRoom-update :
    (j k m delta : ℕ) (pis : List PriceItem)
    → (j == k) ≡ false
    → HasRoom j m pis
    → HasRoom j m (update_where (λ pi. pi.id == k) (use_more delta) pis)
HasRoom-update j k m delta pis e room a found = room a (
    sym (
      find-update_where_ne (λ (pi : PriceItem). pi.id) j k (use_more delta) pis (λ x. refl)
        (λ same. differ j k e same))
    ∙ found)

pub Fits-update :
    (k delta : ℕ) (ds : List Delta) (pis : List PriceItem)
    → IsFresh k ds
    → Fits ds pis
    → Fits ds (update_where (λ pi. pi.id == k) (use_more delta) pis)
Fits-update k delta [] pis fresh fits = tt
Fits-update k delta (d ∷ ds) pis fresh fits = (
  HasRoom-update d.key k d.amount delta pis fresh.0 fits.0,
  fits.1,
  Fits-update k delta ds pis fresh.1 fits.2,
)
