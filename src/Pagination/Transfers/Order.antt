-- ===== src/Pagination/Transfers/Order.antt =====
-- What `ORDER BY created_at DESC, id DESC` makes of the rows of a query.
use munavvar_a.Prelude.{
  suc, ◌≡◌, ◌==◌, ◌&&◌, refl, inl, inr, Bool-cases, Bool, true, false, List, [], ◌∷◌, length, keep,
  arith,
}
use mathlib.Core.List.{Perm}
use mathlib.Core.List.Perm
use munavvar_a.Pagination.Transfers.{TransferRow, is_below, insert_row, in_order}
use munavvar_a.Pagination.Transfers.Cuts.{AllBelow, IsDescending, keep-AllBelow}

-- No two rows are alike in both time and id, as ids are primary keys.
abbrev pub AllApart : TransferRow → List TransferRow → Type 0
AllApart r [] = Unit
AllApart r (x ∷ xs) = ((r.created_at == x.created_at && r.id == x.id) ≡ false) × AllApart r xs

abbrev pub IsApart : List TransferRow → Type 0
IsApart [] = Unit
IsApart (r ∷ rs) = AllApart r rs × IsApart rs

is_below_trans :
    (x y z : TransferRow)
    → is_below x.created_at x.id y ≡ true
    → is_below y.created_at y.id z ≡ true
    → is_below x.created_at x.id z ≡ true
is_below_trans x y z h k = ground arith

is_below_total :
    (x y : TransferRow)
    → (x.created_at == y.created_at && x.id == y.id) ≡ false
    → is_below x.created_at x.id y ≡ false
    → is_below y.created_at y.id x ≡ true
is_below_total x y h k = ground arith

AllBelow-trans :
    (x y : TransferRow) (zs : List TransferRow)
    → is_below x.created_at x.id y ≡ true
    → AllBelow y zs
    → AllBelow x zs
AllBelow-trans x y [] h a = tt
AllBelow-trans x y (z ∷ zs) h a = (is_below_trans x y z h a.0, AllBelow-trans x y zs h a.1)

insert_row-AllBelow :
    (r x : TransferRow) (ys : List TransferRow)
    → is_below r.created_at r.id x ≡ true
    → AllBelow r ys
    → AllBelow r (insert_row x ys)
unfolding insert_row
insert_row-AllBelow r x [] h a = (h, tt)
insert_row-AllBelow r x (y ∷ ys) h a = elim (Bool-cases (is_below x.created_at x.id y)) [
  | inl e ↦ rw e (h, a)
  | inr e ↦ rw e (a.0, insert_row-AllBelow r x ys h a.1)
]

insert_row-AllApart :
    (r x : TransferRow) (ys : List TransferRow)
    → (r.created_at == x.created_at && r.id == x.id) ≡ false
    → AllApart r ys
    → AllApart r (insert_row x ys)
unfolding insert_row
insert_row-AllApart r x [] h a = (h, tt)
insert_row-AllApart r x (y ∷ ys) h a = elim (Bool-cases (is_below x.created_at x.id y)) [
  | inl e ↦ rw e (h, a)
  | inr e ↦ rw e (a.0, insert_row-AllApart r x ys h a.1)
]

insert_row-IsDescending :
    (x : TransferRow) (ys : List TransferRow)
    → AllApart x ys
    → IsDescending ys
    → IsDescending (insert_row x ys)
unfolding insert_row
insert_row-IsDescending x [] a d = (tt, tt)
insert_row-IsDescending x (y ∷ ys) a d = elim (Bool-cases (is_below x.created_at x.id y)) [
  | inl e ↦ rw e ((e, AllBelow-trans x y ys e d.0), d)
  | inr e ↦ rw e (
    insert_row-AllBelow y x ys (is_below_total x y a.0 e) d.0,
    insert_row-IsDescending x ys a.1 d.1,
  )
]

in_order-AllApart :
    (r : TransferRow) (xs : List TransferRow) → AllApart r xs → AllApart r (in_order xs)
unfolding in_order
in_order-AllApart r [] a = tt
in_order-AllApart r (x ∷ xs) a =
    insert_row-AllApart r x (in_order xs) a.0 (in_order-AllApart r xs a.1)

pub in_order-IsDescending : (xs : List TransferRow) → IsApart xs → IsDescending (in_order xs)
unfolding in_order
in_order-IsDescending [] a = tt
in_order-IsDescending (x ∷ xs) a =
    insert_row-IsDescending x (in_order xs) (in_order-AllApart x xs a.0)
      (in_order-IsDescending xs a.1)

insert_row-Perm : (x : TransferRow) (ys : List TransferRow) → Perm (insert_row x ys) (x ∷ ys)
unfolding insert_row
insert_row-Perm x [] = Perm.refl (x ∷ [])
insert_row-Perm x (y ∷ ys) = elim (Bool-cases (is_below x.created_at x.id y)) [
  | inl e ↦ rw e (Perm.refl (x ∷ y ∷ ys))
  | inr e ↦ rw e (Perm.trans (Perm.cons y (insert_row-Perm x ys)) (Perm.swap x y ys))
]

insert_row-first :
    (x : TransferRow) (zs : List TransferRow) → AllBelow x zs → insert_row x zs ≡ x ∷ zs
unfolding insert_row
insert_row-first x [] a = refl
insert_row-first x (z ∷ zs) a = rw a.0

insert_row-later :
    (x y : TransferRow) (zs : List TransferRow)
    → is_below x.created_at x.id y ≡ false
    → insert_row x (y ∷ zs) ≡ y ∷ insert_row x zs
unfolding insert_row
insert_row-later x y zs e = rw e

pub in_order-Perm : (xs : List TransferRow) → Perm (in_order xs) xs
unfolding in_order
in_order-Perm [] = Perm.refl []
in_order-Perm (x ∷ xs) =
    Perm.trans (insert_row-Perm x (in_order xs)) (Perm.cons x (in_order-Perm xs))

keep-insert_row_kept :
    (q : TransferRow → Bool) (x : TransferRow) (ys : List TransferRow)
    → q x ≡ true
    → IsDescending ys
    → keep q (insert_row x ys) ≡ insert_row x (keep q ys)
unfolding insert_row
keep-insert_row_kept q x [] k d = rw k
keep-insert_row_kept q x (y ∷ ys) k d = elim (Bool-cases (is_below x.created_at x.id y)) [
  | inl e ↦
      let below = keep-AllBelow q x (y ∷ ys) (e, AllBelow-trans x y ys e d.0) in
      rw (e, k, insert_row-first x (keep q (y ∷ ys)) below)
  | inr e ↦ elim (Bool-cases (q y)) [
    | inl t ↦ rw (e, t, keep-insert_row_kept q x ys k d.1, insert_row-later x y (keep q ys) e)
    | inr t ↦ rw (e, t, keep-insert_row_kept q x ys k d.1)
  ]
]

keep-insert_row_dropped :
    (q : TransferRow → Bool) (x : TransferRow) (ys : List TransferRow)
    → q x ≡ false
    → keep q (insert_row x ys) ≡ keep q ys
unfolding insert_row
keep-insert_row_dropped q x [] k = rw k
keep-insert_row_dropped q x (y ∷ ys) k = elim (Bool-cases (is_below x.created_at x.id y)) [
  | inl e ↦ rw (e, k)
  | inr e ↦ rw (e, keep-insert_row_dropped q x ys k)
]

-- To select rows and to order them are independent of each other.
pub keep-in_order :
    (q : TransferRow → Bool) (xs : List TransferRow)
    → IsApart xs
    → in_order (keep q xs) ≡ keep q (in_order xs)
unfolding in_order
keep-in_order q [] a = refl
keep-in_order q (x ∷ xs) a = elim (Bool-cases (q x)) [
  | inl k ↦ rw (
    k,
    keep-in_order q xs a.1,
    keep-insert_row_kept q x (in_order xs) k (in_order-IsDescending xs a.1),
  )
  | inr k ↦ rw (k, keep-in_order q xs a.1, keep-insert_row_dropped q x (in_order xs) k)
]

keep-AllApart :
    (p : TransferRow → Bool) (r : TransferRow) (xs : List TransferRow)
    → AllApart r xs
    → AllApart r (keep p xs)
keep-AllApart p r [] a = tt
keep-AllApart p r (x ∷ xs) a = elim (Bool-cases (p x)) [
  | inl e ↦ rw e (a.0, keep-AllApart p r xs a.1)
  | inr e ↦ rw e (keep-AllApart p r xs a.1)
]

pub keep-IsApart :
    (p : TransferRow → Bool) (xs : List TransferRow) → IsApart xs → IsApart (keep p xs)
keep-IsApart p [] a = tt
keep-IsApart p (x ∷ xs) a = elim (Bool-cases (p x)) [
  | inl e ↦ rw e (keep-AllApart p x xs a.0, keep-IsApart p xs a.1)
  | inr e ↦ rw e (keep-IsApart p xs a.1)
]

length-insert_row :
    (x : TransferRow) (ys : List TransferRow) → length (insert_row x ys) ≡ suc (length ys)
unfolding insert_row
length-insert_row x [] = refl
length-insert_row x (y ∷ ys) = elim (Bool-cases (is_below x.created_at x.id y)) [
  | inl e ↦ rw e
  | inr e ↦ rw (e, length-insert_row x ys)
]

pub length-in_order : (xs : List TransferRow) → length (in_order xs) ≡ length xs
unfolding in_order
length-in_order [] = refl
length-in_order (x ∷ xs) = rw (length-insert_row x (in_order xs), length-in_order xs)
