-- ===== src/Pagination/Transfers/Cuts.antt =====
-- An ordered listing, its rows after a cursor, and its cut into a page and the rest.
use munavvar_a.Prelude.{
  ℕ, zero, suc, ◌<◌, ◌≤◌, ◌≡◌, refl, ap, inl, inr, Bool-cases, Bool, true, false, ◌&&◌, ltb, Option,
  some, List, [], ◌∷◌, ◌++◌, length, keep, take, arith,
}
use munavvar_a.Pagination.Cursor.{Formats, SortValue, decode_cursor}
use munavvar_a.Pagination.Cursor.RoundTrip.{IsReadable, decode_cursor-empty}
use munavvar_a.Pagination.Transfers.{TransferRow, is_below, passes_cursor, last?, read_token}

-- All rows come after the given one.
abbrev pub AllBelow : TransferRow → List TransferRow → Type 0
AllBelow r [] = Unit
AllBelow r (x ∷ xs) = (is_below r.created_at r.id x ≡ true) × AllBelow r xs

-- The order of the listing: newest first, and no two rows alike in time and id.
abbrev pub IsDescending : List TransferRow → Type 0
IsDescending [] = Unit
IsDescending (r ∷ rs) = AllBelow r rs × IsDescending rs

pub keep-AllBelow :
    (p : TransferRow → Bool) (r : TransferRow) (xs : List TransferRow)
    → AllBelow r xs
    → AllBelow r (keep p xs)
keep-AllBelow p r [] h = tt
keep-AllBelow p r (x ∷ xs) h = elim (Bool-cases (p x)) [
  | inl e ↦ rw e (h.0, keep-AllBelow p r xs h.1)
  | inr e ↦ rw e (keep-AllBelow p r xs h.1)
]

pub keep_both :
    (p q : TransferRow → Bool) (xs : List TransferRow)
    → keep (λ r. p r && q r) xs ≡ keep q (keep p xs)
keep_both p q [] = refl
keep_both p q (x ∷ xs) = elim (Bool-cases (p x)) [
  | inl e ↦ elim (Bool-cases (q x)) [
    | inl f ↦ rw (e, f, keep_both p q xs)
    | inr f ↦ rw (e, f, keep_both p q xs)
  ]
  | inr e ↦ rw (e, keep_both p q xs)
]

keep-AllBelow_self :
    (y : TransferRow) (zs : List TransferRow)
    → AllBelow y zs
    → keep (is_below y.created_at y.id) zs ≡ zs
keep-AllBelow_self y [] h = refl
keep-AllBelow_self y (z ∷ zs) h = rw (h.0, keep-AllBelow_self y zs h.1)

is_below_asym :
    (x y : TransferRow) → is_below x.created_at x.id y ≡ true → is_below y.created_at y.id x ≡ false
is_below_asym x y h = ground arith

is_below_irrefl : (y : TransferRow) → is_below y.created_at y.id y ≡ false
is_below_irrefl y = ground arith

AllBelow-middle :
    (x : TransferRow) (xs : List TransferRow) (y : TransferRow) (zs : List TransferRow)
    → AllBelow x (xs ++ (y ∷ zs))
    → is_below x.created_at x.id y ≡ true
AllBelow-middle x [] y zs h = h.0
AllBelow-middle x (w ∷ ws) y zs h = AllBelow-middle x ws y zs h.1

-- The cursor of a row selects the rows after it.
pub keep_after :
    (xs : List TransferRow) (y : TransferRow) (zs : List TransferRow)
    → IsDescending (xs ++ (y ∷ zs))
    → keep (is_below y.created_at y.id) (xs ++ (y ∷ zs)) ≡ zs
keep_after [] y zs h = rw (is_below_irrefl y) (keep-AllBelow_self y zs h.0)
keep_after (x ∷ xs) y zs h =
    rw (is_below_asym x y (AllBelow-middle x xs y zs h.0)) (keep_after xs y zs h.1)

-- A list longer than a page: the page with its last row, and what follows.
pub record Cut (n : ℕ) (rows : List TransferRow) : Type 0 where
  pub front : List TransferRow
  pub final : TransferRow
  pub rest : List TransferRow
  pub whole : rows ≡ front ++ (final ∷ rest)
  pub page : take (suc n) rows ≡ front ++ (final ∷ [])
  pub shorter : length rest < length rows

pub cut : (n : ℕ) (rows : List TransferRow) → suc n < length rows → Cut n rows
cut n [] h = absurd (omega arith)
cut zero (x ∷ xs) h = record {
  front = [];
  final = x;
  rest = xs;
  whole = refl;
  page = refl;
  shorter = omega arith;
}
cut (suc n) (x ∷ xs) h =
    let c = cut n xs (omega arith) in
    record {
      front = x ∷ c.front;
      final = c.final;
      rest = c.rest;
      whole = ap (λ t. x ∷ t) c.whole;
      page = ap (λ t. x ∷ t) c.page;
      shorter = omega (arith, c.shorter);
    }

pub last?-append : (xs : List TransferRow) (y : TransferRow) → last? (xs ++ (y ∷ [])) ≡ some y
last?-append [] y = refl
last?-append (x ∷ []) y = refl
last?-append (x ∷ w ∷ ws) y = last?-append (w ∷ ws) y

pub take_all : (n : ℕ) (xs : List TransferRow) → length xs ≤ n → take n xs ≡ xs
take_all zero [] h = refl
take_all zero (x ∷ xs) h = absurd (omega arith)
take_all (suc n) [] h = refl
take_all (suc n) (x ∷ xs) h = ap (λ t. x ∷ t) (take_all n xs (omega arith))

pub take-take : (n : ℕ) (xs : List TransferRow) → take n (take (suc n) xs) ≡ take n xs
take-take zero xs = refl
take-take (suc n) [] = refl
take-take (suc n) (x ∷ xs) = ap (λ t. x ∷ t) (take-take n xs)

pub length-take :
    (n : ℕ) (xs : List TransferRow) → ltb n (length (take (suc n) xs)) ≡ ltb n (length xs)
length-take zero [] = refl
length-take zero (x ∷ xs) = ground arith
length-take (suc n) [] = ground arith
length-take (suc n) (x ∷ xs) = ground (arith, length-take n xs)

pub read_token-time :
    (f : Formats) (token : List ℕ) (t k : ℕ)
    → IsReadable f
    → decode_cursor f token ≡ some (SortValue.time t, k)
    → read_token f (some token) ≡ some (some (t, k))
unfolding read_token
read_token-time f [] t k r h = let empty = decode_cursor-empty f r in cc
read_token-time f (c ∷ cs) t k r h = rw (h, read_token)

-- The rows after a cursor.
abbrev pub after : Option (ℕ × ℕ) → List TransferRow → List TransferRow
after cursor = keep (passes_cursor cursor)
