-- ===== src/Prelude/Lists.antt =====
-- Lists measured by native numbers, and the folds that the services write as comprehensions:
-- `sum(...)`, `x in xs`, `next(i for i in xs if ...)`, the rows that a query selects.
use Prim.Native.Nat.{ℕ, zero, suc, ◌+◌, ◌≤◌}
use mathlib.Core.Path.{◌≡◌, refl, subst}
use mathlib.Core.Logic.{inl, inr}
use mathlib.Core.Bool.{Bool, true, false, ◌||◌, ◌&&◌}
use mathlib.Core.List.{List, [], ◌∷◌, ◌++◌}
use mathlib.Core.Option.{Option, none, some}
use native.Mathlib.Omega.{arith}
use munavvar_a.Prelude.Tests.{◌==◌, if◌then◌else◌, Bool-cases}

-- Texts as lists of code points.
abbrev pub same_text : List ℕ → List ℕ → Bool
same_text [] [] = true
same_text (x ∷ xs) (y ∷ ys) = x == y && same_text xs ys
same_text _ _ = false

module _ {ℓ} {A : Type ℓ} where
  abbrev pub length : List A → ℕ
  length [] = 0
  length (x ∷ xs) = suc (length xs)

  abbrev pub all : (A → Bool) → List A → Bool
  all p [] = true
  all p (x ∷ xs) = p x && all p xs

  abbrev pub any : (A → Bool) → List A → Bool
  any p [] = false
  any p (x ∷ xs) = p x || any p xs

  -- The rows that a test keeps, in order.
  abbrev pub keep : (A → Bool) → List A → List A
  keep p [] = []
  keep p (x ∷ xs) = let rest = keep p xs in if p x then x ∷ rest else rest

  -- The first row that passes a test.
  abbrev pub find : (A → Bool) → List A → Option A
  find p [] = none
  find p (x ∷ xs) = let rest = find p xs in if p x then some x else rest

  abbrev pub take : ℕ → List A → List A
  take zero xs = []
  take (suc n) [] = []
  take (suc n) (x ∷ xs) = x ∷ take n xs

  abbrev pub sum_of : (A → ℕ) → List A → ℕ
  sum_of f [] = 0
  sum_of f (x ∷ xs) = f x + sum_of f xs

  -- `UPDATE ... WHERE p`
  abbrev pub update_where : (A → Bool) → (A → A) → List A → List A
  update_where p f [] = []
  update_where p f (x ∷ xs) = (if p x then f x else x) ∷ update_where p f xs

module _ {ℓ} {A : Type ℓ} where
  pub sum_of-append : (f : A → ℕ) (xs ys : List A) → sum_of f (xs ++ ys) ≡ sum_of f xs + sum_of f ys
  sum_of-append f [] ys = omega arith
  sum_of-append f (x ∷ xs) ys = omega (arith, sum_of-append f xs ys)

  pub length-update_where :
      (p : A → Bool) (f : A → A) (xs : List A) → length (update_where p f xs) ≡ length xs
  length-update_where p f [] = refl
  length-update_where p f (x ∷ xs) = omega (arith, length-update_where p f xs)

  -- What `find` returns passes the test.
  pub find-test : (p : A → Bool) (xs : List A) {a : A} → find p xs ≡ some a → p a ≡ true
  find-test p [] h = cc
  find-test p (x ∷ xs) {a} h = ground (arith, find-test p xs {a = a})

abbrev pub elem : ℕ → List ℕ → Bool
elem k = any (λ j. k == j)

abbrev pub count : ℕ → List ℕ → ℕ
count k [] = 0
count k (x ∷ xs) = (if k == x then 1 else 0) + count k xs

module _ {ℓ} {A : Type ℓ} where
  -- An UPDATE that keeps what a test reads finds nothing new.
  pub find-update_where_same :
      (q p : A → Bool) (f : A → A) (xs : List A)
      → ((x : A) → q (f x) ≡ q x)
      → find q xs ≡ none
      → find q (update_where p f xs) ≡ none
  find-update_where_same q p f [] same h = refl
  find-update_where_same q p f (x ∷ xs) same h =
      ground (arith, same x, find-update_where_same q p f xs same)

  -- An UPDATE of no row.
  pub update_where_absent :
      (p : A → Bool) (f : A → A) (xs : List A) → find p xs ≡ none → update_where p f xs ≡ xs
  update_where_absent p f [] h = refl
  update_where_absent p f (x ∷ xs) h = ground (arith, update_where_absent p f xs)

module _ {ℓ} {A : Type ℓ} where
  -- A row that is found counts in the sum.
  pub find-le :
      (g : A → ℕ) (p : A → Bool) (xs : List A) {a : A} → find p xs ≡ some a → g a ≤ sum_of g xs
  find-le g p [] h = cc
  find-le g p (x ∷ xs) {a} h = elim (Bool-cases (p x)) [
    | inl e ↦
        let same : x ≡ a = ground arith in subst (λ y. g y ≤ g x + sum_of g xs) same (omega arith)
    | inr e ↦ omega (arith, find-le g p xs (rw e at h))
  ]

  find_kept :
      (p q : A → Bool) (x : A) (xs : List A) {a : A}
      → find p (x ∷ keep q xs) ≡ some a
      → (find p (keep q xs) ≡ some a → find (λ y. q y && p y) xs ≡ some a)
      → (if p x then some x else find (λ y. q y && p y) xs) ≡ some a
  find_kept p q x xs h rest = elim (Bool-cases (p x)) [
    | inl e ↦ rw e (rw e at h)
    | inr e ↦ rw e (rest (rw e at h))
  ]

  -- A row that a query finds among the rows that another one keeps passes both.
  pub find-keep :
      (p q : A → Bool) (xs : List A) {a : A}
      → find p (keep q xs) ≡ some a
      → find (λ x. q x && p x) xs ≡ some a
  find-keep p q [] h = cc
  find-keep p q (x ∷ xs) h = elim (Bool-cases (q x)) [
    | inr e ↦ rw e (find-keep p q xs (rw e at h))
    | inl e ↦ rw e (find_kept p q x xs (rw e at h) (find-keep p q xs))
  ]
