-- ===== src/Prelude/Keyed.antt =====
-- A table with a primary key: what an UPDATE of one row does to a sum over the table, and that
-- keys stay unique.
use Prim.Native.Nat.{ℕ, ◌+◌, ◌<◌}
use mathlib.Core.Path.{◌≡◌, refl, sym, subst, ◌∙◌}
use mathlib.Core.Logic.{inl, inr, ◌≢◌}
use mathlib.Core.Bool.{Bool, true, false}
use mathlib.Core.List.{List, [], ◌∷◌, ◌++◌}
use mathlib.Core.Option.{none, some}
use native.Mathlib.Omega.{arith}
use munavvar_a.Prelude.Tests.{◌==◌, Bool-cases, ==_iff}
use munavvar_a.Prelude.Lists.{find, keep, sum_of, update_where}

module _ {ℓ} {A : Type ℓ} (key : A → ℕ) where
  abbrev pub has_key : ℕ → A → Bool
  has_key k x = key x == k

  -- No two rows have one key.
  abbrev pub IsKeyed : List A → Type ℓ
  IsKeyed [] = Unit
  IsKeyed (x ∷ xs) = (find (has_key (key x)) xs ≡ none) × IsKeyed xs

  -- All keys are below a bound, so the bound is fresh.
  abbrev pub AllBelow : ℕ → List A → Type 0
  AllBelow n [] = Unit
  AllBelow n (x ∷ xs) = (key x < n) × AllBelow n xs

  pub update_where-none :
      (k : ℕ) (f : A → A) (xs : List A)
      → find (has_key k) xs ≡ none
      → update_where (has_key k) f xs ≡ xs
  update_where-none k f [] h = refl
  update_where-none k f (x ∷ xs) h = ground (arith, update_where-none k f xs)

  find_head :
      (k : ℕ) (x : A) (xs : List A) {a : A}
      → (key x == k) ≡ true
      → find (has_key k) (x ∷ xs) ≡ some a
      → x ≡ a
  find_head k x xs e h = ground arith

  -- The row that an UPDATE changes counts with its new weight, all others as before.
  pub sum_of-update_where :
      (g : A → ℕ) (k : ℕ) (f : A → A) (xs : List A) {a : A}
      → IsKeyed xs
      → find (has_key k) xs ≡ some a
      → sum_of g (update_where (has_key k) f xs) + g a ≡ sum_of g xs + g (f a)
  sum_of-update_where g k f [] u h = cc
  sum_of-update_where g k f (x ∷ xs) {a} u h = elim (Bool-cases (key x == k)) [
    | inl e ↦
        let p : key x ≡ k = (==_iff (key x) k).0 e in
        let q : x ≡ a = find_head k x xs e h in
        rw (e, update_where-none k f xs (rw p at u.0), q) (omega arith)
    | inr e ↦ rw e (omega (arith, sum_of-update_where g k f xs u.1 (rw e at h)))
  ]

  pub find-update_where-none :
      (j k : ℕ) (f : A → A) (xs : List A)
      → ((x : A) → key (f x) ≡ key x)
      → find (has_key j) xs ≡ none
      → find (has_key j) (update_where (has_key k) f xs) ≡ none
  find-update_where-none j k f [] same h = refl
  find-update_where-none j k f (x ∷ xs) same h =
      ground (arith, same x, find-update_where-none j k f xs same)

  pub update_where-IsKeyed :
      (k : ℕ) (f : A → A) (xs : List A)
      → ((x : A) → key (f x) ≡ key x)
      → IsKeyed xs
      → IsKeyed (update_where (has_key k) f xs)
  update_where-IsKeyed k f [] same u = tt
  update_where-IsKeyed k f (x ∷ xs) same u = elim (Bool-cases (key x == k)) [
    | inl e ↦
        rw (e, same x)
          (find-update_where-none (key x) k f xs same u.0, update_where-IsKeyed k f xs same u.1)
    | inr e ↦
        rw e (find-update_where-none (key x) k f xs same u.0, update_where-IsKeyed k f xs same u.1)
  ]

  pub update_where-AllBelow :
      (n k : ℕ) (f : A → A) (xs : List A)
      → ((x : A) → key (f x) ≡ key x)
      → AllBelow n xs
      → AllBelow n (update_where (has_key k) f xs)
  update_where-AllBelow n k f [] same u = tt
  update_where-AllBelow n k f (x ∷ xs) same u =
      ground (arith, same x, update_where-AllBelow n k f xs same u.1)

  find-AllBelow : (n : ℕ) (xs : List A) → AllBelow n xs → find (has_key n) xs ≡ none
  find-AllBelow n [] u = refl
  find-AllBelow n (x ∷ xs) u = ground (arith, find-AllBelow n xs u.1)

  find-append_none :
      (k : ℕ) (xs : List A) (y : A)
      → find (has_key k) xs ≡ none
      → (key y == k) ≡ false
      → find (has_key k) (xs ++ y ∷ []) ≡ none
  find-append_none k [] y h e = rw e
  find-append_none k (x ∷ xs) y h e = ground (arith, find-append_none k xs y)

  -- An INSERT with a fresh key keeps the table keyed.
  pub append-IsKeyed :
      (n : ℕ) (xs : List A) (y : A)
      → IsKeyed xs
      → AllBelow n xs
      → key y ≡ n
      → IsKeyed (xs ++ y ∷ [])
  append-IsKeyed n [] y u b e = (refl, tt)
  append-IsKeyed n (x ∷ xs) y u b e =
      (find-append_none (key x) xs y u.0 (ground arith), append-IsKeyed n xs y u.1 b.1 e)

  pub append-AllBelow :
      (n : ℕ) (xs : List A) (y : A) → AllBelow n xs → key y ≡ n → AllBelow (n + 1) (xs ++ y ∷ [])
  append-AllBelow n [] y b e = (omega arith, tt)
  append-AllBelow n (x ∷ xs) y b e = (omega arith, append-AllBelow n xs y b.1 e)

  -- After an UPDATE of a row its key finds the new row.
  pub find-update_where_self :
      (k : ℕ) (f : A → A) (xs : List A) {a : A}
      → ((x : A) → key (f x) ≡ key x)
      → find (has_key k) xs ≡ some a
      → find (has_key k) (update_where (has_key k) f xs) ≡ some (f a)
  find-update_where_self k f [] same h = cc
  find-update_where_self k f (x ∷ xs) {a} same h = elim (Bool-cases (key x == k)) [
    | inl e ↦ rw (e, same x, e, find_head k x xs e h)
    | inr e ↦ rw (e, e) (find-update_where_self k f xs same (rw e at h))
  ]

  -- And every other key finds what it found before.
  pub find-update_where_ne :
      (j k : ℕ) (f : A → A) (xs : List A)
      → ((x : A) → key (f x) ≡ key x)
      → j ≢ k
      → find (has_key j) (update_where (has_key k) f xs) ≡ find (has_key j) xs
  find-update_where_ne j k f [] same h = refl
  find-update_where_ne j k f (x ∷ xs) same h =
      ground (arith, same x, find-update_where_ne j k f xs same h)

  pub key_differs :
      (x a : A) (xs : List A)
      → find (has_key (key x)) xs ≡ none
      → find (has_key (key a)) xs ≡ some a
      → (key x == key a) ≡ false
  key_differs x a xs free found = elim (Bool-cases (key x == key a)) [
    | inr e ↦ e
    | inl e ↦
        let same : key x ≡ key a = (==_iff (key x) (key a)).0 e in
        let clash : none ≡ some a = sym (rw same at free) ∙ found in cc
  ]

  -- A row that any query finds is found by its key.
  pub find-key :
      (t : A → Bool) (xs : List A) {a : A}
      → IsKeyed xs
      → find t xs ≡ some a
      → find (has_key (key a)) xs ≡ some a
  find-key t [] u h = cc
  find-key t (x ∷ xs) {a} u h = elim (Bool-cases (t x)) [
    | inl e ↦
        let same : x ≡ a = ground arith in
        subst (λ y. find (has_key (key y)) (x ∷ xs) ≡ some y) same (ground arith)
    | inr e ↦
        let rest : find (has_key (key a)) xs ≡ some a = find-key t xs u.1 (rw e at h) in
        rw (key_differs x a xs u.0 rest) rest
  ]

  keep-none :
      (t : A → Bool) (k : ℕ) (xs : List A)
      → find (has_key k) xs ≡ none
      → find (has_key k) (keep t xs) ≡ none
  keep-none t k [] h = refl
  keep-none t k (x ∷ xs) h = ground (arith, keep-none t k xs)

  -- A DELETE keeps the table keyed.
  pub keep-IsKeyed : (t : A → Bool) (xs : List A) → IsKeyed xs → IsKeyed (keep t xs)
  keep-IsKeyed t [] u = tt
  keep-IsKeyed t (x ∷ xs) u = elim (Bool-cases (t x)) [
    | inl e ↦ rw e (keep-none t (key x) xs u.0, keep-IsKeyed t xs u.1)
    | inr e ↦ rw e (keep-IsKeyed t xs u.1)
  ]

  pub keep-AllBelow : (n : ℕ) (t : A → Bool) (xs : List A) → AllBelow n xs → AllBelow n (keep t xs)
  keep-AllBelow n t [] u = tt
  keep-AllBelow n t (x ∷ xs) u = elim (Bool-cases (t x)) [
    | inl e ↦ rw e (u.0, keep-AllBelow n t xs u.1)
    | inr e ↦ rw e (keep-AllBelow n t xs u.1)
  ]

  free_both :
      (x : A) (xs : List A) (y : A)
      → find (has_key (key y)) (x ∷ xs) ≡ none
      → ((key y == key x) ≡ false) × (find (has_key (key y)) xs ≡ none)
  free_both x xs y free = ground arith

  -- An INSERT with a key that no row has keeps the table keyed.
  pub append_free-IsKeyed :
      (xs : List A) (y : A) → IsKeyed xs → find (has_key (key y)) xs ≡ none → IsKeyed (xs ++ y ∷ [])
  append_free-IsKeyed [] y u free = (refl, tt)
  append_free-IsKeyed (x ∷ xs) y u free =
      let (differs, rest) = free_both x xs y free in
      (find-append_none (key x) xs y u.0 differs, append_free-IsKeyed xs y u.1 rest)
