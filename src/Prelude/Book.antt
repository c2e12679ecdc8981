-- ===== src/Prelude/Book.antt =====
-- A table of signed balances under double entries: both ledgers of the program, stock and money,
-- take an amount from one key and give it to another.
use Prim.Native.Nat.{ℕ, ◌+◌, ◌*◌}
use mathlib.Core.Path.{◌≡◌, ap}
use mathlib.Core.Logic.{inl, inr}
use mathlib.Core.List.{List, [], ◌∷◌}
use munavvar_a.Prelude.Tests.{◌==◌, if◌then◌else◌, Bool-cases}
use munavvar_a.Prelude.Lists.{count}
use munavvar_a.Prelude.Int.{ℤ, pos, pos_part, neg_part, ◌+ℤ◌, ◌-ℤ◌, int_laws}

abbrev pub Balances : Type 0
Balances = ℕ → ℤ

-- One UPDATE of one row: `balance = balance + d`.
unfoldable pub bump : ℕ → ℤ → Balances → Balances
bump k d f i = if k == i then f i +ℤ d else f i

-- Take `q` from one key, then give it to another.
unfoldable pub move : ℕ → ℕ → ℕ → Balances → Balances
unfolding bump
move from to q f = bump to (pos q) (bump from (pos 0 -ℤ pos q) f)

-- What a key gains or loses by an entry.
abbrev pub share : ℕ → ℕ → ℕ → ℕ
share k i q = if k == i then q else 0

-- The change of one balance, in the parts that `omega` reads.
pub move-parts :
    (from to q : ℕ) (f : Balances) (i : ℕ)
    → pos_part (move from to q f i) + neg_part (f i) + share from i q
      ≡ neg_part (move from to q f i) + pos_part (f i) + share to i q
unfolding move
move-parts from to q f i = elim (Bool-cases (from == i)) [
  | inl a ↦ elim (Bool-cases (to == i)) [
    | inl b ↦ rw (a, b) (omega int_laws)
    | inr b ↦ rw (a, b) (omega int_laws)
  ]
  | inr a ↦ elim (Bool-cases (to == i)) [
    | inl b ↦ rw (a, b) (omega int_laws)
    | inr b ↦ rw (a, b) (omega int_laws)
  ]
]

pub move_at :
    (from to q : ℕ) (f : Balances) (i : ℕ)
    → move from to q f i ≡ f i +ℤ pos (share to i q) -ℤ pos (share from i q)
move_at from to q f i = omega (int_laws, move-parts from to q f i)

-- The sum of the balances of the listed keys.
pub total : Balances → List ℕ → ℤ
total f [] = pos 0
total f (i ∷ is) = f i +ℤ total f is

share-count : (k i q c : ℕ) → ((if k == i then 1 else 0) + c) * q ≡ share k i q + c * q
share-count k i q c = elim (Bool-cases (k == i)) [
  | inl a ↦ rw a (omega int_laws)
  | inr a ↦ rw a (omega int_laws)
]

total-move-parts :
    (from to q : ℕ) (f : Balances) (is : List ℕ)
    → pos_part (total (move from to q f) is) + neg_part (total f is) + count from is * q
      ≡ neg_part (total (move from to q f) is) + pos_part (total f is) + count to is * q
unfolding total
total-move-parts from to q f [] = omega int_laws
total-move-parts from to q f (i ∷ is) = omega (
  int_laws,
  move-parts from to q f i,
  share-count from i q (count from is),
  share-count to i q (count to is),
  total-move-parts from to q f is,
)

-- Over keys that hold both ends of an entry equally often its two halves cancel.
pub total-move :
    (from to q : ℕ) (f : Balances) (is : List ℕ)
    → count from is ≡ count to is
    → total (move from to q f) is ≡ total f is
total-move from to q f is e =
    omega (int_laws, total-move-parts from to q f is, ap (λ (n : ℕ). n * q) e)
