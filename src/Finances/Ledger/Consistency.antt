-- ===== src/Finances/Ledger/Consistency.antt =====
-- The column accounts.balance agrees with the ledger: it is what the completed transactions add up
-- to.
use munavvar_a.Prelude.{
  ℕ, false, ◌≡◌, inl, inr, ◌+◌, ◌==◌, List, [], ◌∷◌, ◌++◌, find, some, sum_of, sum_of-append,
  if◌then◌else◌, Bool-cases, arith,
}
use munavvar_a.Prelude.Int.{pos_part, neg_part}
use munavvar_a.Prelude.Book.{Balances, share, move-parts}
use munavvar_a.Prelude.Keyed.{IsKeyed, sum_of-update_where}
use munavvar_a.Store.{TransactionStatus, Transaction, Db, ok, >>=-eq-ok, ok-injective}
use munavvar_a.Finances.Ledger.{
  is_completed, post_insert, post_update, insert_transaction, insert_transactions,
  flush_transaction,
}

-- What one transaction brings to, and takes from, an account.
abbrev pub incoming : ℕ → Transaction → ℕ
incoming k t = if is_completed t.status then share t.to_id k t.amount else 0

abbrev pub outgoing : ℕ → Transaction → ℕ
outgoing k t = if is_completed t.status then share t.from_id k t.amount else 0

abbrev pub IsPosted : Db → Type 0
IsPosted db =
    (k : ℕ)
    → pos_part (db.account_balances k) + sum_of (outgoing k) db.transactions
      ≡ neg_part (db.account_balances k) + sum_of (incoming k) db.transactions

post_insert-parts :
    (t : Transaction) (f : Balances) (k : ℕ)
    → pos_part (post_insert t f k) + neg_part (f k) + outgoing k t
      ≡ neg_part (post_insert t f k) + pos_part (f k) + incoming k t
unfolding post_insert
post_insert-parts t f k = elim (Bool-cases (is_completed t.status)) [
  | inl e ↦ rw e (move-parts t.from_id t.to_id t.amount f k)
  | inr e ↦ rw e (omega arith)
]

-- The store after an INSERT that has passed the check constraints.
abbrev pub with_transaction : Transaction → Db → Db
with_transaction t db = record db {
  transactions = db.transactions ++ record t { id = db.next_id } ∷ [];
  account_balances = post_insert t db.account_balances;
  next_id = db.next_id + 1;
}

pub insert_transaction-stored :
    (t : Transaction) (db : Db) {db' : Db}
    → insert_transaction t db ≡ ok db'
    → db' ≡ with_transaction t db
unfolding insert_transaction
insert_transaction-stored t db h = ground arith

-- An INSERT keeps every balance equal to what the ledger adds up to.
pub insert_transaction-IsPosted :
    (t : Transaction) (db : Db) {db' : Db}
    → insert_transaction t db ≡ ok db'
    → IsPosted db
    → IsPosted db'
insert_transaction-IsPosted t db {db'} h p k = rw (insert_transaction-stored t db h) (
    rw
      (
        sum_of-append (outgoing k) db.transactions (record t { id = db.next_id } ∷ []),
        sum_of-append (incoming k) db.transactions (record t { id = db.next_id } ∷ []),
      )
      (omega (arith, p k, post_insert-parts t db.account_balances k)))

pub insert_transactions-IsPosted :
    (ts : List Transaction) (db : Db) {db' : Db}
    → insert_transactions ts db ≡ ok db'
    → IsPosted db
    → IsPosted db'
unfolding insert_transactions
insert_transactions-IsPosted [] db h p = rw (← ok-injective h) p
insert_transactions-IsPosted (t ∷ ts) db h p =
    let (mid, first, rest) = >>=-eq-ok (insert_transaction t db) _ h in
    insert_transactions-IsPosted ts mid rest (insert_transaction-IsPosted t db first p)

not_completed-zero :
    (s : TransactionStatus) (n : ℕ) → is_completed s ≡ false → (if is_completed s then n else 0) ≡ 0
not_completed-zero s n e = rw e

post_update-parts :
    (old t : Transaction) (f : Balances) (k : ℕ)
    → is_completed old.status ≡ false
    → t.from_id ≡ old.from_id
    → t.to_id ≡ old.to_id
    → t.amount ≡ old.amount
    → pos_part (post_update old t.status f k) + neg_part (f k) + outgoing k t
      ≡ neg_part (post_update old t.status f k) + pos_part (f k) + incoming k t
unfolding post_update
post_update-parts old t f k e ef et ea = elim (Bool-cases (is_completed t.status)) [
  | inl c ↦ rw (ef, et, ea, e, c) (move-parts old.from_id old.to_id old.amount f k)
  | inr c ↦ rw (ef, et, ea, e, c) (omega arith)
]

-- What an UPDATE leaves alone: the trigger forbids a change of the amount and of the two ends.
pub record IsStatusChange (change : Transaction → Transaction) : Type 0 where
  pub same_id : (t : Transaction) → (change t).id ≡ t.id
  pub same_from : (t : Transaction) → (change t).from_id ≡ t.from_id
  pub same_to : (t : Transaction) → (change t).to_id ≡ t.to_id
  pub same_amount : (t : Transaction) → (change t).amount ≡ t.amount

-- A pending row that is completed or rejected keeps the balances equal to the ledger.
pub flush_transaction-IsPosted :
    (old : Transaction) (change : Transaction → Transaction) (db : Db)
    → IsKeyed (λ (u : Transaction). u.id) db.transactions
    → find (λ u. u.id == old.id) db.transactions ≡ some old
    → is_completed old.status ≡ false
    → IsStatusChange change
    → IsPosted db
    → IsPosted (flush_transaction old change db)
unfolding flush_transaction
flush_transaction-IsPosted old change db u found pending c p k = omega (
  arith,
  p k,
  sum_of-update_where _ (outgoing k) old.id change db.transactions u found,
  sum_of-update_where _ (incoming k) old.id change db.transactions u found,
  not_completed-zero old.status (share old.from_id k old.amount) pending,
  not_completed-zero old.status (share old.to_id k old.amount) pending,
  post_update-parts old (change old) db.account_balances k pending (c.same_from old) (c.same_to old)
      (c.same_amount old),
)

insert_transaction-parts :
    (t : Transaction) (db : Db) {db' : Db}
    → insert_transaction t db ≡ ok db'
    → (k : ℕ)
    → pos_part (db'.account_balances k) + neg_part (db.account_balances k) + outgoing k t
      ≡ neg_part (db'.account_balances k) + pos_part (db.account_balances k) + incoming k t
insert_transaction-parts t db h k =
    rw (insert_transaction-stored t db h) (post_insert-parts t db.account_balances k)

-- What a list of INSERTs moves.
pub insert_transactions-parts :
    (ts : List Transaction) (db : Db) {db' : Db}
    → insert_transactions ts db ≡ ok db'
    → (k : ℕ)
    → pos_part (db'.account_balances k) + neg_part (db.account_balances k) + sum_of (outgoing k) ts
      ≡ neg_part (db'.account_balances k)
        + pos_part (db.account_balances k)
        + sum_of (incoming k) ts
unfolding insert_transactions
insert_transactions-parts [] db h k = rw (← ok-injective h) (omega arith)
insert_transactions-parts (t ∷ ts) db h k =
    let (mid, first, rest) = >>=-eq-ok (insert_transaction t db) _ h in
    omega (arith, insert_transaction-parts t db first k, insert_transactions-parts ts mid rest k)
