-- ===== src/Finances/Ledger.antt =====
-- The ledger of transactions and the trigger that keeps accounts.balance
-- (src/infrastructure/database/scripts/update_account_balances.sql).
pub mod Consistency
use munavvar_a.Prelude.{
  ℕ, Bool, not, ◌&&◌, ◌+◌, ◌==◌, List, [], ◌∷◌, ◌++◌, update_where, if◌then◌else◌,
}
use munavvar_a.Prelude.Int.{pos, ◌-ℤ◌}
use munavvar_a.Prelude.Book.{Balances, bump, move}
use munavvar_a.Store.{
  TransactionStatus, same_transaction_status, Transaction, Db, Error, Result, ok, err, ◌>>=◌, ◌>>◌,
  raise_if,
}

abbrev pub is_completed : TransactionStatus → Bool
is_completed s = same_transaction_status s TransactionStatus.completed

-- The trigger on INSERT: only a completed row moves money.
unfoldable pub post_insert : Transaction → Balances → Balances
post_insert t f = if is_completed t.status then move t.from_id t.to_id t.amount f else f

-- The trigger on UPDATE of the status: entering `completed` moves the money, leaving it moves the
-- money back.
unfoldable pub post_update : Transaction → TransactionStatus → Balances → Balances
post_update t status f =
    if not (is_completed t.status) && is_completed status
    then move t.from_id t.to_id t.amount f
    else if is_completed t.status && not (is_completed status)
    then bump t.to_id (pos 0 -ℤ pos t.amount) (bump t.from_id (pos t.amount) f)
    else f

-- INSERT INTO transactions, its check constraints and its trigger; the row gets a fresh id.
unfoldable pub insert_transaction : Transaction → Db → Result Db
insert_transaction t db = do
  raise_if (t.amount == 0) Error.integrity_error
  raise_if (t.from_id == t.to_id) Error.integrity_error
  ok (record db {
    transactions = db.transactions ++ record t { id = db.next_id } ∷ [];
    account_balances = post_insert t db.account_balances;
    next_id = db.next_id + 1;
  })

-- `financial_transactions.add_many`
unfoldable pub insert_transactions : List Transaction → Db → Result Db
insert_transactions [] db = ok db
insert_transactions (t ∷ ts) db = do db' ← insert_transaction t db; insert_transactions ts db'

-- The flush of a changed row; the trigger sees the old row and the new status.
unfoldable pub flush_transaction : Transaction → (Transaction → Transaction) → Db → Db
flush_transaction old change db = record db {
  transactions = update_where (λ u. u.id == old.id) change db.transactions;
  account_balances = post_update old (change old).status db.account_balances;
}
