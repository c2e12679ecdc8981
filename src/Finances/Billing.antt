-- ===== src/Finances/Billing.antt =====
-- `BillingService` (src/modules/finances/services.py): the operations that write transactions.
pub mod Laws
use Prim.Native.String.{◌++◌ as str_append}
use munavvar_a.Prelude.{
  ℕ, Bool, not, ◌&&◌, ◌==◌, find, Option, none, some, String, List, [], ◌∷◌, if◌then◌else◌,
}
use munavvar_a.Store.{
  committed, TransactionStatus, same_transaction_status, AccountType, Account, Transaction, Db,
  Error, Result, ok, err, ◌>>=◌, ◌>>◌, raise_if, or_raise, is_truthy, get_client_account,
  get_system_account,
}
use munavvar_a.Finances.Ledger.{is_completed, insert_transaction, flush_transaction}

abbrev pub find_account : ℕ → List Account → Option Account
find_account k = find (λ a. a.id == k && a.is_active)

abbrev pub find_transaction : ℕ → List Transaction → Option Transaction
find_transaction k = find (λ t. t.id == k)

-- `create_transaction`
unfoldable pub create_transaction : ℕ → ℕ → ℕ → String → Option ℕ → ℕ → Db → Result Db
create_transaction from to amount reason order_id created_by db = do
  raise_if (from == to) Error.self_transfer
  from_account ← or_raise (find_account from db.accounts) Error.account_not_found
  to_account ← or_raise (find_account to db.accounts) Error.account_not_found
  insert_transaction
      (record {
        id = 0;
        from_id = from;
        to_id = to;
        amount = amount;
        status = TransactionStatus.completed;
        reason = reason;
        order_id = order_id;
        verified_by_id = some created_by;
      })
      db

-- `verify_transaction`
unfoldable pub verify_transaction : ℕ → ℕ → Db → Result Db
verify_transaction transaction_id verified_by db = do
  txn ← or_raise (find_transaction transaction_id db.transactions) Error.transaction_not_found
  raise_if (not (same_transaction_status txn.status TransactionStatus.pending))
      Error.invalid_transaction_status
  ok (
      flush_transaction txn
        (λ t. record t { status = TransactionStatus.completed; verified_by_id = some verified_by })
        db)

-- The text that a rejection appends to the reason.
unfoldable pub rejected_reason : String → Option String → String
rejected_reason old none = old
rejected_reason old (some r) =
    if is_truthy (some r) then str_append (str_append old " | Отклонено: ") r else old

-- `reject_transaction`
unfoldable pub reject_transaction : ℕ → ℕ → Option String → Db → Result Db
reject_transaction transaction_id verified_by reason db = do
  txn ← or_raise (find_transaction transaction_id db.transactions) Error.transaction_not_found
  raise_if (not (same_transaction_status txn.status TransactionStatus.pending))
      Error.invalid_transaction_status
  ok (
      flush_transaction txn
        (λ t. record t {
          status = TransactionStatus.rejected;
          verified_by_id = some verified_by;
          reason = rejected_reason t.reason reason;
        })
        db)

-- The strings that `accept_payment` compares with; any other method is `bank`.
pub data CashboxMethod : Type 0 where
  cash card bank : CashboxMethod

unfoldable pub cashbox_target : CashboxMethod → AccountType
cashbox_target CashboxMethod.cash = AccountType.cash
cashbox_target CashboxMethod.card = AccountType.card
cashbox_target CashboxMethod.bank = AccountType.bank

unfoldable pub cashbox_status : CashboxMethod → TransactionStatus
cashbox_status CashboxMethod.cash = TransactionStatus.completed
cashbox_status CashboxMethod.card = TransactionStatus.pending
cashbox_status CashboxMethod.bank = TransactionStatus.completed

-- `accept_payment`
unfoldable pub accept_payment : ℕ → ℕ → CashboxMethod → String → ℕ → Option ℕ → Db → Result Db
accept_payment client_id amount method reason accepted_by order_id db = do
  client_account ← or_raise (get_client_account client_id db.accounts) Error.account_not_found
  target ← or_raise (get_system_account (cashbox_target method) db.accounts) Error.account_not_found
  insert_transaction
      (record {
        id = 0;
        from_id = client_account.id;
        to_id = target.id;
        amount = amount;
        status = cashbox_status method;
        reason = reason;
        order_id = order_id;
        verified_by_id = if is_completed (cashbox_status method) then some accepted_by else none;
      })
      db

-- A call of the service that writes transactions.
pub data BillingCall : Type 0 where
  create : ℕ → ℕ → ℕ → String → Option ℕ → ℕ → BillingCall
  verify : ℕ → ℕ → BillingCall
  reject : ℕ → ℕ → Option String → BillingCall
  accept : ℕ → ℕ → CashboxMethod → String → ℕ → Option ℕ → BillingCall

unfoldable pub run_billing : BillingCall → Db → Result Db
run_billing (BillingCall.create from to amount reason order_id by) =
    create_transaction from to amount reason order_id by
run_billing (BillingCall.verify k by) = verify_transaction k by
run_billing (BillingCall.reject k by reason) = reject_transaction k by reason
run_billing (BillingCall.accept client amount method reason by order_id) =
    accept_payment client amount method reason by order_id

unfoldable pub run_all_billing : List BillingCall → Db → Db
run_all_billing [] db = db
run_all_billing (c ∷ cs) db = run_all_billing cs (committed (run_billing c db) db)
