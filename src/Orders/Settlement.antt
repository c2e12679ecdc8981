-- ===== src/Orders/Settlement.antt =====
-- The money of a finished order: `_process_financial_settlement` on delivery and
-- `_process_pickup_settlement` at the warehouse.
pub mod Laws
use munavvar_a.Prelude.{ℕ, Option, none, some, String, List, [], ◌∷◌}
use munavvar_a.Store.{
  PaymentMethod, AccountType, TransactionStatus, Order, Account, Transaction, Db, Error, Result, ok,
  ◌>>=◌, or_raise, get_client_account, get_courier_account, get_system_account,
}
use munavvar_a.Finances.Ledger.{insert_transactions}

-- A row of `financial_txns`; its id is given by the INSERT.
abbrev pub order_transaction : Order → ℕ → ℕ → TransactionStatus → String → Transaction
order_transaction order from to status reason = record {
  id = 0;
  from_id = from;
  to_id = to;
  amount = order.total_amount;
  status = status;
  reason = reason;
  order_id = some order.id;
  verified_by_id = none;
}

-- The second row on delivery, by the payment method.
unfoldable pub delivery_payment :
    PaymentMethod → Order → Account → List Account → Result (List Transaction)
delivery_payment PaymentMethod.cash order client accounts = elim order.courier_id [
  | none ↦ ok []
  | some courier ↦ do
    courier_account ← or_raise (get_courier_account courier accounts) Error.account_not_found
    ok (
        order_transaction order client.id courier_account.id TransactionStatus.completed
          "Оплата наличными курьеру"
        ∷ [])
]
delivery_payment PaymentMethod.card order client accounts = do
  card_account ← or_raise (get_system_account AccountType.card accounts) Error.account_not_found
  ok (
      order_transaction order client.id card_account.id TransactionStatus.pending "Перевод на карту"
      ∷ [])
delivery_payment PaymentMethod.contract order client accounts = ok []

-- `_process_financial_settlement`
unfoldable pub process_financial_settlement : Order → Db → Result Db
process_financial_settlement order db = do
  client_account ← or_raise (get_client_account order.client_id db.accounts) Error.account_not_found
  revenue_account ←
      or_raise (get_system_account AccountType.revenue db.accounts) Error.account_not_found
  payment ← delivery_payment order.payment_method order client_account db.accounts
  insert_transactions
      (order_transaction order revenue_account.id client_account.id TransactionStatus.completed
          "Задолженность за заказ"
        ∷ payment)
      db

-- The second row at the warehouse, by the payment method.
unfoldable pub pickup_payment :
    PaymentMethod → Order → Account → List Account → Result (List Transaction)
pickup_payment PaymentMethod.cash order client accounts = do
  cash_account ← or_raise (get_system_account AccountType.cash accounts) Error.account_not_found
  ok (
      order_transaction order client.id cash_account.id TransactionStatus.completed
        "Оплата наличными на складе (самовывоз)"
      ∷ [])
pickup_payment PaymentMethod.card order client accounts = do
  card_account ← or_raise (get_system_account AccountType.card accounts) Error.account_not_found
  ok (
      order_transaction order client.id card_account.id TransactionStatus.pending
        "Перевод на карту (самовывоз)"
      ∷ [])
pickup_payment PaymentMethod.contract order client accounts = ok []

-- `_process_pickup_settlement`
unfoldable pub process_pickup_settlement : Order → Db → Result Db
process_pickup_settlement order db = do
  client_account ← or_raise (get_client_account order.client_id db.accounts) Error.account_not_found
  revenue_account ←
      or_raise (get_system_account AccountType.revenue db.accounts) Error.account_not_found
  payment ← pickup_payment order.payment_method order client_account db.accounts
  insert_transactions
      (order_transaction order revenue_account.id client_account.id TransactionStatus.completed
          "Задолженность за заказ (самовывоз)"
        ∷ payment)
      db
