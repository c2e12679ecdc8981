-- ===== src/Orders/Settlement/Laws.antt =====
-- What the settlement of a delivered order moves between accounts.
use munavvar_a.Prelude.{ℕ, false, ◌≡◌, refl, some, List, [], ◌∷◌, String, subst, sum_of, arith}
use munavvar_a.Prelude.Book.{share}
use munavvar_a.Store.{
  PaymentMethod, AccountType, TransactionStatus, Order, Account, Transaction, Db, ok,
  get_client_account, get_courier_account, get_system_account, same_payment_method, >>=-eq-ok,
  or_raise-eq-ok, ok-injective,
}
use munavvar_a.Inventory.Ledger.Laws.{Shifts}
use munavvar_a.Finances.Ledger.Consistency.{incoming, outgoing, insert_transactions-parts}
use munavvar_a.Orders.Settlement.{delivery_payment, order_transaction, process_financial_settlement}

-- A delivered order that is paid in cash is settled: the client's debt and the client's payment
-- cancel out, the revenue account gives the total of the order and the courier's account gets it.
pub process_financial_settlement-Shifts :
    (o : Order) (db : Db) {db' : Db} {client revenue courier : Account} {k : ℕ}
    → o.payment_method ≡ PaymentMethod.cash
    → o.courier_id ≡ some k
    → get_client_account o.client_id db.accounts ≡ some client
    → get_system_account AccountType.revenue db.accounts ≡ some revenue
    → get_courier_account k db.accounts ≡ some courier
    → process_financial_settlement o db ≡ ok db'
    → (a : ℕ)
    → Shifts
        (db.account_balances a)
        (db'.account_balances a)
        (share courier.id a o.total_amount)
        (share revenue.id a o.total_amount)
unfolding process_financial_settlement delivery_payment
process_financial_settlement-Shifts o db method by at_client at_revenue at_courier h a = omega (
  arith,
  insert_transactions-parts _ db (rw (at_client, at_revenue, method, by, at_courier) at h) a,
)

-- A list of rows that moves nothing.
record Idle (ts : List Transaction) : Type 0 where
  in_zero : (a : ℕ) → sum_of (incoming a) ts ≡ 0
  out_zero : (a : ℕ) → sum_of (outgoing a) ts ≡ 0

Idle-none : Idle []
Idle-none = record { in_zero = λ a. refl; out_zero = λ a. refl }

Idle-pending :
    (o : Order) (from to : ℕ) (reason : String)
    → Idle (order_transaction o from to TransactionStatus.pending reason ∷ [])
Idle-pending o from to reason = record { in_zero = λ a. omega arith; out_zero = λ a. omega arith }

delivery_payment-Idle :
    (m : PaymentMethod) (o : Order) (client : Account) (accounts : List Account)
    {ts : List Transaction}
    → same_payment_method m PaymentMethod.cash ≡ false
    → delivery_payment m o client accounts ≡ ok ts
    → Idle ts
unfolding delivery_payment
delivery_payment-Idle PaymentMethod.cash o client accounts e h = cc
delivery_payment-Idle PaymentMethod.card o client accounts e h =
    let (card, _, h₁) = or_raise-eq-ok (get_system_account AccountType.card accounts) _ _ h in
    subst Idle (ok-injective h₁) (Idle-pending o client.id card.id "Перевод на карту")
delivery_payment-Idle PaymentMethod.contract o client accounts e h =
    subst Idle (ok-injective h) Idle-none

-- A delivered order that is paid by card or by contract leaves its total as the client's debt: the
-- revenue account gives it, the client's account gets it, and no other account changes.
pub process_financial_settlement-Shifts_later :
    (o : Order) (db : Db) {db' : Db} {client revenue : Account}
    → same_payment_method o.payment_method PaymentMethod.cash ≡ false
    → get_client_account o.client_id db.accounts ≡ some client
    → get_system_account AccountType.revenue db.accounts ≡ some revenue
    → process_financial_settlement o db ≡ ok db'
    → (a : ℕ)
    → Shifts
        (db.account_balances a)
        (db'.account_balances a)
        (share client.id a o.total_amount)
        (share revenue.id a o.total_amount)
unfolding process_financial_settlement
process_financial_settlement-Shifts_later o db {client = client} method at_client at_revenue h a =
    let (ts, paid, h₁) =
      >>=-eq-ok (delivery_payment o.payment_method o client db.accounts) _
        (rw (at_client, at_revenue) at h) in
    let idle : Idle ts = delivery_payment-Idle o.payment_method o client db.accounts method paid in
    omega (arith, insert_transactions-parts _ db h₁ a, idle.in_zero a, idle.out_zero a)
