-- ===== src/Finances/Billing/Laws.antt =====
-- What holds of the ledger under every billing call, and the life of one transaction.
use munavvar_a.Prelude.{
  ℕ, false, not, ◌≡◌, refl, subst, sym, ◌==◌, List, [], ◌∷◌, Option, some, String, find-test,
  ==_iff, update_where,
}
use munavvar_a.Prelude.Keyed.{
  IsKeyed, AllBelow, append-IsKeyed, append-AllBelow, update_where-IsKeyed, update_where-AllBelow,
  find-update_where_self,
}
use munavvar_a.Store.{
  committed-keeps, TransactionStatus, same_transaction_status, Transaction, Db, Error, ok, err,
  get_client_account, get_system_account, >>=-eq-ok, raise_if-eq-ok, or_raise-eq-ok, ok-injective,
}
use munavvar_a.Finances.Ledger.{
  is_completed, insert_transaction, insert_transactions, flush_transaction,
}
use munavvar_a.Finances.Ledger.Consistency.{
  IsPosted, IsStatusChange, insert_transaction-stored, insert_transaction-IsPosted,
  flush_transaction-IsPosted,
}
use munavvar_a.Finances.Billing.{
  create_transaction, verify_transaction, reject_transaction, accept_payment, find_transaction,
  find_account, cashbox_target, BillingCall, run_billing, run_all_billing,
}

-- The ledger is sound: ids are unique and not used up, and the balances are its sums.
pub record IsLedger (db : Db) : Type 0 where
  pub keyed : IsKeyed (λ (t : Transaction). t.id) db.transactions
  pub fresh : AllBelow (λ (t : Transaction). t.id) db.next_id db.transactions
  pub posted : IsPosted db

pub insert_transaction-IsLedger :
    (t : Transaction) (db : Db) {db' : Db}
    → insert_transaction t db ≡ ok db'
    → IsLedger db
    → IsLedger db'
insert_transaction-IsLedger t db h l =
    let posted = insert_transaction-IsPosted t db h l.posted in
    rw (insert_transaction-stored t db h) (record {
      keyed = append-IsKeyed _ db.next_id db.transactions _ l.keyed l.fresh refl;
      fresh = append-AllBelow _ db.next_id db.transactions _ l.fresh refl;
      posted = rw (insert_transaction-stored t db h) at posted;
    })

pub insert_transactions-IsLedger :
    (ts : List Transaction) (db : Db) {db' : Db}
    → insert_transactions ts db ≡ ok db'
    → IsLedger db
    → IsLedger db'
unfolding insert_transactions
insert_transactions-IsLedger [] db h l = rw (← ok-injective h) l
insert_transactions-IsLedger (t ∷ ts) db h l =
    let (mid, first, rest) = >>=-eq-ok (insert_transaction t db) _ h in
    insert_transactions-IsLedger ts mid rest (insert_transaction-IsLedger t db first l)

pending-not_completed :
    (s : TransactionStatus)
    → not (same_transaction_status s TransactionStatus.pending) ≡ false
    → is_completed s ≡ false
pending-not_completed TransactionStatus.pending h = refl
pending-not_completed TransactionStatus.completed h = cc
pending-not_completed TransactionStatus.rejected h = cc

find_transaction-id :
    (k : ℕ) (ts : List Transaction) {t : Transaction} → find_transaction k ts ≡ some t → t.id ≡ k
find_transaction-id k ts {t} h = (==_iff t.id k).0 (find-test (λ u. u.id == k) ts h)

-- A pending row that was found may be completed or rejected in place.
flush_transaction-IsLedger :
    (k : ℕ) (old : Transaction) (change : Transaction → Transaction) (db : Db)
    → find_transaction k db.transactions ≡ some old
    → not (same_transaction_status old.status TransactionStatus.pending) ≡ false
    → IsStatusChange change
    → IsLedger db
    → IsLedger (flush_transaction old change db)
unfolding flush_transaction
flush_transaction-IsLedger k old change db found pending c l = record {
  keyed = update_where-IsKeyed _ old.id change db.transactions c.same_id l.keyed;
  fresh = update_where-AllBelow _ db.next_id old.id change db.transactions c.same_id l.fresh;
  posted =
      flush_transaction-IsPosted old change db l.keyed
        (simp (find_transaction-id k db.transactions found) found)
        (pending-not_completed old.status pending) c l.posted;
}

verify_transaction-IsLedger :
    (k by : ℕ) (db : Db) {db' : Db}
    → verify_transaction k by db ≡ ok db'
    → IsLedger db
    → IsLedger db'
unfolding verify_transaction
verify_transaction-IsLedger k by db h l =
    let (txn, found, h₁) = or_raise-eq-ok _ _ _ h in
    let (pending, h₂) = raise_if-eq-ok _ _ _ h₁ in
    subst IsLedger (ok-injective h₂) (
      flush_transaction-IsLedger k txn _ db found pending
        (record {
          same_id = λ t. refl;
          same_from = λ t. refl;
          same_to = λ t. refl;
          same_amount = λ t. refl;
        })
        l)

reject_transaction-IsLedger :
    (k by : ℕ) (reason : Option String) (db : Db) {db' : Db}
    → reject_transaction k by reason db ≡ ok db'
    → IsLedger db
    → IsLedger db'
unfolding reject_transaction
reject_transaction-IsLedger k by reason db h l =
    let (txn, found, h₁) = or_raise-eq-ok _ _ _ h in
    let (pending, h₂) = raise_if-eq-ok _ _ _ h₁ in
    subst IsLedger (ok-injective h₂) (
      flush_transaction-IsLedger k txn _ db found pending
        (record {
          same_id = λ t. refl;
          same_from = λ t. refl;
          same_to = λ t. refl;
          same_amount = λ t. refl;
        })
        l)

run_billing-IsLedger :
    (c : BillingCall) (db : Db) {db' : Db} → run_billing c db ≡ ok db' → IsLedger db → IsLedger db'
unfolding run_billing create_transaction accept_payment
run_billing-IsLedger (BillingCall.create from to amount reason order_id by) db h l =
    let (different, h₁) = raise_if-eq-ok _ _ _ h in
    let (a, found, h₂) = or_raise-eq-ok (find_account from db.accounts) _ _ h₁ in
    let (b, found', h₃) = or_raise-eq-ok (find_account to db.accounts) _ _ h₂ in
    insert_transaction-IsLedger _ db h₃ l
run_billing-IsLedger (BillingCall.verify k by) db h l = verify_transaction-IsLedger k by db h l
run_billing-IsLedger (BillingCall.reject k by reason) db h l =
    reject_transaction-IsLedger k by reason db h l
run_billing-IsLedger (BillingCall.accept client amount method reason by order_id) db h l =
    let (a, found, h₁) = or_raise-eq-ok (get_client_account client db.accounts) _ _ h in
    let (b, found', h₂) =
      or_raise-eq-ok (get_system_account (cashbox_target method) db.accounts) _ _ h₁ in
    insert_transaction-IsLedger _ db h₂ l

-- From a store where every account balance is what the completed transactions add up to and
-- transaction ids are unique and below the next id, any sequence of billing calls, failed ones
-- included, leads to such a store.
pub run_all_billing-IsLedger :
    (cs : List BillingCall) (db : Db) → IsLedger db → IsLedger (run_all_billing cs db)
unfolding run_all_billing
run_all_billing-IsLedger [] db l = l
run_all_billing-IsLedger (c ∷ cs) db l =
    run_all_billing-IsLedger cs _
      (committed-keeps IsLedger (run_billing c db) db l (λ db' h. run_billing-IsLedger c db h l))

abbrev Completed : ℕ → Db → Type 0
Completed k db =
    (t : Transaction) × (find_transaction k db.transactions ≡ some t)
    × (t.status ≡ TransactionStatus.completed)

verify_transaction-Completed :
    (k by : ℕ) (db : Db) {db' : Db} → verify_transaction k by db ≡ ok db' → Completed k db'
unfolding verify_transaction flush_transaction
verify_transaction-Completed k by db h =
    let (txn, found, h₁) = or_raise-eq-ok _ _ _ h in
    let (pending, h₂) = raise_if-eq-ok _ _ _ h₁ in
    let change : Transaction → Transaction =
      λ t. record t { status = TransactionStatus.completed; verified_by_id = some by } in
    let at_id =
      subst
        (λ j.
          find_transaction k (update_where (λ u. u.id == j) change db.transactions)
          ≡ some (change txn))
        (sym (find_transaction-id k db.transactions found))
        (find-update_where_self _ k change db.transactions (λ t. refl) found) in
    subst (Completed k) (ok-injective h₂) (change txn, at_id, refl)

-- A transaction that was verified is settled: a later verification and a later rejection are both
-- refused.
pub verify_transaction_once :
    (k by by' : ℕ) (reason : Option String) (db : Db) {db' : Db}
    → verify_transaction k by db ≡ ok db'
    → (verify_transaction k by' db' ≡ err Error.invalid_transaction_status)
      × (reject_transaction k by' reason db' ≡ err Error.invalid_transaction_status)
unfolding verify_transaction reject_transaction
verify_transaction_once k by by' reason db h =
    let (t, found, done) = verify_transaction-Completed k by db h in
    (rw (found, done), rw (found, done))
