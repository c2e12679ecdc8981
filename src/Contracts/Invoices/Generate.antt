-- ===== src/Contracts/Invoices/Generate.antt =====
-- `generate_invoice` and `run_overdue_job` of `ContractService`, with the queries behind them, and
-- runs of all calls on invoices.
pub mod Once
pub mod Periods
use munavvar_a.Prelude.{
  ℕ, Bool, true, false, not, ◌&&◌, ◌||◌, ◌+◌, ◌==◌, ltb, leb, Option, none, some, List, [], ◌∷◌,
  ◌++◌, length, any, keep, sum_of, is_some, if◌then◌else◌,
}
use munavvar_a.Store.{
  OrderStatus, InvoiceStatus, Order, Invoice, Db, Error, Result, ok, ◌>>=◌, ◌>>◌, raise_if,
  or_raise, is_id, one_or_none, same_status, same_invoice_status, find_contract, committed,
}
use munavvar_a.Contracts.Invoices.{InvoiceCall, run_invoice, update_invoice}

-- The WHERE of `get_for_period`: an invoice of the period that is not cancelled.
abbrev pub bills : ℕ → ℕ → ℕ → Invoice → Bool
bills contract_id from to i =
    i.contract_id == contract_id
    && i.period_from == from
    && i.period_to == to
    && not (same_invoice_status i.status InvoiceStatus.cancelled)
    && i.is_active

-- `InvoiceRepository.get_for_period`
unfoldable pub get_for_period : ℕ → ℕ → ℕ → List Invoice → Result (Option Invoice)
get_for_period contract_id from to is = one_or_none (keep (bills contract_id from to) is)

-- The WHERE of `get_delivered_by_contract`; `created_on` is the day of the column orders.created_at,
-- by the id of the order.
abbrev pub is_delivered_in : (ℕ → ℕ) → ℕ → ℕ → ℕ → Order → Bool
is_delivered_in created_on contract_id from to o =
    is_id contract_id o.contract_id
    && (same_status o.status OrderStatus.delivered
        || same_status o.status OrderStatus.pickup_completed)
    && leb from (created_on o.id)
    && ltb (created_on o.id) (to + 1)
    && o.is_active

-- The check of the constraint uq_invoice_contract_number: the number is made of the contract's
-- number, the year and month of the period and the sequence.
abbrev pub has_number : (ℕ → ℕ) → ℕ → ℕ → ℕ → Invoice → Bool
has_number month_of contract_id from sequence i =
    i.contract_id == contract_id
    && month_of i.period_from == month_of from
    && i.sequence == sequence

-- `generate_invoice`, with the check constraint on the order of the period.
unfoldable pub generate_invoice : (ℕ → ℕ) → (ℕ → ℕ) → ℕ → ℕ → ℕ → Db → Result Db
generate_invoice created_on month_of contract_id from to db = do
  contract ← or_raise (find_contract contract_id db.contracts) Error.contract_not_found
  duplicate ← get_for_period contract_id from to db.invoices
  raise_if (is_some duplicate) Error.duplicate_invoice_period
  let delivered = keep (is_delivered_in created_on contract_id from to) db.orders
  let existing = keep (λ i. i.contract_id == contract_id && i.is_active) db.invoices
  let sequence = length existing + 1
  raise_if (not (ltb from to)) Error.integrity_error
  raise_if (any (has_number month_of contract_id from sequence) db.invoices) Error.integrity_error
  let invoice : Invoice = record {
    id = db.next_id;
    contract_id = contract_id;
    sequence = sequence;
    status = InvoiceStatus.draft;
    period_from = from;
    period_to = to;
    amount = sum_of (λ o. o.total_amount) delivered;
    due_date = some (to + contract.payment_due_days);
    issued_at = none;
    paid_at = none;
    is_active = true;
  }
  ok (record db { invoices = db.invoices ++ invoice ∷ []; next_id = db.next_id + 1 })

-- `due_date is not None and due_date < today`
abbrev pub is_due : ℕ → Option ℕ → Bool
is_due today none = false
is_due today (some d) = ltb d today

-- The WHERE of `get_overdue_candidates`.
abbrev pub is_overdue_candidate : ℕ → Invoice → Bool
is_overdue_candidate today i =
    same_invoice_status i.status InvoiceStatus.issued && i.is_active && is_due today i.due_date

abbrev pub overdue : Invoice → Invoice
overdue i = record i { status = InvoiceStatus.overdue }

unfoldable pub mark_overdue : List Invoice → Db → Db
mark_overdue [] db = db
mark_overdue (i ∷ is) db = mark_overdue is (update_invoice i.id overdue db)

-- `run_overdue_job`
unfoldable pub run_overdue_job : ℕ → Db → Db
run_overdue_job today db = mark_overdue (keep (is_overdue_candidate today) db.invoices) db

-- The calls on invoices.
pub data BillingStep : Type 0 where
  generate : ℕ → ℕ → ℕ → BillingStep
  change : InvoiceCall → ℕ → ℕ → BillingStep
  check_due : ℕ → BillingStep

module _ (created_on month_of : ℕ → ℕ) where
  unfoldable pub run_billing_step : BillingStep → Db → Result Db
  run_billing_step (BillingStep.generate contract_id from to) db =
      generate_invoice created_on month_of contract_id from to db
  run_billing_step (BillingStep.change call contract_id k) db = run_invoice call contract_id k db
  run_billing_step (BillingStep.check_due today) db = ok (run_overdue_job today db)

  unfoldable pub run_all_invoices : List BillingStep → Db → Db
  run_all_invoices [] db = db
  run_all_invoices (c ∷ cs) db = run_all_invoices cs (committed (run_billing_step c db) db)
