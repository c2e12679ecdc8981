-- ===== src/Contracts/Invoices.antt =====
-- Invoices of a contract: `issue_invoice`, `mark_invoice_paid` and `cancel_invoice` of
-- `ContractService`.
pub mod Life
pub mod Generate
use munavvar_a.Prelude.{
  ℕ, Bool, not, ◌&&◌, ◌||◌, ◌==◌, Option, none, some, List, find, update_where,
}
use munavvar_a.Store.{
  InvoiceStatus, Invoice, Db, Error, Result, ok, ◌>>=◌, ◌>>◌, raise_if, or_raise,
  same_invoice_status,
}

-- `invoices.get`, with its `active_only` default.
abbrev pub find_invoice : ℕ → List Invoice → Option Invoice
find_invoice k = find (λ i. i.id == k && i.is_active)

-- UPDATE invoices ... WHERE id = k
abbrev pub update_invoice : ℕ → (Invoice → Invoice) → Db → Db
update_invoice k change db = record db {
  invoices = update_where (λ i. i.id == k) change db.invoices;
}

-- The invoice, where it belongs to the contract.
unfoldable pub get_own_invoice : ℕ → ℕ → List Invoice → Result Invoice
get_own_invoice contract_id k is = do
  invoice ← or_raise (find_invoice k is) Error.invoice_not_found
  raise_if (not (invoice.contract_id == contract_id)) Error.invoice_not_found
  ok invoice

abbrev pub issued : ℕ → Invoice → Invoice
issued now i = record i { status = InvoiceStatus.issued; issued_at = some now }

-- `issue_invoice`
unfoldable pub issue_invoice : ℕ → ℕ → ℕ → Db → Result Db
issue_invoice contract_id k now db = do
  invoice ← get_own_invoice contract_id k db.invoices
  raise_if (not (same_invoice_status invoice.status InvoiceStatus.draft))
      Error.invalid_invoice_transition
  ok (update_invoice k (issued now) db)

abbrev pub paid : ℕ → Invoice → Invoice
paid now i = record i { status = InvoiceStatus.paid; paid_at = some now }

-- `mark_invoice_paid`; the look at the client's balance only writes to the log.
unfoldable pub mark_invoice_paid : ℕ → ℕ → ℕ → Db → Result Db
mark_invoice_paid contract_id k now db = do
  invoice ← get_own_invoice contract_id k db.invoices
  raise_if
      (not (
        same_invoice_status invoice.status InvoiceStatus.issued
        || same_invoice_status invoice.status InvoiceStatus.overdue))
      Error.invalid_invoice_transition
  ok (update_invoice k (paid now) db)

abbrev pub annulled : Invoice → Invoice
annulled i = record i { status = InvoiceStatus.cancelled }

-- `cancel_invoice`
unfoldable pub cancel_invoice : ℕ → ℕ → Db → Result Db
cancel_invoice contract_id k db = do
  invoice ← get_own_invoice contract_id k db.invoices
  raise_if
      (not (
        same_invoice_status invoice.status InvoiceStatus.draft
        || same_invoice_status invoice.status InvoiceStatus.issued))
      Error.invalid_invoice_transition
  ok (update_invoice k annulled db)

-- A call on one invoice.
pub data InvoiceCall : Type 0 where
  issue : ℕ → InvoiceCall
  pay : ℕ → InvoiceCall
  annul : InvoiceCall

unfoldable pub run_invoice : InvoiceCall → ℕ → ℕ → Db → Result Db
run_invoice (InvoiceCall.issue now) contract_id k db = issue_invoice contract_id k now db
run_invoice (InvoiceCall.pay now) contract_id k db = mark_invoice_paid contract_id k now db
run_invoice InvoiceCall.annul contract_id k db = cancel_invoice contract_id k db
