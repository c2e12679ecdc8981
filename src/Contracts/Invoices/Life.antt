-- ===== src/Contracts/Invoices/Life.antt =====
-- The life of an invoice under the calls that change its status by hand.
use munavvar_a.Prelude.{
  ℕ, false, not, ◌≡◌, refl, subst, ◌||◌, ◌==◌, some, List, [], ◌∷◌, update_where, arith,
}
use munavvar_a.Store.{
  InvoiceStatus, Invoice, Db, ok, same_invoice_status, >>=-eq-ok, raise_if-eq-ok, ok-injective,
}
use munavvar_a.Contracts.Invoices.{
  find_invoice, update_invoice, get_own_invoice, issued, issue_invoice, paid, mark_invoice_paid,
  annulled, cancel_invoice, InvoiceCall, run_invoice,
}

-- Paid and cancelled invoices have no way out.
pub data InvoiceEdge : InvoiceStatus → InvoiceStatus → Type 0 where
  issue_draft : InvoiceEdge InvoiceStatus.draft InvoiceStatus.issued
  pay_issued : InvoiceEdge InvoiceStatus.issued InvoiceStatus.paid
  pay_overdue : InvoiceEdge InvoiceStatus.overdue InvoiceStatus.paid
  annul_draft : InvoiceEdge InvoiceStatus.draft InvoiceStatus.cancelled
  annul_issued : InvoiceEdge InvoiceStatus.issued InvoiceStatus.cancelled

-- The invoice before and after a call, and the edge between its statuses.
pub record Moved (contract_id k : ℕ) (db db' : Db) : Type 0 where
  pub before : Invoice
  pub after : Invoice
  pub found : find_invoice k db.invoices ≡ some before
  pub own : before.contract_id ≡ contract_id
  pub stored : find_invoice k db'.invoices ≡ some after
  pub edge : InvoiceEdge before.status after.status

find_invoice-update :
    (k : ℕ) (f : Invoice → Invoice) (is : List Invoice) {i : Invoice}
    → ((x : Invoice) → (f x).id ≡ x.id)
    → ((x : Invoice) → (f x).is_active ≡ x.is_active)
    → find_invoice k is ≡ some i
    → find_invoice k (update_where (λ x. x.id == k) f is) ≡ some (f i)
find_invoice-update k f [] same active h = cc
find_invoice-update k f (x ∷ xs) {i} same active h =
    ground (arith, same x, active x, find_invoice-update k f xs {i = i} same active)

pub own_invoice :
    (c k : ℕ) (is : List Invoice) {i : Invoice}
    → get_own_invoice c k is ≡ ok i
    → (find_invoice k is ≡ some i) × (i.contract_id ≡ c)
unfolding get_own_invoice
own_invoice c k is h = ground arith

moved :
    (c k : ℕ) (f : Invoice → Invoice) (db : Db) {i : Invoice}
    → get_own_invoice c k db.invoices ≡ ok i
    → ((x : Invoice) → (f x).id ≡ x.id)
    → ((x : Invoice) → (f x).is_active ≡ x.is_active)
    → InvoiceEdge i.status (f i).status
    → Moved c k db (update_invoice k f db)
moved c k f db {i} h same active e =
    let (found, own) = own_invoice c k db.invoices h in
    record {
      before = i;
      after = f i;
      found = found;
      own = own;
      stored = find_invoice-update k f db.invoices same active found;
      edge = e;
    }

draft-issued :
    (s : InvoiceStatus)
    → not (same_invoice_status s InvoiceStatus.draft) ≡ false
    → InvoiceEdge s InvoiceStatus.issued
draft-issued InvoiceStatus.draft h = issue_draft
draft-issued InvoiceStatus.issued h = cc
draft-issued InvoiceStatus.partially_paid h = cc
draft-issued InvoiceStatus.paid h = cc
draft-issued InvoiceStatus.overdue h = cc
draft-issued InvoiceStatus.cancelled h = cc

due-paid :
    (s : InvoiceStatus)
    → not
        (same_invoice_status s InvoiceStatus.issued || same_invoice_status s InvoiceStatus.overdue)
      ≡ false
    → InvoiceEdge s InvoiceStatus.paid
due-paid InvoiceStatus.draft h = cc
due-paid InvoiceStatus.issued h = pay_issued
due-paid InvoiceStatus.partially_paid h = cc
due-paid InvoiceStatus.paid h = cc
due-paid InvoiceStatus.overdue h = pay_overdue
due-paid InvoiceStatus.cancelled h = cc

early-annulled :
    (s : InvoiceStatus)
    → not (same_invoice_status s InvoiceStatus.draft || same_invoice_status s InvoiceStatus.issued)
      ≡ false
    → InvoiceEdge s InvoiceStatus.cancelled
early-annulled InvoiceStatus.draft h = annul_draft
early-annulled InvoiceStatus.issued h = annul_issued
early-annulled InvoiceStatus.partially_paid h = cc
early-annulled InvoiceStatus.paid h = cc
early-annulled InvoiceStatus.overdue h = cc
early-annulled InvoiceStatus.cancelled h = cc

-- An accepted call on an invoice finds it with the contract that the caller names, and moves it
-- along an edge of the life of an invoice: from draft to issued, from issued or overdue to paid,
-- from draft or issued to cancelled.
pub run_invoice-Moved :
    (call : InvoiceCall) (c k : ℕ) (db : Db) {db' : Db}
    → run_invoice call c k db ≡ ok db'
    → Moved c k db db'
unfolding run_invoice issue_invoice mark_invoice_paid cancel_invoice
run_invoice-Moved (InvoiceCall.issue now) c k db h =
    let (i, own, h₁) = >>=-eq-ok (get_own_invoice c k db.invoices) _ h in
    let (draft, h₂) =
      raise_if-eq-ok (not (same_invoice_status i.status InvoiceStatus.draft)) _ _ h₁ in
    subst (Moved c k db) (ok-injective h₂)
      (moved c k (issued now) db own (λ x. refl) (λ x. refl) (draft-issued i.status draft))
run_invoice-Moved (InvoiceCall.pay now) c k db h =
    let (i, own, h₁) = >>=-eq-ok (get_own_invoice c k db.invoices) _ h in
    let (due, h₂) =
      raise_if-eq-ok
        (not (
          same_invoice_status i.status InvoiceStatus.issued
          || same_invoice_status i.status InvoiceStatus.overdue))
        _ _ h₁ in
    subst (Moved c k db) (ok-injective h₂)
      (moved c k (paid now) db own (λ x. refl) (λ x. refl) (due-paid i.status due))
run_invoice-Moved InvoiceCall.annul c k db h =
    let (i, own, h₁) = >>=-eq-ok (get_own_invoice c k db.invoices) _ h in
    let (early, h₂) =
      raise_if-eq-ok
        (not (
          same_invoice_status i.status InvoiceStatus.draft
          || same_invoice_status i.status InvoiceStatus.issued))
        _ _ h₁ in
    subst (Moved c k db) (ok-injective h₂)
      (moved c k annulled db own (λ x. refl) (λ x. refl) (early-annulled i.status early))
