-- ===== src/Contracts/Invoices/Generate/Once.antt =====
-- The rule that no period is billed twice, under a change of one invoice.
use munavvar_a.Prelude.{
  ℕ, true, false, not, ◌≡◌, ◌≤◌, ◌==◌, ◌&&◌, ◌||◌, refl, subst, some, List, find, find-test, sum_of,
  if◌then◌else◌, arith,
}
use munavvar_a.Prelude.Keyed.{
  IsKeyed, AllBelow, has_key, find-key, sum_of-update_where, update_where-IsKeyed,
  update_where-AllBelow,
}
use munavvar_a.Store.{
  InvoiceStatus, Invoice, Db, ok, >>=-eq-ok, raise_if-eq-ok, ok-injective, same_invoice_status,
}
use munavvar_a.Contracts.Invoices.{
  find_invoice, update_invoice, get_own_invoice, issued, issue_invoice, paid, mark_invoice_paid,
  annulled, cancel_invoice, InvoiceCall, run_invoice,
}
use munavvar_a.Contracts.Invoices.Life.{own_invoice}
use munavvar_a.Contracts.Invoices.Generate.{bills}

abbrev pub invoice_id : Invoice → ℕ
invoice_id i = i.id

abbrev pub billed : ℕ → ℕ → ℕ → Invoice → ℕ
billed c from to i = if bills c from to i then 1 else 0

-- Ids are unique and below the next id, and at most one invoice that is not cancelled bills a
-- contract for a period.
pub record IsBilledOnce (db : Db) : Type 0 where
  pub keyed : IsKeyed invoice_id db.invoices
  pub below : AllBelow invoice_id db.next_id db.invoices
  pub once : (c from to : ℕ) → sum_of (billed c from to) db.invoices ≤ 1

-- A change of status of an invoice that was not cancelled.
pub change-IsBilledOnce :
    (k : ℕ) (f : Invoice → Invoice) (db : Db) {i : Invoice}
    → IsBilledOnce db
    → find (has_key invoice_id k) db.invoices ≡ some i
    → ((x : Invoice) → (f x).id ≡ x.id)
    → ((c from to : ℕ) → billed c from to (f i) ≤ billed c from to i)
    → IsBilledOnce (update_invoice k f db)
change-IsBilledOnce k f db {i} b found same less = record {
  keyed = update_where-IsKeyed invoice_id k f db.invoices same b.keyed;
  below = update_where-AllBelow invoice_id db.next_id k f db.invoices same b.below;
  once = λ c from to. omega (
    arith,
    b.once c from to,
    less c from to,
    sum_of-update_where invoice_id (billed c from to) k f db.invoices b.keyed found,
  );
}

find_invoice-id : (k : ℕ) (is : List Invoice) {i : Invoice} → find_invoice k is ≡ some i → i.id ≡ k
find_invoice-id k is {i} h =
    let passed : (i.id == k && i.is_active) ≡ true =
      find-test (λ i. i.id == k && i.is_active) is h in
    ground arith

find_invoice-key :
    (k : ℕ) (db : Db) {i : Invoice}
    → IsBilledOnce db
    → find_invoice k db.invoices ≡ some i
    → find (has_key invoice_id k) db.invoices ≡ some i
find_invoice-key k db {i} b h =
    subst (λ j. find (has_key invoice_id j) db.invoices ≡ some i) (find_invoice-id k db.invoices h)
      (find-key invoice_id (λ i. i.id == k && i.is_active) db.invoices b.keyed h)

-- A new status keeps what an invoice bills, or ends it.
pub billed_less :
    (c from to : ℕ) (i : Invoice) (s : InvoiceStatus)
    → same_invoice_status i.status InvoiceStatus.cancelled ≡ false
    → billed c from to (record i { status = s }) ≤ billed c from to i
billed_less c from to i s live = ground arith

draft_live :
    (s : InvoiceStatus)
    → not (same_invoice_status s InvoiceStatus.draft) ≡ false
    → same_invoice_status s InvoiceStatus.cancelled ≡ false
draft_live s h = ground arith

due_live :
    (s : InvoiceStatus)
    → not
        (same_invoice_status s InvoiceStatus.issued || same_invoice_status s InvoiceStatus.overdue)
      ≡ false
    → same_invoice_status s InvoiceStatus.cancelled ≡ false
due_live s h = ground arith

early_live :
    (s : InvoiceStatus)
    → not (same_invoice_status s InvoiceStatus.draft || same_invoice_status s InvoiceStatus.issued)
      ≡ false
    → same_invoice_status s InvoiceStatus.cancelled ≡ false
early_live s h = ground arith

-- A change of an invoice of the contract that the caller names.
own-IsBilledOnce :
    (c k : ℕ) (f : Invoice → Invoice) (db : Db) {i : Invoice}
    → IsBilledOnce db
    → get_own_invoice c k db.invoices ≡ ok i
    → ((x : Invoice) → (f x).id ≡ x.id)
    → ((d from to : ℕ) → billed d from to (f i) ≤ billed d from to i)
    → IsBilledOnce (update_invoice k f db)
own-IsBilledOnce c k f db b own same less =
    let found = (own_invoice c k db.invoices own).0 in
    change-IsBilledOnce k f db b (find_invoice-key k db b found) same less

pub run_invoice-IsBilledOnce :
    (call : InvoiceCall) (c k : ℕ) (db : Db) {db' : Db}
    → IsBilledOnce db
    → run_invoice call c k db ≡ ok db'
    → IsBilledOnce db'
unfolding run_invoice issue_invoice mark_invoice_paid cancel_invoice
run_invoice-IsBilledOnce (InvoiceCall.issue now) c k db b h =
    let (i, own, h₁) = >>=-eq-ok (get_own_invoice c k db.invoices) _ h in
    let (draft, h₂) =
      raise_if-eq-ok (not (same_invoice_status i.status InvoiceStatus.draft)) _ _ h₁ in
    subst IsBilledOnce (ok-injective h₂) (
      own-IsBilledOnce c k (issued now) db b own (λ x. refl)
        (λ d from to. billed_less d from to i InvoiceStatus.issued (draft_live i.status draft)))
run_invoice-IsBilledOnce (InvoiceCall.pay now) c k db b h =
    let (i, own, h₁) = >>=-eq-ok (get_own_invoice c k db.invoices) _ h in
    let (due, h₂) =
      raise_if-eq-ok
        (not (
          same_invoice_status i.status InvoiceStatus.issued
          || same_invoice_status i.status InvoiceStatus.overdue))
        _ _ h₁ in
    subst IsBilledOnce (ok-injective h₂) (
      own-IsBilledOnce c k (paid now) db b own (λ x. refl)
        (λ d from to. billed_less d from to i InvoiceStatus.paid (due_live i.status due)))
run_invoice-IsBilledOnce InvoiceCall.annul c k db b h =
    let (i, own, h₁) = >>=-eq-ok (get_own_invoice c k db.invoices) _ h in
    let (early, h₂) =
      raise_if-eq-ok
        (not (
          same_invoice_status i.status InvoiceStatus.draft
          || same_invoice_status i.status InvoiceStatus.issued))
        _ _ h₁ in
    subst IsBilledOnce (ok-injective h₂) (
      own-IsBilledOnce c k annulled db b own (λ x. refl)
        (λ d from to. billed_less d from to i InvoiceStatus.cancelled (early_live i.status early)))
