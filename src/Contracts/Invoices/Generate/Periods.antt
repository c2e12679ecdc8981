-- ===== src/Contracts/Invoices/Generate/Periods.antt =====
-- No period of a contract is billed twice.
use munavvar_a.Prelude.{
  ℕ, true, false, not, ◌≡◌, ◌+◌, ◌≤◌, ◌==◌, ◌&&◌, refl, ap, subst, ◌∙◌, inl, inr, Bool-cases,
  ==_iff, Option, none, some, List, [], ◌∷◌, ◌++◌, find, keep, sum_of, sum_of-append, any, ltb,
  is_some, length, arith,
}
use munavvar_a.Prelude.Keyed.{
  IsKeyed, has_key, append-IsKeyed, append-AllBelow, find-update_where_self, find-update_where_ne,
}
use munavvar_a.Store.{
  InvoiceStatus, Invoice, Db, ok, >>=-eq-ok, raise_if-eq-ok, or_raise-eq-ok, ok-injective,
  one_or_none-none, same_invoice_status, find_contract, committed, committed-keeps,
}
use munavvar_a.Contracts.Invoices.{update_invoice}
use munavvar_a.Contracts.Invoices.Generate.{
  bills, get_for_period, has_number, generate_invoice, is_overdue_candidate, overdue, mark_overdue,
  run_overdue_job, BillingStep, run_billing_step, run_all_invoices,
}
use munavvar_a.Contracts.Invoices.Generate.Once.{
  invoice_id, billed, IsBilledOnce, change-IsBilledOnce, billed_less, run_invoice-IsBilledOnce,
}

-- The invoices of a list are in the table, under their ids, and not cancelled.
abbrev AllLive : List Invoice → List Invoice → Type 0
AllLive [] rows = Unit
AllLive (i ∷ is) rows =
    ((x : Invoice) × (find (has_key invoice_id i.id) rows ≡ some x)
      × (same_invoice_status x.status InvoiceStatus.cancelled ≡ false))
    × AllLive is rows

overdue_found :
    (j k : ℕ) (db : Db) {x : Invoice}
    → find (has_key invoice_id j) db.invoices ≡ some x
    → same_invoice_status x.status InvoiceStatus.cancelled ≡ false
    → (y : Invoice) × (find (has_key invoice_id j) (update_invoice k overdue db).invoices ≡ some y)
      × (same_invoice_status y.status InvoiceStatus.cancelled ≡ false)
overdue_found j k db {x} found live = elim (Bool-cases (j == k)) [
  | inl e ↦
      let same : j ≡ k = (==_iff j k).0 e in
      (
        overdue x,
        subst
            (λ n.
              find (has_key invoice_id j) (update_invoice n overdue db).invoices ≡ some (overdue x))
            same (find-update_where_self invoice_id j overdue db.invoices (λ z. refl) found),
        refl,
      )
  | inr e ↦ (
    x,
    find-update_where_ne invoice_id j k overdue db.invoices (λ z. refl) (ground arith) ∙ found,
    live,
  )
]

AllLive-overdue :
    (is : List Invoice) (k : ℕ) (db : Db)
    → AllLive is db.invoices
    → AllLive is (update_invoice k overdue db).invoices
AllLive-overdue [] k db h = tt
AllLive-overdue (i ∷ is) k db h = (overdue_found i.id k db h.0.1 h.0.2, AllLive-overdue is k db h.1)

mark_overdue-IsBilledOnce :
    (is : List Invoice) (db : Db)
    → IsBilledOnce db
    → AllLive is db.invoices
    → IsBilledOnce (mark_overdue is db)
unfolding mark_overdue
mark_overdue-IsBilledOnce [] db b h = b
mark_overdue-IsBilledOnce (i ∷ is) db b h =
    mark_overdue-IsBilledOnce is (update_invoice i.id overdue db)
      (change-IsBilledOnce i.id overdue db b h.0.1 (λ x. refl)
        (λ d from to. billed_less d from to h.0.0 InvoiceStatus.overdue h.0.2))
      (AllLive-overdue is i.id db h.1)

AllLive-cons :
    (i : Invoice) (is rows : List Invoice)
    → find (has_key invoice_id i.id) rows ≡ none
    → AllLive is rows
    → AllLive is (i ∷ rows)
AllLive-cons i [] rows free h = tt
AllLive-cons i (j ∷ js) rows free h =
    let (x, found, live) = h.0 in ((x, there x found, live), AllLive-cons i js rows free h.1)
  where
    there :
        (x : Invoice)
        → find (has_key invoice_id j.id) rows ≡ some x
        → find (has_key invoice_id j.id) (i ∷ rows) ≡ some x
    there x found = elim (Bool-cases (i.id == j.id)) [
      | inr e ↦ rw e found
      | inl e ↦
          let same : i.id ≡ j.id = (==_iff i.id j.id).0 e in
          let absent : find (has_key invoice_id j.id) rows ≡ none = rw (← same) free in cc
    ]

candidate_live :
    (today : ℕ) (i : Invoice)
    → is_overdue_candidate today i ≡ true
    → same_invoice_status i.status InvoiceStatus.cancelled ≡ false
candidate_live today i h = ground arith

candidates-AllLive :
    (today : ℕ) (rows : List Invoice)
    → IsKeyed invoice_id rows
    → AllLive (keep (is_overdue_candidate today) rows) rows
candidates-AllLive today [] u = tt
candidates-AllLive today (i ∷ is) u =
    let rest =
      AllLive-cons i (keep (is_overdue_candidate today) is) is u.0
        (candidates-AllLive today is u.1) in
    elim (Bool-cases (is_overdue_candidate today i)) [
      | inl e ↦ rw e ((i, own i is, candidate_live today i e), rest)
      | inr e ↦ rw e rest
    ]
  where
    own : (i : Invoice) (is : List Invoice) → find (has_key invoice_id i.id) (i ∷ is) ≡ some i
    own i is = ground arith

kept_billed :
    (c from to : ℕ) (is : List Invoice)
    → keep (bills c from to) is ≡ []
    → sum_of (billed c from to) is ≡ 0
kept_billed c from to [] h = refl
kept_billed c from to (x ∷ xs) h = elim (Bool-cases (bills c from to x)) [
  | inl e ↦ let q : (x ∷ keep (bills c from to) xs) ≡ [] = rw e at h in cc
  | inr e ↦ rw e (omega (arith, kept_billed c from to xs (rw e at h)))
]

bills_of :
    (c from to : ℕ) (i : Invoice)
    → bills c from to i ≡ true
    → (i.contract_id ≡ c) × (i.period_from ≡ from) × (i.period_to ≡ to)
bills_of c from to i h = (ground arith, ground arith, ground arith)

-- A new invoice for a period that no invoice bills.
new-once :
    (i : Invoice) (is : List Invoice)
    → keep (bills i.contract_id i.period_from i.period_to) is ≡ []
    → ((c from to : ℕ) → sum_of (billed c from to) is ≤ 1)
    → (c from to : ℕ) → sum_of (billed c from to) (is ++ i ∷ []) ≤ 1
new-once i is none_yet once c from to = elim (Bool-cases (bills c from to i)) [
  | inr e ↦
      omega (arith, once c from to, sum_of-append (billed c from to) is (i ∷ []), zero_billed e)
  | inl e ↦
      let (p, q, r) = bills_of c from to i e in
      let free : sum_of (billed c from to) is ≡ 0 = kept_billed c from to is (
        subst (λ t. keep (bills c from t) is ≡ []) r
          (subst (λ f. keep (bills c f i.period_to) is ≡ []) q
            (subst (λ d. keep (bills d i.period_from i.period_to) is ≡ []) p none_yet))) in
      omega (arith, free, sum_of-append (billed c from to) is (i ∷ []), one_billed)
]
  where
    zero_billed : bills c from to i ≡ false → sum_of (billed c from to) (i ∷ []) ≡ 0
    zero_billed e = rw e

    one_billed : sum_of (billed c from to) (i ∷ []) ≤ 1
    one_billed = ground arith

no_duplicate : (found : Option Invoice) → is_some found ≡ false → found ≡ none
no_duplicate none h = refl
no_duplicate (some i) h = cc

generate_invoice-IsBilledOnce :
    (created_on month_of : ℕ → ℕ) (c from to : ℕ) (db : Db) {db' : Db}
    → IsBilledOnce db
    → generate_invoice created_on month_of c from to db ≡ ok db'
    → IsBilledOnce db'
unfolding generate_invoice get_for_period
generate_invoice-IsBilledOnce created_on month_of c from to db b h =
    let (contract, _, h₁) = or_raise-eq-ok (find_contract c db.contracts) _ _ h in
    let (duplicate, looked, h₂) = >>=-eq-ok (get_for_period c from to db.invoices) _ h₁ in
    let (fresh, h₃) = raise_if-eq-ok (is_some duplicate) _ _ h₂ in
    let (_, h₄) = raise_if-eq-ok (not (ltb from to)) _ _ h₃ in
    let sequence = length (keep (λ i. i.contract_id == c && i.is_active) db.invoices) + 1 in
    let (_, h₅) = raise_if-eq-ok (any (has_number month_of c from sequence) db.invoices) _ _ h₄ in
    let none_yet : keep (bills c from to) db.invoices ≡ [] =
      one_or_none-none _ (looked ∙ ap ok (no_duplicate duplicate fresh)) in
    subst IsBilledOnce (ok-injective h₅) (record {
      keyed = append-IsKeyed invoice_id db.next_id db.invoices _ b.keyed b.below refl;
      below = append-AllBelow invoice_id db.next_id db.invoices _ b.below refl;
      once = new-once _ db.invoices none_yet b.once;
    })

-- From a store where invoice ids are unique and below the next id and no period of a contract is
-- billed by two invoices that are not cancelled, any sequence of the calls on invoices (generation,
-- issue, payment, cancellation, the job that finds overdue ones), failed ones included, leads to a
-- store where no period of a contract is billed twice.
pub run_all_invoices-IsBilledOnce :
    (created_on month_of : ℕ → ℕ) (cs : List BillingStep) (db : Db)
    → IsBilledOnce db
    → IsBilledOnce (run_all_invoices created_on month_of cs db)
unfolding run_all_invoices run_billing_step run_overdue_job
run_all_invoices-IsBilledOnce created_on month_of [] db b = b
run_all_invoices-IsBilledOnce created_on month_of (c ∷ cs) db b =
    run_all_invoices-IsBilledOnce created_on month_of cs
      (committed (run_billing_step created_on month_of c db) db)
      (committed-keeps IsBilledOnce (run_billing_step created_on month_of c db) db b
        (λ db' h. step created_on month_of c db b h))
  where
    step :
        (created_on month_of : ℕ → ℕ) (c : BillingStep) (db : Db) {db' : Db}
        → IsBilledOnce db
        → run_billing_step created_on month_of c db ≡ ok db'
        → IsBilledOnce db'
    step created_on month_of (BillingStep.generate k from to) db b h =
        generate_invoice-IsBilledOnce created_on month_of k from to db b h
    step created_on month_of (BillingStep.change call contract_id k) db b h =
        run_invoice-IsBilledOnce call contract_id k db b h
    step created_on month_of (BillingStep.check_due today) db b h =
        subst IsBilledOnce (ok-injective h) (
          mark_overdue-IsBilledOnce (keep (is_overdue_candidate today) db.invoices) db b
            (candidates-AllLive today db.invoices b.keyed))
