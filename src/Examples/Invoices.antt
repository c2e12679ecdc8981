-- ===== src/Examples/Invoices.antt =====
-- The calls on invoices, on the small store.
use munavvar_a.Prelude.{List, [], ◌∷◌, arith}
use munavvar_a.Contracts.Invoices.{InvoiceCall}
use munavvar_a.Contracts.Invoices.Generate.{BillingStep, run_all_invoices}
use munavvar_a.Contracts.Invoices.Generate.Periods.{run_all_invoices-IsBilledOnce}
use munavvar_a.Contracts.Invoices.Generate.Once.{IsBilledOnce}
use munavvar_a.Examples.Sample.{store}

store-IsBilledOnce : IsBilledOnce store
store-IsBilledOnce = record { keyed = tt; below = tt; once = λ c from to. omega arith }

-- A month is billed, billed again, issued, found overdue and paid.
abbrev steps : List BillingStep
steps =
    BillingStep.generate 1 0 30
    ∷ BillingStep.generate 1 0 30
    ∷ BillingStep.change (InvoiceCall.issue 31) 1 40
    ∷ BillingStep.check_due 90
    ∷ BillingStep.change (InvoiceCall.pay 91) 1 40
    ∷ []

run_all_invoices-IsBilledOnce_example :
    IsBilledOnce (run_all_invoices (λ k. 10) (λ d. 0) steps store)
run_all_invoices-IsBilledOnce_example =
    run_all_invoices-IsBilledOnce (λ k. 10) (λ d. 0) steps store store-IsBilledOnce
