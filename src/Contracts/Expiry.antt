-- ===== src/Contracts/Expiry.antt =====
-- `run_expire_job` of `ContractService`, with `ContractRepository.get_expirable`.
pub mod Exclusive
use munavvar_a.Prelude.{
  ℕ, Bool, true, false, ◌&&◌, Option, none, some, String, List, [], ◌∷◌, ltb, keep,
}
use munavvar_a.Store.{
  ContractStatus, Contract, Db, Result, ok, ◌>>=◌, same_contract_status, update_contract_row,
}
use munavvar_a.Orders.Quota.{is_past}
use munavvar_a.Contracts.Lifecycle.{log_contract, cancel_inflight_orders}

-- The WHERE of `get_expirable`: in force, with an end date before today.
abbrev pub is_expirable : ℕ → Contract → Bool
is_expirable today c =
    same_contract_status c.status ContractStatus.active && c.is_active && is_past c.end_date today

abbrev pub expired : Contract → Contract
expired c = record c { status = ContractStatus.expired }

-- One round of the loop over the candidates.
unfoldable pub expire_contract : Contract → Db → Result Db
expire_contract contract db = do
  db' ← cancel_inflight_orders contract.id "Истёк срок действия договора" db
  ok (
      log_contract contract.id ContractStatus.active ContractStatus.expired none
        (some "Истёк срок действия договора")
        (record db' { contracts = update_contract_row contract.id expired db'.contracts }))

unfoldable pub expire_contracts : List Contract → Db → Result Db
expire_contracts [] db = ok db
expire_contracts (c ∷ cs) db = do db' ← expire_contract c db; expire_contracts cs db'

-- `run_expire_job`
unfoldable pub run_expire_job : ℕ → Db → Result Db
run_expire_job today db = expire_contracts (keep (is_expirable today) db.contracts) db
