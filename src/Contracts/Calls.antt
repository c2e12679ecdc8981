-- ===== src/Contracts/Calls.antt =====
-- The calls that `ContractService` answers about contracts, one after the other, each in a
-- transaction of its own.
use munavvar_a.Prelude.{ℕ, Option, String, List, [], ◌∷◌}
use munavvar_a.Store.{Db, Result, committed}
use munavvar_a.Contracts.Lifecycle.{
  activate_contract, reinstate_contract, suspend_contract, terminate_contract,
}
use munavvar_a.Contracts.Terms.{ContractCreate, ContractUpdate, create_contract, update_contract}
use munavvar_a.Contracts.Expiry.{run_expire_job}

pub data ContractCall : Type 0 where
  draft_new : ℕ → ContractCreate → ContractCall
  change_terms : ℕ → ContractUpdate → ContractCall
  activate : ℕ → ℕ → ℕ → ContractCall
  reinstate : ℕ → Option ℕ → ContractCall
  suspend_it : ℕ → String → Option ℕ → ℕ → ContractCall
  terminate_it : ℕ → String → Option ℕ → ℕ → ContractCall
  expire_due : ℕ → ContractCall

unfoldable pub run_contract : ContractCall → Db → Result Db
run_contract (ContractCall.draft_new client dto) db = create_contract client dto db
run_contract (ContractCall.change_terms k dto) db = update_contract k dto db
run_contract (ContractCall.activate k by now) db = activate_contract k by now db
run_contract (ContractCall.reinstate k by) db = reinstate_contract k by db
run_contract (ContractCall.suspend_it k reason by now) db = suspend_contract k reason by now db
run_contract (ContractCall.terminate_it k reason by now) db = terminate_contract k reason by now db
run_contract (ContractCall.expire_due today) db = run_expire_job today db

unfoldable pub run_all_contracts : List ContractCall → Db → Db
run_all_contracts [] db = db
run_all_contracts (c ∷ cs) db = run_all_contracts cs (committed (run_contract c db) db)
