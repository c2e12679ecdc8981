-- ===== src/Runs.antt =====
-- The calls of the services that touch the contract quotas, one after the other, each in a
-- transaction of its own: orders, contracts, and the job on stale orders.
pub mod Frame
pub mod Balance
pub mod Life
use munavvar_a.Prelude.{List, [], ◌∷◌}
use munavvar_a.Store.{Db, Result, committed}
use munavvar_a.Orders.Calls.{OrderCall, run_order}
use munavvar_a.Orders.Stale.{StaleRun, expire_stale_orders}
use munavvar_a.Contracts.Calls.{ContractCall, run_contract}

pub data Call : Type 0 where
  on_order : OrderCall → Call
  on_contract : ContractCall → Call
  expire_stale : StaleRun → Call

unfoldable pub run_call : Call → Db → Result Db
run_call (Call.on_order c) db = run_order c db
run_call (Call.on_contract c) db = run_contract c db
run_call (Call.expire_stale run) db = expire_stale_orders run db

unfoldable pub run_all_calls : List Call → Db → Db
run_all_calls [] db = db
run_all_calls (c ∷ cs) db = run_all_calls cs (committed (run_call c db) db)
