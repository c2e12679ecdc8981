-- ===== src/Runs/Balance.antt =====
-- The quota ledger over runs of order calls, contract calls and the job on stale orders.
use munavvar_a.Prelude.{
  ℕ, not, ◌≡◌, ◌≤◌, ◌⊎◌, ◌||◌, subst, Option, some, String, List, [], ◌∷◌, keep, find,
}
use munavvar_a.Store.{
  ContractStatus, Contract, PriceItem, Db, ok, >>=-eq-ok, raise_if-eq-ok, or_raise-eq-ok,
  ok-injective, committed, committed-keeps, find_contract, same_contract_status,
}
use munavvar_a.Orders.Quota.{is_price_of}
use munavvar_a.Orders.Quota.Balance.{reserved, IsBalanced, IsBalanced-Frame}
use munavvar_a.Orders.Calls.Balance.{run_order-IsBalanced, row_within}
use munavvar_a.Orders.Stale.Quotas.{expire_stale_orders-IsBalanced}
use munavvar_a.Contracts.Lifecycle.{
  log_contract, suspend_contract, terminate_contract, cancel_inflight_orders,
}
use munavvar_a.Contracts.Lifecycle.Quotas.{cancel_inflight_orders-IsBalanced}
use munavvar_a.Contracts.Expiry.{is_expirable, expire_contract, expire_contracts, run_expire_job}
use munavvar_a.Contracts.Calls.{ContractCall, run_contract}
use munavvar_a.Runs.{Call, run_call, run_all_calls}
use munavvar_a.Runs.Frame.{
  contracts-Frame, log_contract-Frame, create_contract-Frame, update_contract-Frame,
  activate_contract-Frame, reinstate_contract-Frame,
}

pub changed-IsBalanced :
    (cs : List Contract) (db : Db) → IsBalanced db → IsBalanced (record db { contracts = cs })
changed-IsBalanced cs db b = IsBalanced-Frame (contracts-Frame db cs) b

logged-IsBalanced :
    (k : ℕ) (from to : ContractStatus) (by : Option ℕ) (reason : Option String) (db : Db)
    → IsBalanced db
    → IsBalanced (log_contract k from to by reason db)
logged-IsBalanced k from to by reason db b =
    IsBalanced-Frame (log_contract-Frame k from to by reason db) b

suspend_contract-IsBalanced :
    (k : ℕ) (reason : String) (by : Option ℕ) (now : ℕ) (db : Db) {db' : Db}
    → IsBalanced db
    → suspend_contract k reason by now db ≡ ok db'
    → IsBalanced db'
unfolding suspend_contract
suspend_contract-IsBalanced k reason by now db b h =
    let (c, _, h₁) = or_raise-eq-ok (find_contract k db.contracts) _ _ h in
    let (_, h₂) =
      raise_if-eq-ok (not (same_contract_status c.status ContractStatus.active)) _ _ h₁ in
    let (mid, cancelled, h₃) = >>=-eq-ok (cancel_inflight_orders k _ _) _ h₂ in
    subst IsBalanced (ok-injective h₃) (
      logged-IsBalanced k c.status ContractStatus.suspended by _ mid
        (cancel_inflight_orders-IsBalanced k _ _ (changed-IsBalanced _ db b) cancelled))

terminate_contract-IsBalanced :
    (k : ℕ) (reason : String) (by : Option ℕ) (now : ℕ) (db : Db) {db' : Db}
    → IsBalanced db
    → terminate_contract k reason by now db ≡ ok db'
    → IsBalanced db'
unfolding terminate_contract
terminate_contract-IsBalanced k reason by now db b h =
    let (c, _, h₁) = or_raise-eq-ok (find_contract k db.contracts) _ _ h in
    let (_, h₂) =
      raise_if-eq-ok
        (not (
          same_contract_status c.status ContractStatus.active
          || same_contract_status c.status ContractStatus.suspended))
        _ _ h₁ in
    let (mid, cancelled, h₃) = >>=-eq-ok (cancel_inflight_orders k _ _) _ h₂ in
    subst IsBalanced (ok-injective h₃) (
      logged-IsBalanced k c.status ContractStatus.terminated by _ mid
        (cancel_inflight_orders-IsBalanced k _ _ (changed-IsBalanced _ db b) cancelled))

pub expire_contract-IsBalanced :
    (c : Contract) (db : Db) {db' : Db}
    → IsBalanced db
    → expire_contract c db ≡ ok db'
    → IsBalanced db'
unfolding expire_contract
expire_contract-IsBalanced c db b h =
    let (closed, cancelled, h₁) = >>=-eq-ok (cancel_inflight_orders c.id _ db) _ h in
    subst IsBalanced (ok-injective h₁) (
      logged-IsBalanced c.id ContractStatus.active ContractStatus.expired _ _ _
        (changed-IsBalanced _ closed (cancel_inflight_orders-IsBalanced c.id _ db b cancelled)))

expire_contracts-IsBalanced :
    (cs : List Contract) (db : Db) {db' : Db}
    → IsBalanced db
    → expire_contracts cs db ≡ ok db'
    → IsBalanced db'
unfolding expire_contracts
expire_contracts-IsBalanced [] db b h = subst IsBalanced (ok-injective h) b
expire_contracts-IsBalanced (c ∷ cs) db b h =
    let (mid, first, rest) = >>=-eq-ok (expire_contract c db) _ h in
    expire_contracts-IsBalanced cs mid (expire_contract-IsBalanced c db b first) rest

run_contract-IsBalanced :
    (c : ContractCall) (db : Db) {db' : Db}
    → IsBalanced db
    → run_contract c db ≡ ok db'
    → IsBalanced db'
unfolding run_contract run_expire_job
run_contract-IsBalanced (ContractCall.draft_new client dto) db b h =
    IsBalanced-Frame (create_contract-Frame client dto db h) b
run_contract-IsBalanced (ContractCall.change_terms k dto) db b h =
    IsBalanced-Frame (update_contract-Frame k dto db h) b
run_contract-IsBalanced (ContractCall.activate k by now) db b h =
    IsBalanced-Frame (activate_contract-Frame k by now db h) b
run_contract-IsBalanced (ContractCall.reinstate k by) db b h =
    IsBalanced-Frame (reinstate_contract-Frame k by db h) b
run_contract-IsBalanced (ContractCall.suspend_it k reason by now) db b h =
    suspend_contract-IsBalanced k reason by now db b h
run_contract-IsBalanced (ContractCall.terminate_it k reason by now) db b h =
    terminate_contract-IsBalanced k reason by now db b h
run_contract-IsBalanced (ContractCall.expire_due today) db b h =
    expire_contracts-IsBalanced (keep (is_expirable today) db.contracts) db b h

pub run_call-IsBalanced :
    (c : Call) (db : Db) {db' : Db} → IsBalanced db → run_call c db ≡ ok db' → IsBalanced db'
unfolding run_call
run_call-IsBalanced (Call.on_order c) db b h = run_order-IsBalanced c db b h
run_call-IsBalanced (Call.on_contract c) db b h = run_contract-IsBalanced c db b h
run_call-IsBalanced (Call.expire_stale run) db b h = expire_stale_orders-IsBalanced run db b h

-- From a store whose quota ledger balances (each counter `quantity_used` is what the orders that
-- hold quota of that contract have of that product, no counter is above its limit, ids are unique,
-- orders on a contract that are not cancelled hold quota, and only orders paid by contract do),
-- any sequence of order calls, contract calls and runs of the job on stale orders, failed ones
-- included, leads to a store whose quota ledger balances: what a suspended, terminated or expired
-- contract and the job cancel goes back to the counters.
pub run_all_calls-IsBalanced :
    (cs : List Call) (db : Db) → IsBalanced db → IsBalanced (run_all_calls cs db)
unfolding run_all_calls
run_all_calls-IsBalanced [] db b = b
run_all_calls-IsBalanced (c ∷ cs) db b =
    run_all_calls-IsBalanced cs (committed (run_call c db) db)
      (committed-keeps IsBalanced (run_call c db) db b (λ db' h. run_call-IsBalanced c db b h))

-- However orders, contracts and the job on stale orders are called, from a store whose quota
-- ledger balances, the orders never hold more of a product of a contract than its limit, where the
-- limit is not 0 (0 is no limit).
pub run_all_calls-within :
    (cs : List Call) (db : Db) (c p : ℕ) {pi : PriceItem}
    → IsBalanced db
    → find (is_price_of c p) (run_all_calls cs db).price_items ≡ some pi
    → (pi.quantity ≡ 0) ⊎ (reserved c p (run_all_calls cs db).orders ≤ pi.quantity)
run_all_calls-within cs db c p {pi} b found =
    let after : IsBalanced (run_all_calls cs db) = run_all_calls-IsBalanced cs db b in
    row_within c p (run_all_calls cs db) after found
