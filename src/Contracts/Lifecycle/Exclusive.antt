-- ===== src/Contracts/Lifecycle/Exclusive.antt =====
-- A client has at most one active contract.
use munavvar_a.Prelude.{
  ℕ, false, not, ◌≡◌, refl, subst, inl, inr, ◌||◌, ◌==◌, ◌≤◌, arith, Bool-cases, ==_iff, Option,
  some, String, List, [], ◌∷◌, sum_of,
}
use munavvar_a.Store.{
  committed-keeps, ContractStatus, Contract, Db, ok, same_contract_status, find_contract,
  update_contract_row, committed, >>=-eq-ok, raise_if-eq-ok, or_raise-eq-ok, ok-injective,
}
use munavvar_a.Orders.Quota.{get_active_for_client}
use munavvar_a.Contracts.Lifecycle.{
  log_contract, is_other_contract, sign, activate_contract, resume, reinstate_contract,
  cancel_inflight_orders, suspend, suspend_contract, terminate, terminate_contract,
}
use munavvar_a.Contracts.Lifecycle.Inflight.{cancel_inflight_orders-contracts, kept_next}
use munavvar_a.Contracts.Terms.Exclusive.{create_contract-IsExclusive, update_contract-IsExclusive}
use munavvar_a.Contracts.Expiry.Exclusive.{run_expire_job-IsExclusive}
use munavvar_a.Contracts.Calls.{ContractCall, run_contract, run_all_contracts}
use munavvar_a.Contracts.Lifecycle.Force.{
  weight, IsExclusive, none_live, change-IsExclusive, idle_weight, other_weight, draft_idle,
  suspended_idle,
}

-- A contract that leaves force, or stays out of it.
out_of_force :
    (k : ℕ) (f : Contract → Contract) (c : Contract) (db db' : Db)
    → IsExclusive db
    → find_contract k db.contracts ≡ some c
    → ((x : Contract) → (f x).id ≡ x.id)
    → same_contract_status (f c).status ContractStatus.active ≡ false
    → db.next_id ≤ db'.next_id
    → db'.contracts ≡ update_contract_row k f db.contracts
    → IsExclusive db'
out_of_force k f c db db' x found same idle le e =
    change-IsExclusive k f c db db' x found same (λ client. inl (idle_weight client (f c) idle)) le
      e

-- A contract that enters force when its client has none in force.
into_force :
    (k : ℕ) (f : Contract → Contract) (c : Contract) (db db' : Db)
    → IsExclusive db
    → find_contract k db.contracts ≡ some c
    → ((x : Contract) → (f x).id ≡ x.id)
    → (f c).client_id ≡ c.client_id
    → sum_of (weight c.client_id) db.contracts ≡ 0
    → db.next_id ≤ db'.next_id
    → db'.contracts ≡ update_contract_row k f db.contracts
    → IsExclusive db'
into_force k f c db db' x found same client free le e =
    change-IsExclusive k f c db db' x found same
      (λ who. elim (Bool-cases (c.client_id == who)) [
        | inl own ↦ inr (
            inl (
              subst (λ j. sum_of (weight j) db.contracts ≡ 0) ((==_iff c.client_id who).0 own)
                free))
        | inr other ↦ inl (other_weight who (f c) (rw client other))
      ])
      le e

activate_contract-IsExclusive :
    (k by now : ℕ) (db : Db) {db' : Db}
    → IsExclusive db
    → activate_contract k by now db ≡ ok db'
    → IsExclusive db'
unfolding activate_contract log_contract
activate_contract-IsExclusive k by now db x h =
    let (c, found, h₁) = or_raise-eq-ok (find_contract k db.contracts) _ _ h in
    let (draft, h₂) =
      raise_if-eq-ok (not (same_contract_status c.status ContractStatus.draft)) _ _ h₁ in
    let (existing, at, h₃) = >>=-eq-ok (get_active_for_client c.client_id db.contracts) _ h₂ in
    let (alone, h₄) = raise_if-eq-ok (is_other_contract k existing) _ _ h₃ in
    subst IsExclusive (ok-injective h₄) (
      into_force k (sign now by) c db _ x found (λ y. refl) refl
        (none_live k c existing db.contracts x.keyed found (draft_idle c.status draft) at alone)
        (omega arith) refl)

reinstate_contract-IsExclusive :
    (k : ℕ) (by : Option ℕ) (db : Db) {db' : Db}
    → IsExclusive db
    → reinstate_contract k by db ≡ ok db'
    → IsExclusive db'
unfolding reinstate_contract log_contract
reinstate_contract-IsExclusive k by db x h =
    let (c, found, h₁) = or_raise-eq-ok (find_contract k db.contracts) _ _ h in
    let (suspended, h₂) =
      raise_if-eq-ok (not (same_contract_status c.status ContractStatus.suspended)) _ _ h₁ in
    let (existing, at, h₃) = >>=-eq-ok (get_active_for_client c.client_id db.contracts) _ h₂ in
    let (alone, h₄) = raise_if-eq-ok (is_other_contract k existing) _ _ h₃ in
    subst IsExclusive (ok-injective h₄) (
      into_force k resume c db _ x found (λ y. refl) refl
        (none_live k c existing db.contracts x.keyed found (suspended_idle c.status suspended) at
          alone)
        (omega arith) refl)

suspend_contract-IsExclusive :
    (k : ℕ) (reason : String) (by : Option ℕ) (now : ℕ) (db : Db) {db' : Db}
    → IsExclusive db
    → suspend_contract k reason by now db ≡ ok db'
    → IsExclusive db'
unfolding suspend_contract log_contract
suspend_contract-IsExclusive k reason by now db x h =
    let (c, found, h₁) = or_raise-eq-ok (find_contract k db.contracts) _ _ h in
    let (_, h₂) =
      raise_if-eq-ok (not (same_contract_status c.status ContractStatus.active)) _ _ h₁ in
    let changed : Db = record db {
      contracts = update_contract_row k (suspend now reason) db.contracts;
    } in
    let (mid, cancelled, h₃) =
      >>=-eq-ok (cancel_inflight_orders k "Приостановка договора" changed) _ h₂ in
    subst IsExclusive (ok-injective h₃) (
      out_of_force k (suspend now reason) c db _ x found (λ y. refl) refl
        (kept_next (cancel_inflight_orders-contracts k "Приостановка договора" changed cancelled).1)
        (cancel_inflight_orders-contracts k "Приостановка договора" changed cancelled).0)

terminate_contract-IsExclusive :
    (k : ℕ) (reason : String) (by : Option ℕ) (now : ℕ) (db : Db) {db' : Db}
    → IsExclusive db
    → terminate_contract k reason by now db ≡ ok db'
    → IsExclusive db'
unfolding terminate_contract log_contract
terminate_contract-IsExclusive k reason by now db x h =
    let (c, found, h₁) = or_raise-eq-ok (find_contract k db.contracts) _ _ h in
    let (_, h₂) =
      raise_if-eq-ok
        (not (
          same_contract_status c.status ContractStatus.active
          || same_contract_status c.status ContractStatus.suspended))
        _ _ h₁ in
    let changed : Db = record db {
      contracts = update_contract_row k (terminate now reason) db.contracts;
    } in
    let (mid, cancelled, h₃) =
      >>=-eq-ok (cancel_inflight_orders k "Расторжение договора" changed) _ h₂ in
    subst IsExclusive (ok-injective h₃) (
      out_of_force k (terminate now reason) c db _ x found (λ y. refl) refl
        (kept_next (cancel_inflight_orders-contracts k "Расторжение договора" changed cancelled).1)
        (cancel_inflight_orders-contracts k "Расторжение договора" changed cancelled).0)

run_contract-IsExclusive :
    (c : ContractCall) (db : Db) {db' : Db}
    → IsExclusive db
    → run_contract c db ≡ ok db'
    → IsExclusive db'
unfolding run_contract
run_contract-IsExclusive (ContractCall.draft_new client dto) db x h =
    create_contract-IsExclusive client dto db x h
run_contract-IsExclusive (ContractCall.change_terms k dto) db x h =
    update_contract-IsExclusive k dto db x h
run_contract-IsExclusive (ContractCall.expire_due today) db x h =
    run_expire_job-IsExclusive today db x h
run_contract-IsExclusive (ContractCall.activate k by now) db x h =
    activate_contract-IsExclusive k by now db x h
run_contract-IsExclusive (ContractCall.reinstate k by) db x h =
    reinstate_contract-IsExclusive k by db x h
run_contract-IsExclusive (ContractCall.suspend_it k reason by now) db x h =
    suspend_contract-IsExclusive k reason by now db x h
run_contract-IsExclusive (ContractCall.terminate_it k reason by now) db x h =
    terminate_contract-IsExclusive k reason by now db x h

-- From a store where contract ids are unique and below the next id and no client has two contracts
-- in force, any sequence of the calls on contracts (a new draft, a change of the terms, an
-- activation, a reinstatement, a suspension, a termination, the job that expires contracts), failed
-- ones included, leads to a store where no client has two contracts in force.
pub run_all_contracts-IsExclusive :
    (cs : List ContractCall) (db : Db) → IsExclusive db → IsExclusive (run_all_contracts cs db)
unfolding run_all_contracts
run_all_contracts-IsExclusive [] db x = x
run_all_contracts-IsExclusive (c ∷ cs) db x =
    run_all_contracts-IsExclusive cs (committed (run_contract c db) db) (
      committed-keeps IsExclusive (run_contract c db) db x
        (λ db' h. run_contract-IsExclusive c db x h))
