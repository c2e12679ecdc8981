-- ===== src/Contracts/Expiry/Exclusive.antt =====
-- The job that expires contracts against the rule of one contract in force.
use munavvar_a.Prelude.{
  ℕ, ◌≡◌, ◌≤◌, refl, subst, inl, inr, Bool-cases, ◌==◌, List, [], ◌∷◌, keep, sum_of, arith,
}
use munavvar_a.Prelude.Keyed.{update_where-IsKeyed, update_where-AllBelow}
use munavvar_a.Store.{Contract, Db, ok, >>=-eq-ok, ok-injective, update_contract_row}
use munavvar_a.Contracts.Lifecycle.{log_contract, cancel_inflight_orders}
use munavvar_a.Contracts.Lifecycle.Force.{weight, contract_id, IsExclusive, idle_weight}
use munavvar_a.Contracts.Lifecycle.Inflight.{cancel_inflight_orders-contracts}
use munavvar_a.Contracts.Expiry.{
  is_expirable, expired, expire_contract, expire_contracts, run_expire_job,
}

expired-weight :
    (client k : ℕ) (cs : List Contract)
    → sum_of (weight client) (update_contract_row k expired cs) ≤ sum_of (weight client) cs
expired-weight client k [] = omega arith
expired-weight client k (c ∷ cs) = elim (Bool-cases (c.id == k)) [
  | inl e ↦ rw e (omega (arith, idle_weight client (expired c) refl, expired-weight client k cs))
  | inr e ↦ rw e (omega (arith, expired-weight client k cs))
]

pub expire_contract-IsExclusive :
    (c : Contract) (db : Db) {db' : Db}
    → IsExclusive db
    → expire_contract c db ≡ ok db'
    → IsExclusive db'
unfolding expire_contract log_contract
expire_contract-IsExclusive c db x h =
    let (mid, cancelled, h₁) =
      >>=-eq-ok (cancel_inflight_orders c.id "Истёк срок действия договора" db) _ h in
    let (same, next) =
      cancel_inflight_orders-contracts c.id "Истёк срок действия договора" db cancelled in
    subst IsExclusive (ok-injective h₁) (record {
      keyed =
          rw same (update_where-IsKeyed contract_id c.id expired db.contracts (λ y. refl) x.keyed);
      below =
          rw (same, next)
            (update_where-AllBelow contract_id db.next_id c.id expired db.contracts (λ y. refl)
              x.below);
      alone = λ client.
          rw same (omega (arith, x.alone client, expired-weight client c.id db.contracts));
    })

expire_contracts-IsExclusive :
    (cs : List Contract) (db : Db) {db' : Db}
    → IsExclusive db
    → expire_contracts cs db ≡ ok db'
    → IsExclusive db'
unfolding expire_contracts
expire_contracts-IsExclusive [] db x h = subst IsExclusive (ok-injective h) x
expire_contracts-IsExclusive (c ∷ cs) db x h =
    let (mid, first, rest) = >>=-eq-ok (expire_contract c db) _ h in
    expire_contracts-IsExclusive cs mid (expire_contract-IsExclusive c db x first) rest

pub run_expire_job-IsExclusive :
    (today : ℕ) (db : Db) {db' : Db}
    → IsExclusive db
    → run_expire_job today db ≡ ok db'
    → IsExclusive db'
unfolding run_expire_job
run_expire_job-IsExclusive today db x h =
    expire_contracts-IsExclusive (keep (is_expirable today) db.contracts) db x h
