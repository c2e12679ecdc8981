-- ===== src/Contracts/Terms/Exclusive.antt =====
-- New contracts and changed terms against the rule of one contract in force.
use munavvar_a.Prelude.{
  ℕ, false, ◌≡◌, ◌+◌, ◌≤◌, refl, subst, inl, inr, Bool-cases, [], ◌∷◌, ◌++◌, is_some, sum_of-append,
  arith,
}
use munavvar_a.Prelude.Keyed.{append-IsKeyed, append-AllBelow}
use munavvar_a.Store.{
  ContractStatus, Contract, Db, ok, >>=-eq-ok, raise_if-eq-ok, or_raise-eq-ok, ok-injective,
  same_contract_status, find_contract,
}
use munavvar_a.Orders.Quota.{get_active_for_client}
use munavvar_a.Contracts.Lifecycle.Force.{
  weight, contract_id, IsExclusive, change-IsExclusive, idle_weight,
}
use munavvar_a.Contracts.Terms.{
  ContractCreate, create_contract, ContractUpdate, with_terms, changes_nothing, is_null,
  violates_checks, is_number_taken, draft_of, update_contract,
}

added-IsExclusive :
    (c : Contract) (db db' : Db)
    → IsExclusive db
    → c.id ≡ db.next_id
    → same_contract_status c.status ContractStatus.active ≡ false
    → db'.contracts ≡ db.contracts ++ c ∷ []
    → db'.next_id ≡ db.next_id + 1
    → IsExclusive db'
added-IsExclusive c db db' x fresh idle e next = record {
  keyed = rw e (append-IsKeyed contract_id db.next_id db.contracts c x.keyed x.below fresh);
  below = rw (e, next) (append-AllBelow contract_id db.next_id db.contracts c x.below fresh);
  alone = λ client. rw e (
      omega (
        arith,
        x.alone client,
        sum_of-append (weight client) db.contracts (c ∷ []),
        idle_weight client c idle,
      ));
}

pub create_contract-IsExclusive :
    (client : ℕ) (dto : ContractCreate) (db : Db) {db' : Db}
    → IsExclusive db
    → create_contract client dto db ≡ ok db'
    → IsExclusive db'
unfolding create_contract
create_contract-IsExclusive client dto db x h =
    let (existing, _, h₁) = >>=-eq-ok (get_active_for_client client db.contracts) _ h in
    let (_, h₂) = raise_if-eq-ok (is_some existing) _ _ h₁ in
    let (_, h₃) = raise_if-eq-ok (violates_checks (draft_of client dto db.next_id)) _ _ h₂ in
    let (_, h₄) = raise_if-eq-ok (is_number_taken dto.number db.contracts) _ _ h₃ in
    subst IsExclusive (ok-injective h₄) (added-IsExclusive _ db _ x refl refl refl refl)

terms_weight :
    (client : ℕ) (dto : ContractUpdate) (c : Contract)
    → weight client (with_terms dto c) ≤ weight client c
terms_weight client dto c = omega arith

pub update_contract-IsExclusive :
    (k : ℕ) (dto : ContractUpdate) (db : Db) {db' : Db}
    → IsExclusive db
    → update_contract k dto db ≡ ok db'
    → IsExclusive db'
unfolding update_contract
update_contract-IsExclusive k dto db x h =
    let (c, found, h₁) = or_raise-eq-ok (find_contract k db.contracts) _ _ h in
    elim (Bool-cases (changes_nothing dto)) [
      | inl e ↦ subst IsExclusive (ok-injective (rw e at h₁)) x
      | inr e ↦
          let (_, h₂) = raise_if-eq-ok (is_null dto.payment_due_days) _ _ (rw e at h₁) in
          let (_, h₃) = raise_if-eq-ok (violates_checks (with_terms dto c)) _ _ h₂ in
          subst IsExclusive (ok-injective h₃) (
            change-IsExclusive k (with_terms dto) c db _ x found (λ y. refl)
              (λ client. inr (inr (terms_weight client dto c))) (omega arith) refl)
    ]
