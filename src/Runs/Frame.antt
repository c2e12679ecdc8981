-- ===== src/Runs/Frame.antt =====
-- Contract calls that touch neither orders nor prices.
use munavvar_a.Prelude.{
  ℕ, not, ◌≡◌, refl, subst, inl, inr, Bool-cases, Option, none, some, String, List, is_some, arith,
}
use munavvar_a.Store.{
  ContractStatus, Contract, Db, ok, >>=-eq-ok, raise_if-eq-ok, or_raise-eq-ok, ok-injective,
  find_contract, same_contract_status,
}
use munavvar_a.Orders.Quota.{get_active_for_client}
use munavvar_a.Orders.Frame.{Frame, Frame-refl, Frame-trans}
use munavvar_a.Contracts.Lifecycle.{
  log_contract, is_other_contract, activate_contract, reinstate_contract,
}
use munavvar_a.Contracts.Terms.{
  ContractCreate, ContractUpdate, create_contract, changes_nothing, is_null, with_terms,
  violates_checks, is_number_taken, draft_of, update_contract,
}

-- The tables of contracts are outside the ledger.
pub contracts-Frame : (db : Db) (cs : List Contract) → Frame db (record db { contracts = cs })
contracts-Frame db cs = record { orders = refl; price_items = refl; next_id = omega arith }

pub log_contract-Frame :
    (k : ℕ) (from to : ContractStatus) (by : Option ℕ) (reason : Option String) (db : Db)
    → Frame db (log_contract k from to by reason db)
unfolding log_contract
log_contract-Frame k from to by reason db = record {
  orders = refl;
  price_items = refl;
  next_id = omega arith;
}

pub create_contract-Frame :
    (client : ℕ) (dto : ContractCreate) (db : Db) {db' : Db}
    → create_contract client dto db ≡ ok db'
    → Frame db db'
unfolding create_contract
create_contract-Frame client dto db h =
    let (existing, _, h₁) = >>=-eq-ok (get_active_for_client client db.contracts) _ h in
    let (_, h₂) = raise_if-eq-ok (is_some existing) _ _ h₁ in
    let (_, h₃) = raise_if-eq-ok (violates_checks (draft_of client dto db.next_id)) _ _ h₂ in
    let (_, h₄) = raise_if-eq-ok (is_number_taken dto.number db.contracts) _ _ h₃ in
    subst (Frame db) (ok-injective h₄)
      (record { orders = refl; price_items = refl; next_id = omega arith })

pub update_contract-Frame :
    (k : ℕ) (dto : ContractUpdate) (db : Db) {db' : Db}
    → update_contract k dto db ≡ ok db'
    → Frame db db'
unfolding update_contract
update_contract-Frame k dto db h =
    let (c, found, h₁) = or_raise-eq-ok (find_contract k db.contracts) _ _ h in
    elim (Bool-cases (changes_nothing dto)) [
      | inl e ↦ subst (Frame db) (ok-injective (rw e at h₁)) (Frame-refl db)
      | inr e ↦
          let (_, h₂) = raise_if-eq-ok (is_null dto.payment_due_days) _ _ (rw e at h₁) in
          let (_, h₃) = raise_if-eq-ok (violates_checks (with_terms dto c)) _ _ h₂ in
          subst (Frame db) (ok-injective h₃) (contracts-Frame db _)
    ]

pub activate_contract-Frame :
    (k by now : ℕ) (db : Db) {db' : Db} → activate_contract k by now db ≡ ok db' → Frame db db'
unfolding activate_contract
activate_contract-Frame k by now db h =
    let (c, _, h₁) = or_raise-eq-ok (find_contract k db.contracts) _ _ h in
    let (_, h₂) =
      raise_if-eq-ok (not (same_contract_status c.status ContractStatus.draft)) _ _ h₁ in
    let (existing, _, h₃) = >>=-eq-ok (get_active_for_client c.client_id db.contracts) _ h₂ in
    let (_, h₄) = raise_if-eq-ok (is_other_contract k existing) _ _ h₃ in
    subst (Frame db) (ok-injective h₄) (
      Frame-trans (contracts-Frame db _)
        (log_contract-Frame k c.status ContractStatus.active (some by) none _))

pub reinstate_contract-Frame :
    (k : ℕ) (by : Option ℕ) (db : Db) {db' : Db}
    → reinstate_contract k by db ≡ ok db'
    → Frame db db'
unfolding reinstate_contract
reinstate_contract-Frame k by db h =
    let (c, _, h₁) = or_raise-eq-ok (find_contract k db.contracts) _ _ h in
    let (_, h₂) =
      raise_if-eq-ok (not (same_contract_status c.status ContractStatus.suspended)) _ _ h₁ in
    let (existing, _, h₃) = >>=-eq-ok (get_active_for_client c.client_id db.contracts) _ h₂ in
    let (_, h₄) = raise_if-eq-ok (is_other_contract k existing) _ _ h₃ in
    subst (Frame db) (ok-injective h₄) (
      Frame-trans (contracts-Frame db _)
        (log_contract-Frame k c.status ContractStatus.active by none _))
