-- ===== src/Contracts/Terms.antt =====
-- `create_contract` and `update_contract` of `ContractService`: the terms of a contract.
pub mod Exclusive
use munavvar_a.Prelude.{
  ℕ, Bool, true, false, not, ◌&&◌, ◌||◌, ◌+◌, ◌==◌, ltb, Option, none, some, String, List, [], ◌∷◌,
  ◌++◌, any, same_text, is_some, if◌then◌else◌,
}
use munavvar_a.Store.{
  ContractStatus, Contract, Db, Error, Result, ok, ◌>>=◌, ◌>>◌, raise_if, or_raise, find_contract,
  update_contract_row,
}
use munavvar_a.Orders.Quota.{get_active_for_client}

-- `ContractCreate`, without the legal name and the tax number; the number as its code points.
pub record ContractCreate : Type 0 where
  pub number : List ℕ
  pub start_date : ℕ
  pub end_date : Option ℕ
  pub payment_due_days : ℕ
  pub notes : Option String

-- `end_date IS NULL OR end_date > start_date`
abbrev pub ends_after : ℕ → Option ℕ → Bool
ends_after start_date none = true
ends_after start_date (some end_date) = ltb start_date end_date

-- The check constraints of the table.
abbrev pub violates_checks : Contract → Bool
violates_checks c = c.payment_due_days == 0 || not (ends_after c.start_date c.end_date)

-- The unique column number.
abbrev pub is_number_taken : List ℕ → List Contract → Bool
is_number_taken number = any (λ c. same_text c.number number)

-- The row that `create_contract` adds.
abbrev pub draft_of : ℕ → ContractCreate → ℕ → Contract
draft_of client_id dto id = record {
  id = id;
  number = dto.number;
  client_id = client_id;
  status = ContractStatus.draft;
  start_date = dto.start_date;
  end_date = dto.end_date;
  payment_due_days = dto.payment_due_days;
  notes = dto.notes;
  signed_at = none;
  signed_by_id = none;
  suspended_at = none;
  suspension_reason = none;
  terminated_at = none;
  termination_reason = none;
  is_active = true;
}

-- `create_contract`: a draft, unless the client has a contract in force.
unfoldable pub create_contract : ℕ → ContractCreate → Db → Result Db
create_contract client_id dto db = do
  existing ← get_active_for_client client_id db.contracts
  raise_if (is_some existing) Error.contract_already_active
  let contract : Contract = draft_of client_id dto db.next_id
  raise_if (violates_checks contract) Error.integrity_error
  raise_if (is_number_taken dto.number db.contracts) Error.integrity_error
  ok (record db { contracts = db.contracts ++ contract ∷ []; next_id = db.next_id + 1 })

-- `ContractUpdate`: a field that the request leaves out is none here; a field that it sets to null
-- is `some none`.
pub record ContractUpdate : Type 0 where
  pub payment_due_days : Option (Option ℕ)
  pub end_date : Option (Option ℕ)
  pub notes : Option (Option String)

abbrev pub set_or_keep {ℓ} : {A : Type ℓ} → Option A → A → A
set_or_keep none old = old
set_or_keep (some new) old = new

-- The column payment_due_days is NOT NULL.
abbrev pub is_null : Option (Option ℕ) → Bool
is_null (some none) = true
is_null _ = false

abbrev pub days_or_keep : Option (Option ℕ) → ℕ → ℕ
days_or_keep (some (some days)) old = days
days_or_keep _ old = old

abbrev pub with_terms : ContractUpdate → Contract → Contract
with_terms dto c = record c {
  payment_due_days = days_or_keep dto.payment_due_days c.payment_due_days;
  end_date = set_or_keep dto.end_date c.end_date;
  notes = set_or_keep dto.notes c.notes;
}

-- `model_dump(exclude_unset=True)` is empty.
abbrev pub changes_nothing : ContractUpdate → Bool
changes_nothing dto =
    not (is_some dto.payment_due_days) && not (is_some dto.end_date) && not (is_some dto.notes)

-- `update_contract`
unfoldable pub update_contract : ℕ → ContractUpdate → Db → Result Db
update_contract contract_id dto db = do
  contract ← or_raise (find_contract contract_id db.contracts) Error.contract_not_found
  if changes_nothing dto then ok db else do
    raise_if (is_null dto.payment_due_days) Error.integrity_error
    raise_if (violates_checks (with_terms dto contract)) Error.integrity_error
    ok (record db { contracts = update_contract_row contract_id (with_terms dto) db.contracts })
