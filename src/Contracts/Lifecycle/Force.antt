-- ===== src/Contracts/Lifecycle/Force.antt =====
-- Which contracts of a client are in force, and what a change of one contract does to that.
use munavvar_a.Prelude.{
  ℕ, Bool, true, false, not, ◌≡◌, refl, sym, subst, ◌∙◌, inl, inr, ◌⊎◌, ◌≤◌, ◌&&◌, ◌==◌, Bool-cases,
  Option, none, some, List, [], ◌∷◌, find, find-test, keep, sum_of, if◌then◌else◌, arith,
}
use munavvar_a.Prelude.Keyed.{
  IsKeyed, AllBelow, find-key, sum_of-update_where, update_where-IsKeyed, update_where-AllBelow,
}
use munavvar_a.Orders.Quota.Balance.{AllBelow-mono}
use munavvar_a.Store.{
  ContractStatus, Contract, Db, ok, one_or_none-some, one_or_none-none, some-injective,
  same_contract_status, find_contract, update_contract_row,
}
use munavvar_a.Orders.Quota.{get_active_for_client}
use munavvar_a.Contracts.Lifecycle.{is_other_contract}

-- The contracts of a client that are in force.
abbrev pub is_live : ℕ → Contract → Bool
is_live client c =
    c.client_id == client && same_contract_status c.status ContractStatus.active && c.is_active

abbrev pub weight : ℕ → Contract → ℕ
weight client c = if is_live client c then 1 else 0

abbrev pub contract_id : Contract → ℕ
contract_id c = c.id

pub record IsExclusive (db : Db) : Type 0 where
  pub keyed : IsKeyed contract_id db.contracts
  pub below : AllBelow contract_id db.next_id db.contracts
  pub alone : (client : ℕ) → sum_of (weight client) db.contracts ≤ 1

kept_weight :
    (client : ℕ) (cs : List Contract)
    → keep (is_live client) cs ≡ []
    → sum_of (weight client) cs ≡ 0
kept_weight client [] h = refl
kept_weight client (x ∷ xs) h = elim (Bool-cases (is_live client x)) [
  | inl e ↦ let q : (x ∷ keep (is_live client) xs) ≡ [] = rw e at h in cc
  | inr e ↦ rw e (omega (arith, kept_weight client xs (rw e at h)))
]

kept_found :
    (client : ℕ) (cs : List Contract) {a : Contract}
    → keep (is_live client) cs ≡ a ∷ []
    → find (is_live client) cs ≡ some a
kept_found client [] h = cc
kept_found client (x ∷ xs) {a} h = elim (Bool-cases (is_live client x)) [
  | inl e ↦ let q : (x ∷ keep (is_live client) xs) ≡ a ∷ [] = rw e at h in rw e (ground arith)
  | inr e ↦ rw e (kept_found client xs (rw e at h))
]

key_of : (k : ℕ) (c : Contract) → (c.id == k && c.is_active) ≡ true → c.id ≡ k
key_of k c h = ground arith

other_id : (k : ℕ) (c : Contract) → is_other_contract k (some c) ≡ false → c.id ≡ k
other_id k c h = ground arith

idle_clash :
    {n : ℕ} (c : Contract)
    → same_contract_status c.status ContractStatus.active ≡ false
    → is_live c.client_id c ≡ true
    → n ≡ 0
idle_clash c idle live = ground arith

weight_le : (client : ℕ) (c : Contract) → weight client c ≤ 1
weight_le client c = ground arith

find_contract-own :
    (k : ℕ) (cs : List Contract) {c : Contract}
    → IsKeyed contract_id cs
    → find_contract k cs ≡ some c
    → find (λ x. x.id == c.id) cs ≡ some c
find_contract-own k cs u found = find-key contract_id (λ c. c.id == k && c.is_active) cs u found

find_contract-id :
    (k : ℕ) (cs : List Contract) {c : Contract} → find_contract k cs ≡ some c → c.id ≡ k
find_contract-id k cs {c} found = key_of k c (find-test (λ c. c.id == k && c.is_active) cs found)

-- Two lookups that agree on the key agree on the row.
same_row :
    (cs : List Contract) {a b : Contract}
    → find (λ x. x.id == a.id) cs ≡ some a
    → find (λ x. x.id == b.id) cs ≡ some b
    → a.id ≡ b.id
    → a ≡ b
same_row cs {a} {b} f g e =
    some-injective (sym f ∙ subst (λ j. find (λ x. x.id == j) cs ≡ some b) (sym e) g)

-- Before a contract is put in force, its client has none in force.
pub none_live :
    (k : ℕ) (c : Contract) (existing : Option Contract) (cs : List Contract)
    → IsKeyed contract_id cs
    → find_contract k cs ≡ some c
    → same_contract_status c.status ContractStatus.active ≡ false
    → get_active_for_client c.client_id cs ≡ ok existing
    → is_other_contract k existing ≡ false
    → sum_of (weight c.client_id) cs ≡ 0
unfolding get_active_for_client
none_live k c none cs u found idle h other = kept_weight c.client_id cs (one_or_none-none _ h)
none_live k c (some e) cs u found idle h other =
    let at : find (is_live c.client_id) cs ≡ some e =
      kept_found c.client_id cs (one_or_none-some _ h) in
    let same : e ≡ c =
      same_row cs (find-key contract_id (is_live c.client_id) cs u at)
        (find_contract-own k cs u found) (other_id k e other ∙ sym (find_contract-id k cs found)) in
    let live : is_live c.client_id c ≡ true =
      subst (λ x. is_live c.client_id x ≡ true) same (find-test (is_live c.client_id) cs at) in
    idle_clash c idle live

-- A change of one contract that keeps its client, and that puts it in force only when its client
-- has no other in force, keeps clients to one contract.
pub change-IsExclusive :
    (k : ℕ) (f : Contract → Contract) (c : Contract) (db db' : Db)
    → IsExclusive db
    → find_contract k db.contracts ≡ some c
    → ((x : Contract) → (f x).id ≡ x.id)
    → ((client : ℕ)
        → (weight client (f c) ≡ 0)
          ⊎ (sum_of (weight client) db.contracts ≡ 0)
          ⊎ (weight client (f c) ≤ weight client c))
    → db.next_id ≤ db'.next_id
    → db'.contracts ≡ update_contract_row k f db.contracts
    → IsExclusive db'
change-IsExclusive k f c db db' x found same limit le e = record {
  below = rw e (
      AllBelow-mono contract_id (update_contract_row k f db.contracts) le
        (update_where-AllBelow contract_id db.next_id k f db.contracts same x.below));
  keyed = rw e (update_where-IsKeyed contract_id k f db.contracts same x.keyed);
  alone = λ client. rw e (
      omega (
        arith,
        x.alone client,
        limit client,
        weight_le client (f c),
        sum_of-update_where contract_id (weight client) k f db.contracts x.keyed (
            subst (λ j. find (λ y. y.id == j) db.contracts ≡ some c)
              (find_contract-id k db.contracts found)
              (find_contract-own k db.contracts x.keyed found)),
      ));
}

pub idle_weight :
    (client : ℕ) (c : Contract)
    → same_contract_status c.status ContractStatus.active ≡ false
    → weight client c ≡ 0
idle_weight client c idle = ground arith

pub other_weight :
    (client : ℕ) (c : Contract) → (c.client_id == client) ≡ false → weight client c ≡ 0
other_weight client c other = ground arith

pub draft_idle :
    (s : ContractStatus)
    → not (same_contract_status s ContractStatus.draft) ≡ false
    → same_contract_status s ContractStatus.active ≡ false
draft_idle s h = ground arith

pub suspended_idle :
    (s : ContractStatus)
    → not (same_contract_status s ContractStatus.suspended) ≡ false
    → same_contract_status s ContractStatus.active ≡ false
suspended_idle s h = ground arith
