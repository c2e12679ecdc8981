-- ===== src/Contracts/Lifecycle/Closing.antt =====
-- The three updates by which `_cancel_inflight_orders` closes orders, as one.
use munavvar_a.Prelude.{
  ℕ, Bool, true, false, ◌≡◌, ◌==◌, ◌&&◌, refl, sym, subst, ap, ◌∙◌, inl, inr, Bool-cases, none,
  some, String, List, [], ◌∷◌, map, find, elem, keep, update_where, arith,
}
use munavvar_a.Prelude.Keyed.{IsKeyed, has_key}
use munavvar_a.Store.{OrderStatus, Order}
use munavvar_a.Contracts.Lifecycle.{is_among}
use munavvar_a.Orders.Quota.Balance.{order_id}

abbrev pub cancel : Order → Order
cancel o = record o { status = OrderStatus.cancelled }

abbrev pub unflag : Order → Order
unflag o = record o { quantities_reserved = false }

abbrev pub give_reason : String → Order → Order
give_reason reason o = record o { cancellation_reason = some reason }

abbrev pub is_flagged : Order → Bool
is_flagged o = o.quantities_reserved

-- What the updates make of an order that the contract's call cancels.
abbrev pub close_with : Bool → String → Order → Order
close_with true reason o = give_reason reason (unflag (cancel o))
close_with false reason o = give_reason reason (cancel o)

abbrev pub closing : String → Order → Order
closing reason o = close_with o.quantities_reserved reason o

-- Membership by id, for the rows of a table, is the test that selected the members.
abbrev Agree : List Order → List Order → (Order → Bool) → List Order → Type 0
Agree cs rs t [] = Unit
Agree cs rs t (x ∷ xs) =
    (is_among cs x ≡ t x) × (is_among rs x ≡ (t x && is_flagged x)) × Agree cs rs t xs

three_updates :
    (cs rs : List Order) (t : Order → Bool) (reason : String) (xs : List Order)
    → Agree cs rs t xs
    → update_where
        (is_among cs)
        (give_reason reason)
        (update_where (is_among rs) unflag (update_where (is_among cs) cancel xs))
      ≡ update_where t (closing reason) xs
three_updates cs rs t reason [] h = refl
three_updates cs rs t reason (x ∷ xs) h =
    let rest = three_updates cs rs t reason xs h.2 in
    elim (Bool-cases (t x)) [
      | inr e ↦
          let out : is_among cs x ≡ false = h.0 ∙ e in
          let out_too : is_among rs x ≡ false = h.1 ∙ ap (λ b. b && is_flagged x) e in
          rw (e, out, out_too, out, rest)
      | inl e ↦
          let in_cs : is_among cs x ≡ true = h.0 ∙ e in
          let in_rs : is_among rs x ≡ is_flagged x = h.1 ∙ ap (λ b. b && is_flagged x) e in
          elim (Bool-cases (is_flagged x)) [
            | inl f ↦
                let both : is_among rs x ≡ true = in_rs ∙ f in rw (e, in_cs, both, f, in_cs, rest)
            | inr f ↦
                let one : is_among rs x ≡ false = in_rs ∙ f in rw (e, in_cs, one, f, in_cs, rest)
          ]
    ]

-- A row of the table that is not among the other rows does not change who they are among.
Agree-skip :
    (x : Order) (cs rs : List Order) (t : Order → Bool) (xs : List Order)
    → find (has_key order_id x.id) xs ≡ none
    → Agree cs rs t xs
    → Agree (x ∷ cs) rs t xs
Agree-skip x cs rs t [] free h = tt
Agree-skip x cs rs t (y ∷ ys) free h =
    let other : (y.id == x.id) ≡ false = ground arith in
    (rw other h.0, h.1, Agree-skip x cs rs t ys (ground arith) h.2)

Agree-skip_flagged :
    (x : Order) (cs rs : List Order) (t : Order → Bool) (xs : List Order)
    → find (has_key order_id x.id) xs ≡ none
    → Agree cs rs t xs
    → Agree cs (x ∷ rs) t xs
Agree-skip_flagged x cs rs t [] free h = tt
Agree-skip_flagged x cs rs t (y ∷ ys) free h =
    let other : (y.id == x.id) ≡ false = ground arith in
    (h.0, rw other h.1, Agree-skip_flagged x cs rs t ys (ground arith) h.2)

absent_kept :
    (k : ℕ) (t : Order → Bool) (xs : List Order)
    → find (has_key order_id k) xs ≡ none
    → elem k (map (λ o. o.id) (keep t xs)) ≡ false
absent_kept k t [] h = refl
absent_kept k t (x ∷ xs) h =
    let other : (k == x.id) ≡ false = ground arith in
    elim (Bool-cases (t x)) [
      | inl e ↦ rw (e, other) (absent_kept k t xs (ground arith))
      | inr e ↦ rw e (absent_kept k t xs (ground arith))
    ]

absent_kept_twice :
    (k : ℕ) (s t : Order → Bool) (xs : List Order)
    → find (has_key order_id k) xs ≡ none
    → elem k (map (λ o. o.id) (keep s (keep t xs))) ≡ false
absent_kept_twice k s t [] h = refl
absent_kept_twice k s t (x ∷ xs) h =
    let other : (k == x.id) ≡ false = ground arith in
    let rest = absent_kept_twice k s t xs (ground arith) in
    elim (Bool-cases (t x)) [
      | inr e ↦ rw e rest
      | inl e ↦ elim (Bool-cases (s x)) [ inl f ↦ rw (e, f, other) rest | inr f ↦ rw (e, f) rest ]
    ]

self_among : (x : Order) (os : List Order) → is_among (x ∷ os) x ≡ true
self_among x os = ground arith

pub keep_first :
    (s : Order → Bool) (x : Order) (xs : List Order) → s x ≡ true → keep s (x ∷ xs) ≡ x ∷ keep s xs
keep_first s x xs e = rw e

pub keep_later :
    (s : Order → Bool) (x : Order) (xs : List Order) → s x ≡ false → keep s (x ∷ xs) ≡ keep s xs
keep_later s x xs e = rw e

pub update_first :
    (t : Order → Bool) (f : Order → Order) (x : Order) (xs : List Order)
    → t x ≡ true
    → update_where t f (x ∷ xs) ≡ f x ∷ update_where t f xs
update_first t f x xs e = rw e

pub update_later :
    (t : Order → Bool) (f : Order → Order) (x : Order) (xs : List Order)
    → t x ≡ false
    → update_where t f (x ∷ xs) ≡ x ∷ update_where t f xs
update_later t f x xs e = rw e

keyed-Agree :
    (t : Order → Bool) (xs : List Order)
    → IsKeyed order_id xs
    → Agree (keep t xs) (keep is_flagged (keep t xs)) t xs
keyed-Agree t [] u = tt
keyed-Agree t (x ∷ xs) u =
    let rest = keyed-Agree t xs u.1 in
    elim (Bool-cases (t x)) [
      | inr e ↦
          let kept : keep t (x ∷ xs) ≡ keep t xs = rw e in
          subst (λ cs. Agree cs (keep is_flagged cs) t (x ∷ xs)) (sym kept)
            (
              absent_kept x.id t xs u.0 ∙ sym e,
              absent_kept_twice x.id is_flagged t xs u.0 ∙ sym (ap (λ b. b && is_flagged x) e),
              rest,
            )
      | inl e ↦
          let kept : keep t (x ∷ xs) ≡ x ∷ keep t xs = rw e in
          let both : (t x && is_flagged x) ≡ is_flagged x = ap (λ b. b && is_flagged x) e in
          subst (λ cs. Agree cs (keep is_flagged cs) t (x ∷ xs)) (sym kept)
            (elim (Bool-cases (is_flagged x)) [
              | inl f ↦
                  subst (λ rs. Agree (x ∷ keep t xs) rs t (x ∷ xs))
                    (sym (keep_first is_flagged x (keep t xs) f))
                    (
                      self_among x (keep t xs) ∙ sym e,
                      self_among x (keep is_flagged (keep t xs)) ∙ sym f ∙ sym both,
                      Agree-skip_flagged x (x ∷ keep t xs) (keep is_flagged (keep t xs)) t xs u.0
                          (Agree-skip x (keep t xs) (keep is_flagged (keep t xs)) t xs u.0 rest),
                    )
              | inr f ↦
                  subst (λ rs. Agree (x ∷ keep t xs) rs t (x ∷ xs))
                    (sym (keep_later is_flagged x (keep t xs) f))
                    (
                      self_among x (keep t xs) ∙ sym e,
                      absent_kept_twice x.id is_flagged t xs u.0 ∙ sym f ∙ sym both,
                      Agree-skip x (keep t xs) (keep is_flagged (keep t xs)) t xs u.0 rest,
                    )
            ])
    ]

-- On a table with unique ids the three updates close the orders that the test selects.
pub close_orders :
    (t : Order → Bool) (reason : String) (xs : List Order)
    → IsKeyed order_id xs
    → update_where (is_among (keep t xs)) (give_reason reason) (
        update_where
          (is_among (keep is_flagged (keep t xs)))
          unflag
          (update_where (is_among (keep t xs)) cancel xs))
      ≡ update_where t (closing reason) xs
close_orders t reason xs u =
    three_updates (keep t xs) (keep is_flagged (keep t xs)) t reason xs (keyed-Agree t xs u)
