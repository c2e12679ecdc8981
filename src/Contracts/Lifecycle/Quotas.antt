-- ===== src/Contracts/Lifecycle/Quotas.antt =====
-- The quota ledger under `_cancel_inflight_orders`: what the cancelled orders held goes back.
use munavvar_a.Prelude.{
  ℕ, Bool, true, false, ◌≡◌, ◌+◌, ◌==◌, refl, sym, ap, subst, ◌∙◌, inl, inr, Bool-cases, none, some,
  String, List, [], ◌∷◌, find, keep, sum_of, update_where, find-update_where_same, arith,
}
use munavvar_a.Prelude.Keyed.{IsKeyed, AllBelow, has_key}
use munavvar_a.Store.{OrderStatus, Order, Db, ok, >>=-eq-ok, ok-injective}
use munavvar_a.Inventory.Ledger.{units}
use munavvar_a.Contracts.Lifecycle.{
  is_cancellable, product_totals, log_cancelled, release_totals, cancel_inflight_orders,
}
use munavvar_a.Contracts.Lifecycle.Closing.{
  is_flagged, close_with, closing, close_orders, keep_first, keep_later, update_first, update_later,
}
use munavvar_a.Orders.Quota.Deltas.{in_contract}
use munavvar_a.Orders.Quota.Balance.{
  quantity_of, reserved, order_id, IsSound, AllSound, IsBalanced, IsBalanced-Frame,
}
use munavvar_a.Orders.Frame.{Frame, Frame-refl, Frame-trans, log_transition-Frame}
use munavvar_a.Contracts.Lifecycle.Totals.{
  units-product_totals, release_totals-used, closed_holds, closing_holds, flagged_part,
  in_contract_add,
}

-- The reservations before are those after and what is given back.
reserved_closed :
    (k c p n : ℕ) (reason : String) (xs : List Order)
    → AllSound n xs
    → reserved c p (update_where (is_cancellable k) (closing reason) xs)
        + in_contract c k
            (sum_of (λ o. quantity_of p o.items) (keep is_flagged (keep (is_cancellable k) xs)))
      ≡ reserved c p xs
reserved_closed k c p n reason [] s = ground arith
reserved_closed k c p n reason (x ∷ xs) s =
    let rest = reserved_closed k c p n reason xs s.1 in
    elim (Bool-cases (is_cancellable k x)) [
      | inr e ↦ rw e (omega (arith, rest))
      | inl e ↦ elim (Bool-cases x.quantities_reserved) [
        | inl f ↦
            let kept : keep is_flagged (keep (is_cancellable k) (x ∷ xs))
                ≡ x ∷ keep is_flagged (keep (is_cancellable k) xs) =
              ap (keep is_flagged) (keep_first (is_cancellable k) x xs e)
              ∙ keep_first is_flagged x (keep (is_cancellable k) xs) f in
            omega (
              arith,
              ap (λ ys. in_contract c k (sum_of (λ o. quantity_of p o.items) ys)) kept,
              ap (reserved c p) (update_first (is_cancellable k) (closing reason) x xs e),
              rest,
              closing_holds c p reason x.quantities_reserved x refl,
              flagged_part k c p n x s.0 e f,
              in_contract_add c k (quantity_of p x.items) (
                  sum_of (λ o. quantity_of p o.items)
                    (keep is_flagged (keep (is_cancellable k) xs))),
            )
        | inr f ↦
            let kept : keep is_flagged (keep (is_cancellable k) (x ∷ xs))
                ≡ keep is_flagged (keep (is_cancellable k) xs) =
              ap (keep is_flagged) (keep_first (is_cancellable k) x xs e)
              ∙ keep_later is_flagged x (keep (is_cancellable k) xs) f in
            omega (
              arith,
              ap (λ ys. in_contract c k (sum_of (λ o. quantity_of p o.items) ys)) kept,
              ap (reserved c p) (update_first (is_cancellable k) (closing reason) x xs e),
              rest,
              closing_holds c p reason x.quantities_reserved x refl,
              closed_holds c p x x.quantities_reserved refl f,
            )
      ]
    ]

close_with-IsSound :
    (n : ℕ) (reason : String) (b : Bool) (o : Order)
    → o.quantities_reserved ≡ b
    → IsSound n o
    → IsSound n (close_with b reason o)
close_with-IsSound n reason true o e s = record {
  item_ids = s.item_ids;
  items_below = s.items_below;
  held = λ live has. cc;
  tied = λ flagged. cc;
}
close_with-IsSound n reason false o e s = record {
  item_ids = s.item_ids;
  items_below = s.items_below;
  held = λ live has. cc;
  tied = λ flagged. let clash : true ≡ false = sym flagged ∙ e in cc;
}

close_with-id : (reason : String) (b : Bool) (o : Order) → (close_with b reason o).id ≡ o.id
close_with-id reason true o = refl
close_with-id reason false o = refl

AllSound-closed :
    (n k : ℕ) (reason : String) (xs : List Order)
    → AllSound n xs
    → AllSound n (update_where (is_cancellable k) (closing reason) xs)
AllSound-closed n k reason [] s = tt
AllSound-closed n k reason (x ∷ xs) s = elim (Bool-cases (is_cancellable k x)) [
  | inl e ↦ subst (AllSound n) (sym (update_first (is_cancellable k) (closing reason) x xs e)) (
    close_with-IsSound n reason x.quantities_reserved x refl s.0,
    AllSound-closed n k reason xs s.1,
  )
  | inr e ↦
      subst (AllSound n) (sym (update_later (is_cancellable k) (closing reason) x xs e))
        (s.0, AllSound-closed n k reason xs s.1)
]

-- Closing orders changes no ids.
IsKeyed-closed :
    (t : Order → Bool) (reason : String) (xs : List Order)
    → IsKeyed order_id xs
    → IsKeyed order_id (update_where t (closing reason) xs)
IsKeyed-closed t reason [] u = tt
IsKeyed-closed t reason (x ∷ xs) u =
    let free : find (has_key order_id x.id) (update_where t (closing reason) xs) ≡ none =
      find-update_where_same (has_key order_id x.id) t (closing reason) xs
        (λ y. ap (λ (j : ℕ). j == x.id) (close_with-id reason y.quantities_reserved y)) u.0 in
    elim (Bool-cases (t x)) [
      | inl e ↦
          subst (IsKeyed order_id) (sym (update_first t (closing reason) x xs e))
            (rw (close_with-id reason x.quantities_reserved x) free, IsKeyed-closed t reason xs u.1)
      | inr e ↦
          subst (IsKeyed order_id) (sym (update_later t (closing reason) x xs e))
            (free, IsKeyed-closed t reason xs u.1)
    ]

AllBelow-closed :
    (n : ℕ) (t : Order → Bool) (reason : String) (xs : List Order)
    → AllBelow order_id n xs
    → AllBelow order_id n (update_where t (closing reason) xs)
AllBelow-closed n t reason [] u = tt
AllBelow-closed n t reason (x ∷ xs) u = elim (Bool-cases (t x)) [
  | inl e ↦
      subst (AllBelow order_id n) (sym (update_first t (closing reason) x xs e))
        (rw (close_with-id reason x.quantities_reserved x) u.0, AllBelow-closed n t reason xs u.1)
  | inr e ↦
      subst (AllBelow order_id n) (sym (update_later t (closing reason) x xs e))
        (u.0, AllBelow-closed n t reason xs u.1)
]

pub log_cancelled-Frame :
    (os : List Order) (reason : String) (db : Db) → Frame db (log_cancelled os reason db)
unfolding log_cancelled
log_cancelled-Frame [] reason db = Frame-refl db
log_cancelled-Frame (o ∷ os) reason db =
    Frame-trans
      (log_transition-Frame o.id (some o.status) OrderStatus.cancelled none (some reason) db)
      (log_cancelled-Frame os reason _)

pub cancel_inflight_orders-IsBalanced :
    (k : ℕ) (reason : String) (db : Db) {db' : Db}
    → IsBalanced db
    → cancel_inflight_orders k reason db ≡ ok db'
    → IsBalanced db'
unfolding cancel_inflight_orders
cancel_inflight_orders-IsBalanced k reason db b h =
    let reserving : List Order = keep is_flagged (keep (is_cancellable k) db.orders) in
    let (pis, released, h₁) =
      >>=-eq-ok (release_totals k (product_totals reserving []) db.price_items) _ h in
    let (table, left) = release_totals-used k _ db.price_items b.prices released in
    let closed = close_orders (is_cancellable k) reason db.orders b.keyed in
    subst IsBalanced (ok-injective h₁) (
      IsBalanced-Frame (log_cancelled-Frame (keep (is_cancellable k) db.orders) reason _) (record {
        prices = table;
        keyed = rw closed (IsKeyed-closed (is_cancellable k) reason db.orders b.keyed);
        below = rw closed (AllBelow-closed db.next_id (is_cancellable k) reason db.orders b.below);
        sound = rw closed (AllSound-closed db.next_id k reason db.orders b.sound);
        balance = λ c p.
            let given : units p (product_totals reserving [])
                ≡ sum_of (λ o. quantity_of p o.items) reserving =
              units-product_totals p reserving [] ∙ omega arith in
            rw closed (
              omega (
                arith,
                left c p,
                ap (λ (n : ℕ). in_contract c k n) given,
                reserved_closed k c p db.next_id reason db.orders b.sound,
                b.balance c p,
              ));
      }))
