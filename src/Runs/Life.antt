-- ===== src/Runs/Life.antt =====
-- The life of every order over runs of order calls, contract calls and the job on stale orders.
use munavvar_a.Prelude.{
  ℕ, Bool, true, false, not, ◌≡◌, ◌||◌, refl, sym, subst, Option, some, String, List, [], ◌∷◌, keep,
  arith, ap, ◌∙◌,
}
use munavvar_a.Store.{
  OrderStatus, SaleType, ContractStatus, Contract, Order, Db, ok, >>=-eq-ok, raise_if-eq-ok,
  or_raise-eq-ok, ok-injective, committed, find_contract, find_order, same_contract_status,
  same_status, Result, err,
}
use munavvar_a.Orders.Fsm.Laws.{Edge}
use munavvar_a.Orders.Quota.Balance.{IsBalanced}
use munavvar_a.Orders.Life.{
  Step, Course, here, onward, Follows, Moves, Moves-trans, Moves-same, Moves-Frame,
  Moves-update_where,
}
use munavvar_a.Orders.Life.Calls.{run_order-Moves}
use munavvar_a.Orders.Stale.Life.{withdrawn-Course, expire_stale_orders-Moves}
use munavvar_a.Contracts.Lifecycle.{
  suspend_contract, terminate_contract, cancel_inflight_orders, is_cancellable, product_totals,
  release_totals,
}
use munavvar_a.Contracts.Lifecycle.Closing.{is_flagged, close_with, closing, close_orders}
use munavvar_a.Contracts.Lifecycle.Quotas.{log_cancelled-Frame}
use munavvar_a.Contracts.Expiry.{is_expirable, expire_contract, expire_contracts, run_expire_job}
use munavvar_a.Contracts.Calls.{ContractCall, run_contract}
use munavvar_a.Runs.{Call, run_call, run_all_calls}
use munavvar_a.Runs.Frame.{
  contracts-Frame, log_contract-Frame, create_contract-Frame, update_contract-Frame,
  activate_contract-Frame, reinstate_contract-Frame,
}
use munavvar_a.Runs.Balance.{changed-IsBalanced, expire_contract-IsBalanced, run_call-IsBalanced}

cancellable-Course :
    (k : ℕ) (x : Order)
    → is_cancellable k x ≡ true
    → Course x.sale_type x.status OrderStatus.cancelled
cancellable-Course k x h = withdrawn-Course x.sale_type x.status (early h)
  where
    early :
        is_cancellable k x ≡ true
        → (same_status x.status OrderStatus.new || same_status x.status OrderStatus.assigned) ≡ true
    early g = ground arith

close_with-Follows :
    (b : Bool) (reason : String) (x : Order)
    → Course x.sale_type x.status OrderStatus.cancelled
    → Follows x (close_with b reason x)
close_with-Follows true reason x p = record { sale = refl; path = p }
close_with-Follows false reason x p = record { sale = refl; path = p }

close_with-same : (b : Bool) (reason : String) (x : Order) → (close_with b reason x).id ≡ x.id
close_with-same true reason x = refl
close_with-same false reason x = refl

cancel_inflight_orders-Moves :
    (k : ℕ) (reason : String) (db : Db) {db' : Db}
    → IsBalanced db
    → cancel_inflight_orders k reason db ≡ ok db'
    → Moves db db'
unfolding cancel_inflight_orders
cancel_inflight_orders-Moves k reason db b h =
    let (pis, _, h₁) =
      >>=-eq-ok
        (release_totals k (product_totals (keep is_flagged (keep (is_cancellable k) db.orders)) [])
          db.price_items)
        _ h in
    subst (Moves db) (ok-injective h₁) (
      Moves-trans
        (Moves-update_where (is_cancellable k) (closing reason)
          (close_orders (is_cancellable k) reason db.orders b.keyed)
          (λ x. close_with-same x.quantities_reserved reason x)
          (λ x e. close_with-Follows x.quantities_reserved reason x (cancellable-Course k x e)))
        (Moves-Frame (log_cancelled-Frame (keep (is_cancellable k) db.orders) reason _)))

-- A contract changes, and its open orders are cancelled.
withdrawal-Moves :
    (k : ℕ) (reason : String) (cs : List Contract) (db : Db) {mid : Db}
    → IsBalanced db
    → cancel_inflight_orders k reason (record db { contracts = cs }) ≡ ok mid
    → Moves db mid
withdrawal-Moves k reason cs db b h =
    Moves-trans (Moves-Frame (contracts-Frame db cs))
      (cancel_inflight_orders-Moves k reason _ (changed-IsBalanced cs db b) h)

suspend_contract-Moves :
    (k : ℕ) (reason : String) (by : Option ℕ) (now : ℕ) (db : Db) {db' : Db}
    → IsBalanced db
    → suspend_contract k reason by now db ≡ ok db'
    → Moves db db'
unfolding suspend_contract
suspend_contract-Moves k reason by now db b h =
    let (c, _, h₁) = or_raise-eq-ok (find_contract k db.contracts) _ _ h in
    let (_, h₂) =
      raise_if-eq-ok (not (same_contract_status c.status ContractStatus.active)) _ _ h₁ in
    let (mid, cancelled, h₃) = >>=-eq-ok (cancel_inflight_orders k _ _) _ h₂ in
    subst (Moves db) (ok-injective h₃) (
      Moves-trans (withdrawal-Moves k _ _ db b cancelled)
        (Moves-Frame (log_contract-Frame k c.status ContractStatus.suspended by (some reason) mid)))

terminate_contract-Moves :
    (k : ℕ) (reason : String) (by : Option ℕ) (now : ℕ) (db : Db) {db' : Db}
    → IsBalanced db
    → terminate_contract k reason by now db ≡ ok db'
    → Moves db db'
unfolding terminate_contract
terminate_contract-Moves k reason by now db b h =
    let (c, _, h₁) = or_raise-eq-ok (find_contract k db.contracts) _ _ h in
    let (_, h₂) =
      raise_if-eq-ok
        (not (
          same_contract_status c.status ContractStatus.active
          || same_contract_status c.status ContractStatus.suspended))
        _ _ h₁ in
    let (mid, cancelled, h₃) = >>=-eq-ok (cancel_inflight_orders k _ _) _ h₂ in
    subst (Moves db) (ok-injective h₃) (
      Moves-trans (withdrawal-Moves k _ _ db b cancelled) (
        Moves-Frame (log_contract-Frame k c.status ContractStatus.terminated by (some reason) mid)))

expire_contracts-Moves :
    (cs : List Contract) (db : Db) {db' : Db}
    → IsBalanced db
    → expire_contracts cs db ≡ ok db'
    → Moves db db'
unfolding expire_contracts expire_contract
expire_contracts-Moves [] db b h = subst (Moves db) (ok-injective h) (Moves-same refl)
expire_contracts-Moves (c ∷ cs) db b h =
    let (mid, first, rest) = >>=-eq-ok (expire_contract c db) _ h in
    let (closed, cancelled, h₁) = >>=-eq-ok (cancel_inflight_orders c.id _ db) _ first in
    let one : Moves db mid = Moves-trans (cancel_inflight_orders-Moves c.id _ db b cancelled) (
      subst (Moves closed) (ok-injective h₁) (
        Moves-trans (Moves-Frame (contracts-Frame closed _))
          (Moves-Frame (log_contract-Frame c.id _ _ _ _ _)))) in
    Moves-trans one (expire_contracts-Moves cs mid (expire_contract-IsBalanced c db b first) rest)

run_contract-Moves :
    (c : ContractCall) (db : Db) {db' : Db}
    → IsBalanced db
    → run_contract c db ≡ ok db'
    → Moves db db'
unfolding run_contract run_expire_job
run_contract-Moves (ContractCall.draft_new client dto) db b h =
    Moves-Frame (create_contract-Frame client dto db h)
run_contract-Moves (ContractCall.change_terms k dto) db b h =
    Moves-Frame (update_contract-Frame k dto db h)
run_contract-Moves (ContractCall.activate k by now) db b h =
    Moves-Frame (activate_contract-Frame k by now db h)
run_contract-Moves (ContractCall.reinstate k by) db b h =
    Moves-Frame (reinstate_contract-Frame k by db h)
run_contract-Moves (ContractCall.suspend_it k reason by now) db b h =
    suspend_contract-Moves k reason by now db b h
run_contract-Moves (ContractCall.terminate_it k reason by now) db b h =
    terminate_contract-Moves k reason by now db b h
run_contract-Moves (ContractCall.expire_due today) db b h =
    expire_contracts-Moves (keep (is_expirable today) db.contracts) db b h

run_call-Moves :
    (c : Call) (db : Db) {db' : Db} → IsBalanced db → run_call c db ≡ ok db' → Moves db db'
unfolding run_call
run_call-Moves (Call.on_order c) db b h = run_order-Moves c db h
run_call-Moves (Call.on_contract c) db b h = run_contract-Moves c db b h
run_call-Moves (Call.expire_stale run) db b h = expire_stale_orders-Moves run db b h

-- What a call leaves, failed or not.
record Kept (db db' : Db) : Type 0 where
  balanced : IsBalanced db'
  moves : Moves db db'

Kept-committed :
    (c : Call) (db : Db) (r : Result Db)
    → run_call c db ≡ r
    → IsBalanced db
    → Kept db (committed r db)
Kept-committed c db (err e) h b = record { balanced = b; moves = Moves-same refl }
Kept-committed c db (ok db') h b = record {
  balanced = run_call-IsBalanced c db b h;
  moves = run_call-Moves c db b h;
}

run_all_calls-Moves : (cs : List Call) (db : Db) → IsBalanced db → Moves db (run_all_calls cs db)
unfolding run_all_calls
run_all_calls-Moves [] db b = Moves-same refl
run_all_calls-Moves (c ∷ cs) db b =
    let k : Kept db (committed (run_call c db) db) = Kept-committed c db (run_call c db) refl b in
    Moves-trans k.moves (run_all_calls-Moves cs (committed (run_call c db) db) k.balanced)

-- The services refine the life of an order: from a store whose quota ledger balances, whatever
-- order calls, contract calls and runs of the job on stale orders are made, failed ones included,
-- an order is still there under its id and with its type of sale, and its status is one that the
-- steps of the life lead to from the status it had.
pub run_all_calls-Follows :
    (cs : List Call) (db : Db) (j : ℕ) (o : Order)
    → IsBalanced db
    → find_order j db.orders ≡ some o
    → (o' : Order) × (find_order j (run_all_calls cs db).orders ≡ some o') × Follows o o'
run_all_calls-Follows cs db j o b found = (run_all_calls-Moves cs db b).kept j o found

-- The statuses that end the life of an order.
abbrev pub is_final : OrderStatus → Bool
is_final OrderStatus.delivered = true
is_final OrderStatus.cancelled = true
is_final OrderStatus.pickup_completed = true
is_final _ = false

Step-live : {t : SaleType} {a b : OrderStatus} → Step t a b → is_final a ≡ false
Step-live (Step.by_edge Edge.depart) = refl
Step-live (Step.by_edge Edge.arrive) = refl
Step-live (Step.by_edge Edge.deliver) = refl
Step-live (Step.by_edge Edge.cancel_new) = refl
Step-live (Step.by_edge Edge.cancel_assigned) = refl
Step-live (Step.by_edge Edge.cancel_in_transit) = refl
Step-live (Step.by_edge Edge.cancel_arrived) = refl
Step-live Step.assign = refl
Step-live Step.pick_up = refl
Step-live Step.withdraw = refl

Course-final : {t : SaleType} {a b : OrderStatus} → is_final a ≡ true → Course t a b → b ≡ a
Course-final h here = refl
Course-final {a = a} h (onward {b = b} p s) =
    let live : is_final b ≡ false = Step-live s in
    let same : b ≡ a = Course-final h p in
    let clash : false ≡ true = sym live ∙ ap is_final same ∙ h in cc

-- From a store whose quota ledger balances, an order that is delivered, cancelled or picked up
-- stays so, whatever order calls, contract calls and runs of the job on stale orders are made.
pub run_all_calls-final :
    (cs : List Call) (db : Db) (j : ℕ) (o : Order)
    → IsBalanced db
    → find_order j db.orders ≡ some o
    → is_final o.status ≡ true
    → (o' : Order) × (find_order j (run_all_calls cs db).orders ≡ some o') × (o'.status ≡ o.status)
run_all_calls-final cs db j o b found h =
    let (o', there, f) = run_all_calls-Follows cs db j o b found in
    (o', there, Course-final h f.path)
