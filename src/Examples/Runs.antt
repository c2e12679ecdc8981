-- ===== src/Examples/Runs.antt =====
-- A run of order calls, contract calls and the job on stale orders.
use munavvar_a.Prelude.{◌≡◌, refl, ◌≤◌, ◌⊎◌, some, none, List, [], ◌∷◌, arith}
use munavvar_a.Store.{OrderStatus, PaymentMethod, Order, Db, find_order}
use munavvar_a.Orders.Quota.{increment_quantities_used, decrement_quantities_used}
use munavvar_a.Orders.Quota.Balance.{reserved, IsBalanced}
use munavvar_a.Orders.Dict.{set_key, get_or_zero, add_key}
use munavvar_a.Orders.Edit.{
  add_product_to_order, get_by_order_and_product, contract_of, reserve_addition, with_addition,
  put_item,
}
use munavvar_a.Orders.Pickup.{log_transition}
use munavvar_a.Orders.Calls.{OrderCall, run_order}
use munavvar_a.Orders.Stale.{StaleRun, get_stale_orders, expire_stale_orders, expire_orders}
use munavvar_a.Contracts.Lifecycle.{
  log_contract, add_items, product_totals, log_cancelled, release_totals, cancel_inflight_orders,
  suspend_contract,
}
use munavvar_a.Contracts.Calls.{ContractCall, run_contract}
use munavvar_a.Runs.{Call, run_call, run_all_calls}
use munavvar_a.Runs.Balance.{run_all_calls-IsBalanced, run_all_calls-within}
use munavvar_a.Orders.Life.{Follows}
use munavvar_a.Runs.Life.{run_all_calls-Follows, run_all_calls-final}
use munavvar_a.Examples.Sample.{price_row, order_row, store, store-IsBalanced}

abbrev stale : StaleRun
stale = record {
  now = 100;
  max_age_hours = 24;
  assigned_max_age_hours = 48;
  created_at = λ k. 80;
  updated_at = λ k. 80;
  new_reason = "stale";
  assigned_reason = "stale";
  admin_id = some 1;
}

-- The order grows by two units, the job leaves it alone, and the contract is suspended.
abbrev mixed : List Call
mixed =
    Call.on_order (OrderCall.add_product 30 7 2 (some 5))
    ∷ Call.expire_stale stale
    ∷ Call.on_contract (ContractCall.suspend_it 1 "late" none 3)
    ∷ []

run_all_calls-IsBalanced_example : IsBalanced (run_all_calls mixed store)
run_all_calls-IsBalanced_example = run_all_calls-IsBalanced mixed store store-IsBalanced

mixed_prices : (run_all_calls mixed store).price_items ≡ price_row 0 ∷ []
unfolding run_all_calls run_call run_order run_contract add_product_to_order
    get_by_order_and_product contract_of reserve_addition increment_quantities_used with_addition
    put_item expire_stale_orders get_stale_orders expire_orders suspend_contract
    cancel_inflight_orders release_totals product_totals add_items add_key set_key get_or_zero
    decrement_quantities_used log_cancelled log_transition log_contract
mixed_prices = refl

run_all_calls-within_example :
    ((price_row 0).quantity ≡ 0) ⊎ (reserved 1 7 (run_all_calls mixed store).orders ≤ 10)
run_all_calls-within_example =
    run_all_calls-within mixed store 1 7 {pi = price_row 0} store-IsBalanced (rw mixed_prices)

run_all_calls-Follows_example :
    (o' : Order) × (find_order 30 (run_all_calls mixed store).orders ≡ some o')
    × Follows (order_row PaymentMethod.contract OrderStatus.new) o'
run_all_calls-Follows_example =
    run_all_calls-Follows mixed store 30 (order_row PaymentMethod.contract OrderStatus.new)
      store-IsBalanced refl

-- The same store with its order delivered.
abbrev done : Db
done = record store { orders = order_row PaymentMethod.contract OrderStatus.delivered ∷ [] }

done-IsBalanced : IsBalanced done
unfolding contract_of
done-IsBalanced = record {
  prices = store-IsBalanced.prices;
  keyed = (refl, tt);
  below = (omega arith, tt);
  sound = (
    record {
      item_ids = (refl, tt);
      items_below = (omega arith, tt);
      held = λ live has. refl;
      tied = λ flagged. refl;
    },
    tt,
  );
  balance = λ c p. ground arith;
}

run_all_calls-final_example :
    (o' : Order) × (find_order 30 (run_all_calls mixed done).orders ≡ some o')
    × (o'.status ≡ OrderStatus.delivered)
run_all_calls-final_example =
    run_all_calls-final mixed done 30 (order_row PaymentMethod.contract OrderStatus.delivered)
      done-IsBalanced refl refl
