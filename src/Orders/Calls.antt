-- ===== src/Orders/Calls.antt =====
-- The calls that the order service answers, each in a transaction of its own
-- (`async with self.uow`).
pub mod Balance
use munavvar_a.Prelude.{ℕ, Option, String, List, [], ◌∷◌}
use munavvar_a.Store.{OrderStatus, Line, Db, Result, committed}
use munavvar_a.Orders.Checkout.{
  OrderCreate, WarehouseSaleCreate, create_order, create_warehouse_sale,
}
use munavvar_a.Orders.Edit.{add_product_to_order, remove_product_from_order}
use munavvar_a.Orders.Status.{assign_courier, update_status, cancel_order}
use munavvar_a.Orders.Pickup.{complete_pickup}

pub data OrderCall : Type 0 where
  create : ℕ → OrderCreate → ℕ → OrderCall
  sell : WarehouseSaleCreate → Option ℕ → ℕ → OrderCall
  add_product : ℕ → ℕ → ℕ → Option ℕ → OrderCall
  remove_product : ℕ → ℕ → Option ℕ → OrderCall
  assign : ℕ → ℕ → OrderCall
  change_status : ℕ → OrderStatus → List Line → Option ℕ → Option String → OrderCall
  cancel : ℕ → ℕ → Option String → OrderCall
  pick_up : ℕ → ℕ → OrderCall

unfoldable pub run_order : OrderCall → Db → Result Db
run_order (OrderCall.create client dto today) db = create_order client dto today db
run_order (OrderCall.sell dto client by) db = create_warehouse_sale dto client by db
run_order (OrderCall.add_product k p q user) db = add_product_to_order k p q user db
run_order (OrderCall.remove_product k p user) db = remove_product_from_order k p user db
run_order (OrderCall.assign k courier) db = assign_courier k courier db
run_order (OrderCall.change_status k s actual user reason) db =
    update_status k s actual user reason db
run_order (OrderCall.cancel k user reason) db = cancel_order k user reason db
run_order (OrderCall.pick_up k by) db = complete_pickup k by db
