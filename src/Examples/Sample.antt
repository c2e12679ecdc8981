-- ===== src/Examples/Sample.antt =====
-- A small store: one contract, one order on it, a courier with goods, and their accounts.
use munavvar_a.Prelude.{
  ℕ, true, false, refl, inr, ◌==◌, ◌&&◌, some, none, List, [], ◌∷◌, if◌then◌else◌, arith,
}
use munavvar_a.Prelude.Int.{ℤ, pos}
use munavvar_a.Store.{
  OrderStatus, SaleType, PaymentMethod, InventoryType, ContractStatus, AccountType, Role, Order,
  Contract, PriceItem, Inventory, Account, Db,
}
use munavvar_a.Orders.Quota.Balance.{IsBalanced}
use munavvar_a.Orders.Edit.{contract_of}

abbrev pub price_row : ℕ → PriceItem
price_row n = record {
  id = 10;
  contract_id = 1;
  product_id = 7;
  price = 100;
  quantity = 10;
  quantity_used = n;
  is_active = true;
}

abbrev contract_row : Contract
contract_row = record {
  id = 1;
  number = b'H' ∷ b'1' ∷ [];
  client_id = 5;
  status = ContractStatus.active;
  start_date = 0;
  end_date = none;
  payment_due_days = 30;
  notes = none;
  signed_at = some 0;
  signed_by_id = none;
  suspended_at = none;
  suspension_reason = none;
  terminated_at = none;
  termination_reason = none;
  is_active = true;
}

abbrev pub order_row : PaymentMethod → OrderStatus → Order
order_row method status = record {
  id = 30;
  client_id = 5;
  client_inventory_id = 20;
  courier_id = some 6;
  payment_method = method;
  status = status;
  total_amount = 300;
  capitalization_applied = false;
  sale_type = SaleType.delivery;
  warehouse_id = none;
  contract_id = some 1;
  quantities_reserved = true;
  cancellation_reason = none;
  notes = none;
  is_active = true;
  items = record { id = 31; product_id = 7; quantity = 3; unit_price = 100 } ∷ [];
}

abbrev pub account_rows : List Account
account_rows =
    record { id = 50; user_id = some 5; type = AccountType.client; is_active = true }
    ∷ record { id = 51; user_id = some 0; type = AccountType.revenue; is_active = true }
    ∷ record { id = 52; user_id = some 6; type = AccountType.courier; is_active = true }
    ∷ []

abbrev pub inventory_rows : List Inventory
inventory_rows =
    record { id = 20; user_id = 5; type = InventoryType.client; is_active = true }
    ∷ record { id = 21; user_id = 6; type = InventoryType.courier; is_active = true }
    ∷ []

-- The courier holds five units of product 7.
abbrev stock : ℕ → ℕ → ℤ
stock p i = if p == 7 && i == 21 then pos 5 else pos 0

abbrev pub store : Db
store = record {
  orders = order_row PaymentMethod.contract OrderStatus.new ∷ [];
  status_logs = [];
  contracts = contract_row ∷ [];
  price_items = price_row 3 ∷ [];
  contract_logs = [];
  invoices = [];
  products = record { id = 7; price = 120; returnable_item_id = none; is_active = true } ∷ [];
  inventories = inventory_rows;
  users = record { id = 5; role = Role.client_b2b; is_active = true } ∷ [];
  accounts = account_rows;
  transfers = [];
  stock_transactions = [];
  stock_balances = stock;
  transactions = [];
  account_balances = λ k. pos 0;
  next_id = 40;
}

pub store-IsBalanced : IsBalanced store
unfolding contract_of
store-IsBalanced = record {
  prices = record { ids = (refl, tt); keys = (refl, refl, tt); within = (inr (omega arith), tt) };
  keyed = (refl, tt);
  below = (omega arith, tt);
  sound = (
    record {
      item_ids = (refl, tt);
      items_below = (omega arith, tt);
      held = λ live has. refl;
      tied = λ flagged. refl;
    },
    tt,
  );
  balance = λ c p. ground arith;
}
