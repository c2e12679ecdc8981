-- ===== src/Store/Enums.antt =====
-- The enumerations of src/modules/*/enums.py. Each has a code by which its values are compared.
-- The codes of `OrderStatus` follow the alphabet of its string values, since
-- `_get_allowed_statuses` sorts by `status.value`.
use munavvar_a.Prelude.{ℕ, Bool, ◌==◌}

pub data OrderStatus : Type 0 where
  new assigned in_transit arrived delivered pickup_completed cancelled : OrderStatus

pub data SaleType : Type 0 where
  delivery warehouse_pickup : SaleType

pub data PaymentMethod : Type 0 where
  cash card contract : PaymentMethod

pub data InventoryType : Type 0 where
  warehouse courier client virtual_loss virtual_vendor : InventoryType

pub data TransferType : Type 0 where
  courier_load courier_return client_delivery client_return loss_write_off : TransferType
  inventory_finding initial_balance warehouse_sale warehouse_tara_return : TransferType

pub data TransferStatus : Type 0 where
  draft completed cancelled : TransferStatus

pub data ContractStatus : Type 0 where
  draft active suspended terminated expired : ContractStatus

pub data InvoiceStatus : Type 0 where
  draft issued partially_paid paid overdue cancelled : InvoiceStatus

pub data AccountType : Type 0 where
  revenue cash card bank discount client courier expense admin : AccountType

pub data TransactionStatus : Type 0 where
  pending completed rejected : TransactionStatus

pub data Role : Type 0 where
  system admin accountant storekeeper cashier courier client_b2c client_b2b : Role

abbrev pub order_status_code : OrderStatus → ℕ
order_status_code OrderStatus.arrived = 0
order_status_code OrderStatus.assigned = 1
order_status_code OrderStatus.cancelled = 2
order_status_code OrderStatus.delivered = 3
order_status_code OrderStatus.in_transit = 4
order_status_code OrderStatus.new = 5
order_status_code OrderStatus.pickup_completed = 6

abbrev pub same_status : OrderStatus → OrderStatus → Bool
same_status a b = order_status_code a == order_status_code b

abbrev pub sale_type_code : SaleType → ℕ
sale_type_code SaleType.delivery = 0
sale_type_code SaleType.warehouse_pickup = 1

abbrev pub same_sale_type : SaleType → SaleType → Bool
same_sale_type a b = sale_type_code a == sale_type_code b

abbrev pub payment_method_code : PaymentMethod → ℕ
payment_method_code PaymentMethod.cash = 0
payment_method_code PaymentMethod.card = 1
payment_method_code PaymentMethod.contract = 2

abbrev pub same_payment_method : PaymentMethod → PaymentMethod → Bool
same_payment_method a b = payment_method_code a == payment_method_code b

abbrev pub inventory_type_code : InventoryType → ℕ
inventory_type_code InventoryType.warehouse = 0
inventory_type_code InventoryType.courier = 1
inventory_type_code InventoryType.client = 2
inventory_type_code InventoryType.virtual_loss = 3
inventory_type_code InventoryType.virtual_vendor = 4

abbrev pub same_inventory_type : InventoryType → InventoryType → Bool
same_inventory_type a b = inventory_type_code a == inventory_type_code b

abbrev pub contract_status_code : ContractStatus → ℕ
contract_status_code ContractStatus.draft = 0
contract_status_code ContractStatus.active = 1
contract_status_code ContractStatus.suspended = 2
contract_status_code ContractStatus.terminated = 3
contract_status_code ContractStatus.expired = 4

abbrev pub same_contract_status : ContractStatus → ContractStatus → Bool
same_contract_status a b = contract_status_code a == contract_status_code b

abbrev pub invoice_status_code : InvoiceStatus → ℕ
invoice_status_code InvoiceStatus.draft = 0
invoice_status_code InvoiceStatus.issued = 1
invoice_status_code InvoiceStatus.partially_paid = 2
invoice_status_code InvoiceStatus.paid = 3
invoice_status_code InvoiceStatus.overdue = 4
invoice_status_code InvoiceStatus.cancelled = 5

abbrev pub same_invoice_status : InvoiceStatus → InvoiceStatus → Bool
same_invoice_status a b = invoice_status_code a == invoice_status_code b

abbrev pub account_type_code : AccountType → ℕ
account_type_code AccountType.revenue = 0
account_type_code AccountType.cash = 1
account_type_code AccountType.card = 2
account_type_code AccountType.bank = 3
account_type_code AccountType.discount = 4
account_type_code AccountType.client = 5
account_type_code AccountType.courier = 6
account_type_code AccountType.expense = 7
account_type_code AccountType.admin = 8

abbrev pub same_account_type : AccountType → AccountType → Bool
same_account_type a b = account_type_code a == account_type_code b

abbrev pub transaction_status_code : TransactionStatus → ℕ
transaction_status_code TransactionStatus.pending = 0
transaction_status_code TransactionStatus.completed = 1
transaction_status_code TransactionStatus.rejected = 2

abbrev pub same_transaction_status : TransactionStatus → TransactionStatus → Bool
same_transaction_status a b = transaction_status_code a == transaction_status_code b

abbrev pub role_code : Role → ℕ
role_code Role.system = 0
role_code Role.admin = 1
role_code Role.accountant = 2
role_code Role.storekeeper = 3
role_code Role.cashier = 4
role_code Role.courier = 5
role_code Role.client_b2c = 6
role_code Role.client_b2b = 7

abbrev pub same_role : Role → Role → Bool
same_role a b = role_code a == role_code b
