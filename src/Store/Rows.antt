-- ===== src/Store/Rows.antt =====
-- The ORM models (src/modules/*/models.py): the columns that the services compute with. Ids are
-- numbers, amounts are whole sums (prices and quantities are non-negative by the schemas and by
-- check constraints), dates and times are counted from an epoch.
use munavvar_a.Prelude.{ℕ, Bool, Option, String, List}
use munavvar_a.Store.Enums.{
  OrderStatus, SaleType, PaymentMethod, InventoryType, TransferType, TransferStatus, ContractStatus,
  InvoiceStatus, AccountType, TransactionStatus, Role,
}

pub record OrderItem : Type 0 where
  pub id : ℕ
  pub product_id : ℕ
  pub quantity : ℕ
  pub unit_price : ℕ

-- `items` is the relationship of that name: the rows of order_items with this order's id.
pub record Order : Type 0 where
  pub id : ℕ
  pub client_id : ℕ
  pub client_inventory_id : ℕ
  pub courier_id : Option ℕ
  pub payment_method : PaymentMethod
  pub status : OrderStatus
  pub total_amount : ℕ
  pub capitalization_applied : Bool
  pub sale_type : SaleType
  pub warehouse_id : Option ℕ
  pub contract_id : Option ℕ
  pub quantities_reserved : Bool
  pub cancellation_reason : Option String
  pub notes : Option String
  pub is_active : Bool
  pub items : List OrderItem

pub record OrderStatusLog : Type 0 where
  pub order_id : ℕ
  pub old_status : Option OrderStatus
  pub new_status : OrderStatus
  pub changed_by_id : Option ℕ
  pub reason : Option String

-- `number` is the list of its code points.
pub record Contract : Type 0 where
  pub id : ℕ
  pub number : List ℕ
  pub client_id : ℕ
  pub status : ContractStatus
  pub start_date : ℕ
  pub end_date : Option ℕ
  pub payment_due_days : ℕ
  pub notes : Option String
  pub signed_at : Option ℕ
  pub signed_by_id : Option ℕ
  pub suspended_at : Option ℕ
  pub suspension_reason : Option String
  pub terminated_at : Option ℕ
  pub termination_reason : Option String
  pub is_active : Bool

pub record PriceItem : Type 0 where
  pub id : ℕ
  pub contract_id : ℕ
  pub product_id : ℕ
  pub price : ℕ
  pub quantity : ℕ
  pub quantity_used : ℕ
  pub is_active : Bool

pub record ContractStatusLog : Type 0 where
  pub contract_id : ℕ
  pub from_status : ContractStatus
  pub to_status : ContractStatus
  pub changed_by_id : Option ℕ
  pub reason : Option String

pub record Invoice : Type 0 where
  pub id : ℕ
  pub contract_id : ℕ
  pub sequence : ℕ
  pub status : InvoiceStatus
  pub period_from : ℕ
  pub period_to : ℕ
  pub amount : ℕ
  pub due_date : Option ℕ
  pub issued_at : Option ℕ
  pub paid_at : Option ℕ
  pub is_active : Bool

pub record Product : Type 0 where
  pub id : ℕ
  pub price : ℕ
  pub returnable_item_id : Option ℕ
  pub is_active : Bool

pub record Inventory : Type 0 where
  pub id : ℕ
  pub user_id : ℕ
  pub type : InventoryType
  pub is_active : Bool

pub record User : Type 0 where
  pub id : ℕ
  pub role : Role
  pub is_active : Bool

pub record Account : Type 0 where
  pub id : ℕ
  pub user_id : Option ℕ
  pub type : AccountType
  pub is_active : Bool

-- A row {"product_id": ..., "quantity": ...} of a transfer.
pub record Line : Type 0 where
  pub product_id : ℕ
  pub quantity : ℕ

pub record StockTransfer : Type 0 where
  pub id : ℕ
  pub from_id : ℕ
  pub to_id : ℕ
  pub type : TransferType
  pub status : TransferStatus
  pub created_by_id : ℕ
  pub accepted_by_id : ℕ
  pub order_id : Option ℕ
  pub reason : Option String
  pub items : List Line

pub record StockTransaction : Type 0 where
  pub transfer_id : ℕ
  pub product_id : ℕ
  pub from_id : ℕ
  pub to_id : ℕ
  pub quantity : ℕ

pub record Transaction : Type 0 where
  pub id : ℕ
  pub from_id : ℕ
  pub to_id : ℕ
  pub amount : ℕ
  pub status : TransactionStatus
  pub reason : String
  pub order_id : Option ℕ
  pub verified_by_id : Option ℕ
