-- ===== src/Contracts.antt =====
-- Contracts (src/modules/contracts/services.py): the life of a contract and its price list.
pub mod Lifecycle
pub mod Terms
pub mod Expiry
pub mod Calls
pub mod Prices
pub mod Invoices
