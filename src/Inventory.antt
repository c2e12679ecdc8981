-- ===== src/Inventory.antt =====
-- The stock: its ledger, the transfers of the inventory service and the capitalization of containers.
pub mod Ledger
pub mod Transfers
pub mod Capitalize
