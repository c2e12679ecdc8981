-- ===== src/Finances.antt =====
-- Money (src/modules/finances): the ledger of transactions and the billing operations.
pub mod Ledger
pub mod Billing
