-- ===== src/Pagination.antt =====
-- Cursor pagination (src/common/pagination.py).
pub mod Base64
pub mod Cursor
pub mod Transfers
