-- ===== src/Warehouse.antt =====
-- The warehouse: server/src/modules/warehouse.
pub mod Model
pub mod Suppliers
pub mod Ledger
pub mod Store
pub mod Stocks
pub mod Measures
pub mod Flow
pub mod Effect
pub mod Statements
pub mod Requisition
pub mod Slips
pub mod Batches
pub mod Balance
pub mod Books
pub mod Examples
