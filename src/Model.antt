-- ===== src/Model.antt =====
-- The client-side data model: frontend/lib/model.
pub mod Ledger
pub mod Currency
pub mod Stock
pub mod Unit
pub mod BankAccount
pub mod Tag
