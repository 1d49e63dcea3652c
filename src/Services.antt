-- ===== src/Services.antt =====
-- app/services
pub mod Transactions
pub mod Admin
