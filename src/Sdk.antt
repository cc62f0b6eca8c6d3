-- ===== src/Sdk.antt =====
-- The builders of programmable transactions: the calls that a transaction is handed, and the
-- SDKs of layers 2 and 3.
pub mod Transaction
pub mod Layer2
pub mod Layer3
