-- ===== src/Pipeline.antt =====
-- pipeline/src: the composition of layer 3, the execution engine and settlement.
pub mod Settling
pub mod Full
