-- ===== src/Tests.antt =====
-- Concrete inputs, and the theorems applied to them.
pub mod Data
mod Runs
mod Gates
mod Parts
mod Decoding
mod Steps
mod Settling
pub mod Site
mod Service
mod Checks
mod Pipelines
mod Server
mod Interleaving
mod Node
mod Client
