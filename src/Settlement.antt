-- ===== src/Settlement.antt =====
-- layer5/settlement/src: the parts of settlement that keep state of their own.
pub mod Types
pub mod Credit
pub mod Redemption
pub mod Burns
pub mod Usdc
pub mod Carbon
pub mod Reporting
pub mod Watcher
pub mod Billing
pub mod Deployment
pub mod Manifest
pub mod Redeeming
pub mod Integrations
pub mod PtbClient
pub mod Grid
pub mod Archive
pub mod Backend
pub mod Planner
pub mod Service
pub mod Wormhole
pub mod Offramp
pub mod BridgeWorker
pub mod Security
pub mod Gates
pub mod DiskAudit
pub mod DotEnv
pub mod Stores
pub mod Indexer
