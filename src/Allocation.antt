-- ===== src/Allocation.antt =====
-- allocation_manager/service: the service that allocates hosts, by topology, to those who wait.
pub mod Store
pub mod Units
pub mod Queue
pub mod Matching
pub mod Service
mod Examples
