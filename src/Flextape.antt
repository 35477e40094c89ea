-- ===== src/Flextape.antt =====
-- flextape/service: the license server. Queue and Prioritizer serve License; Service drives it.
pub mod Invocation
pub mod Queue
pub mod Prioritizer
pub mod License
pub mod Messages
pub mod Service
mod Examples
