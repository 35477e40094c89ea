-- ===== src/Config.antt =====
-- lib/config: stores of configuration values, by namespace and key.
pub mod Text
pub mod Names
pub mod KeyCodec
pub mod ListOptions
pub mod Descriptor
pub mod Path
pub mod Loader
pub mod Memory
pub mod Simple
pub mod Multi
mod Examples
