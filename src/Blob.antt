-- ===== src/Blob.antt =====
-- lib/config/blob: how the keys and the parameters of a blob stand in a URL.
pub mod Params
pub mod Codec
mod Examples
