-- ===== src/Proxy.antt =====
-- pkg/proxy: the HTTP handler in front of the engine. Texts are lists of bytes.
pub mod Size
pub mod Path
pub mod Remote
pub mod Serve
pub mod Setup
pub mod Samples
mod Examples
