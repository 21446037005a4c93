-- ===== src/Lzc.antt =====
-- The bindings of libzfs_core (src/volume/lzc.py).
mod Gates
mod Retry
pub mod GateLaws
pub mod Kinds
pub mod RetryLaws
unfoldable pub use Gates.*
unfoldable pub use Retry.*
