-- ===== src/Zfs.antt =====
-- The ZFS commands and helpers of src/volume/zfs_operations.py.
pub mod Kinds
pub mod Outside
pub mod Readers
pub mod RetryLaws
pub mod ReportedLaws
pub mod OrphanLaws
pub mod CleanUpLaws
pub mod Places
pub mod ChildLaws
pub mod Answers
pub mod IdleChecks
pub mod IdleLaws
pub mod PoolReaders
mod Command
mod Datasets
mod Zvols
mod Reservation
mod Reported
mod Orphans
mod Pools
unfoldable pub use Command.*
unfoldable pub use Datasets.*
unfoldable pub use Zvols.*
unfoldable pub use Reported.*
unfoldable pub use Orphans.*
unfoldable pub use Pools.*
unfoldable pub use Reservation.*
