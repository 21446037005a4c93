-- ===== src/Volume.antt =====
-- The operations of `Implementation` in src/volume/volume.py.
pub mod Discipline
pub mod Refusals
pub mod KeyLaws
pub mod SnapshotLaws
mod Metabase
pub mod Datapath
mod Create
mod Destroy
mod Resize
mod Clones
mod Copy
mod Properties
pub mod Dispatch
unfoldable pub use Metabase.*
unfoldable pub use Datapath.*
unfoldable pub use Create.*
unfoldable pub use Destroy.*
unfoldable pub use Resize.*
unfoldable pub use Clones.*
unfoldable pub use Copy.*
unfoldable pub use Properties.*
