-- ===== src/Sr.antt =====
-- The operations of `Implementation` in src/volume/sr.py.
mod Config
mod Metadata
mod Features
pub mod Create
pub mod Attach
pub mod Listing
pub mod Probe
pub mod Readers
pub mod ListingLaws
pub mod ProbeLaws
pub mod ConfigLaws
pub mod PlaceLaws
pub mod CreateLaws
pub mod FeatureLaws
unfoldable pub use Config.*
unfoldable pub use Metadata.*
unfoldable pub use Features.*
