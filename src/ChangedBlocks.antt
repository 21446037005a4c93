-- ===== src/ChangedBlocks.antt =====
-- `Volume.list_changed_blocks` and its helpers (src/volume/volume.py): dirty extents packed into a
-- bitmap with one bit for each block, as base64.
pub mod Pack
pub mod Bits
pub mod Overlap
pub mod Listing
pub mod Complete
