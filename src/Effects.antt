-- ===== src/Effects.antt =====
-- What the driver does to the world around it: subprocesses, libzfs_core ioctls, and libcow's metabase
-- with its scopes (contexts and locks). An action appends events to a history, newest first, and
-- what is not the driver's own code answers as an unknown function of that history.
pub mod Hoare
pub mod Triple
pub mod Kinds
pub mod Scopes
mod Monad
unfoldable pub use Monad.*
