-- ===== src/Volume/Datapath.antt =====
-- What the volume plugin calls of the datapath plugin.
use zfs_live_xapi.Prelude.{String, Bool}
use zfs_live_xapi.Effects.{M}

-- The datapath plugin's side of change tracking, where it is installed: what `destroy` and
-- `snapshot` call of it, and the key of a device in the older files.
pub record Datapath : Type 0 where
  pub is_installed : Bool
  pub remove_cbt_metadata : String → String → M (Unit {0})
  pub capture_at_snapshot : String → String → String → M (Unit {0})
  pub device_key : String → String
