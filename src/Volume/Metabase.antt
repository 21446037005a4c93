-- ===== src/Volume/Metabase.antt =====
-- libcow's metabase and scopes as the handlers use them, and the SR metadata that they read.
use zfs_live_xapi.Prelude.{
  ℕ, String, ◌<>◌, Bool, Option, none, some, List, ◌==◌, str_eq, if◌then◌else◌,
}
use zfs_live_xapi.Effects.{
  World, DbCall, update_volume_vsize, get_vdi_by_id, get_vdi_custom_keys, get_vdi_for_volume,
  poll_lock, db_context, Vdi, M, pure, raise, value_error, ask, within, ◌>>=◌, ◌>>◌,
}
use zfs_live_xapi.Zfs.{dataset_path, format_zvol_name, get_zvol_size_bytes}

-- What `util.get_sr_metadata` reads; a default where the source gives one to `get`.
pub record SrMeta : Type 0 where
  pub zpool : String
  pub dataset : String
  pub datapath : String
  pub volblocksize : String
  pub provisioning : String

unfoldable pub sr_dataset : SrMeta → String
sr_dataset meta = dataset_path meta.zpool meta.dataset

abbrev pub image_raw_qdisk : ℕ
image_raw_qdisk = 3

-- `Callbacks.getVolumeUriPrefix` of zfs_live.py.
unfoldable pub get_volume_uri_prefix : SrMeta → String
get_volume_uri_prefix meta = "zfs-live//dev/zvol/" <> (sr_dataset meta <> "/")

-- The dictionary that describes a VDI to xapi; `key` and `uuid` are one.
pub record VdiInfo : Type 0 where
  pub uuid : String
  pub name : String
  pub description : String
  pub read_write : Bool
  pub virtual_size : ℕ
  pub physical_utilisation : ℕ
  pub uri : String
  pub keys : List (String × String)
  pub sharable : Bool

module _ (w : World) where
  unfoldable pub image_type_of : SrMeta → ℕ
  image_type_of meta = if str_eq meta.datapath "tapdisk" then w.image_raw else image_raw_qdisk

  -- `ImageFormat.get_format(image_type).uri_prefix`; an unknown type is a `ValueError`.
  unfoldable pub get_format : ℕ → M String
  get_format image_type =
      if image_type == image_raw_qdisk
      then pure "raw+qdisk://"
      else elim (w.base_format image_type) [ none ↦ raise value_error | some prefix ↦ pure prefix ]

  unfoldable pub db_get_vdi : String → M Vdi
  db_get_vdi key = ask w (get_vdi_by_id key) (λ h. w.vdi h key)

  unfoldable pub db_get_vdi_for_volume : Option ℕ → M (Option Vdi)
  db_get_vdi_for_volume id = ask w (get_vdi_for_volume id) (λ h. w.vdi_of_volume h id)

  unfoldable pub db_insert_volume : DbCall → M ℕ
  db_insert_volume c = ask w c (λ h. w.volume_id h c)

  unfoldable pub db_do : DbCall → M (Unit {0})
  db_do c = ask w c (λ h. tt)

  unfoldable pub db_custom_keys : String → M (List (String × String))
  db_custom_keys uuid = ask w (get_vdi_custom_keys uuid) (λ h. w.custom_keys h uuid)

  -- `with VolumeContext(…, mode) as opq: with PollLock(…): with db_context(opq):`
  unfoldable pub locked {ℓ} : {A : Type ℓ} → String → M A → M A
  locked sr body = within w (poll_lock sr) (within w (db_context sr) body)

  -- The size in memory, read from ZFS and written back where an interrupted resize left it `None`.
  unfoldable pub recover_vdi_vsize : Vdi → String → M ℕ
  recover_vdi_vsize vdi pool_name = elim vdi.volume.vsize [
    | some vsize ↦ pure vsize
    | none ↦ do
      vsize ← get_zvol_size_bytes w (format_zvol_name pool_name vdi.uuid)
      db_do (update_volume_vsize vdi.volume.id (some vsize))
      pure vsize
  ]
