-- ===== src/Sr/Listing.antt =====
-- `SR.ls`: the VDIs of an SR with the sizes recovered, and the reconciliation of orphans.
use zfs_live_xapi.Prelude.{
  ℕ, String, ◌<>◌, Bool, not, Option, none, some, List, [], ◌∷◌, ◌++◌, str_eq, if◌then◌else◌,
}
use zfs_live_xapi.Prelude.Text.{parse_int}
use zfs_live_xapi.Effects.{
  World, get_all_vdis, get_all_vdi_custom_keys, volume_context, db_context, Vdi, M, pure,
  try_except, ask, within, ◌>>=◌, ◌>>◌,
}
use zfs_live_xapi.Zfs.{
  format_zvol_name, vol_exists, get_zvol_used_bytes, find_snapshot_by_uuid,
  vol_get_zfs_properties_dict, int_or_raise, Orphan, zvol_find_orphans, zsnap_find_orphans,
  zvol_destroy_orphans, zsnap_destroy_orphans,
}
use zfs_live_xapi.Volume.{VdiInfo, recover_vdi_vsize, get_format}
use zfs_live_xapi.Sr.Config.{Dict, lookup}
use zfs_live_xapi.Sr.Metadata.{get_default, get_sr_metadata, get_sr_dataset_path, uri_prefix_of}

unfoldable pub uuids : List Vdi → List String
uuids [] = []
uuids (vdi ∷ vdis) = vdi.uuid ∷ uuids vdis

-- `all_custom_keys[uuid]`, or none.
unfoldable pub keys_for : String → List (String × Dict) → Dict
keys_for uuid [] = []
keys_for uuid ((u, keys) ∷ all) =
    let rest = keys_for uuid all in if str_eq u uuid then keys else rest

-- What the first database context reads: each VDI with its size, and the keys of all.
pub record Rows : Type 0 where
  pub vdis : List (Vdi × ℕ)
  pub known : List String
  pub custom_keys : List (String × Dict)

unfoldable pub cleanup_enabled : Dict → Bool
cleanup_enabled meta = str_eq (get_default (lookup "auto_cleanup_orphans" meta) "") "true"

module _ (w : World) where
  unfoldable pub recover_sizes : String → List Vdi → M (List (Vdi × ℕ))
  recover_sizes dataset [] = pure []
  recover_sizes dataset (vdi ∷ vdis) = do
    vsize ← recover_vdi_vsize w vdi dataset
    rest ← recover_sizes dataset vdis
    let sized : Vdi × ℕ = (vdi, vsize)
    pure (sized ∷ rest)

  unfoldable pub read_rows : String → M Rows
  read_rows dataset = do
    vdis ← ask w get_all_vdis (λ h. w.all_vdis h)
    custom_keys ← ask w get_all_vdi_custom_keys (λ h. w.all_custom_keys h)
    sized ← recover_sizes dataset vdis
    pure (record { vdis = sized; known = uuids vdis; custom_keys = custom_keys })

  unfoldable pub clean_up_found :
      (List Orphan → ℕ → M (Unit {0})) → Bool → ℕ → List Orphan → M (Unit {0})
  clean_up_found destroy enabled grace orphans = if enabled then destroy orphans grace else pure tt

  -- A scan that fails is logged only, with the clean-up after it.
  unfoldable pub reconcile :
      M (List Orphan) → (List Orphan → ℕ → M (Unit {0})) → Bool → ℕ → M (Unit {0})
  reconcile find destroy enabled grace =
      try_except (find >>= clean_up_found destroy enabled grace) (λ e. pure tt)

  -- The snapshot or the zvol behind a VDI, or none where it is not on the disk.
  unfoldable pub existing_zvol : String → M (Option String)
  existing_zvol name = do found ← vol_exists w name; pure (if found then some name else none)

  unfoldable pub stored_name : String → Vdi → M (Option String)
  stored_name dataset vdi =
      if vdi.volume.snap
      then find_snapshot_by_uuid w dataset vdi.uuid
      else existing_zvol (format_zvol_name dataset vdi.uuid)

  -- The entry of one VDI; a custom key wins over a property that ZFS reports.
  unfoldable pub entry_of :
      String → List (String × Dict) → String → Vdi → ℕ → Option String → M (List VdiInfo)
  entry_of sr custom_keys uri_prefix vdi vsize none = pure []
  entry_of sr custom_keys uri_prefix vdi vsize (some vol_name) = do
    psize ← get_zvol_used_bytes w vol_name
    prefix ← uri_prefix_of w sr
    zfs_keys ← vol_get_zfs_properties_dict w vol_name
    pure (
        record {
          uuid = vdi.uuid;
          name = vdi.name;
          description = vdi.description;
          read_write = not vdi.volume.snap;
          virtual_size = vsize;
          physical_utilisation = psize;
          uri = uri_prefix <> (prefix <> vdi.uuid);
          keys = keys_for vdi.uuid custom_keys ++ zfs_keys;
          sharable = vdi.sharable;
        }
        ∷ [])

  unfoldable pub list_vdis :
      String → String → List (String × Dict) → List (Vdi × ℕ) → M (List VdiInfo)
  list_vdis sr dataset custom_keys [] = pure []
  list_vdis sr dataset custom_keys ((vdi, vsize) ∷ vdis) = do
    uri_prefix ← get_format w vdi.image_type
    vol_name ← stored_name dataset vdi
    entry ← entry_of sr custom_keys uri_prefix vdi vsize vol_name
    rest ← list_vdis sr dataset custom_keys vdis
    pure (entry ++ rest)

  -- The body within the volume context. The grace period is an hour where none is set.
  unfoldable pub ls_rows : String → Dict → String → M (List VdiInfo)
  ls_rows sr meta dataset = do
    rows ← within w (db_context sr) (read_rows dataset)
    grace ←
        int_or_raise w (parse_int (get_default (lookup "orphan_grace_period_seconds" meta) "3600"))
    reconcile (zvol_find_orphans w dataset rows.known) (zvol_destroy_orphans w)
        (cleanup_enabled meta) grace
    reconcile (zsnap_find_orphans w dataset rows.known) (zsnap_destroy_orphans w)
        (cleanup_enabled meta) grace
    list_vdis sr dataset rows.custom_keys rows.vdis

  unfoldable pub ls : String → M (List VdiInfo)
  ls sr = do
    meta ← get_sr_metadata w sr
    dataset ← get_sr_dataset_path w meta
    within w (volume_context sr "r") (ls_rows sr meta dataset)
