-- ===== src/Volume/Create.antt =====
-- `create` and `import_existing`.
use zfs_live_xapi.Prelude.{
  ℕ, ◌*◌, String, ◌<>◌, Bool, true, false, ◌||◌, some, [], ◌∷◌, ltb, str_eq, if◌then◌else◌,
}
use zfs_live_xapi.Prelude.Text.{parse_int}
use zfs_live_xapi.Effects.{
  World, storage_error, insert_new_volume, insert_vdi, update_volume_vsize, volume_context, M, pure,
  raise, try_except, within, mint_uuid, ◌>>=◌, ◌>>◌,
}
use zfs_live_xapi.Zfs.{
  format_zvol_name, vol_exists, vol_get_property, get_zvol_size_bytes, get_zvol_used_bytes,
  dataset_get_available, int_or_raise, create_zvol, no_overrides,
}
use zfs_live_xapi.Volume.Metabase.{
  SrMeta, sr_dataset, get_volume_uri_prefix, image_type_of, get_format, VdiInfo, db_insert_volume,
  db_do, locked,
}

-- `VALID_VOLBLOCKSIZE.get(text.upper(), 8192)`
unfoldable pub volblocksize_bytes : String → ℕ
volblocksize_bytes s =
    if str_eq s "4K" || str_eq s "4k"
    then 4096
    else if str_eq s "16K" || str_eq s "16k"
    then 16384
    else if str_eq s "32K" || str_eq s "32k"
    then 32768
    else if str_eq s "64K" || str_eq s "64k"
    then 65536
    else if str_eq s "128K" || str_eq s "128k"
    then 131072
    else 8192

module _ (w : World) where
  -- The pre-flight check of a thick volume. Its copies are 1 where they cannot be read.
  unfoldable pub effective_copies : String → M ℕ
  effective_copies dataset =
      try_except (do text ← vol_get_property w dataset "copies"; int_or_raise w (parse_int text))
        (λ e. pure 1)

  unfoldable pub check_space : String → ℕ → M (Unit {0})
  check_space dataset size = do
    copies ← effective_copies dataset
    available ← dataset_get_available w dataset
    if ltb available (size * copies)
        then raise (
            storage_error "SR_BACKEND_FAILURE_109"
              ("Insufficient space for thick provisioning" ∷ []))
        else pure tt

  -- The rows and the zvol of a new volume; the size is the one that ZFS gave it.
  unfoldable pub create_rows : SrMeta → String → String → String → ℕ → Bool → M ℕ
  create_rows meta vdi_uuid name description size sharable = do
    id ← db_insert_volume w (insert_new_volume size (image_type_of w meta))
    db_do w (insert_vdi name description vdi_uuid id sharable)
    let path = format_zvol_name (sr_dataset meta) vdi_uuid
    create_zvol w path size (str_eq meta.provisioning "thin") (volblocksize_bytes meta.volblocksize)
        no_overrides
    vsize ← get_zvol_size_bytes w path
    db_do w (update_volume_vsize id (some vsize))
    pure vsize

  -- The part of `create` under the volume context: the uuid, the size and the URI.
  unfoldable pub create_in_context :
      String → SrMeta → String → String → ℕ → Bool → M (String × ℕ × String)
  create_in_context sr meta name description size sharable = do
    uri_prefix ← get_format w (image_type_of w meta)
    vdi_uuid ← mint_uuid w
    vsize ← locked w sr (create_rows meta vdi_uuid name description size sharable)
    pure (vdi_uuid, vsize, uri_prefix <> (get_volume_uri_prefix meta <> vdi_uuid))

  unfoldable pub create : String → SrMeta → String → String → ℕ → Bool → M VdiInfo
  create sr meta name description size sharable = do
    if str_eq meta.provisioning "thin" then pure tt else check_space (sr_dataset meta) size
    made ←
        within w (volume_context sr "w") (create_in_context sr meta name description size sharable)
    used ← get_zvol_used_bytes w (format_zvol_name (sr_dataset meta) made.0)
    pure (record {
      uuid = made.0;
      name = name;
      description = description;
      read_write = true;
      virtual_size = made.1;
      physical_utilisation = used;
      uri = made.2;
      keys = [];
      sharable = false;
    })

  unfoldable pub import_rows : SrMeta → String → String → String → ℕ → Bool → M ℕ
  import_rows meta key name description size sharable = do
    id ← db_insert_volume w (insert_new_volume size (image_type_of w meta))
    db_do w (insert_vdi name description key id sharable)
    actual_vsize ← get_zvol_size_bytes w (format_zvol_name (sr_dataset meta) key)
    db_do w (update_volume_vsize id (some actual_vsize))
    pure actual_vsize

  unfoldable pub import_in_context :
      String → SrMeta → String → String → String → ℕ → Bool → M (ℕ × String)
  import_in_context sr meta key name description size sharable = do
    uri_prefix ← get_format w (image_type_of w meta)
    vsize ← locked w sr (import_rows meta key name description size sharable)
    pure (vsize, uri_prefix <> (get_volume_uri_prefix meta <> key))

  unfoldable pub require_zvol : String → M (Unit {0})
  require_zvol vol_name = do
    found ← vol_exists w vol_name
    if found
        then pure tt
        else raise (
            storage_error "SR_BACKEND_FAILURE_109"
              ("Cannot import_existing -- zvol does not exist" ∷ vol_name ∷ []))

  unfoldable pub import_existing : String → SrMeta → String → String → String → ℕ → Bool → M VdiInfo
  import_existing sr meta key name description size sharable = do
    require_zvol (format_zvol_name (sr_dataset meta) key)
    made ←
        within w (volume_context sr "w")
          (import_in_context sr meta key name description size sharable)
    used ← get_zvol_used_bytes w (format_zvol_name (sr_dataset meta) key)
    pure (record {
      uuid = key;
      name = name;
      description = description;
      read_write = true;
      virtual_size = made.0;
      physical_utilisation = used;
      uri = made.1;
      keys = [];
      sharable = false;
    })
