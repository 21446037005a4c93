-- ===== src/Volume/Properties.antt =====
-- `set` and `unset` of a VDI's property.
use zfs_live_xapi.Prelude.{
  String, ◌||◌, Option, none, some, List, [], ◌∷◌, ltb, str_eq, if◌then◌else◌,
}
use zfs_live_xapi.Prelude.Text.{parse_int}
use zfs_live_xapi.Prelude.Lists.{contains}
use text.Mathlib.Text.{starts_with}
use Prim.Native.String.{len, slice}
use zfs_live_xapi.Effects.{
  World, storage_error, set_vdi_custom_key, delete_vdi_custom_key, volume_context, M, pure, raise,
  within, ◌>>=◌, ◌>>◌,
}
use zfs_live_xapi.Zfs.{
  format_zvol_name, vol_get_property, vol_set_property, vol_inherit_property, format_volblocksize,
  int_or_raise, vol_get_refreservation, vol_sync_thick_refreservation,
}
use zfs_live_xapi.Volume.Metabase.{SrMeta, sr_dataset, db_do, locked}

abbrev pub sm_config_prefix : String
sm_config_prefix = "_sm_config_"

unfoldable pub strip_prefix : String → String
strip_prefix k =
    if starts_with k sm_config_prefix then slice k (len sm_config_prefix) (len k) else k

-- The sets of values are written in their order.
abbrev pub valid_compression : List String
valid_compression =
    "gzip" ∷ "gzip-1" ∷ "gzip-2" ∷ "gzip-3" ∷ "gzip-4" ∷ "gzip-5" ∷ "gzip-6" ∷ "gzip-7" ∷ "gzip-8"
    ∷ "gzip-9" ∷ "lz4" ∷ "lzjb" ∷ "off" ∷ "on" ∷ "zle" ∷ "zstd" ∷ "zstd-fast" ∷ []

abbrev pub valid_cache : List String
valid_cache = "all" ∷ "metadata" ∷ "none" ∷ []

-- `VALID_MUTABLE_VALUES`: the values of each mutable property.
unfoldable pub valid_mutable_values : String → Option (List String)
valid_mutable_values k =
    if str_eq k "compression"
    then some valid_compression
    else if str_eq k "copies"
    then some ("1" ∷ "2" ∷ "3" ∷ [])
    else if str_eq k "sync"
    then some ("always" ∷ "disabled" ∷ "standard" ∷ [])
    else if str_eq k "primarycache"
    then some valid_cache
    else if str_eq k "secondarycache"
    then some valid_cache
    else if str_eq k "logbias"
    then some ("latency" ∷ "throughput" ∷ [])
    else none

-- What `set` and `unset` do with a key.
pub data KeyKind : Type 0 where
  mutable : List String → KeyKind
  immutable custom : KeyKind

unfoldable pub key_kind : String → KeyKind
key_kind k = elim (valid_mutable_values k) [
  | some values ↦ mutable values
  | none ↦ if str_eq k "volblocksize" || str_eq k "provisioning" then immutable else custom
]

-- `lower` is Python's `str.lower`.
module _ (w : World) (lower : String → String) where
  unfoldable pub check_value : String → List String → String → M (Unit {0})
  check_value k values v =
      if contains values (if str_eq k "copies" then v else lower v)
      then pure tt
      else raise (storage_error "SR_BACKEND_FAILURE_109" ("Invalid property value" ∷ k ∷ v ∷ []))

  -- The error names the value that the property keeps.
  unfoldable pub current_value : String → String → M String
  current_value vol_name k =
      if str_eq k "volblocksize"
      then (do
        text ← vol_get_property w vol_name "volblocksize"
        bytes ← int_or_raise w (parse_int text)
        pure (format_volblocksize bytes))
      else (do
        refres ← vol_get_refreservation w vol_name
        pure (if ltb 0 refres then "thick" else "thin"))

  unfoldable pub refuse_immutable : String → String → M (Unit {0})
  refuse_immutable vol_name k = do
    current ← current_value vol_name k
    raise (storage_error "SR_BACKEND_FAILURE_109" ("Immutable property" ∷ k ∷ current ∷ []))

  unfoldable pub sync_if_copies : String → String → M (Unit {0})
  sync_if_copies vol_name k =
      if str_eq k "copies" then vol_sync_thick_refreservation w vol_name else pure tt

  unfoldable pub apply_set : String → String → String → KeyKind → M (Unit {0})
  apply_set vol_name k v (mutable values) = do
    check_value k values v
    vol_set_property w vol_name k v
    sync_if_copies vol_name k
  apply_set vol_name k v immutable = refuse_immutable vol_name k
  apply_set vol_name k v custom = pure tt

  unfoldable pub set_key : String → SrMeta → String → String → String → M (Unit {0})
  set_key sr meta key k v = do
    apply_set (format_zvol_name (sr_dataset meta) key) k v (key_kind k)
    within w (volume_context sr "w") (locked w sr (db_do w (set_vdi_custom_key key k v)))

  unfoldable pub set : String → SrMeta → String → String → String → M (Unit {0})
  set sr meta key k v = set_key sr meta key (strip_prefix k) v

  unfoldable pub apply_unset : String → String → KeyKind → M (Unit {0})
  apply_unset vol_name k (mutable values) = do
    vol_inherit_property w vol_name k
    sync_if_copies vol_name k
  apply_unset vol_name k immutable = refuse_immutable vol_name k
  apply_unset vol_name k custom = pure tt

  unfoldable pub unset_key : String → SrMeta → String → String → M (Unit {0})
  unset_key sr meta key k = do
    apply_unset (format_zvol_name (sr_dataset meta) key) k (key_kind k)
    within w (volume_context sr "w") (locked w sr (db_do w (delete_vdi_custom_key key k)))

  unfoldable pub unset : String → SrMeta → String → String → M (Unit {0})
  unset sr meta key k = unset_key sr meta key (strip_prefix k)
