-- ===== src/Sr/Config.antt =====
-- The properties in the device configuration of a new SR: `_parse_zfs_config`.
use zfs_live_xapi.Prelude.{
  ℕ, ◌^◌, String, ◌<>◌, Option, none, some, List, [], ◌∷◌, ◌++◌, ltb, str_eq, if◌then◌else◌,
}
use zfs_live_xapi.Prelude.Lists.{contains}
use zfs_live_xapi.Prelude.Text.{join, lower, upper, parse_int}
use zfs_live_xapi.Effects.{World, M, pure, try_except, ◌>>=◌}
use zfs_live_xapi.Zfs.{show, format_volblocksize, pool_get_ashift}
use zfs_live_xapi.Volume.{valid_compression, valid_cache}

-- A dictionary of texts; an entry in front hides one of its key behind it.
abbrev pub Dict : Type 0
Dict = List (String × String)

unfoldable pub lookup : String → Dict → Option String
lookup key [] = none
lookup key ((k, v) ∷ entries) =
    let rest = lookup key entries in if str_eq k key then some v else rest

-- The four parts of the result; a number among the settings is written in decimal.
pub record ZfsConfig : Type 0 where
  pub dataset_props : Dict
  pub vdi_defaults : Dict
  pub sr_settings : Dict
  pub errors : List String

abbrev pub no_config : ZfsConfig
no_config = record { dataset_props = []; vdi_defaults = []; sr_settings = []; errors = [] }

-- `_validate_config_value`, with the error that it appends.
unfoldable pub validate_config_value : String → String → List String → List String
validate_config_value param value valid_set =
    if contains valid_set value
    then []
    else (param <> (" must be one of: " <> (join ", " valid_set <> (", got '" <> (value <> "'")))))
      ∷ []

-- A property of the dataset: kept with its error where it is not valid.
unfoldable pub dataset_prop : String → List String → Option String → ZfsConfig → ZfsConfig
dataset_prop param valid_set none c = c
dataset_prop param valid_set (some value) c = record {
  dataset_props = c.dataset_props ++ ((param, value) ∷ []);
  vdi_defaults = c.vdi_defaults;
  sr_settings = c.sr_settings;
  errors = c.errors ++ validate_config_value param value valid_set;
}

unfoldable pub lowered : Option String → Option String
lowered none = none
lowered (some value) = some (lower value)

abbrev pub valid_copies : List String
valid_copies = "1" ∷ "2" ∷ "3" ∷ []

abbrev pub valid_sync : List String
valid_sync = "always" ∷ "disabled" ∷ "standard" ∷ []

abbrev pub valid_atime : List String
valid_atime = "off" ∷ "on" ∷ []

abbrev pub valid_logbias : List String
valid_logbias = "latency" ∷ "throughput" ∷ []

abbrev pub valid_provisioning : List String
valid_provisioning = "thick" ∷ "thin" ∷ []

unfoldable pub dataset_options : Dict → ZfsConfig
dataset_options configuration =
    let c =
      dataset_prop "compression" valid_compression (lowered (lookup "compression" configuration))
        no_config in
    let c = dataset_prop "copies" valid_copies (lookup "copies" configuration) c in
    let c = dataset_prop "sync" valid_sync (lowered (lookup "sync" configuration)) c in
    let c = dataset_prop "atime" valid_atime (lowered (lookup "atime" configuration)) c in
    let c =
      dataset_prop "primarycache" valid_cache (lowered (lookup "primarycache" configuration)) c in
    let c =
      dataset_prop "secondarycache" valid_cache (lowered (lookup "secondarycache" configuration))
        c in
    dataset_prop "logbias" valid_logbias (lowered (lookup "logbias" configuration)) c

-- `VALID_VOLBLOCKSIZE`, in the order of the sizes.
unfoldable pub valid_volblocksize : String → Option ℕ
valid_volblocksize s =
    if str_eq s "4K"
    then some 4096
    else if str_eq s "8K"
    then some 8192
    else if str_eq s "16K"
    then some 16384
    else if str_eq s "32K"
    then some 32768
    else if str_eq s "64K"
    then some 65536
    else if str_eq s "128K"
    then some 131072
    else none

unfoldable pub add_error : String → ZfsConfig → ZfsConfig
add_error message c = record {
  dataset_props = c.dataset_props;
  vdi_defaults = c.vdi_defaults;
  sr_settings = c.sr_settings;
  errors = c.errors ++ (message ∷ []);
}

unfoldable pub add_default : String → String → ZfsConfig → ZfsConfig
add_default key value c = record {
  dataset_props = c.dataset_props;
  vdi_defaults = c.vdi_defaults ++ ((key, value) ∷ []);
  sr_settings = c.sr_settings;
  errors = c.errors;
}

unfoldable pub add_setting : String → String → ZfsConfig → ZfsConfig
add_setting key value c = record {
  dataset_props = c.dataset_props;
  vdi_defaults = c.vdi_defaults;
  sr_settings = c.sr_settings ++ ((key, value) ∷ []);
  errors = c.errors;
}

-- The parts so far, with the block size that is in effect.
unfoldable pub volblocksize_option : Option String → ZfsConfig → ZfsConfig × ℕ
volblocksize_option none c = (c, 8192)
volblocksize_option (some raw) c = elim (valid_volblocksize (upper raw)) [
  | some bytes ↦ (add_default "volblocksize" (upper raw) c, bytes)
  | none ↦ (
    add_error ("volblocksize must be one of: 4K, 8K, 16K, 32K, 64K, 128K, got '" <> (raw <> "'")) c,
    8192,
  )
]

-- Kept with its error where it is not valid.
unfoldable pub provisioning_option : Option String → ZfsConfig → ZfsConfig
provisioning_option none c = c
provisioning_option (some raw) c = record {
  dataset_props = c.dataset_props;
  vdi_defaults = c.vdi_defaults ++ (("provisioning", lower raw) ∷ []);
  sr_settings = c.sr_settings;
  errors = c.errors ++ validate_config_value "provisioning" (lower raw) valid_provisioning;
}

unfoldable pub cleanup_option : Option String → ZfsConfig → ZfsConfig
cleanup_option none c = c
cleanup_option (some raw) c =
    if contains ("true" ∷ "false" ∷ []) (lower raw)
    then add_setting "auto_cleanup_orphans" (lower raw) c
    else add_error ("auto_cleanup_orphans must be 'true' or 'false', got '" <> (raw <> "'")) c

-- A negative number has a sign, which does not parse here and is refused there.
unfoldable pub grace_option : Option String → ZfsConfig → ZfsConfig
grace_option none c = c
grace_option (some raw) c = elim (parse_int raw) [
  | some grace ↦ add_setting "orphan_grace_period_seconds" (show grace) c
  | none ↦
      add_error
        ("orphan_grace_period_seconds must be a non-negative integer, got '" <> (raw <> "'")) c
]

unfoldable pub parse_options : Dict → ZfsConfig × ℕ
parse_options configuration =
    let (c, block) =
      volblocksize_option (lookup "volblocksize" configuration) (dataset_options configuration) in
    let c = provisioning_option (lookup "provisioning" configuration) c in
    let c = cleanup_option (lookup "auto_cleanup_orphans" configuration) c in
    (grace_option (lookup "orphan_grace_period_seconds" configuration) c, block)

-- The block size against a sector of `2 ^ ashift` bytes.
unfoldable pub check_sector : ℕ → ZfsConfig → ℕ → ZfsConfig
check_sector block c ashift =
    if ltb block (2 ^ ashift)
    then add_error
        ("volblocksize ("
          <> (format_volblocksize block
              <> (") is smaller than pool's minimum sector size ("
                  <> (format_volblocksize (2 ^ ashift) <> ")"))))
        c
    else c

-- A failure to read the sector size skips its check.
unfoldable pub parse_zfs_config : World → Dict → String → M ZfsConfig
parse_zfs_config w configuration pool_name =
    let (c, block) = parse_options configuration in
    try_except (do ashift ← pool_get_ashift w pool_name; pure (check_sector block c ashift))
      (λ e. pure c)
