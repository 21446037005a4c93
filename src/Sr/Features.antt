-- ===== src/Sr/Features.antt =====
-- The ZFS features of a pool: src/volume/zfs_features.py and src/volume/sr_capability_summary.py. The
-- cache in memory is empty at the start of each request, which has a process of its own.
use text.Mathlib.Text.{starts_with}
use Prim.Native.Char.{code}
use Prim.Native.String.{slice, len, compare}
use Prim.Native.Nat.{Ordering}
use zfs_live_xapi.Prelude.{
  ℕ, String, ◌<>◌, Bool, true, false, not, ◌&&◌, ◌||◌, Option, none, some, List, [], ◌∷◌, ◌==◌, ltb,
  leb, str_eq, if◌then◌else◌,
}
use zfs_live_xapi.Prelude.Text.{split, splitlines, first_or, join, parse_int}
use zfs_live_xapi.Effects.{
  World, ZfsFeatures, Error, os_error, runtime_error, set_cached, clear_cached, is_code, ok, M,
  pure, raise, try_except, spawn, look, write_file, ◌>>=◌,
}
use zfs_live_xapi.Zfs.{show, tab, sr_mount_path}
use zfs_live_xapi.Sr.Config.{Dict, lookup}

abbrev pub Version : Type 0
Version = ℕ × ℕ × ℕ

-- The digits at the front, and what is behind them.
unfoldable pub take_digits : String → String × String
take_digits String.[] = (String.[], String.[])
take_digits (String.◌∷◌ c s) =
    let rest = take_digits s in
    if leb 48 (code c) && leb (code c) 57
    then (String.◌∷◌ c rest.0, rest.1)
    else (String.[], String.◌∷◌ c s)

-- A dot, and what is behind it.
unfoldable pub after_dot : String → Option String
after_dot String.[] = none
after_dot (String.◌∷◌ c s) = if code c == 46 then some s else none

-- An optional `_` or `-` is passed over.
unfoldable pub skip_separator : String → String
skip_separator String.[] = String.[]
skip_separator (String.◌∷◌ c s) = if code c == 95 || code c == 45 then s else String.◌∷◌ c s

-- `(?:\.(\d+))?`, where a patch level that is missing is 0.
unfoldable pub patch_of : Option String → ℕ
patch_of none = 0
patch_of (some s) = elim (parse_int (take_digits s).0) [ none ↦ 0 | some patch ↦ patch ]

unfoldable pub minor_of : ℕ → Option String → Option Version
minor_of major none = none
minor_of major (some s) = elim (parse_int (take_digits s).0) [
  | none ↦ none
  | some minor ↦ some (major, minor, patch_of (after_dot (take_digits s).1))
]

-- `zfs[_-]?(\d+)\.(\d+)(?:\.(\d+))?` at the front of a text.
unfoldable pub match_version : String → Option Version
match_version s =
    let rest = skip_separator (slice s 3 (len s)) in
    if starts_with s "zfs"
    then elim (parse_int (take_digits rest).0) [
      | none ↦ none
      | some major ↦ minor_of major (after_dot (take_digits rest).1)
    ]
    else none

-- The first match.
unfoldable pub search_version : String → Option Version
search_version String.[] = none
search_version (String.◌∷◌ c s) =
    let later = search_version s in
    elim (match_version (String.◌∷◌ c s)) [ none ↦ later | some v ↦ some v ]

-- A row that is no flag of a feature is passed over; of two rows of one flag the last counts.
unfoldable pub add_flag : List String → Dict → Dict
add_flag (prop ∷ value ∷ more) flags =
    if starts_with prop "feature@" then (prop, value) ∷ flags else flags
add_flag _ flags = flags

unfoldable pub parse_flags : List String → Dict → Dict
parse_flags [] flags = flags
parse_flags (line ∷ lines) flags = parse_flags lines (add_flag (split tab line) flags)

abbrev pub is_on_state : Option String → Bool
is_on_state none = false
is_on_state (some state) = str_eq state "enabled" || str_eq state "active"

-- `version_tuple is not None and version_tuple >= (0, 6, 5)`
unfoldable pub is_modern : Option Version → Bool
is_modern none = false
is_modern (some (major, minor, patch)) = ltb 0 major || (ltb 6 minor || (minor == 6 && leb 5 patch))

-- An explicit state wins over the version.
unfoldable pub lz4_on : Option String → Option Version → Bool
lz4_on none version = is_modern version
lz4_on (some state) version = is_on_state (some state)

unfoldable pub derive_capabilities : Dict → Option Version → List (String × Bool)
derive_capabilities flags version =
    ("lz4", lz4_on (lookup "feature@lz4_compress" flags) version)
    ∷ ("zstd", is_on_state (lookup "feature@zstd_compress" flags))
    ∷ ("encryption", is_on_state (lookup "feature@encryption" flags))
    ∷ ("block_cloning", is_on_state (lookup "feature@block_cloning" flags))
    ∷ ("large_blocks", is_on_state (lookup "feature@large_blocks" flags))
    ∷ []

abbrev pub known_feature_flags : List String
known_feature_flags =
    "feature@lz4_compress" ∷ "feature@zstd_compress" ∷ "feature@encryption"
    ∷ "feature@block_cloning" ∷ "feature@large_blocks" ∷ "feature@large_dnode"
    ∷ "feature@async_destroy" ∷ "feature@embedded_data" ∷ "feature@extensible_dataset"
    ∷ "feature@hole_birth" ∷ "feature@spacemap_v2" ∷ "feature@livelist" ∷ "feature@bookmarks"
    ∷ "feature@bookmark_v2" ∷ "feature@bookmark_written" ∷ []

unfoldable pub only_known : List String → Dict → Dict
only_known [] flags = []
only_known (k ∷ known) flags =
    let rest = only_known known flags in
    elim (lookup k flags) [ none ↦ rest | some state ↦ (k, state) ∷ rest ]

abbrev pub empty_features : ZfsFeatures
empty_features = record {
  version = none;
  feature_flags = [];
  capabilities =
      ("lz4", false)
      ∷ ("zstd", false)
      ∷ ("encryption", false)
      ∷ ("block_cloning", false)
      ∷ ("large_blocks", false)
      ∷ [];
}

unfoldable pub show_version : Version → String
show_version (major, minor, patch) = show major <> ("." <> (show minor <> ("." <> show patch)))

-- `sorted` on names, and those that are present, or not.
unfoldable pub insert_name : String → List String → List String
insert_name s [] = s ∷ []
insert_name s (t ∷ ts) =
    let rest = insert_name s ts in elim (compare s t) [ Ordering.gt ↦ t ∷ rest | _ ↦ s ∷ t ∷ ts ]

unfoldable pub names_with : Bool → List (String × Bool) → List String
names_with present [] = []
names_with present ((name, p) ∷ caps) =
    let rest = names_with present caps in
    if (if present then p else not p) then insert_name name rest else rest

unfoldable pub summary_of : ZfsFeatures → String
summary_of f = elim f.version [
  | none ↦ ""
  | some v ↦
      "zfs="
      <> (show_version v
          <> ("; on=["
              <> (join ", " (names_with true f.capabilities)
                  <> ("]; off=[" <> (join ", " (names_with false f.capabilities) <> "]")))))
]

unfoldable pub features_path : String → String
features_path sr_uuid = sr_mount_path sr_uuid <> "/zfs_features.json"

module _ (w : World) where
  -- `_run`
  unfoldable pub run_query : List String → M String
  run_query cmd = do
    proc ← spawn w cmd
    if is_code 0 proc.returncode then pure proc.stdout else raise runtime_error

  unfoldable pub probe_zfs_version : M (Option Version)
  probe_zfs_version =
      try_except
        (do
          out ← run_query ("zfs" ∷ "version" ∷ [])
          pure (search_version (first_or "" (splitlines out))))
        (λ e. pure none)

  unfoldable pub probe_pool_features : String → M Dict
  probe_pool_features pool_name =
      try_except
        (do
          out ←
              run_query
                ("zpool" ∷ "get" ∷ "-H" ∷ "-p" ∷ "-o" ∷ "property,value" ∷ "all" ∷ pool_name ∷ [])
          pure (parse_flags (splitlines out) []))
        (λ e. pure [])

  unfoldable pub probe_features : String → M ZfsFeatures
  probe_features pool_name = do
    version ← probe_zfs_version
    flags ← probe_pool_features pool_name
    pure (record {
      version = version;
      feature_flags = only_known known_feature_flags flags;
      capabilities = derive_capabilities flags version;
    })

  -- `except OSError`: a failure to write or to remove the file is logged only.
  unfoldable pub ignore_os_error : Error → M (Unit {0})
  ignore_os_error os_error = pure tt
  ignore_os_error e = raise e

  unfoldable pub cache_features : String → ZfsFeatures → M (Unit {0})
  cache_features sr_uuid f = try_except (write_file w (set_cached sr_uuid f)) ignore_os_error

  unfoldable pub drop_features : String → M (Unit {0})
  drop_features sr_uuid = try_except (write_file w (clear_cached sr_uuid)) ignore_os_error

  unfoldable pub or_empty : Option ZfsFeatures → ZfsFeatures
  or_empty none = empty_features
  or_empty (some f) = f

  -- What was cached at the attach; no features where the file is missing or cannot be read.
  unfoldable pub get_cached : String → M ZfsFeatures
  get_cached sr_uuid = look w (features_path sr_uuid) (λ h. ok (or_empty (w.sidecar h sr_uuid)))

  unfoldable pub format_capability_summary : String → M String
  format_capability_summary sr_uuid =
      if str_eq sr_uuid ""
      then pure ""
      else try_except (do f ← get_cached sr_uuid; pure (summary_of f)) (λ e. pure "")
