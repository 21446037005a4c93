-- ===== src/Zfs/Reported.antt =====
-- The ZFS properties that `stat` reports: `vol_get_properties_batch` and `vol_get_zfs_properties_dict`.
-- A dictionary is an association list, the entry written last in front.
use text.Mathlib.Text.{starts_with}
use zfs_live_xapi.Prelude.{
  ℕ, ◌/◌, String, ◌<>◌, Option, none, some, List, [], ◌∷◌, ◌++◌, ltb, leb, str_eq, if◌then◌else◌,
}
use zfs_live_xapi.Prelude.Text.{split, strip, splitlines, parse_int, join}
use zfs_live_xapi.Effects.{World, M, pure, try_except, ◌>>=◌}
use zfs_live_xapi.Zfs.Command.{run_zfs, int_or_raise}
use zfs_live_xapi.Zfs.Zvols.{tab, show}
use zfs_live_xapi.Zfs.Reservation.{reads_as_none}

abbrev pub Props : Type 0
Props = List (String × String × String)

unfoldable pub find_prop : String → Props → Option (String × String)
find_prop k [] = none
find_prop k ((prop, value, source) ∷ props) =
    let rest = find_prop k props in if str_eq prop k then some (value, source) else rest

-- "inherited from pool/x" reads "inherited".
unfoldable pub normal_source : String → String
normal_source source = if starts_with source "inherited" then "inherited" else source

-- One line; a line of fewer than three fields is passed over.
unfoldable pub add_prop : List String → Props → Props
add_prop (prop ∷ value ∷ source ∷ more) props = (prop, value, normal_source source) ∷ props
add_prop _ props = props

unfoldable pub parse_props : List String → Props → Props
parse_props [] props = props
parse_props (line ∷ lines) props = parse_props lines (add_prop (split tab line) props)

-- The mutable properties, sorted.
abbrev pub mutable_zfs_properties : List String
mutable_zfs_properties =
    "compression" ∷ "copies" ∷ "logbias" ∷ "primarycache" ∷ "secondarycache" ∷ "sync" ∷ []

-- `8192` is displayed as `8K`.
unfoldable pub format_volblocksize : ℕ → String
format_volblocksize val = if leb 1024 val then show (val / 1024) <> "K" else show val

unfoldable pub provisioning_of : String → String
provisioning_of refres =
    if reads_as_none refres
    then "thin"
    else elim (parse_int refres) [ none ↦ "thin" | some n ↦ if ltb 0 n then "thick" else "thin" ]

unfoldable pub provisioning_key : Option (String × String) → List (String × String)
provisioning_key none = []
provisioning_key (some (value, source)) = ("provisioning", provisioning_of value) ∷ []

unfoldable pub mutable_keys : List String → Props → List (String × String)
mutable_keys [] props = []
mutable_keys (prop ∷ rest) props = elim (find_prop prop props) [
  | none ↦ mutable_keys rest props
  | some (value, source) ↦ (prop, value) ∷ (prop <> "_source", source) ∷ mutable_keys rest props
]

module _ (w : World) where
  unfoldable pub vol_get_properties_batch : String → List String → M Props
  vol_get_properties_batch vol_name properties = do
    out ← run_zfs w (
        "zfs"
        ∷ "get"
        ∷ "-Hp"
        ∷ "-o"
        ∷ "property,value,source"
        ∷ join "," properties
        ∷ vol_name
        ∷ [])
    pure (parse_props (splitlines (strip out)) [])

  unfoldable pub volblocksize_key : Option (String × String) → M (List (String × String))
  volblocksize_key none = pure []
  volblocksize_key (some (value, source)) = do
    bytes ← int_or_raise w (parse_int value)
    pure (("volblocksize", format_volblocksize bytes) ∷ [])

  -- The exception of a volblocksize that is no number leaves the keys that were written before it.
  unfoldable pub keys_of : Props → M (List (String × String))
  keys_of props =
      try_except
        (do
          block ← volblocksize_key (find_prop "volblocksize" props)
          pure (
              provisioning_key (find_prop "refreservation" props)
              ++ block
              ++ mutable_keys mutable_zfs_properties props))
        (λ e. pure (provisioning_key (find_prop "refreservation" props)))

  unfoldable pub vol_get_zfs_properties_dict : String → M (List (String × String))
  vol_get_zfs_properties_dict vol_name =
      try_except
        (do
          props ←
              vol_get_properties_batch vol_name
                ("refreservation" ∷ "volblocksize" ∷ mutable_zfs_properties)
          keys_of props)
        (λ e. pure [])
