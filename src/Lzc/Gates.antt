-- ===== src/Lzc/Gates.antt =====
-- Which operations of libzfs_core can be called: the loader and the gates of lzc.py.
use zfs_live_xapi.Prelude.{
  String, Bool, true, false, ◌&&◌, Option, none, some, List, [], ◌∷◌, ◌==◌, if◌then◌else◌,
}
use zfs_live_xapi.Prelude.Lists.{contains}
use zfs_live_xapi.Effects.{World}

-- Every name of the first list is in the second.
unfoldable pub contains_all : List String → List String → Bool
contains_all [] symbols = true
contains_all (name ∷ names) symbols = contains symbols name && contains_all names symbols

abbrev pub required_symbols : List String
required_symbols = "libzfs_core_init" ∷ "libzfs_core_fini" ∷ "lzc_destroy" ∷ "lzc_exists" ∷ []

abbrev pub nvpair_required_symbols : List String
nvpair_required_symbols = "fnvlist_alloc" ∷ "fnvlist_free" ∷ "fnvlist_add_boolean" ∷ []

unfoldable pub candidate_has_required_symbols : List String → Bool
candidate_has_required_symbols symbols = contains_all required_symbols symbols

-- The loop of `_try_load_lib`: the first candidate that loads and exports what is required.
unfoldable pub try_load_lib : List (Option (List String)) → Option (List String)
try_load_lib [] = none
try_load_lib (none ∷ candidates) = try_load_lib candidates
try_load_lib (some symbols ∷ candidates) =
    let rest = try_load_lib candidates in
    if candidate_has_required_symbols symbols then some symbols else rest

unfoldable pub try_load_nvpair : List (Option (List String)) → Option (List String)
try_load_nvpair [] = none
try_load_nvpair (none ∷ candidates) = try_load_nvpair candidates
try_load_nvpair (some symbols ∷ candidates) =
    let rest = try_load_nvpair candidates in
    if contains_all nvpair_required_symbols symbols then some symbols else rest

-- An operation's symbol, and whether it builds an nvlist.
abbrev pub Op : Type 0
Op = String × Bool

abbrev pub op_snapshot : Op
op_snapshot = ("lzc_snapshot", true)

abbrev pub op_clone : Op
op_clone = ("lzc_clone", false)

abbrev pub op_create_zvol : Op
op_create_zvol = ("lzc_create", true)

module _ (w : World) where
  -- `_LIB`, after `_ensure_init` and with `_INIT_DONE` set; `none` keeps the CLI path.
  unfoldable pub ensure_init : Option (List String)
  ensure_init = elim (try_load_lib w.zfs_core) [
    | none ↦ none
    | some lib ↦ if w.init_rc == 0 then some lib else none
  ]

  unfoldable pub available : Bool
  available = elim ensure_init [ none ↦ false | some lib ↦ true ]

  unfoldable pub op_available : Op → List String → Bool
  op_available (symbol, requires_nvpair) extra = elim ensure_init [
    | none ↦ false
    | some lib ↦
        contains lib symbol
        && (if requires_nvpair
            then elim (try_load_nvpair w.nvpair) [
              | none ↦ false
              | some nvp ↦ contains_all extra nvp
            ]
            else true)
  ]

  unfoldable pub snapshot_available : Bool
  snapshot_available = op_available op_snapshot []

  unfoldable pub create_zvol_available : Bool
  create_zvol_available = op_available op_create_zvol ("fnvlist_add_uint64" ∷ [])

  unfoldable pub clone_available : Bool
  clone_available = op_available op_clone []

  unfoldable pub nvlist_available : Bool
  nvlist_available = snapshot_available
