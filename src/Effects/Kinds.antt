-- ===== src/Effects/Kinds.antt =====
-- Kinds of events: those that only look, and those that stay outside the metabase and its scopes.
use zfs_live_xapi.Prelude.{◌≡◌, String, Bool, true, false, ◌||◌, ◌&&◌, List, [], ◌∷◌, str_eq, arith}
use zfs_live_xapi.Effects.Monad.{
  Event, spawned, piped, ioctl, database, entered, left, DbCall, get_vdi_by_id, get_vdi_custom_keys,
  get_vdi_for_volume, get_all_vdis, get_all_vdi_custom_keys, looked, filed,
}

-- `zfs list …`, `zfs get …`, `zfs version`, `zpool import` with no pool named, and fuser without an option that kills.
abbrev pub is_query : List String → Bool
is_query (tool ∷ verb ∷ []) = str_eq verb "version" || str_eq verb "import"
is_query (tool ∷ verb ∷ arg ∷ args) =
    str_eq verb "list" || (str_eq verb "get" || (str_eq tool "fuser" && str_eq verb "-s"))
is_query _ = false

abbrev pub is_lookup : DbCall → Bool
is_lookup (get_vdi_by_id key) = true
is_lookup (get_vdi_custom_keys key) = true
is_lookup (get_vdi_for_volume id) = true
is_lookup get_all_vdis = true
is_lookup get_all_vdi_custom_keys = true
is_lookup _ = false

-- Neither ZFS nor the metabase is changed.
abbrev pub changes_nothing : Event → Bool
changes_nothing (spawned cmd) = is_query cmd
changes_nothing (database c) = is_lookup c
changes_nothing (piped send recv) = false
changes_nothing (ioctl c) = false
changes_nothing (filed c) = false
changes_nothing _ = true

abbrev pub ChangesNothing : Event → Type 0
ChangesNothing e = changes_nothing e ≡ true

-- A read of ZFS.
abbrev pub is_read : Event → Bool
is_read (spawned cmd) = is_query cmd
is_read (looked path) = true
is_read _ = false

abbrev pub IsRead : Event → Type 0
IsRead e = is_read e ≡ true

-- No call of the metabase, no scope entered or left.
abbrev pub is_outside : Event → Bool
is_outside (database c) = false
is_outside (entered s) = false
is_outside (left s) = false
is_outside _ = true

abbrev pub IsOutside : Event → Type 0
IsOutside e = is_outside e ≡ true

pub read-IsOutside : (e : Event) → IsRead e → IsOutside e
read-IsOutside e h = ground arith

pub read-ChangesNothing : (e : Event) → IsRead e → ChangesNothing e
read-ChangesNothing e h = ground arith
