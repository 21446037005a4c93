-- ===== src/Zfs/Datasets.antt =====
-- Datasets: names, existence, creation with parents, mounting, and destruction.
use zfs_live_xapi.Prelude.{
  ℕ, zero, suc, ◌+◌, ◌-◌, String, ◌<>◌, Bool, true, false, ◌||◌, List, [], ◌∷◌, ◌==◌, str_eq,
  if◌then◌else◌,
}
use mathlib.Core.List.{reverse}
use zfs_live_xapi.Prelude.Lists.{length, take}
use zfs_live_xapi.Prelude.Text.{split, join, splitlines, strip}
use zfs_live_xapi.Effects.{
  World, is_internal_error, destroy, lzc_failed, unmount_failed, M, pure, raise, try_except, ◌>>=◌,
  ◌>>◌,
}
use zfs_live_xapi.Lzc.{available, destroy_with_retry, enoent}
use zfs_live_xapi.Zfs.Command.{run_zfs, run_zfs_command_with_retry}

abbrev pub slash : ℕ
slash = 47

-- `dataset_path`, where a missing name and an empty one are alike.
unfoldable pub dataset_path : String → String → String
dataset_path pool_name dataset_name =
    if str_eq dataset_name "" then pool_name else pool_name <> ("/" <> dataset_name)

-- `"/".join(parts[:i])` for `i` from `i` on, `n` of them.
unfoldable pub prefixes_from : ℕ → ℕ → List String → List String
prefixes_from zero i parts = []
prefixes_from (suc n) i parts = join "/" (take i parts) ∷ prefixes_from n (i + 1) parts

unfoldable pub dataset_get_parents : String → List String
dataset_get_parents name = let parts = split slash name in prefixes_from (length parts - 2) 2 parts

module _ (w : World) where
  -- `except xapi.InternalError: return False`
  unfoldable pub false_on_internal_error : M Bool → M Bool
  false_on_internal_error m = try_except m λ e. if is_internal_error e then pure false else raise e

  unfoldable pub dataset_exists : String → M Bool
  dataset_exists name =
      false_on_internal_error
        (run_zfs w ("zfs" ∷ "list" ∷ "-H" ∷ "-o" ∷ "name" ∷ name ∷ []) >> pure true)

  -- One round of the loop over the parents.
  unfoldable pub ensure_parent : String → M (Unit {0})
  ensure_parent parent = do
    found ← dataset_exists parent
    if found
        then pure tt
        else (run_zfs w ("zfs" ∷ "create" ∷ "-o" ∷ "mountpoint=none" ∷ parent ∷ []) >> pure tt)

  unfoldable pub create_parents : List String → M (Unit {0})
  create_parents [] = pure tt
  create_parents (parent ∷ parents) = ensure_parent parent >> create_parents parents

  unfoldable pub dataset_create : String → Bool → M (Unit {0})
  dataset_create name with_parents = do
    let parents = if with_parents then dataset_get_parents name else []
    create_parents parents
    run_zfs w ("zfs" ∷ "create" ∷ name ∷ [])
    pure tt

  unfoldable pub dataset_unmount : String → M String
  dataset_unmount name = run_zfs w ("zfs" ∷ "unmount" ∷ name ∷ [])

  unfoldable pub dataset_is_mounted : String → M Bool
  dataset_is_mounted name = false_on_internal_error do
    out ← run_zfs w ("zfs" ∷ "get" ∷ "-H" ∷ "-o" ∷ "value" ∷ "mounted" ∷ name ∷ [])
    pure (str_eq (strip out) "yes")

  -- The nodes that `zfs list` names with their types; a line with one field is skipped.
  unfoldable pub parse_nodes : List String → List (String × String)
  parse_nodes [] = []
  parse_nodes (line ∷ lines) =
      let rest = parse_nodes lines in
      elim (split 9 (strip line)) [
        | [] ↦ rest
        | name ∷ fields ↦ elim fields [ [] ↦ rest | type ∷ more ↦ (name, type) ∷ rest ]
      ]

  -- The unmount that libzfs does within its destroy; a failure stops the walk as an `InternalError`.
  unfoldable pub unmount_node : String → String → String → M (Unit {0})
  unmount_node root name type =
      if str_eq type "filesystem"
      then try_except
          (do
            mounted ← dataset_is_mounted name
            if mounted then dataset_unmount name >> pure tt else pure tt)
          (λ e. raise (unmount_failed root name))
      else pure tt

  unfoldable pub destroy_nodes : String → List (String × String) → M (Unit {0})
  destroy_nodes root [] = pure tt
  destroy_nodes root ((name, type) ∷ nodes) = do
    unmount_node root name type
    rc ← destroy_with_retry w name
    elim (rc == 0 || rc == enoent) [
      | true ↦ destroy_nodes root nodes
      | false ↦ raise (lzc_failed (destroy name) rc)
    ]

  unfoldable pub lzc_recursive_destroy : String → M (Unit {0})
  lzc_recursive_destroy root = do
    out ← run_zfs w ("zfs" ∷ "list" ∷ "-r" ∷ "-H" ∷ "-t" ∷ "all" ∷ "-o" ∷ "name,type" ∷ root ∷ [])
    destroy_nodes root (reverse (parse_nodes (splitlines out)))

  -- An errno of 0, or an `InternalError`.
  unfoldable pub check_errno : String → ℕ → M (Unit {0})
  check_errno name rc = if rc == 0 then pure tt else raise (lzc_failed (destroy name) rc)

  unfoldable pub dataset_destroy : String → Bool → M (Unit {0})
  dataset_destroy name recursive =
      if available w
      then if recursive
        then lzc_recursive_destroy name
        else (destroy_with_retry w name >>= check_errno name)
      else do
        run_zfs_command_with_retry w
            ("zfs" ∷ "destroy" ∷ (if recursive then "-r" ∷ name ∷ [] else name ∷ []))
        pure tt
