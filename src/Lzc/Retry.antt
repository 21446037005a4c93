-- ===== src/Lzc/Retry.antt =====
-- The calls of lzc.py and their retry loops.
use zfs_live_xapi.Prelude.{
  ℕ, zero, suc, ◌+◌, ◌-◌, ◌*◌, ◌/◌, ◌%◌, ◌^◌, String, Bool, true, false, not, ◌&&◌, ltb, ◌==◌,
  if◌then◌else◌,
}
use zfs_live_xapi.Effects.{
  World, destroy, snapshot, clone, create, M, pure, raise, call_lzc, sleep, runtime_error, ◌>>=◌,
  ◌>>◌,
}
use zfs_live_xapi.Lzc.Gates.{available, snapshot_available, clone_available, create_zvol_available}

abbrev pub ebusy : ℕ
ebusy = 16

abbrev pub enoent : ℕ
enoent = 2

-- `rc in RETRYABLE_ERRNOS`
abbrev pub is_retryable : ℕ → Bool
is_retryable rc = rc == ebusy

-- `volsize` rounded up to whole blocks.
unfoldable pub rounded_volsize : ℕ → ℕ → ℕ
rounded_volsize size_bytes volblocksize =
    if ltb 0 volblocksize && not (size_bytes % volblocksize == 0)
    then (size_bytes + volblocksize - 1) / volblocksize * volblocksize
    else size_bytes

module _ (w : World) where
  unfoldable pub destroy_one : String → M ℕ
  destroy_one name = if available w then call_lzc w (destroy name) else raise runtime_error

  unfoldable pub snapshot_one : String → M ℕ
  snapshot_one name =
      if snapshot_available w then call_lzc w (snapshot name) else raise runtime_error

  unfoldable pub clone_one : String → String → M ℕ
  clone_one fsname origin =
      if clone_available w then call_lzc w (clone fsname origin) else raise runtime_error

  -- `fnvlist_add_uint64` takes both numbers as 64-bit words.
  unfoldable pub create_one : String → ℕ → ℕ → M ℕ
  create_one name size_bytes volblocksize =
      if create_zvol_available w
      then call_lzc w
          (create name (rounded_volsize size_bytes volblocksize % 2 ^ 64) (volblocksize % 2 ^ 64))
      else raise runtime_error

  -- The loop over `range(max_attempts - 1)`, after an attempt that returned `rc`.
  unfoldable pub retry_rounds : ℕ → M ℕ → ℕ → M ℕ
  retry_rounds zero attempt rc = pure rc
  retry_rounds (suc n) attempt rc = do
    sleep w
    rc ← attempt
    elim (rc == 0) [
      | true ↦ pure 0
      | false ↦ elim (is_retryable rc) [ true ↦ retry_rounds n attempt rc | false ↦ pure rc ]
    ]

  unfoldable pub with_retry : ℕ → M ℕ → M ℕ
  with_retry max_attempts attempt = do
    rc ← attempt
    if rc == 0
        then pure 0
        else if not (is_retryable rc)
        then pure rc
        else retry_rounds (max_attempts - 1) attempt rc

  unfoldable pub destroy_with_retry : String → M ℕ
  destroy_with_retry name = with_retry 10 (destroy_one name)

  unfoldable pub clone_with_retry : String → String → M ℕ
  clone_with_retry fsname origin = with_retry 10 (clone_one fsname origin)

  unfoldable pub create_zvol_with_retry : String → ℕ → ℕ → M ℕ
  create_zvol_with_retry name size_bytes volblocksize =
      with_retry 10 (create_one name size_bytes volblocksize)

  unfoldable pub snapshot_with_retry : String → M ℕ
  snapshot_with_retry name = with_retry 10 (snapshot_one name)
