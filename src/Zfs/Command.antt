-- ===== src/Zfs/Command.antt =====
-- Subprocesses with a retry on EBUSY: `is_busy_error` and `run_zfs_command`.
use zfs_live_xapi.Prelude.{
  ℕ, zero, suc, String, Bool, true, false, not, ◌&&◌, ◌||◌, Option, none, some, List, [], ◌∷◌, ltb,
  if◌then◌else◌,
}
use zfs_live_xapi.Prelude.Text.{contains_text, strip, splitlines, parse_int}
use zfs_live_xapi.Effects.{
  World, Completed, ReturnCode, is_code, M, pure, raise, spawn, sleep, command_failed, type_error,
  value_error, ◌>>=◌, ◌>>◌,
}

abbrev pub busy_patterns : List String
busy_patterns = "Device or resource busy" ∷ "is busy" ∷ "resource busy" ∷ []

abbrev pub any_in : List String → String → Bool
any_in [] s = false
any_in (pattern ∷ patterns) s = contains_text pattern s || any_in patterns s

unfoldable pub is_busy_error : String → ReturnCode → Bool
is_busy_error stderr returncode = not (is_code 2 returncode) && any_in busy_patterns stderr

module _ (w : World) where
  -- The loop `while ntries`; `none` is its `return None`. The caller projects the standard output
  -- where the source passes `simple`.
  unfoldable pub run_zfs_command : Bool → ℕ → ℕ → List String → M (Option Completed)
  run_zfs_command error exp_rc zero cmd = pure none
  run_zfs_command error exp_rc (suc n) cmd = do
    proc ← spawn w cmd
    let again = sleep w >> run_zfs_command error exp_rc n cmd
    if error && not (is_code exp_rc proc.returncode)
        then if ltb 0 n && is_busy_error proc.stderr proc.returncode
          then again
          else raise (command_failed cmd proc.returncode proc.stderr)
        else pure (some proc)

  -- The callers' `run_zfs_command(dbg, cmd)` and `run_zfs_command_with_retry(dbg, cmd)`, with
  -- the standard output.
  unfoldable pub stdout_of : Option Completed → M String
  stdout_of none = raise type_error
  stdout_of (some proc) = pure proc.stdout

  unfoldable pub run_zfs : List String → M String
  run_zfs cmd = do r ← run_zfs_command true 0 1 cmd; stdout_of r

  unfoldable pub run_zfs_command_with_retry : List String → M String
  run_zfs_command_with_retry cmd = do r ← run_zfs_command true 0 10 cmd; stdout_of r

  -- `run_zfs_command(dbg, cmd).strip().splitlines()`
  unfoldable pub lines_of : List String → M (List String)
  lines_of cmd = do out ← run_zfs cmd; pure (splitlines (strip out))

  unfoldable pub int_or_raise : Option ℕ → M ℕ
  int_or_raise none = raise value_error
  int_or_raise (some n) = pure n

  -- `int(run_zfs_command(dbg, cmd))`
  unfoldable pub int_of : List String → M ℕ
  int_of cmd = do out ← run_zfs cmd; int_or_raise (parse_int out)
