-- ===== src/Zfs/Kinds.antt =====
-- Which kinds of events the helpers of zfs_operations.py add.
use zfs_live_xapi.Prelude.{ℕ, zero, suc, String, Bool, true, Option, none, some, List, [], ◌∷◌}
use zfs_live_xapi.Effects.{World, Event, Completed, spawned, slept, ioctl, destroy}
use zfs_live_xapi.Effects.Triple.{
  does, Does, Anything, pure-Does, raise-Does, then-Does, if_any-Does, spawn-Does, sleep-Does,
}
use zfs_live_xapi.Zfs.Command.{
  run_zfs_command, stdout_of, run_zfs, run_zfs_command_with_retry, lines_of, int_or_raise, int_of,
}
use zfs_live_xapi.Zfs.Zvols.{run_quietly, check_lzc, destroy_zvol}
use zfs_live_xapi.Lzc.Kinds.{destroy_with_retry-Does}

module _ (P : Event → Type 0) (w : World) where
  pub stdout_of-Does : (r : Option Completed) → Does P Anything (stdout_of w r)
  unfolding stdout_of
  stdout_of-Does none = raise-Does P Anything _
  stdout_of-Does (some proc) = pure-Does P Anything _ tt

  pub int_or_raise-Does : (o : Option ℕ) → Does P Anything (int_or_raise w o)
  unfolding int_or_raise
  int_or_raise-Does none = raise-Does P Anything _
  int_or_raise-Does (some n) = pure-Does P Anything _ tt

  -- One attempt adds the command alone.
  pub run_zfs_command_once :
      (error : Bool) (exp_rc : ℕ) (cmd : List String)
      → P (spawned cmd)
      → Does P Anything (run_zfs_command w error exp_rc 1 cmd)
  unfolding run_zfs_command
  run_zfs_command_once error exp_rc cmd p =
      then-Does P Anything _ _ (spawn-Does P w cmd p)
        λ proc. if_any-Does P Anything _ _ _ (raise-Does P Anything _) (pure-Does P Anything _ tt)

  pub run_zfs-Does : (cmd : List String) → P (spawned cmd) → Does P Anything (run_zfs w cmd)
  unfolding run_zfs
  run_zfs-Does cmd p = then-Does P Anything _ _ (run_zfs_command_once true 0 cmd p) stdout_of-Does

  pub lines_of-Does : (cmd : List String) → P (spawned cmd) → Does P Anything (lines_of w cmd)
  unfolding lines_of
  lines_of-Does cmd p = search (does, run_zfs-Does cmd p, tt)

  pub int_of-Does : (cmd : List String) → P (spawned cmd) → Does P Anything (int_of w cmd)
  unfolding int_of
  int_of-Does cmd p = search (does, run_zfs-Does cmd p, int_or_raise-Does)

  run_zfs_command-Does :
      (error : Bool) (exp_rc ntries : ℕ) (cmd : List String)
      → P (spawned cmd)
      → P slept
      → Does P Anything (run_zfs_command w error exp_rc ntries cmd)
  unfolding run_zfs_command
  run_zfs_command-Does error exp_rc zero cmd p q = pure-Does P Anything _ tt
  run_zfs_command-Does error exp_rc (suc n) cmd p q =
      let again = run_zfs_command-Does error exp_rc n cmd p q in
      then-Does P Anything _ _ (spawn-Does P w cmd p) λ proc.
        if_any-Does P Anything _ _ _
          (if_any-Does P Anything _ _ _ (then-Does P Anything _ _ (sleep-Does P w q) (λ _. again))
            (raise-Does P Anything _))
          (pure-Does P Anything _ tt)

  pub with_retry-Does :
      (cmd : List String)
      → P (spawned cmd)
      → P slept
      → Does P Anything (run_zfs_command_with_retry w cmd)
  unfolding run_zfs_command_with_retry
  with_retry-Does cmd p q =
      then-Does P Anything _ _ (run_zfs_command-Does true 0 10 cmd p q) stdout_of-Does

  pub run_quietly-Does :
      (cmd : List String) → P (spawned cmd) → P slept → Does P Anything (run_quietly w cmd)
  unfolding run_quietly
  run_quietly-Does cmd p q =
      then-Does P Anything _ _ (with_retry-Does cmd p q) (λ out. pure-Does P Anything _ tt)

  pub destroy_zvol-Does :
      (name : String)
      → P (ioctl (destroy name))
      → P (spawned ("zfs" ∷ "destroy" ∷ name ∷ []))
      → P slept
      → Does P Anything (destroy_zvol w name)
  unfolding destroy_zvol check_lzc
  destroy_zvol-Does name p q s =
      search (does, destroy_with_retry-Does, run_quietly-Does, p, q, s, tt)
