-- ===== src/Zfs/RetryLaws.antt =====
-- How often `run_zfs_command` runs its command, whatever the command answers.
use zfs_live_xapi.Prelude.{
  ℕ, zero, suc, ◌≤◌, String, Bool, true, false, not, ◌&&◌, Option, none, some, List, ◌∷◌,
  if◌then◌else◌, ◌≡◌, refl, arith, ◌⊎◌, inl, inr, Bool-cases, ap, Option-cases,
}
use zfs_live_xapi.Effects.{
  World, Completed, is_code, spawn, sleep, command_failed, os_error, Result, ok, err, History,
  spawned, slept,
}
use zfs_live_xapi.Zfs.Command.{is_busy_error, run_zfs_command}

module _ (w : World) (exp_rc : ℕ) (cmd : List String) where
  -- A failure that says that something is busy.
  abbrev pub is_busy : Option Completed → Bool
  is_busy none = false
  is_busy (some proc) =
      not (is_code exp_rc proc.returncode) && is_busy_error proc.stderr proc.returncode

  -- What one run of the command means to the caller.
  abbrev pub verdict : Option Completed → Result (Option Completed)
  verdict none = err os_error
  verdict (some proc) =
      if not (is_code exp_rc proc.returncode)
      then err (command_failed cmd proc.returncode proc.stderr)
      else ok (some proc)

  -- `k` runs that failed as busy, a pause after each, and one more that answered `a`.
  abbrev pub Ran : ℕ → History → Option Completed → History → Type 0
  Ran zero h a h' = (a ≡ w.run h cmd) × (h' ≡ spawned cmd ∷ h)
  Ran (suc k) h a h' = (is_busy (w.run h cmd) ≡ true) × Ran k (slept ∷ spawned cmd ∷ h) a h'

  abbrev pub RunOutcome : ℕ → History → Result (Option Completed) × History → Type 0
  RunOutcome n h r =
      (a : Option Completed) × (h' : History) × (k : ℕ) × (r ≡ (verdict a, h'))
      × (k ≤ n)
      × Ran k h a h'
      × ((is_busy a ≡ false) ⊎ (k ≡ n))

  again :
      (n : ℕ) (h : History)
      → is_busy (w.run h cmd) ≡ true
      → run_zfs_command w true exp_rc (suc (suc n)) cmd h
        ≡ run_zfs_command w true exp_rc (suc n) cmd (slept ∷ spawned cmd ∷ h)
  unfolding run_zfs_command spawn sleep
  again n h busy = elim (Option-cases (w.run h cmd)) [
    | inl e ↦ ground arith
    | inr (proc, e) ↦ ground arith
  ]

  last :
      (n : ℕ) (h : History)
      → (is_busy (w.run h cmd) ≡ false) ⊎ (n ≡ 0)
      → run_zfs_command w true exp_rc (suc n) cmd h ≡ (verdict (w.run h cmd), spawned cmd ∷ h)
  unfolding run_zfs_command spawn sleep
  last n h calm = elim (Option-cases (w.run h cmd)) [
    | inl e ↦ ground arith
    | inr (proc, e) ↦ ground arith
  ]

  -- With `n + 1` tries allowed, the command is run once and again after each failure that says busy, up
  -- to `n` times, with a pause in between; the last run's answer decides, and it is no such failure
  -- unless all the tries are spent.
  pub run_zfs_command_lem :
      (n : ℕ) (h : History) → RunOutcome n h (run_zfs_command w true exp_rc (suc n) cmd h)
  run_zfs_command_lem zero h =
      (w.run h cmd, spawned cmd ∷ h, 0, last 0 h (inr refl), omega arith, (refl, refl), inr refl)
  run_zfs_command_lem (suc n) h = elim (Bool-cases (is_busy (w.run h cmd))) [
    | inl busy ↦
        let (a, h', k, e, le, ran, spent) = run_zfs_command_lem n (slept ∷ spawned cmd ∷ h) in
        rw (again n h busy) (a, h', suc k, e, omega arith, (busy, ran), not_busy_or_spent spent)
    | inr calm ↦ (
      w.run h cmd,
      spawned cmd ∷ h,
      0,
      last (suc n) h (inl calm),
      omega arith,
      (refl, refl),
      inl calm,
    )
  ]
    where
      not_busy_or_spent :
          {b : Bool} {k m : ℕ} → (b ≡ false) ⊎ (k ≡ m) → (b ≡ false) ⊎ (suc k ≡ suc m)
      not_busy_or_spent (inl e) = inl e
      not_busy_or_spent (inr e) = inr (ap suc e)
