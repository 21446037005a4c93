-- ===== src/Zfs/IdleChecks.antt =====
-- What the two signs of use of a zvol have asked where they find none.
use zfs_live_xapi.Prelude.{
  ℕ, ◌==◌, String, ◌<>◌, Bool, true, false, Option, none, some, List, [], ◌∷◌, ◌++◌, ◌≡◌, refl, sym,
  ◌∙◌, subst, ◌⊎◌, inl, inr, ==_iff, Bool-cases, append_assoc, if◌then◌else◌,
}
use zfs_live_xapi.Effects.{
  World, Event, Error, os_error, eof_error, unpickling_error, key_error, called_process_error,
  Completed, is_code, DpMetadata, no_metadata, unreadable, with_pid, spawned, looked, M, History,
  Result, ok, err, pure, spawn, try_except, raise, ◌>>◌,
}
use zfs_live_xapi.Effects.Kinds.{IsRead}
use zfs_live_xapi.Effects.Triple.{All-append}
use zfs_live_xapi.Effects.Hoare.{IsStable, Saw, Since, Saw-IsStable, see, Ran, Hoare}
use zfs_live_xapi.Zfs.Zvols.{show}
use zfs_live_xapi.Zfs.Orphans.{
  is_stale, metadata_file, dev_path, zvol_device_is_open, kill_0, serves, load_metadata,
  zvol_has_active_datapath,
}

abbrev pub fuser : String → List String
fuser zvol = "fuser" ∷ "-s" ∷ ("/dev/zvol/" <> zvol) ∷ []

abbrev pub dp_file : World → String → String
dp_file w zvol =
    "/var/run/nonpersistent/dp-raw-qdisk/"
    <> (w.sha256_16 ("/dev/zvol/" <> zvol) <> "/qemu-dp-raw.pickle")

-- `fuser` does not find the device open: it does not run, or it fails.
abbrev pub IsNotOpen : World → String → History → Type 0
IsNotOpen w zvol before =
    (w.run before (fuser zvol) ≡ none)
    ⊎ ((c : Completed) × (w.run before (fuser zvol) ≡ some c) × (is_code 0 c.returncode ≡ false))

-- Metadata that names no process that is alive: none, a file that is damaged or gone, or one with
-- no process, with the process 0 or with one that is not alive.
abbrev pub NamesNone : (ℕ → Bool) → DpMetadata → Type 0
NamesNone is_alive no_metadata = Unit
NamesNone is_alive (unreadable e) =
    (e ≡ os_error) ⊎ ((e ≡ eof_error) ⊎ ((e ≡ unpickling_error) ⊎ (e ≡ key_error)))
NamesNone is_alive (with_pid none) = Unit
NamesNone is_alive (with_pid (some pid)) = (pid ≡ 0) ⊎ (is_alive pid ≡ false)

abbrev pub IsNotServed : World → String → History → Type 0
IsNotServed w zvol before =
    NamesNone (w.is_alive (looked (dp_file w zvol) ∷ before))
      (w.dp_metadata before (dp_file w zvol))

-- Behind `start`, `fuser` was run and the metadata was looked at, with these answers.
abbrev pub WasFoundIdle : World → History → String → History → Type 0
WasFoundIdle w start zvol h =
    Saw start (spawned (fuser zvol)) (IsNotOpen w zvol) h
    × Saw start (looked (dp_file w zvol)) (IsNotServed w zvol) h

stale-cases :
    (e : Error)
    → is_stale e ≡ true
    → (e ≡ os_error) ⊎ ((e ≡ eof_error) ⊎ ((e ≡ unpickling_error) ⊎ (e ≡ key_error)))
stale-cases os_error p = inl refl
stale-cases eof_error p = inr (inl refl)
stale-cases unpickling_error p = inr (inr (inl refl))
stale-cases key_error p = inr (inr (inr refl))
stale-cases _ p = absurd cc

module _ (w : World) (start : History) where
  -- What the check for an open device makes of the answer of `fuser`.
  abbrev opened : String → History → Option Completed → Result Bool × History
  opened zvol h o =
      try_except
        (λ h'.
          elim (elim o as (λ _. Result Completed) [ none ↦ err os_error | some c ↦ ok c ])
            as (λ _. Result Bool × History) [
              | ok c ↦
                  (if is_code 0 c.returncode
                      then pure true
                      else raise (called_process_error (fuser zvol) c.returncode))
                    (spawned (fuser zvol) ∷ h)
              | err e ↦ (err e, spawned (fuser zvol) ∷ h)
            ])
        (λ e. pure false) h

  opened-code :
      (zvol : String) (b : Bool) (c : Completed) (h' : History)
      → is_code 0 c.returncode ≡ b
      → let r : Result Bool × History =
          try_except
            (λ h''.
              (let m : M Bool =
                    if b
                    then pure true
                    else raise (called_process_error (fuser zvol) c.returncode) in
                  m)
                h')
            (λ e. pure false)
            h' in
        (r.1 ≡ h') × ((a : Bool) → r.0 ≡ ok a → a ≡ false → is_code 0 c.returncode ≡ false)
  opened-code zvol true c h' e = (refl, λ a eq f. absurd cc)
  opened-code zvol false c h' e = (refl, λ a eq f. e)

  opened_lem :
      (zvol : String) (h : History) (o : Option Completed)
      → w.run h (fuser zvol) ≡ o
      → ((opened zvol h o).1 ≡ spawned (fuser zvol) ∷ h)
        × ((a : Bool) → (opened zvol h o).0 ≡ ok a → a ≡ false → IsNotOpen w zvol h)
  opened_lem zvol h none e = (refl, λ a eq f. inl e)
  opened_lem zvol h (some c) e =
      let (same, answer) =
        opened-code zvol (is_code 0 c.returncode) c (spawned (fuser zvol) ∷ h) refl in
      (same, λ a eq f. inr (c, e, answer a eq f))

  pub zvol_device_is_open-Hoare :
      (zvol : String)
      → Hoare IsRead
          (Since start)
          (λ b h. b ≡ false → Saw start (spawned (fuser zvol)) (IsNotOpen w zvol) h)
          (zvol_device_is_open w zvol)
  unfolding zvol_device_is_open spawn dev_path
  zvol_device_is_open-Hoare zvol = record {
    runs = λ h k.
        let (same, answer) = opened_lem zvol h (w.run h (fuser zvol)) refl in
        (
          spawned (fuser zvol) ∷ [],
          same,
          (refl, tt),
          λ a eq f.
              subst (Saw start (spawned (fuser zvol)) (IsNotOpen w zvol)) (sym same)
                (see start h (spawned (fuser zvol)) (IsNotOpen w zvol) k (answer a eq f)),
        );
  }

  -- The metadata, from the history after the look at it.
  abbrev served : String → DpMetadata → M Bool
  served zvol md = try_except (load_metadata w md) (λ e. if is_stale e then pure false else raise e)

  served-Ran :
      (zvol : String) (md : DpMetadata) (h : History)
      → Ran IsRead (λ b h'. b ≡ false → NamesNone (w.is_alive h) md) h (served zvol md h)
  unfolding load_metadata serves kill_0
  served-Ran zvol no_metadata h = ([], refl, tt, λ a e f. tt)
  served-Ran zvol (unreadable x) h = elim (Bool-cases (is_stale x)) [
    | inl s ↦ rw s ([], refl, tt, λ a e f. stale-cases x s)
    | inr s ↦ rw s ([], refl, tt, λ a e f. absurd cc)
  ]
  served-Ran zvol (with_pid none) h = ([], refl, tt, λ a e f. tt)
  served-Ran zvol (with_pid (some pid)) h = by_pid (pid == 0) refl
    where
      by_alive :
          (alive : Bool)
          → w.is_alive h pid ≡ alive
          → Ran IsRead
              (λ b h'. b ≡ false → (pid ≡ 0) ⊎ (w.is_alive h pid ≡ false))
              h
              (try_except
                (λ h'.
                  elim (elim alive as (λ _. Result (Unit {0})) [
                    | true ↦ ok tt
                    | false ↦ err os_error
                  ])
                    as (λ _. Result Bool × History) [
                      | ok u ↦ (ok true, looked (show pid) ∷ h)
                      | err e ↦ (err e, looked (show pid) ∷ h)
                    ])
                (λ e. if is_stale e then pure false else raise e)
                h)
      by_alive true q = (looked (show pid) ∷ [], refl, (refl, tt), λ a e f. absurd cc)
      by_alive false q = (looked (show pid) ∷ [], refl, (refl, tt), λ a e f. inr q)

      by_pid :
          (zero : Bool)
          → (pid == 0) ≡ zero
          → Ran IsRead
              (λ b h'. b ≡ false → (pid ≡ 0) ⊎ (w.is_alive h pid ≡ false))
              h
              (try_except
                (if zero then pure false else kill_0 w pid >> pure true)
                (λ e. if is_stale e then pure false else raise e)
                h)
      by_pid true p = ([], refl, tt, λ a e f. inl ((==_iff pid 0).0 p))
      by_pid false p = by_alive (w.is_alive h pid) refl

  pub active-Hoare :
      (zvol : String)
      → Hoare IsRead
          (Since start)
          (λ b h. b ≡ false → Saw start (looked (dp_file w zvol)) (IsNotServed w zvol) h)
          (zvol_has_active_datapath w zvol)
  unfolding zvol_has_active_datapath metadata_file dev_path
  active-Hoare zvol = record {
    runs = λ h k.
        let look_event : Event = looked (dp_file w zvol) in
        let h' : History = look_event ∷ h in
        let (es, e, p, q) = served-Ran zvol (w.dp_metadata h (dp_file w zvol)) h' in
        (
          es ++ (look_event ∷ []),
          e ∙ sym (append_assoc es (look_event ∷ []) h),
          All-append IsRead es (look_event ∷ []) p (refl, tt),
          λ a eq f. subst (Saw start look_event (IsNotServed w zvol)) (sym e) (
              Saw-IsStable start look_event (IsNotServed w zvol) es h'
                (see start h look_event (IsNotServed w zvol) k (q a eq f))),
        );
  }

  pub WasFoundIdle-IsStable : (zvol : String) → IsStable (WasFoundIdle w start zvol)
  WasFoundIdle-IsStable zvol es h (p, q) = (
    Saw-IsStable start (spawned (fuser zvol)) (IsNotOpen w zvol) es h p,
    Saw-IsStable start (looked (dp_file w zvol)) (IsNotServed w zvol) es h q,
  )
