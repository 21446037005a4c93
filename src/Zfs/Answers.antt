-- ===== src/Zfs/Answers.antt =====
-- What the answers of commands have been, where a dataset is found to be absent or unmarked.
use zfs_live_xapi.Prelude.{
  String, Bool, true, false, Option, none, some, not, ◌&&◌, ltb, List, [], ◌∷◌, ◌≡◌, refl, ap, sym,
  ◌∙◌, subst, ◌⊎◌, inl, inr, Bool-cases, Option-cases, if◌then◌else◌,
}
use zfs_live_xapi.Effects.{
  World, Error, os_error, command_failed, is_internal_error, Completed, is_code, spawned, M,
  History, Result, ok, err, pure, raise, sleep, try_except, spawn, ◌>>=◌, ◌>>◌,
}
use zfs_live_xapi.Effects.Kinds.{IsRead}
use zfs_live_xapi.Effects.Triple.{bind-ok, bind-err, try_except-err}
use zfs_live_xapi.Effects.Hoare.{Saw, Since, see, Ran, Hoare}
use zfs_live_xapi.Zfs.Command.{is_busy_error, run_zfs, run_zfs_command, stdout_of}

-- The command ran and failed.
abbrev pub Failed : World → List String → History → Type 0
Failed w cmd before =
    (c : Completed) × (w.run before cmd ≡ some c) × (is_code 0 c.returncode ≡ false)

-- The command succeeded, with this output.
abbrev pub Said : World → List String → String → History → Type 0
Said w cmd out before =
    (c : Completed) × (w.run before cmd ≡ some c)
    × (is_code 0 c.returncode ≡ true)
    × (c.stdout ≡ out)

module _ (w : World) where
  spawn_lem :
      (cmd : List String) (h : History) (c : Completed)
      → w.run h cmd ≡ some c
      → spawn w cmd h ≡ (ok c, spawned cmd ∷ h)
  unfolding spawn
  spawn_lem cmd h c e =
      ap
        (λ o. (
          elim o as (λ _. Result Completed) [ none ↦ err os_error | some x ↦ ok x ],
          spawned cmd ∷ h,
        ))
        e

  spawn-none :
      (cmd : List String) (h : History) → w.run h cmd ≡ none → (spawn w cmd h).0 ≡ err os_error
  unfolding spawn
  spawn-none cmd h e =
      ap (λ o. elim o as (λ _. Result Completed) [ none ↦ err os_error | some x ↦ ok x ]) e

  -- What the single attempt makes of what it got.
  abbrev judge : List String → Completed → Bool → M (Option Completed)
  judge cmd proc b =
      if true && not b
      then (if ltb 0 0 && is_busy_error proc.stderr proc.returncode
          then sleep w >> run_zfs_command w true 0 0 cmd
          else raise (command_failed cmd proc.returncode proc.stderr))
      else pure (some proc)

  attempt_lem :
      (cmd : List String) (h : History) (c : Completed) (b : Bool)
      → w.run h cmd ≡ some c
      → is_code 0 c.returncode ≡ b
      → run_zfs_command w true 0 1 cmd h ≡ judge cmd c b (spawned cmd ∷ h)
  unfolding run_zfs_command
  attempt_lem cmd h c b e t =
      bind-ok (spawn w cmd) (λ proc. judge cmd proc (is_code 0 proc.returncode)) h (spawned cmd ∷ h)
        c (spawn_lem cmd h c e)
      ∙ ap (λ x. judge cmd c x (spawned cmd ∷ h)) t

  run_zfs_ok :
      (cmd : List String) (h : History) (c : Completed)
      → w.run h cmd ≡ some c
      → is_code 0 c.returncode ≡ true
      → run_zfs w cmd h ≡ (ok c.stdout, spawned cmd ∷ h)
  unfolding run_zfs stdout_of
  run_zfs_ok cmd h c e t =
      bind-ok (run_zfs_command w true 0 1 cmd) (stdout_of w) h (spawned cmd ∷ h) (some c)
        (attempt_lem cmd h c true e t)

  as_pair :
      {A : Type 0} (m : M A) (h h' : History) (x : Error)
      → m h ≡ (err x, h')
      → {B : Type 0} → (f : A → M B) → (m >>= f) h ≡ (err x, h')
  as_pair m h h' x e f = bind-err m f h x (ap (λ r. r.0) e) ∙ ap (λ t. (err x, t)) (ap (λ r. r.1) e)

  run_zfs_failed :
      (cmd : List String) (h : History) (c : Completed)
      → w.run h cmd ≡ some c
      → is_code 0 c.returncode ≡ false
      → run_zfs w cmd h ≡ (err (command_failed cmd c.returncode c.stderr), spawned cmd ∷ h)
  unfolding run_zfs
  run_zfs_failed cmd h c e f =
      as_pair (run_zfs_command w true 0 1 cmd) h (spawned cmd ∷ h)
        (command_failed cmd c.returncode c.stderr) (attempt_lem cmd h c false e f) (stdout_of w)

  run_zfs-none :
      (cmd : List String) (h : History)
      → w.run h cmd ≡ none
      → run_zfs w cmd h ≡ (err os_error, spawned cmd ∷ h)
  unfolding run_zfs run_zfs_command spawn
  run_zfs-none cmd h e =
      as_pair (run_zfs_command w true 0 1 cmd) h (spawned cmd ∷ h) os_error
        (as_pair (spawn w cmd) h (spawned cmd ∷ h) os_error
          (ap (λ x. (x, spawned cmd ∷ h)) (spawn-none cmd h e))
          (λ proc. judge cmd proc (is_code 0 proc.returncode)))
        (stdout_of w)

  -- A guarded action after one command: what it does by what the command gives.
  abbrev pub Guarded : {A : Type 0} → List String → (String → M A) → (Error → M A) → M A
  Guarded cmd f handler = try_except (run_zfs w cmd >>= f) handler

  pub guarded-ok :
      {A : Type 0} (cmd : List String) (f : String → M A) (handler : Error → M A) (h : History)
      (c : Completed)
      → w.run h cmd ≡ some c
      → is_code 0 c.returncode ≡ true
      → Guarded cmd f handler h ≡ try_except (f c.stdout) handler (spawned cmd ∷ h)
  guarded-ok {A} cmd f handler h c e t =
      ap
        (λ r.
          let (x, h') = r in
          elim x as (λ _. Result A × History) [ ok a ↦ (ok a, h') | err y ↦ handler y h' ])
        (bind-ok (run_zfs w cmd) f h (spawned cmd ∷ h) c.stdout (run_zfs_ok cmd h c e t))

  pub guarded-failed :
      {A : Type 0} (cmd : List String) (f : String → M A) (handler : Error → M A) (h : History)
      (c : Completed)
      → w.run h cmd ≡ some c
      → is_code 0 c.returncode ≡ false
      → Guarded cmd f handler h
        ≡ handler (command_failed cmd c.returncode c.stderr) (spawned cmd ∷ h)
  guarded-failed cmd f handler h c e t =
      try_except-err (run_zfs w cmd >>= f) handler h (spawned cmd ∷ h)
        (command_failed cmd c.returncode c.stderr)
        (as_pair (run_zfs w cmd) h _ _ (run_zfs_failed cmd h c e t) f)

  pub guarded-none :
      {A : Type 0} (cmd : List String) (f : String → M A) (handler : Error → M A) (h : History)
      → w.run h cmd ≡ none
      → Guarded cmd f handler h ≡ handler os_error (spawned cmd ∷ h)
  guarded-none cmd f handler h e =
      try_except-err (run_zfs w cmd >>= f) handler h (spawned cmd ∷ h) os_error
        (as_pair (run_zfs w cmd) h _ _ (run_zfs-none cmd h e) f)

  -- Only the exception of a command that cannot be run.
  abbrev pub RaisesOs : {A : Type 0} → M A → Type 0
  RaisesOs m = (h : History) (e : Error) → (m h).0 ≡ err e → e ≡ os_error

  pub bind-RaisesOs :
      {A B : Type 0} (m : M A) (f : A → M B)
      → RaisesOs m
      → ((a : A) → RaisesOs (f a))
      → RaisesOs (m >>= f)
  bind-RaisesOs {A} {B} m f p q h e = by_result (m h).0 (m h).1 (p h)
    where
      by_result :
          (r : Result A) (h' : History)
          → ((x : Error) → r ≡ err x → x ≡ os_error)
          → (let s : Result B × History = elim r [ ok a ↦ f a h' | err x ↦ (err x, h') ] in s).0
            ≡ err e
          → e ≡ os_error
      by_result (ok a) h' p' eq = q a h' e eq
      by_result (err x) h' p' eq = p' e cc

  pub pure-RaisesOs : {A : Type 0} (a : A) → RaisesOs (pure a)
  pure-RaisesOs a h e eq = cc

  abbrev pub or_default : {A : Type 0} → A → Error → M A
  or_default d e = if is_internal_error e then pure d else raise e

  -- A command with an output that is read, and a value where it fails.
  module _ {A : Type 0} (cmd : List String) (g : String → A) (d : A) where
    abbrev pub asks : M A
    asks = Guarded cmd (λ out. pure (g out)) (or_default d)

    pub asks_lem :
        (h : History)
        → ((w.run h cmd ≡ none) × (asks h ≡ (err os_error, spawned cmd ∷ h)))
          ⊎ (((c : Completed) × (w.run h cmd ≡ some c)
                × (is_code 0 c.returncode ≡ true)
                × (asks h ≡ (ok (g c.stdout), spawned cmd ∷ h)))
              ⊎ (Failed w cmd h × (asks h ≡ (ok d, spawned cmd ∷ h))))
    asks_lem h = elim (Option-cases (w.run h cmd)) [
      | inl e ↦ inl (e, guarded-none cmd (λ out. pure (g out)) (or_default d) h e)
      | inr (c, e) ↦ elim (Bool-cases (is_code 0 c.returncode)) [
        | inl t ↦ inr (inl (c, e, t, guarded-ok cmd (λ out. pure (g out)) (or_default d) h c e t))
        | inr f ↦
            inr (inr ((c, e, f), guarded-failed cmd (λ out. pure (g out)) (or_default d) h c e f))
      ]
    ]

    pub asks-RaisesOs : RaisesOs asks
    asks-RaisesOs h e eq = elim (asks_lem h) [
      | inl (n, same) ↦ let first = ap (λ r. r.0) same in cc
      | inr (inl (c, p, t, same)) ↦ let first = ap (λ r. r.0) same in absurd cc
      | inr (inr (f, same)) ↦ let first = ap (λ r. r.0) same in absurd cc
    ]

    module _ (start : History) (reads : IsRead (spawned cmd)) where
      -- The value is what was read, or the command failed.
      abbrev pub Answered : A → History → Type 0
      Answered a h =
          ((out : String) × (a ≡ g out) × Saw start (spawned cmd) (Said w cmd out) h)
          ⊎ ((a ≡ d) × Saw start (spawned cmd) (Failed w cmd) h)

      -- From the outcome of one command.
      pub outcome-Ran :
          {B : Type 0} (Q : B → History → Type 0) (h : History) (m : M B) (r : Result B)
          → m h ≡ (r, spawned cmd ∷ h)
          → ((b : B) → r ≡ ok b → Q b (spawned cmd ∷ h))
          → Ran IsRead Q h (m h)
      outcome-Ran Q h m r e q =
          subst (Ran IsRead Q h) (sym e) (spawned cmd ∷ [], refl, (reads, tt), q)

      pub asks-Hoare : Hoare IsRead (Since start) Answered asks
      asks-Hoare = record {
        runs = λ h k. elim (asks_lem h) [
          | inl (n, same) ↦ outcome-Ran Answered h asks (err os_error) same (λ b eq. absurd cc)
          | inr (inl (c, p, t, same)) ↦ outcome-Ran Answered h asks (ok (g c.stdout)) same (λ b eq.
              inl (c.stdout, cc, see start h (spawned cmd) (Said w cmd c.stdout) k (c, p, t, refl)))
          | inr (inr (f, same)) ↦
              outcome-Ran Answered h asks (ok d) same
                (λ b eq. inr (cc, see start h (spawned cmd) (Failed w cmd) k f))
        ];
      }
