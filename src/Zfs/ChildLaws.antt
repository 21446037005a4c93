-- ===== src/Zfs/ChildLaws.antt =====
-- What is seen of the datasets below a path where none of them is an SR.
use zfs_live_xapi.Prelude.{
  String, ◌<>◌, Bool, true, false, List, [], ◌∷◌, ◌++◌, ◌≡◌, refl, sym, ◌∙◌, subst, ◌⊎◌, inl, inr,
  Bool-cases, Option-cases, if◌then◌else◌, append_assoc,
}
use text.Mathlib.Text.{starts_with}
use zfs_live_xapi.Prelude.Text.{splitlines, strip}
use zfs_live_xapi.Effects.{
  World, Error, os_error, is_code, spawned, M, History, Result, ok, err, pure, try_except, ◌>>=◌,
}
use zfs_live_xapi.Effects.Kinds.{IsRead}
use zfs_live_xapi.Effects.Triple.{All, All-append}
use zfs_live_xapi.Effects.Hoare.{
  IsStable, All-IsStable, Saw, Since, Saw-IsStable, Since-IsStable, see, Ran, Hoare, pure-Hoare,
  bind-Hoare, if-Hoare, adapt-Hoare, keep-Hoare, going_on,
}
use zfs_live_xapi.Zfs.Orphans.{none_on_internal_error}
use zfs_live_xapi.Zfs.Pools.{dataset_is_sr, srs_below, dataset_find_child_srs}
use zfs_live_xapi.Zfs.Answers.{
  Failed, Said, RaisesOs, bind-RaisesOs, pure-RaisesOs, or_default, Guarded, guarded-ok,
  guarded-failed, guarded-none,
}
use zfs_live_xapi.Zfs.Places.{
  WasUnmarked, WasUnmarked-IsStable, dataset_is_sr-Hoare, dataset_is_sr-RaisesOs,
}

abbrev pub pool_command : String → List String
pool_command pool_name =
    "zfs" ∷ "list" ∷ "-Hr" ∷ "-o" ∷ "name" ∷ "-t" ∷ "filesystem" ∷ pool_name ∷ []

module _ (w : World) (start : History) where
  -- A dataset below the prefix was unmarked.
  abbrev pub WasPassed : String → String → History → Type 0
  WasPassed prefix name h = (starts_with name prefix ≡ false) ⊎ WasUnmarked w start name h

  WasPassed-IsStable : (prefix name : String) → IsStable (WasPassed prefix name)
  WasPassed-IsStable prefix name es h (inl e) = inl e
  WasPassed-IsStable prefix name es h (inr p) = inr (WasUnmarked-IsStable w start name es h p)

  srs_below-Hoare :
      (prefix : String) (datasets : List String)
      → Hoare IsRead
          (Since start)
          (λ found h. found ≡ [] → All (λ ds. WasPassed prefix ds h) datasets)
          (srs_below w prefix datasets)
  unfolding srs_below
  srs_below-Hoare prefix [] =
      pure-Hoare IsRead (Since start) (λ found h. found ≡ [] → Unit) [] (λ h k e. tt)
  srs_below-Hoare prefix (ds ∷ datasets) =
      bind-Hoare IsRead (Since start) (λ b h. Since start h × here b h) done
        (if starts_with ds prefix then dataset_is_sr w ds else pure false) rest
        (going_on IsRead start here
          (if starts_with ds prefix then dataset_is_sr w ds else pure false)
          (if-Hoare IsRead (Since start) here (starts_with ds prefix) (dataset_is_sr w ds)
            (pure false)
            (λ t.
              adapt-Hoare IsRead (Since start) (Since start)
                (λ b h. b ≡ false → WasUnmarked w start ds h) here (dataset_is_sr w ds) (λ h k. k)
                (λ b h p f. inr (p f)) (dataset_is_sr-Hoare w start ds))
            (λ f. pure-Hoare IsRead (Since start) here false (λ h k e. inl f))))
        λ marked.
          bind-Hoare IsRead (λ h. Since start h × here marked h)
            (λ found h. here marked h × (found ≡ [] → All (λ d. WasPassed prefix d h) datasets))
            done (srs_below w prefix datasets)
            (λ child_srs. pure (if marked then ds ∷ child_srs else child_srs))
            (adapt-Hoare IsRead (λ h. here marked h × Since start h)
              (λ h. Since start h × here marked h)
              (λ found h. here marked h × (found ≡ [] → All (λ d. WasPassed prefix d h) datasets))
              (λ found h. here marked h × (found ≡ [] → All (λ d. WasPassed prefix d h) datasets))
              (srs_below w prefix datasets) (λ h k. (k.1, k.0)) (λ a h q. q)
              (keep-Hoare IsRead (here marked) (Since start)
                (λ found h. found ≡ [] → All (λ d. WasPassed prefix d h) datasets)
                (srs_below w prefix datasets) (λ es h p f. WasPassed-IsStable prefix ds es h (p f))
                (srs_below-Hoare prefix datasets)))
            λ child_srs.
              pure-Hoare IsRead
                (λ h. here marked h × (child_srs ≡ [] → All (λ d. WasPassed prefix d h) datasets))
                done (if marked then ds ∷ child_srs else child_srs) (finish marked child_srs)
    where
      here : Bool → History → Type 0
      here b h = b ≡ false → WasPassed prefix ds h

      done : List String → History → Type 0
      done found h = found ≡ [] → All (λ d. WasPassed prefix d h) (ds ∷ datasets)

      rest : Bool → M (List String)
      rest marked = srs_below w prefix datasets >>= λ child_srs.
          pure (if marked then ds ∷ child_srs else child_srs)

      finish :
          (marked : Bool) (child_srs : List String) (h : History)
          → here marked h × (child_srs ≡ [] → All (λ d. WasPassed prefix d h) datasets)
          → done (if marked then ds ∷ child_srs else child_srs) h
      finish true child_srs h (p, q) e = absurd cc
      finish false child_srs h (p, q) e = (p refl, q e)

  srs_below-RaisesOs :
      (prefix : String) (datasets : List String) → RaisesOs w (srs_below w prefix datasets)
  unfolding srs_below
  srs_below-RaisesOs prefix [] = pure-RaisesOs w []
  srs_below-RaisesOs prefix (ds ∷ datasets) =
      bind-RaisesOs w (if starts_with ds prefix then dataset_is_sr w ds else pure false)
        (λ marked. srs_below w prefix datasets >>= λ child_srs.
          pure (if marked then ds ∷ child_srs else child_srs))
        (by_prefix (starts_with ds prefix))
        λ marked.
          bind-RaisesOs w (srs_below w prefix datasets)
            (λ child_srs. pure (if marked then ds ∷ child_srs else child_srs))
            (srs_below-RaisesOs prefix datasets) (λ child_srs. pure-RaisesOs w _)
    where
      by_prefix : (b : Bool) → RaisesOs w (if b then dataset_is_sr w ds else pure false)
      by_prefix true = dataset_is_sr-RaisesOs w start ds
      by_prefix false = pure-RaisesOs w false

  -- The filesystems of the pool were listed, and each below the path was unmarked, or that failed.
  abbrev pub NoneBelow : String → String → History → Type 0
  NoneBelow pool_name path h =
      Saw start (spawned (pool_command pool_name)) (Failed w (pool_command pool_name)) h
      ⊎ ((out : String) × Saw start (spawned (pool_command pool_name))
            (Said w (pool_command pool_name) out) h
          × All (λ ds. WasPassed (path <> "/") ds h) (splitlines (strip out)))

  pub NoneBelow-IsStable : (pool_name path : String) → IsStable (NoneBelow pool_name path)
  NoneBelow-IsStable pool_name path es h (inl s) = inl (
      Saw-IsStable start (spawned (pool_command pool_name)) (Failed w (pool_command pool_name)) es h
        s)
  NoneBelow-IsStable pool_name path es h (inr (out, s, p)) = inr (
    out,
    Saw-IsStable start (spawned (pool_command pool_name)) (Said w (pool_command pool_name) out) es h
        s,
    All-IsStable (WasPassed (path <> "/")) (splitlines (strip out))
        (WasPassed-IsStable (path <> "/")) es h p,
  )

  -- An exception of a command that cannot be run passes through.
  passes-Ran :
      {A : Type 0} (Q : A → History → Type 0) (d : A) (h : History) (r : Result A) (h' : History)
      → ((e : Error) → r ≡ err e → e ≡ os_error)
      → Ran IsRead Q h (r, h')
      → Ran IsRead Q h (
          let s : Result A × History = elim r [ ok a ↦ (ok a, h') | err e ↦ or_default w d e h' ] in
          s)
  passes-Ran Q d h (ok a) h' p ran = ran
  passes-Ran {A} Q d h (err x) h' p ran =
      subst (λ y. Ran IsRead Q h (or_default w d y h')) (sym (p x refl))
        (let (es, e, reads, q) = ran in (es, e, reads, λ a eq. absurd cc))

  pub dataset_find_child_srs-Hoare :
      (pool_name path : String)
      → Hoare IsRead
          (Since start)
          (λ found h. found ≡ [] → NoneBelow pool_name path h)
          (dataset_find_child_srs w pool_name path)
  unfolding dataset_find_child_srs none_on_internal_error
  dataset_find_child_srs-Hoare pool_name path = record {
    runs = λ h k.
        let cmd : List String = pool_command pool_name in
        elim (Option-cases (w.run h cmd)) [
          | inl e ↦
              outcome h (err os_error) (guarded-none w cmd below (or_default w []) h e)
                (λ b eq. absurd cc)
          | inr (c, e) ↦ elim (Bool-cases (is_code 0 c.returncode)) [
            | inr f ↦
                outcome h (ok []) (guarded-failed w cmd below (or_default w []) h c e f)
                  (λ b eq found. inl (see start h (spawned cmd) (Failed w cmd) k (c, e, f)))
            | inl t ↦
                let h' : History = spawned cmd ∷ h in
                let seen = see start h (spawned cmd) (Said w cmd c.stdout) k (c, e, t, refl) in
                let since = Since-IsStable start (spawned cmd ∷ []) h k in
                subst (Ran IsRead none_below h)
                  (sym (guarded-ok w cmd below (or_default w []) h c e t))
                  (behind cmd h (try_except (below c.stdout) (or_default w []) h') (
                    passes-Ran none_below [] h' (below c.stdout h').0 (below c.stdout h').1
                      (srs_below-RaisesOs (path <> "/") (splitlines (strip c.stdout)) h')
                      ((passed cmd c.stdout).runs h' (seen, since))))
          ]
        ];
  }
    where
      below : String → M (List String)
      below out = srs_below w (path <> "/") (splitlines (strip out))

      none_below : List String → History → Type 0
      none_below found h = found ≡ [] → NoneBelow pool_name path h

      outcome :
          (h : History) (r : Result (List String))
          → Guarded w (pool_command pool_name) below (or_default w []) h
            ≡ (r, spawned (pool_command pool_name) ∷ h)
          → ((b : List String) → r ≡ ok b → none_below b (spawned (pool_command pool_name) ∷ h))
          → Ran IsRead none_below h (Guarded w (pool_command pool_name) below (or_default w []) h)
      outcome h r e q =
          subst (Ran IsRead none_below h) (sym e)
            (spawned (pool_command pool_name) ∷ [], refl, (refl, tt), q)

      behind :
          (cmd : List String) (h : History) (r : Result (List String) × History)
          → Ran IsRead none_below (spawned (pool_command pool_name) ∷ h) r
          → Ran IsRead none_below h r
      behind cmd h r (es, e, p, q) = (
        es ++ (spawned (pool_command pool_name) ∷ []),
        e ∙ sym (append_assoc es (spawned (pool_command pool_name) ∷ []) h),
        All-append IsRead es (spawned (pool_command pool_name) ∷ []) p (refl, tt),
        q,
      )

      passed :
          (cmd : List String) (out : String)
          → Hoare IsRead
              (λ h.
                Saw start (spawned (pool_command pool_name)) (Said w (pool_command pool_name) out) h
                × Since start h)
              none_below
              (below out)
      passed cmd out =
          let Listed : History → Type 0 =
            Saw start (spawned (pool_command pool_name)) (Said w (pool_command pool_name) out) in
          let each : List String → History → Type 0 = λ found h.
            found ≡ [] → All (λ d. WasPassed (path <> "/") d h) (splitlines (strip out)) in
          adapt-Hoare IsRead (λ h. Listed h × Since start h) (λ h. Listed h × Since start h)
            (λ found h. Listed h × each found h) none_below (below out) (λ h k. k)
            (λ found h (s, p) e. inr (out, s, p e))
            (keep-Hoare IsRead Listed (Since start) each (below out)
              (Saw-IsStable start (spawned (pool_command pool_name))
                (Said w (pool_command pool_name) out))
              (srs_below-Hoare (path <> "/") (splitlines (strip out))))
