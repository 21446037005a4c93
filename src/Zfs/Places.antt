-- ===== src/Zfs/Places.antt =====
-- What is seen of a dataset that is found free for an SR.
use zfs_live_xapi.Prelude.{
  String, Bool, true, false, ◌||◌, Option, none, some, List, [], ◌∷◌, ◌≡◌, refl, sym, str_eq, ◌⊎◌,
  inl, inr, if◌then◌else◌,
}
use zfs_live_xapi.Prelude.Text.{strip}
use zfs_live_xapi.Effects.{World, spawned, History, pure}
use zfs_live_xapi.Effects.Kinds.{IsRead}
use zfs_live_xapi.Effects.Hoare.{
  IsStable, Saw, Since, Saw-IsStable, Hoare, pure-Hoare, bind-Hoare, adapt-Hoare,
}
use zfs_live_xapi.Zfs.Zvols.{is_some}
use zfs_live_xapi.Zfs.Datasets.{dataset_exists, false_on_internal_error}
use zfs_live_xapi.Zfs.Pools.{marker_of, dataset_get_sr_marker, dataset_is_sr}
use zfs_live_xapi.Zfs.Answers.{
  Failed, Said, RaisesOs, bind-RaisesOs, pure-RaisesOs, Answered, asks-RaisesOs, asks-Hoare,
}

abbrev pub list_command : String → List String
list_command name = "zfs" ∷ "list" ∷ "-H" ∷ "-o" ∷ "name" ∷ name ∷ []

abbrev pub marker_command : String → List String
marker_command name = "zfs" ∷ "get" ∷ "-Hp" ∷ "-o" ∷ "value" ∷ "xcp:sr" ∷ name ∷ []

-- The output of ZFS where the marker is not set.
abbrev pub IsUnset : String → Type 0
IsUnset out = (str_eq (strip out) "" ≡ true) ⊎ (str_eq (strip out) "-" ≡ true)

unset_lem : (out : String) → marker_of out ≡ none → IsUnset out
unfolding marker_of
unset_lem out e = by_tests (str_eq (strip out) "") (str_eq (strip out) "-") refl refl e
  where
    by_tests :
        (a b : Bool)
        → str_eq (strip out) "" ≡ a
        → str_eq (strip out) "-" ≡ b
        → (if a || b then none else some (strip out)) ≡ none
        → IsUnset out
    by_tests true b p q e' = inl p
    by_tests false true p q e' = inr q
    by_tests false false p q e' = absurd cc

module _ (w : World) (start : History) where
  -- ZFS was asked for the dataset, and failed.
  abbrev pub WasAbsent : String → History → Type 0
  WasAbsent name h = Saw start (spawned (list_command name)) (Failed w (list_command name)) h

  -- ZFS was asked for the marker of the dataset, and failed or had none.
  abbrev pub WasUnmarked : String → History → Type 0
  WasUnmarked name h =
      Saw start (spawned (marker_command name)) (Failed w (marker_command name)) h
      ⊎ ((out : String) × IsUnset out
          × Saw start (spawned (marker_command name)) (Said w (marker_command name) out) h)

  pub WasAbsent-IsStable : (name : String) → IsStable (WasAbsent name)
  WasAbsent-IsStable name =
      Saw-IsStable start (spawned (list_command name)) (Failed w (list_command name))

  pub WasUnmarked-IsStable : (name : String) → IsStable (WasUnmarked name)
  WasUnmarked-IsStable name es h (inl s) =
      inl
        (Saw-IsStable start (spawned (marker_command name)) (Failed w (marker_command name)) es h s)
  WasUnmarked-IsStable name es h (inr (out, u, s)) = inr (
    out,
    u,
    Saw-IsStable start (spawned (marker_command name)) (Said w (marker_command name) out) es h s,
  )

  pub dataset_exists-Hoare :
      (name : String)
      → Hoare IsRead (Since start) (λ b h. b ≡ false → WasAbsent name h) (dataset_exists w name)
  unfolding dataset_exists false_on_internal_error
  dataset_exists-Hoare name =
      adapt-Hoare IsRead (Since start) (Since start)
        (Answered w (list_command name) (λ out. true) false start refl)
        (λ b h. b ≡ false → WasAbsent name h) (dataset_exists w name) (λ h k. k) absent
        (asks-Hoare w (list_command name) (λ out. true) false start refl)
    where
      absent :
          (b : Bool) (h : History)
          → Answered w (list_command name) (λ out. true) false start refl b h
          → b ≡ false
          → WasAbsent name h
      absent b h (inl (out, e, s)) f = absurd cc
      absent b h (inr (e, s)) f = s

  pub dataset_is_sr-Hoare :
      (name : String)
      → Hoare IsRead (Since start) (λ b h. b ≡ false → WasUnmarked name h) (dataset_is_sr w name)
  unfolding dataset_is_sr dataset_get_sr_marker
  dataset_is_sr-Hoare name =
      bind-Hoare IsRead (Since start) answered (λ b h. b ≡ false → WasUnmarked name h)
        (dataset_get_sr_marker w name) (λ m. pure (is_some m))
        (asks-Hoare w (marker_command name) marker_of none start refl)
        λ m.
          pure-Hoare IsRead (answered m) (λ b h. b ≡ false → WasUnmarked name h) (is_some m)
            (unmarked m)
    where
      answered : Option String → History → Type 0
      answered = Answered w (marker_command name) marker_of none start refl

      unmarked :
          (m : Option String) (h : History) → answered m h → is_some m ≡ false → WasUnmarked name h
      unmarked none h (inl (out, e, s)) f = inr (out, unset_lem out (sym e), s)
      unmarked none h (inr (e, s)) f = inl s
      unmarked (some v) h p f = absurd cc

  pub dataset_is_sr-RaisesOs : (name : String) → RaisesOs w (dataset_is_sr w name)
  unfolding dataset_is_sr dataset_get_sr_marker
  dataset_is_sr-RaisesOs name =
      bind-RaisesOs w (dataset_get_sr_marker w name) (λ m. pure (is_some m))
        (asks-RaisesOs w (marker_command name) marker_of none) (λ m. pure-RaisesOs w (is_some m))
