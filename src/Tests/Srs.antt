-- ===== src/Tests/Srs.antt =====
-- The operations of an SR at concrete inputs.
use zfs_live_xapi.Prelude.{
  false, none, some, List, [], ◌∷◌, ◌≡◌, ◌≢◌, refl, subst, str_eq, if◌then◌else◌,
}
use zfs_live_xapi.Prelude.Lists.{contains}
use zfs_live_xapi.Prelude.Text.{partition, splitlines, strip, lstrip, rstrip}
use zfs_live_xapi.Effects.{World, spawn, ZfsFeatures, ok}
use zfs_live_xapi.Effects.Kinds.{IsRead}
use zfs_live_xapi.Effects.Triple.{ok-injective, All, Adds}
use zfs_live_xapi.Zfs.{
  at_sign, Orphan, zvol_find_orphans, zsnap_find_orphans, destroy_orphans, dataset_list_zvols,
  none_on_internal_error, run_zfs, run_zfs_command, stdout_of, nonempty_lines,
}
use zfs_live_xapi.Effects.Hoare.{Ran}
use zfs_live_xapi.Zfs.IdleLaws.{IsIdleZvol, IsIdleSnapshot, orphans-WasFoundIdle}
use zfs_live_xapi.Zfs.CleanUpLaws.{DestroysOnly, IsRipeOrphan, destroy_orphans-IsRipe}
use zfs_live_xapi.Sr.{lookup, get_default, Dict, probe_features}
use zfs_live_xapi.Sr.Create.{create_checks}
use zfs_live_xapi.Sr.CreateLaws.{IsChecked, create_checks-IsChecked}
use zfs_live_xapi.Sr.FeatureLaws.{IsBacked, probe_features-IsBacked}
use zfs_live_xapi.Sr.Listing.{ls, uuids, cleanup_enabled}
use zfs_live_xapi.Sr.ListingLaws.{owner, ls-no_cleanup, ls-spares_known}
use zfs_live_xapi.Sr.Probe.{probe}
use zfs_live_xapi.Sr.ProbeLaws.{probe-IsRead}
use zfs_live_xapi.Tests.Worlds.{lab, answers, out_of_space}

abbrev stray : List Orphan
stray = record { name = "tank/vols/x"; size = "4096"; creation = "90000" } ∷ []

destroy_orphans-IsRipe_example :
    ((destroy_orphans lab stray 3600 []).0 ≡ ok tt)
    × Adds (DestroysOnly (IsRipeOrphan 100000 3600 stray)) [] (destroy_orphans lab stray 3600 [])
destroy_orphans-IsRipe_example = destroy_orphans-IsRipe lab stray 3600 []

-- A zvol `x` that is not open, with a clean-up at any age.
abbrev strays : World
strays = record lab {
  run = λ h cmd. elim cmd [
    | [] ↦ none
    | tool ∷ args ↦ if str_eq tool "fuser" then some out_of_space else answers "tank/vols/x\n"
  ];
  sr_metadata = λ h path. ok (
      ("zpool", "tank")
      ∷ ("dataset", "vols")
      ∷ ("auto_cleanup_orphans", "true")
      ∷ ("orphan_grace_period_seconds", "0")
      ∷ []);
}

orphans-WasFoundIdle_example :
    Ran IsRead
      (λ orphans h'. All (λ o. IsIdleZvol strays [] ("s1" ∷ []) o.name h') orphans)
      []
      (zvol_find_orphans strays "tank/vols" ("s1" ∷ []) [])
    × Ran IsRead
        (λ orphans h'. All (λ o. IsIdleSnapshot strays [] ("s1" ∷ []) o.name h') orphans)
        []
        (zsnap_find_orphans strays "tank/vols" ("s1" ∷ []) [])
orphans-WasFoundIdle_example = orphans-WasFoundIdle strays "tank/vols" ("s1" ∷ []) []

ls-spares_known_example : Adds (DestroysOnly (λ name. owner name ≢ "s1")) [] (ls strays "sr" [])
unfolding uuids dataset_list_zvols none_on_internal_error run_zfs run_zfs_command stdout_of spawn
    nonempty_lines splitlines strip lstrip rstrip partition
ls-spares_known_example =
    ls-spares_known strays "sr" "s1" [] (λ h. refl)
      λ dataset h names e.
        subst (λ ns. All (λ name. (partition at_sign name).1 ≡ none) ns)
          (ok-injective ("tank/vols/x" ∷ []) names e) (refl, tt)

-- The metadata does not ask for a clean-up.
abbrev unkept : World
unkept = record lab { sr_metadata = λ h path. ok (("zpool", "tank") ∷ ("dataset", "vols") ∷ []) }

ls-no_cleanup_example : Adds (DestroysOnly (λ name. ⊥)) [] (ls unkept "sr" [])
unfolding cleanup_enabled get_default lookup
ls-no_cleanup_example =
    ls-no_cleanup unkept "sr" []
      λ h meta e. subst (λ m. cleanup_enabled m ≡ false) (ok-injective _ _ e) refl

probe-IsRead_example : Adds IsRead [] (probe lab (("path", "tank/vols") ∷ []) [])
probe-IsRead_example = probe-IsRead lab (("path", "tank/vols") ∷ []) []

abbrev settings : Dict
settings = ("path", "tank/vols") ∷ ("compression", "LZ4") ∷ []

-- The dataset of the new SR is not there, and no other is marked.
abbrev vacant : World
vacant = record lab {
  run = λ h cmd.
      if contains cmd "tank/vols/sr-1"
      then some out_of_space
      else if contains cmd "xcp:sr"
      then answers "-\n"
      else answers "tank\ntank/vols\n";
}

create_checks-IsChecked_example :
    Ran IsRead (IsChecked vacant [] settings) [] (create_checks vacant "sr-1" settings [])
create_checks-IsChecked_example = create_checks-IsChecked vacant "sr-1" settings []

probe_features-IsBacked_example :
    (f : ZfsFeatures) × ((probe_features lab "tank" []).0 ≡ ok f)
    × All (IsBacked f) f.capabilities
    × Adds IsRead [] (probe_features lab "tank" [])
probe_features-IsBacked_example = probe_features-IsBacked lab "tank" []
