-- ===== src/Zfs/Reservation.antt =====
-- Keeping the reservation of thick zvols.
use zfs_live_xapi.Prelude.{ℕ, ◌*◌, String, Bool, not, ◌||◌, ltb, ◌==◌, str_eq, if◌then◌else◌}
use zfs_live_xapi.Prelude.Text.{parse_int}
use zfs_live_xapi.Effects.{World, M, pure, ◌>>=◌}
use zfs_live_xapi.Zfs.Command.{int_or_raise}
use zfs_live_xapi.Zfs.Zvols.{vol_get_property, get_zvol_size_bytes, set_refreservation}

abbrev pub reads_as_none : String → Bool
reads_as_none s = str_eq s "0" || (str_eq s "none" || (str_eq s "-" || str_eq s ""))

module _ (w : World) where
  unfoldable pub vol_get_refreservation : String → M ℕ
  vol_get_refreservation vol_name = do
    result ← vol_get_property w vol_name "refreservation"
    if reads_as_none result then pure 0 else int_or_raise w (parse_int result)

  -- The size of the zvol times its effective copies.
  unfoldable pub thick_reservation : String → M ℕ
  thick_reservation vol_name = do
    volsize ← get_zvol_size_bytes w vol_name
    effective ← vol_get_property w vol_name "copies"
    copies ← int_or_raise w (parse_int effective)
    pure (volsize * copies)

  unfoldable pub vol_sync_thick_refreservation : String → M (Unit {0})
  vol_sync_thick_refreservation vol_name = do
    refreservation ← vol_get_refreservation vol_name
    if ltb 0 refreservation
        then (do
          new_reservation ← thick_reservation vol_name
          if not (new_reservation == refreservation)
              then set_refreservation w new_reservation vol_name
              else pure tt)
        else pure tt

  unfoldable pub vol_set_thick_refreservation : String → M (Unit {0})
  vol_set_thick_refreservation vol_name = do
    reservation ← thick_reservation vol_name
    set_refreservation w reservation vol_name
