-- ===== src/Lzc/RetryLaws.antt =====
-- What the retry loops of lzc.py call and return, whatever the kernel answers.
use native.Mathlib.Nat.{div-add-mod, mod-lt, mul-mod_left}
use zfs_live_xapi.Prelude.{
  ◌^◌, ℕ, zero, suc, ◌+◌, ◌-◌, ◌/◌, ◌%◌, ◌<◌, ◌≤◌, ◌≡◌, ◌∷◌, Bool, false, arith, ◌==◌, ◌⊎◌, inl,
  inr, Bool-cases,
}
use zfs_live_xapi.Effects.{
  World, LzcCall, destroy, snapshot, clone, create, History, ioctl, slept, Result, ok, M,
}
use zfs_live_xapi.Lzc.Gates.{available, snapshot_available, clone_available, create_zvol_available}
use zfs_live_xapi.Lzc.Retry.{
  ebusy, rounded_volsize, destroy_with_retry, snapshot_with_retry, clone_with_retry,
  create_zvol_with_retry,
}

module _ (w : World) (c : LzcCall) where
  -- `k` attempts answered EBUSY, a pause after each, and one more answered `rc`.
  abbrev pub Tried : ℕ → History → ℕ → History → Type 0
  Tried zero h rc h' = (rc ≡ w.lzc h c) × (h' ≡ ioctl c ∷ h)
  Tried (suc k) h rc h' = (w.lzc h c ≡ ebusy) × Tried k (slept ∷ ioctl c ∷ h) rc h'

  -- At most `n` retries; EBUSY is the answer only once all of them are spent.
  abbrev pub RetryOutcome : ℕ → History → Result ℕ × History → Type 0
  RetryOutcome n h r =
      (rc : ℕ) × (h' : History) × (k : ℕ) × (r ≡ (ok rc, h'))
      × (k ≤ n)
      × Tried k h rc h'
      × (((rc == ebusy) ≡ false) ⊎ (k ≡ n))

module _ (w : World) where
  -- The retrying function for each ioctl, the ioctl that it issues, and its gate.
  abbrev pub call_with_retry : LzcCall → M ℕ
  call_with_retry (destroy name) = destroy_with_retry w name
  call_with_retry (snapshot name) = snapshot_with_retry w name
  call_with_retry (clone fsname origin) = clone_with_retry w fsname origin
  call_with_retry (create name size block) = create_zvol_with_retry w name size block

  abbrev pub issued : LzcCall → LzcCall
  issued (create name size block) =
      create name (rounded_volsize size block % 2 ^ 64) (block % 2 ^ 64)
  issued (destroy name) = destroy name
  issued (snapshot name) = snapshot name
  issued (clone fsname origin) = clone fsname origin

  abbrev pub is_open : LzcCall → Bool
  is_open (destroy name) = available w
  is_open (snapshot name) = snapshot_available w
  is_open (clone fsname origin) = clone_available w
  is_open (create name size block) = create_zvol_available w

-- For a positive block size, the size that `create_zvol` passes on, before
-- it is cut to 64 bits, is the least whole number of blocks that holds the
-- requested size.
pub rounded_volsize_lem :
    (size block : ℕ)
    → 0 < block
    → (size ≤ rounded_volsize size block)
      × (rounded_volsize size block < size + block)
      × (rounded_volsize size block % block ≡ 0)
unfolding rounded_volsize
rounded_volsize_lem size block h =
    let parts = div-add-mod size block in
    let ceiling = div-add-mod (size + block - 1) block in
    let rest = mod-lt (size + block - 1) h in
    let exact = mul-mod_left ((size + block - 1) / block) block in
    elim (Bool-cases (size % block == 0)) [
      | inl e ↦ rw e (ground arith)
      | inr e ↦ rw e (ground arith)
    ]
