-- ===== src/Lzc/Kinds.antt =====
-- Which kinds of events the retried ioctls of lzc.py add.
use zfs_live_xapi.Prelude.{ℕ, zero, suc, String, Bool, true, false, ◌==◌, ◌-◌, not, if◌then◌else◌}
use zfs_live_xapi.Effects.{World, Event, slept, ioctl, destroy, M, ok, pure}
use zfs_live_xapi.Effects.Triple.{
  Does, Anything, pure-Does, raise-Does, then-Does, if_any-Does, call_lzc-Does, sleep-Does,
}
use zfs_live_xapi.Lzc.Retry.{
  is_retryable, retry_rounds, with_retry, destroy_one, destroy_with_retry,
}

module _ (P : Event → Type 0) (w : World) where
  pub retry_rounds-Does :
      (n : ℕ) (attempt : M ℕ) (rc : ℕ)
      → P slept
      → Does P Anything attempt
      → Does P Anything (retry_rounds w n attempt rc)
  unfolding retry_rounds
  retry_rounds-Does zero attempt rc p d = pure-Does P Anything rc tt
  retry_rounds-Does (suc n) attempt rc p d = then-Does P Anything _ _ (sleep-Does P w p) λ _.
      then-Does P Anything _ _ d
        λ r. branch (r == 0) (r == 16) r (retry_rounds-Does n attempt r p d)
    where
      branch :
          (a b : Bool) (r : ℕ)
          → Does P Anything (retry_rounds w n attempt r)
          → Does P Anything (elim a as (λ _. M ℕ) [
            | true ↦ λ h. (ok 0, h)
            | false ↦ elim b [ true ↦ retry_rounds w n attempt r | false ↦ λ h. (ok r, h) ]
          ])
      branch true b r more = pure-Does P Anything 0 tt
      branch false true r more = more
      branch false false r more = pure-Does P Anything r tt

  pub with_retry-Does :
      (n : ℕ) (attempt : M ℕ)
      → P slept
      → Does P Anything attempt
      → Does P Anything (with_retry w n attempt)
  unfolding with_retry
  with_retry-Does n attempt p d =
      then-Does P Anything attempt
        (λ rc.
          if rc == 0
          then pure 0
          else if not (is_retryable rc)
          then pure rc
          else retry_rounds w (n - 1) attempt rc)
        d
        λ rc.
          if_any-Does P Anything (rc == 0) (pure 0)
            (if not (is_retryable rc) then pure rc else retry_rounds w (n - 1) attempt rc)
            (pure-Does P Anything 0 tt)
            (if_any-Does P Anything (not (is_retryable rc)) (pure rc)
              (retry_rounds w (n - 1) attempt rc) (pure-Does P Anything rc tt)
              (retry_rounds-Does (n - 1) attempt rc p d))

  pub destroy_with_retry-Does :
      (name : String)
      → P slept
      → P (ioctl (destroy name))
      → Does P Anything (destroy_with_retry w name)
  unfolding destroy_with_retry destroy_one
  destroy_with_retry-Does name p q =
      with_retry-Does 10 _ p
        (if_any-Does P Anything _ _ _ (call_lzc-Does P w _ q) (raise-Does P Anything _))
