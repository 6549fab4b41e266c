-- ===== src/Store/Settings/Backoff.antt =====
-- src/store.rs, `RecoverySettings::interval_for`: what validated settings guarantee of the back-off.
use native.Mathlib.Nat.{pow-le-pow_right, mul-le-mul, mul-le-mul_left, one-le-pow}
use local_api_relay.Common.{ℕ, ◌+◌, ◌*◌, ◌^◌, ◌≤◌, ◌<◌, min, arith, ◌≡◌, ◌↔◌, ap}
use local_api_relay.Common.Int.{
  ℤ, pos, negsuc, min_ℤ, max_ℤ, pos_part, neg_part, ◌≤ℤ◌, ◌*ℤ◌, mul_i64, wrap_i64, as_u32,
}
use local_api_relay.Store.{RecoverySettings, ok}
use local_api_relay.Store.Settings.{
  min_recovery_base_interval_ms, max_recovery_base_interval_ms, max_recovery_doubling_limit,
  min_timeout_ms, max_timeout_ms, max_freshness_interval_ms, max_quarantine_threshold,
  max_upstream_sync_interval_ms, validate_settings, exponent, pow2_saturating, interval_for,
}

abbrev pub Within : ℤ → ℤ → ℤ → Type 0
Within lo hi x = (lo ≤ℤ x) × (x ≤ℤ hi)

-- The settings that the management surface may store.
pub record IsValid (r : RecoverySettings) : Type 0 where
  pub base : Within min_recovery_base_interval_ms max_recovery_base_interval_ms r.base_interval_ms
  pub doubling : Within (pos 0) max_recovery_doubling_limit r.doubling_limit
  pub freshness : Within (pos 0) max_freshness_interval_ms r.freshness_interval_ms
  pub threshold : Within (pos 1) max_quarantine_threshold r.quarantine_threshold
  pub sync : Within (pos 0) max_upstream_sync_interval_ms r.upstream_sync_interval_ms
  pub first_event : Within min_timeout_ms max_timeout_ms r.first_event_timeout_ms
  pub idle : Within min_timeout_ms max_timeout_ms r.stream_idle_timeout_ms
  pub nonstream : Within min_timeout_ms max_timeout_ms r.nonstream_timeout_ms

validate_settings_sound : (r : RecoverySettings) → validate_settings r ≡ ok tt → IsValid r
unfolding validate_settings
validate_settings_sound r h = ground arith

validate_settings_complete : (r : RecoverySettings) → IsValid r → validate_settings r ≡ ok tt
unfolding validate_settings
validate_settings_complete r h = ground arith

-- The validation accepts exactly the settings whose eight values lie in their ranges.
pub validate_settings_iff : (r : RecoverySettings) → (validate_settings r ≡ ok tt) ↔ IsValid r
validate_settings_iff r = (validate_settings_sound r, validate_settings_complete r)

Within-parts :
    (lo hi : ℕ) (z : ℤ)
    → Within (pos lo) (pos hi) z
    → (lo ≤ pos_part z) × (pos_part z ≤ hi) × (neg_part z ≡ 0)
Within-parts lo hi (pos n) h = omega arith
Within-parts lo hi (negsuc n) h = absurd (omega arith)

as_u32-min :
    (k : ℕ) (l : ℤ)
    → Within (pos 0) max_recovery_doubling_limit l
    → as_u32 (min_ℤ (max_ℤ (pos k) (pos 0)) l) ≡ min k (pos_part l)
unfolding as_u32
as_u32-min k (pos n) h = ground arith
as_u32-min k (negsuc n) h = absurd (omega arith)

mul_i64_pos :
    (b : ℤ) (p : ℕ)
    → pos 0 ≤ℤ b
    → pos_part b * p < 2 ^ 63
    → mul_i64 b (pos p) ≡ pos (pos_part b * p)
unfolding mul_i64 ◌*ℤ◌ wrap_i64
mul_i64_pos (pos n) p h lt = ground arith
mul_i64_pos (negsuc n) p h lt = absurd (omega arith)

pow2_saturating_small : (e : ℕ) → e ≤ 20 → pow2_saturating e ≡ 2 ^ e
unfolding pow2_saturating
pow2_saturating_small e h = ground arith

-- The largest interval: 86 400 000 ms, doubled 20 times.
product_bound : (b e : ℕ) → b ≤ 86_400_000 → e ≤ 20 → b * 2 ^ e ≤ 86_400_000 * 2 ^ 20
product_bound b e hb he = mul-le-mul hb (pow-le-pow_right (omega arith) he)

pub exponent-eq-min :
    (r : RecoverySettings) (k : ℕ) → IsValid r → exponent r k ≡ min k (pos_part r.doubling_limit)
unfolding exponent
exponent-eq-min r k v = as_u32-min k r.doubling_limit v.doubling

-- For valid settings the interval after any number k of failed probes is the base times 2 ^ min(k,
-- limit), with no wrap-around and no saturation.
pub interval_for-eq :
    (r : RecoverySettings) (k : ℕ)
    → IsValid r
    → interval_for r k ≡ pos (pos_part r.base_interval_ms * 2 ^ min k (pos_part r.doubling_limit))
unfolding interval_for
interval_for-eq r k v =
    let small : min k (pos_part r.doubling_limit) ≤ 20 =
      omega (arith, Within-parts 0 20 r.doubling_limit v.doubling) in
    let bound =
      product_bound (pos_part r.base_interval_ms) (min k (pos_part r.doubling_limit))
        (omega (arith, Within-parts 100 86_400_000 r.base_interval_ms v.base)) small in
    rw (exponent-eq-min r k v, pow2_saturating_small _ small)
      (mul_i64_pos r.base_interval_ms _ (omega (arith, v.base)) (omega (arith, bound)))

min_mono : (k m n : ℕ) → k ≤ m → min k n ≤ min m n
min_mono k m n h = omega arith

-- For valid settings the interval never shrinks as probes fail, never goes below the base or above
-- 86 400 000 * 2 ^ 20 ms, and stands still once the number of failures has reached the doubling
-- limit.
pub interval_for_bounds :
    (r : RecoverySettings) (k m : ℕ)
    → IsValid r
    → k ≤ m
    → (r.base_interval_ms ≤ℤ interval_for r k)
      × (interval_for r k ≤ℤ interval_for r m)
      × (interval_for r m ≤ℤ pos (86_400_000 * 2 ^ 20))
      × (interval_for r (pos_part r.doubling_limit + k)
          ≡ interval_for r (pos_part r.doubling_limit))
interval_for_bounds r k m v h =
    let b = pos_part r.base_interval_ms in
    let n = pos_part r.doubling_limit in
    let base = Within-parts 100 86_400_000 r.base_interval_ms v.base in
    let limit = Within-parts 0 20 r.doubling_limit v.doubling in
    let positive = mul-le-mul_left b (one-le-pow (min k n) 2 (omega arith)) in
    let longer = mul-le-mul_left b (pow-le-pow_right {n = 2} (omega arith) (min_mono k m n h)) in
    let bound = product_bound b (min m n) (omega arith) (omega arith) in
    rw
      (
        interval_for-eq r k v,
        interval_for-eq r m v,
        interval_for-eq r (n + k) v,
        interval_for-eq r n v,
      )
      (omega arith, omega arith, omega arith, ap (λ (x : ℕ). pos (b * 2 ^ x)) (omega arith))
