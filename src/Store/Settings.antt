-- ===== src/Store/Settings.antt =====
-- src/store.rs: the recovery settings, their validation, and the back-off interval.
pub mod Backoff
use local_api_relay.Common.{
  ℕ, suc, ◌-◌, ◌^◌, ◌≤◌, ◌<◌, min, Bool, true, false, not, Option, none, some, List, arith, ◌≡◌,
  ltb, leb, if◌then◌else◌, unwrap_or, update_where,
}
use local_api_relay.Common.Int.{
  ℤ, pos, leb_ℤ, in_range, max_ℤ, min_ℤ, i64_max, add_i64, mul_i64, as_u32,
}
use local_api_relay.Store.{
  RecoverySettings, HealthRow, is_unavailable, Store, Result, ok, err, ◌>>=◌, ◌>>◌, guard, bail,
  sql, Env,
}

abbrev pub min_recovery_base_interval_ms : ℤ
min_recovery_base_interval_ms = pos 100

abbrev pub max_recovery_base_interval_ms : ℤ
max_recovery_base_interval_ms = pos 86_400_000

abbrev pub max_recovery_doubling_limit : ℤ
max_recovery_doubling_limit = pos 20

abbrev pub min_timeout_ms : ℤ
min_timeout_ms = pos 1_000

abbrev pub max_timeout_ms : ℤ
max_timeout_ms = pos 3_600_000

abbrev pub max_freshness_interval_ms : ℤ
max_freshness_interval_ms = pos 86_400_000

abbrev pub max_quarantine_threshold : ℤ
max_quarantine_threshold = pos 5

abbrev pub max_upstream_sync_interval_ms : ℤ
max_upstream_sync_interval_ms = pos 604_800_000

-- `RecoverySettings::default`
abbrev pub default_settings : RecoverySettings
default_settings = record {
  base_interval_ms = pos 30_000;
  doubling_limit = pos 5;
  first_event_timeout_ms = pos 120_000;
  stream_idle_timeout_ms = pos 30_000;
  nonstream_timeout_ms = pos 120_000;
  freshness_interval_ms = pos 600_000;
  quarantine_threshold = pos 2;
  upstream_sync_interval_ms = pos 86_400_000;
}

-- `2_i64.saturating_pow(exponent)`
unfoldable pub pow2_saturating : ℕ → ℕ
pow2_saturating e = if ltb e 63 then 2 ^ e else i64_max

-- `failed_probe_count.max(0).min(self.doubling_limit) as u32`
unfoldable pub exponent : RecoverySettings → ℕ → ℕ
unfolding as_u32
exponent r failed_probe_count =
    as_u32 (min_ℤ (max_ℤ (pos failed_probe_count) (pos 0)) r.doubling_limit)

unfoldable pub interval_for : RecoverySettings → ℕ → ℤ
unfolding exponent pow2_saturating
interval_for r failed_probe_count =
    mul_i64 r.base_interval_ms (pos (pow2_saturating (exponent r failed_probe_count)))

-- The override counts only if it is a threshold that the settings would accept.
unfoldable pub effective_threshold : Option ℤ → ℤ → ℤ
effective_threshold none persisted = persisted
effective_threshold (some t) persisted =
    if in_range (pos 1) max_quarantine_threshold t then t else persisted

-- `Store::recovery_settings`: a column that the live schema lacks reads as its default.
unfoldable pub recovery_settings : Env → Store → RecoverySettings
recovery_settings env s = record {
  base_interval_ms = row.base_interval_ms;
  doubling_limit = row.doubling_limit;
  first_event_timeout_ms =
      if leb 12 s.schema
      then row.first_event_timeout_ms
      else default_settings.first_event_timeout_ms;
  stream_idle_timeout_ms =
      if leb 12 s.schema
      then row.stream_idle_timeout_ms
      else default_settings.stream_idle_timeout_ms;
  nonstream_timeout_ms =
      if leb 12 s.schema then row.nonstream_timeout_ms else default_settings.nonstream_timeout_ms;
  freshness_interval_ms =
      if leb 13 s.schema then row.freshness_interval_ms else default_settings.freshness_interval_ms;
  quarantine_threshold =
      effective_threshold env.threshold_override (
        if leb 14 s.schema
        then row.quarantine_threshold
        else default_settings.quarantine_threshold);
  upstream_sync_interval_ms =
      if leb 15 s.schema
      then row.upstream_sync_interval_ms
      else default_settings.upstream_sync_interval_ms;
}
  where
    open s use {settings as row}

-- The checks of `update_recovery_settings`, in their order.
unfoldable pub validate_settings : RecoverySettings → Result (Unit {0})
validate_settings r = do
  guard (in_range min_recovery_base_interval_ms max_recovery_base_interval_ms r.base_interval_ms)
      (bail "base recovery interval")
  guard (in_range (pos 0) max_recovery_doubling_limit r.doubling_limit) (bail "doubling limit")
  guard (in_range (pos 0) max_freshness_interval_ms r.freshness_interval_ms)
      (bail "freshness interval")
  guard (in_range (pos 1) max_quarantine_threshold r.quarantine_threshold)
      (bail "quarantine threshold")
  guard (in_range (pos 0) max_upstream_sync_interval_ms r.upstream_sync_interval_ms)
      (bail "upstream sync interval")
  guard (in_range min_timeout_ms max_timeout_ms r.first_event_timeout_ms)
      (bail "first-event timeout")
  guard (in_range min_timeout_ms max_timeout_ms r.stream_idle_timeout_ms)
      (bail "stream idle timeout")
  guard (in_range min_timeout_ms max_timeout_ms r.nonstream_timeout_ms)
      (bail "non-streaming timeout")
  ok tt

-- The request: an optional setting that is left out keeps its current value.
pub record SettingsUpdate : Type 0 where
  pub base_interval_ms : ℤ
  pub doubling_limit : ℤ
  pub first_event_timeout_ms : Option ℤ
  pub stream_idle_timeout_ms : Option ℤ
  pub nonstream_timeout_ms : Option ℤ
  pub freshness_interval_ms : Option ℤ
  pub quarantine_threshold : Option ℤ
  pub upstream_sync_interval_ms : Option ℤ

unfoldable pub merge_settings : RecoverySettings → SettingsUpdate → RecoverySettings
merge_settings current u = record {
  base_interval_ms = u.base_interval_ms;
  doubling_limit = u.doubling_limit;
  first_event_timeout_ms = unwrap_or current.first_event_timeout_ms u.first_event_timeout_ms;
  stream_idle_timeout_ms = unwrap_or current.stream_idle_timeout_ms u.stream_idle_timeout_ms;
  nonstream_timeout_ms = unwrap_or current.nonstream_timeout_ms u.nonstream_timeout_ms;
  freshness_interval_ms = unwrap_or current.freshness_interval_ms u.freshness_interval_ms;
  quarantine_threshold = unwrap_or current.quarantine_threshold u.quarantine_threshold;
  upstream_sync_interval_ms =
      unwrap_or current.upstream_sync_interval_ms u.upstream_sync_interval_ms;
}

-- One round of the loop that recomputes the schedule of the unavailable routes.
unfoldable pub reschedule : RecoverySettings → ℤ → HealthRow → HealthRow
reschedule r now_ms h = record h {
  next_probe_at_ms = some (add_i64 now_ms (interval_for r h.failed_probe_count));
}

-- The loop updates each unavailable row by its primary key, from that row's own count, so it is one
-- update of all of them. A schema below 15 lacks a column that the first statement sets.
unfoldable pub update_recovery_settings : Env → Store → SettingsUpdate → Result Store
update_recovery_settings env s u = do
  let r = merge_settings (recovery_settings env s) u
  validate_settings r
  guard (leb 15 s.schema) sql
  guard (not env.fail_config_commit) (bail "injected configuration commit failure")
  ok (record s {
    settings = r;
    health = update_where (λ h. is_unavailable h.state) (reschedule r env.recovery_now_ms) s.health;
  })
