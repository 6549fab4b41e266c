-- ===== src/Store/Health.antt =====
-- src/store.rs: the health of the model routes. Probe results, quarantine, resets and the failure
-- counter. A schema from 11 on is modelled; below 14 the counters and epochs are not used.
pub mod Invariant
pub mod Quarantine
pub mod Threshold
pub mod Stale
pub mod Recovery
use local_api_relay.Common.{
  ℕ, suc, String, Bool, true, false, not, ◌&&◌, ◌||◌, Option, none, some, List, [], ◌∷◌, ◌++◌, ltb,
  leb, ◌==◌, if◌then◌else◌, is_some, ◌≡◌, ap, update_where, count_where, find_where,
}
use local_api_relay.Common.Int.{ℤ, pos, ltb_ℤ, add_i64}
use local_api_relay.Common.Text.{Text, text_eq}
use local_api_relay.Store.{
  RouteHealth, checking, available, unavailable, is_available, is_unavailable, RecoverySettings,
  HealthRow, Event, check_available, check_unavailable, quarantined, Store, Result, ok, err, ◌>>=◌,
  ◌>>◌, guard, ok_or, bail, sql, Env,
}
use local_api_relay.Store.Settings.{interval_for, recovery_settings}

-- `WHERE model_route_id = ?`
abbrev pub is_route : Text → HealthRow → Bool
is_route id h = text_eq h.route_id id

abbrev pub health_v14 : Store → Bool
health_v14 s = leb 14 s.schema

unfoldable pub health_of : Text → Store → Option HealthRow
health_of id s = find_where (is_route id) s.health

abbrev pub push_event : Store → Event → Store
push_event s e = record s { events = s.events ++ e ∷ [] }

-- The row that a reset writes; the counter exists from schema 14 on.
unfoldable pub reset_row : Bool → HealthRow → HealthRow
reset_row v14 h = record h {
  state = checking;
  checked_at = none;
  failure_category = none;
  failed_probe_count = 0;
  next_probe_at_ms = none;
  consecutive_failures = if v14 then 0 else h.consecutive_failures;
}

unfoldable pub reset_route_checking : Store → Text → Store
reset_route_checking s id = record s {
  health = update_where (is_route id) (reset_row (health_v14 s)) s.health;
}

-- The first statement of `startup_probe_configurations`.
unfoldable pub reset_all_checking : Store → Store
reset_all_checking s = record s {
  health = update_where (λ h. true) (reset_row (health_v14 s)) s.health;
}

-- `clear_route_failure_count`
unfoldable pub clear_route_failure_count : Store → Text → Store
clear_route_failure_count s id =
    if health_v14 s
    then record s {
      health = update_where (is_route id) (λ h. record h { consecutive_failures = 0 }) s.health;
    }
    else s

-- The row that a successful probe writes.
unfoldable pub available_row : Bool → Env → Option ℕ → HealthRow → HealthRow
available_row v14 env http_status h = record h {
  state = available;
  checked_at = some env.epoch_seconds;
  failure_category = none;
  failed_probe_count = 0;
  next_probe_at_ms = none;
  last_http_status = if v14 then http_status else h.last_http_status;
  consecutive_failures = if v14 then 0 else h.consecutive_failures;
}

-- The row that a failed probe writes, after `k` failures.
unfoldable pub failed_row : Bool → Env → RecoverySettings → Option ℕ → ℕ → HealthRow → HealthRow
failed_row v14 env settings http_status k h = record h {
  state = unavailable;
  checked_at = some env.epoch_seconds;
  failure_category = some "native_check_failed";
  failed_probe_count = k;
  next_probe_at_ms = some (add_i64 env.recovery_now_ms (interval_for settings k));
  last_http_status = if v14 then http_status else h.last_http_status;
  consecutive_failures = if v14 then 0 else h.consecutive_failures;
}

-- Only a failed recovery probe advances the count.
abbrev pub next_failed_count : RouteHealth → ℕ → ℕ
next_failed_count state k = if is_unavailable state then suc k else 0

-- The row that the last statement of `quarantine_route` writes.
unfoldable pub quarantined_row :
    Bool → Env → RecoverySettings → String → Option ℕ → HealthRow → HealthRow
quarantined_row v14 env settings failure_category http_status h = record h {
  state = unavailable;
  checked_at = some env.epoch_seconds;
  failure_category = some failure_category;
  failed_probe_count = 0;
  next_probe_at_ms = some (add_i64 env.recovery_now_ms (interval_for settings 0));
  last_http_status = if v14 then http_status else h.last_http_status;
  consecutive_failures = if v14 then 0 else h.consecutive_failures;
  quarantine_epoch = if v14 then suc h.quarantine_epoch else h.quarantine_epoch;
}

-- `WHERE model_route_id = ? AND quarantine_epoch = ?`, the second part from schema 14 on.
abbrev pub at_epoch : Bool → Text → ℕ → HealthRow → Bool
at_epoch v14 id epoch h = is_route id h && (not v14 || h.quarantine_epoch == epoch)

-- The statement of a failed probe.
unfoldable pub mark_failed : Env → Store → Text → ℕ → Option ℕ → RecoverySettings → Bool → ℕ → Store
mark_failed env s id k http_status settings v14 epoch = record s {
  health =
      update_where (at_epoch v14 id epoch) (failed_row v14 env settings http_status k) s.health;
}

unfoldable pub apply_failed_probe :
    Env → Store → Text → RouteHealth → ℕ → Option ℕ → RecoverySettings → Bool → ℕ → Result Store
apply_failed_probe env s id state failed_probe_count http_status settings v14 epoch =
    let k = next_failed_count state failed_probe_count in
    let s' = mark_failed env s id k http_status settings v14 epoch in
    if count_where (at_epoch v14 id epoch) s.health == 1
    then ok (push_event s' (check_unavailable id k))
    else err (bail "model route does not exist")

-- The statement of a successful probe.
unfoldable pub mark_available : Env → Store → Text → ℕ → Option ℕ → Store
mark_available env s id epoch http_status =
    let v14 = health_v14 s in
    record s {
      health = update_where (at_epoch v14 id epoch) (available_row v14 env http_status) s.health;
    }

unfoldable pub record_success : Env → Store → Text → ℕ → Option ℕ → Result Store
record_success env s id epoch http_status =
    let s' = mark_available env s id epoch http_status in
    if count_where (at_epoch (health_v14 s) id epoch) s.health == 1
    then ok (push_event s' (check_available id))
    else if is_some (find_where (is_route id) s'.health)
    then ok s'
    else err (bail "model route does not exist")

unfoldable pub record_failure : Env → Store → Text → ℕ → Option ℕ → Result Store
record_failure env s id epoch http_status = do
  let v14 = health_v14 s
  h ← ok_or (health_of id s) (bail "model route does not exist")
  if v14 && not (h.quarantine_epoch == epoch)
      then ok s
      else apply_failed_probe env s id h.state h.failed_probe_count http_status
          (recovery_settings env s) v14 (if v14 then epoch else 0)

unfoldable pub record_probe_result : Env → Store → Text → ℕ → Bool → Option ℕ → Result Store
record_probe_result env s id epoch succeeded http_status = do
  guard (not env.fail_operational_write) (bail "injected operational write failure")
  if succeeded
      then record_success env s id epoch http_status
      else record_failure env s id epoch http_status

-- Below schema 14 a failure takes an available route out at once.
unfoldable pub quarantine_pre_v14 : Env → Store → Text → String → Option ℕ → Result Store
quarantine_pre_v14 env s id failure_category http_status =
    let hit = λ (h : HealthRow). is_route id h && is_available h.state in
    let settings = recovery_settings env s in
    let s' = record s {
      health =
          update_where hit (quarantined_row false env settings failure_category http_status)
            s.health;
    } in
    if count_where hit s.health == 1
    then ok (push_event s' (quarantined id failure_category))
    else ok s'

-- The first statement of a quarantine: one more failure.
unfoldable pub count_failure : Store → Text → Option ℕ → Store
count_failure s id http_status = record s {
  health =
      update_where (is_route id)
        (λ h. record h {
          consecutive_failures = suc h.consecutive_failures;
          last_http_status = http_status;
        })
        s.health;
}

-- The last statement of a quarantine, and its event.
unfoldable pub take_out : Env → Store → Text → String → Option ℕ → Store
take_out env s id failure_category http_status =
    let row = quarantined_row true env (recovery_settings env s) failure_category http_status in
    push_event (record s { health = update_where (is_route id) row s.health })
      (quarantined id failure_category)

unfoldable pub quarantine_v14 : Env → Store → Text → String → Option ℕ → Result Store
quarantine_v14 env s id failure_category http_status = do
  let settings = recovery_settings env s
  let s' = count_failure s id http_status
  h ← ok_or (health_of id s') sql
  if ltb_ℤ (pos h.consecutive_failures) settings.quarantine_threshold || not (is_available h.state)
      then ok s'
      else ok (take_out env s' id failure_category http_status)

unfoldable pub quarantine_route : Env → Store → Text → String → Option ℕ → Result Store
quarantine_route env s id failure_category http_status = do
  guard (not env.fail_operational_write) (bail "injected operational write failure")
  if health_v14 s
      then quarantine_v14 env s id failure_category http_status
      else quarantine_pre_v14 env s id failure_category http_status

pub health_of-same :
    (id : Text) (s s' : Store) → s'.health ≡ s.health → health_of id s' ≡ health_of id s
unfolding health_of
health_of-same id s s' e = ap (find_where (is_route id)) e
