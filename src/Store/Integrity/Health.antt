-- ===== src/Store/Integrity/Health.antt =====
-- src/store.rs: the operations on the health of the routes keep the tables whole.
use local_api_relay.Common.{
  ℕ, String, Bool, true, false, not, ◌&&◌, ◌||◌, Option, List, [], ◌∷◌, ◌++◌, leb, ◌==◌, is_some,
  Bool-cases, inl, inr, refl, find_where, count_where, update_where, count_where-update,
  if◌then◌else◌,
}
use local_api_relay.Common.Int.{pos, ltb_ℤ}
use local_api_relay.Common.Text.{Text}
use local_api_relay.Store.{
  RouteHealth, RecoverySettings, HealthRow, Event, is_available, is_unavailable, Store, Result,
  ok_or, bail, sql, Env,
}
use local_api_relay.Store.Ensures.{Ensures, failed, done, Ensures-bind, Ensures-guard, Ensures-if}
use local_api_relay.Store.Settings.{
  SettingsUpdate, merge_settings, validate_settings, recovery_settings, reschedule,
  update_recovery_settings,
}
use local_api_relay.Store.Health.{
  is_route, health_v14, health_of, next_failed_count, reset_row, reset_route_checking,
  reset_all_checking, clear_route_failure_count, available_row, failed_row, quarantined_row,
  at_epoch, mark_available, mark_failed, push_event, apply_failed_probe, record_success,
  record_failure, record_probe_result, quarantine_pre_v14, count_failure, take_out, quarantine_v14,
  quarantine_route,
}
use local_api_relay.Store.Health.Invariant.{
  HealthOp, probe, quarantine, clear, reset, restart, change_settings, step, after,
}
use local_api_relay.Store.Integrity.{IsWhole}
use local_api_relay.Store.Integrity.Scopes.{kept-IsWhole}
use local_api_relay.Store.Integrity.Config.{health-IsWhole}

pub after-IsWhole :
    (s : Store) (r : Result Store) → IsWhole s → Ensures IsWhole r → IsWhole (after s r)
after-IsWhole s r whole failed = whole
after-IsWhole s r whole (done w) = w

events-IsWhole :
    (s : Store) (events : List Event) → IsWhole s → IsWhole (record s { events = events })
events-IsWhole s events =
    kept-IsWhole s s.settings s.providers s.models s.keys s.health events (λ id h. h) (λ id h. h)
      (λ id h. h) (λ id. refl)

push_event-IsWhole : (s : Store) (e : Event) → IsWhole s → IsWhole (push_event s e)
push_event-IsWhole s e = events-IsWhole s (s.events ++ e ∷ [])

module _ (env : Env) (s : Store) (id : Text) (whole : IsWhole s) where
  success-IsWhole :
      (epoch : ℕ) (http : Option ℕ) → Ensures IsWhole (record_success env s id epoch http)
  unfolding record_success mark_available available_row
  success-IsWhole epoch http =
      let v14 = health_v14 s in
      let whole' : IsWhole (mark_available env s id epoch http) =
        health-IsWhole s (at_epoch v14 id epoch) (available_row v14 env http) (λ id h. refl)
          whole in
      Ensures-if (count_where (at_epoch v14 id epoch) s.health == 1)
        (done (push_event-IsWhole (mark_available env s id epoch http) _ whole'))
        (Ensures-if (is_some (find_where (is_route id) (mark_available env s id epoch http).health))
          (done whole') failed)

  failed_probe-IsWhole :
      (state : RouteHealth) (k : ℕ) (http : Option ℕ) (settings : RecoverySettings) (v14 : Bool)
      (epoch : ℕ)
      → Ensures IsWhole (apply_failed_probe env s id state k http settings v14 epoch)
  unfolding apply_failed_probe mark_failed failed_row
  failed_probe-IsWhole state k http settings v14 epoch =
      let count = next_failed_count state k in
      Ensures-if (count_where (at_epoch v14 id epoch) s.health == 1)
        (done (
          push_event-IsWhole (mark_failed env s id count http settings v14 epoch) _ (
            health-IsWhole s (at_epoch v14 id epoch) (failed_row v14 env settings http count)
              (λ id h. refl) whole)))
        failed

  failure-IsWhole :
      (epoch : ℕ) (http : Option ℕ) → Ensures IsWhole (record_failure env s id epoch http)
  unfolding record_failure
  failure-IsWhole epoch http =
      Ensures-bind (ok_or (health_of id s) (bail "model route does not exist")) λ h _.
        Ensures-if (health_v14 s && not (h.quarantine_epoch == epoch)) (done whole) (
          failed_probe-IsWhole h.state h.failed_probe_count http (recovery_settings env s)
            (health_v14 s) (if health_v14 s then epoch else 0))

  probe-IsWhole :
      (epoch : ℕ) (succeeded : Bool) (http : Option ℕ)
      → Ensures IsWhole (record_probe_result env s id epoch succeeded http)
  unfolding record_probe_result
  probe-IsWhole epoch succeeded http =
      Ensures-guard (not env.fail_operational_write) _
        λ _. Ensures-if succeeded (success-IsWhole epoch http) (failure-IsWhole epoch http)

  pre_v14-IsWhole :
      (category : String) (http : Option ℕ)
      → Ensures IsWhole (quarantine_pre_v14 env s id category http)
  unfolding quarantine_pre_v14 quarantined_row
  pre_v14-IsWhole category http =
      let hit = λ (h : HealthRow). is_route id h && is_available h.state in
      let row = quarantined_row false env (recovery_settings env s) category http in
      let whole' = health-IsWhole s hit row (λ id h. refl) whole in
      Ensures-if (count_where hit s.health == 1)
        (done (push_event-IsWhole (record s { health = update_where hit row s.health }) _ whole'))
        (done whole')

  count_failure-IsWhole : (http : Option ℕ) → IsWhole (count_failure s id http)
  unfolding count_failure
  count_failure-IsWhole http = health-IsWhole s (is_route id) _ (λ id h. refl) whole

  clear-IsWhole : IsWhole (clear_route_failure_count s id)
  unfolding clear_route_failure_count
  clear-IsWhole = elim (Bool-cases (health_v14 s)) [
    | inl e ↦ rw e (
        health-IsWhole s (is_route id) (λ h. record h { consecutive_failures = 0 }) (λ id h. refl)
          whole)
    | inr e ↦ rw e whole
  ]

take_out-IsWhole :
    (env : Env) (s : Store) (id : Text) (category : String) (http : Option ℕ)
    → IsWhole s
    → IsWhole (take_out env s id category http)
unfolding take_out quarantined_row
take_out-IsWhole env s id category http whole =
    let row = quarantined_row true env (recovery_settings env s) category http in
    push_event-IsWhole (record s { health = update_where (is_route id) row s.health }) _
      (health-IsWhole s (is_route id) row (λ id h. refl) whole)

module _ (env : Env) (s : Store) (id : Text) (category : String) (http : Option ℕ)
    (whole : IsWhole s) where
  v14-IsWhole : Ensures IsWhole (quarantine_v14 env s id category http)
  unfolding quarantine_v14
  v14-IsWhole =
      let s' = count_failure s id http in
      let whole' = count_failure-IsWhole env s id whole http in
      Ensures-bind (ok_or (health_of id s') sql) λ h _.
        Ensures-if
          (ltb_ℤ (pos h.consecutive_failures) (recovery_settings env s).quarantine_threshold
            || not (is_available h.state))
          (done whole') (done (take_out-IsWhole env s' id category http whole'))

  quarantine-IsWhole : Ensures IsWhole (quarantine_route env s id category http)
  unfolding quarantine_route
  quarantine-IsWhole =
      Ensures-guard (not env.fail_operational_write) _
        λ _. Ensures-if (health_v14 s) v14-IsWhole (pre_v14-IsWhole env s id whole category http)

settings-IsWhole :
    (env : Env) (s : Store) (u : SettingsUpdate)
    → IsWhole s
    → Ensures IsWhole (update_recovery_settings env s u)
unfolding update_recovery_settings reschedule
settings-IsWhole env s u whole =
    let r = merge_settings (recovery_settings env s) u in
    Ensures-bind (validate_settings r) λ unit _. Ensures-guard (leb 15 s.schema) _ λ _.
      Ensures-guard (not env.fail_config_commit) _ λ _. done (
        kept-IsWhole s r s.providers s.models s.keys
          (update_where (λ h. is_unavailable h.state) (reschedule r env.recovery_now_ms) s.health)
          s.events (λ id h. h) (λ id h. h) (λ id h. h)
          (λ id.
            count_where-update (is_route id) (λ h. is_unavailable h.state)
              (reschedule r env.recovery_now_ms) (λ h e. refl) s.health)
          whole)

-- No operation on the health of the routes adds, removes or renames a row.
pub step-IsWhole : (env : Env) (s : Store) (op : HealthOp) → IsWhole s → IsWhole (step env s op)
unfolding step reset_route_checking reset_all_checking reset_row
step-IsWhole env s (probe id epoch succeeded http) whole =
    after-IsWhole s _ whole (probe-IsWhole env s id whole epoch succeeded http)
step-IsWhole env s (quarantine id category http) whole =
    after-IsWhole s _ whole (quarantine-IsWhole env s id category http whole)
step-IsWhole env s (clear id) whole = clear-IsWhole env s id whole
step-IsWhole env s (reset id) whole =
    health-IsWhole s (is_route id) (reset_row (health_v14 s)) (λ id h. refl) whole
step-IsWhole env s restart whole =
    health-IsWhole s (λ h. true) (reset_row (health_v14 s)) (λ id h. refl) whole
step-IsWhole env s (change_settings u) whole =
    after-IsWhole s _ whole (settings-IsWhole env s u whole)
