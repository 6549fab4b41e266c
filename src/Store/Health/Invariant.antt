-- ===== src/Store/Health/Invariant.antt =====
-- src/store.rs: what every row of `model_route_health` satisfies, whatever the history.
use local_api_relay.Common.{
  ℕ, String, Bool, true, false, not, ◌&&◌, ◌||◌, Option, List, [], ◌∷◌, arith, ◌≡◌, ◌==◌, is_some,
  All, update_where, update_where-All, Bool-cases, Option-cases, inl, inr,
}
use local_api_relay.Common.Text.{Text}
use local_api_relay.Store.{
  is_unavailable, is_available, RecoverySettings, HealthRow, Store, Result, ok, err, Env,
}
use local_api_relay.Store.Settings.{
  SettingsUpdate, merge_settings, recovery_settings, reschedule, update_recovery_settings,
}
use local_api_relay.Store.Health.{
  is_route, health_v14, health_of, next_failed_count, reset_row, reset_route_checking,
  reset_all_checking, clear_route_failure_count, available_row, failed_row, quarantined_row,
  at_epoch, mark_available, mark_failed, apply_failed_probe, record_success, record_failure,
  record_probe_result, quarantine_pre_v14, count_failure, take_out, quarantine_v14,
  quarantine_route,
}

-- A route has a recovery probe scheduled and a failure category exactly while it is unavailable,
-- and failed probes are counted only then.
pub record IsSound (h : HealthRow) : Type 0 where
  pub scheduled : is_some h.next_probe_at_ms ≡ is_unavailable h.state
  pub categorised : is_some h.failure_category ≡ is_unavailable h.state
  pub counted : (is_unavailable h.state || h.failed_probe_count == 0) ≡ true

abbrev pub AllSound : Store → Type 0
AllSound s = All IsSound s.health

-- The store that a call leaves: on an error the transaction is rolled back.
abbrev pub after : Store → Result Store → Store
after s (ok s') = s'
after s (err e) = s

pub data HealthOp : Type 0 where
  probe : Text → ℕ → Bool → Option ℕ → HealthOp
  quarantine : Text → String → Option ℕ → HealthOp
  clear : Text → HealthOp
  reset : Text → HealthOp
  restart : HealthOp
  change_settings : SettingsUpdate → HealthOp

unfoldable pub step : Env → Store → HealthOp → Store
step env s (probe id epoch succeeded http) =
    after s (record_probe_result env s id epoch succeeded http)
step env s (quarantine id category http) = after s (quarantine_route env s id category http)
step env s (clear id) = clear_route_failure_count s id
step env s (reset id) = reset_route_checking s id
step env s restart = reset_all_checking s
step env s (change_settings u) = after s (update_recovery_settings env s u)

pub run : Store → List (Env × HealthOp) → Store
run s [] = s
run s ((env, op) ∷ ops) = run (step env s op) ops

reset-AllSound :
    (v14 : Bool) (p : HealthRow → Bool) (xs : List HealthRow)
    → All IsSound xs
    → All IsSound (update_where p (reset_row v14) xs)
unfolding reset_row
reset-AllSound v14 p = update_where-All IsSound p (reset_row v14) (λ x v e. ground arith)

clear-AllSound : (s : Store) (id : Text) → AllSound s → AllSound (clear_route_failure_count s id)
unfolding clear_route_failure_count
clear-AllSound s id v = elim (Bool-cases (health_v14 s)) [
  | inl e ↦
      rw (e, clear_route_failure_count)
        (update_where-All IsSound _ _ (λ x h e. ground arith) s.health v)
  | inr e ↦ rw (e, clear_route_failure_count) v
]

success-AllSound :
    (env : Env) (s : Store) (id : Text) (epoch : ℕ) (http : Option ℕ)
    → AllSound s
    → AllSound (after s (record_success env s id epoch http))
unfolding record_success mark_available available_row
success-AllSound env s id epoch http v =
    let kept =
      update_where-All IsSound (at_epoch (health_v14 s) id epoch)
        (available_row (health_v14 s) env http) (λ x h e. ground arith) s.health v in
    ground (arith, kept)

failed_probe-AllSound :
    (env : Env) (s : Store) (id : Text) (h : HealthRow) (http : Option ℕ) (r : RecoverySettings)
    (v14 : Bool) (epoch : ℕ)
    → AllSound s
    → AllSound (after s (apply_failed_probe env s id h.state h.failed_probe_count http r v14 epoch))
unfolding apply_failed_probe mark_failed failed_row
failed_probe-AllSound env s id h http r v14 epoch v =
    let kept =
      update_where-All IsSound (at_epoch v14 id epoch)
        (failed_row v14 env r http (next_failed_count h.state h.failed_probe_count))
        (λ x g e. ground arith) s.health v in
    ground (arith, kept)

failure-AllSound :
    (env : Env) (s : Store) (id : Text) (epoch : ℕ) (http : Option ℕ)
    → AllSound s
    → AllSound (after s (record_failure env s id epoch http))
unfolding record_failure
failure-AllSound env s id epoch http v = elim (Option-cases (health_of id s)) [
  | inl e ↦ rw (e, record_failure) v
  | inr (h, e) ↦ elim (Bool-cases (health_v14 s && not (h.quarantine_epoch == epoch))) [
    | inl stale ↦ rw (e, record_failure, stale) v
    | inr fresh ↦
        rw (e, record_failure, fresh)
          (failed_probe-AllSound env s id h http (recovery_settings env s) (health_v14 s) _ v)
  ]
]

probe-AllSound :
    (env : Env) (s : Store) (id : Text) (epoch : ℕ) (succeeded : Bool) (http : Option ℕ)
    → AllSound s
    → AllSound (after s (record_probe_result env s id epoch succeeded http))
unfolding record_probe_result
probe-AllSound env s id epoch succeeded http v =
    ground (arith, success-AllSound env s id epoch http v, failure-AllSound env s id epoch http v)

quarantined-AllSound :
    (v14 : Bool) (env : Env) (r : RecoverySettings) (category : String) (http : Option ℕ)
    (p : HealthRow → Bool) (xs : List HealthRow)
    → All IsSound xs
    → All IsSound (update_where p (quarantined_row v14 env r category http) xs)
unfolding quarantined_row
quarantined-AllSound v14 env r category http p =
    update_where-All IsSound p _ (λ x v e. ground arith)

count_failure-AllSound :
    (s : Store) (id : Text) (http : Option ℕ) → AllSound s → AllSound (count_failure s id http)
unfolding count_failure
count_failure-AllSound s id http = update_where-All IsSound _ _ (λ x v e. ground arith) s.health

quarantine-AllSound :
    (env : Env) (s : Store) (id : Text) (category : String) (http : Option ℕ)
    → AllSound s
    → AllSound (after s (quarantine_route env s id category http))
unfolding quarantine_route quarantine_pre_v14 quarantine_v14 take_out
quarantine-AllSound env s id category http v =
    let r = recovery_settings env s in
    let counted = count_failure-AllSound s id http v in
    ground (
      arith,
      quarantined-AllSound false env r category http (λ h. is_route id h && is_available h.state)
          s.health v,
      counted,
      quarantined-AllSound true env (recovery_settings env (count_failure s id http)) category http
          (is_route id) (count_failure s id http).health counted,
    )

settings-AllSound :
    (env : Env) (s : Store) (u : SettingsUpdate)
    → AllSound s
    → AllSound (after s (update_recovery_settings env s u))
unfolding update_recovery_settings reschedule
settings-AllSound env s u v =
    let kept =
      update_where-All IsSound (λ h. is_unavailable h.state)
        (reschedule (merge_settings (recovery_settings env s) u) env.recovery_now_ms)
        (λ x g e. ground arith) s.health v in
    ground (arith, kept)

-- Every operation on the health of the routes keeps every row sound, on success and on error.
pub step-AllSound : (env : Env) (s : Store) (op : HealthOp) → AllSound s → AllSound (step env s op)
unfolding step reset_route_checking reset_all_checking
step-AllSound env s (probe id epoch succeeded http) v =
    probe-AllSound env s id epoch succeeded http v
step-AllSound env s (quarantine id category http) v = quarantine-AllSound env s id category http v
step-AllSound env s (clear id) v = clear-AllSound s id v
step-AllSound env s (reset id) v = reset-AllSound (health_v14 s) (is_route id) s.health v
step-AllSound env s restart v = reset-AllSound (health_v14 s) (λ h. true) s.health v
step-AllSound env s (change_settings u) v = settings-AllSound env s u v

-- After any history of probes, quarantines, cleared counters, resets, restarts and settings changes
-- that starts from sound rows, whether or not each step succeeds, a route has a next recovery probe
-- and a failure category exactly while it is unavailable, and counts failed probes only then.
pub run-AllSound : (s : Store) (ops : List (Env × HealthOp)) → AllSound s → AllSound (run s ops)
unfolding run
run-AllSound s [] v = v
run-AllSound s ((env, op) ∷ ops) v = run-AllSound (step env s op) ops (step-AllSound env s op v)
