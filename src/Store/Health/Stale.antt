-- ===== src/Store/Health/Stale.antt =====
-- src/store.rs, `record_probe_result`: a probe result counts only under the quarantine epoch that it
-- started with.
use local_api_relay.Common.{
  ℕ, suc, ◌+◌, ◌≤◌, String, Bool, true, false, ◌==◌, Option, none, some, arith, ◌≡◌, ◌≢◌, refl, ap,
  update_where, count_where, find_where, update_where-none, count_where-none, find_where_unique,
  find_where_sound, find_where-update, count_where-update, count_where_pos, count_where-le,
}
use local_api_relay.Common.Int.{pos}
use local_api_relay.Common.Text.{Text, text_eq}
use local_api_relay.Store.{
  available, checking, unavailable, HealthRow, check_available, check_unavailable, Store, ok, Env,
}
use local_api_relay.Store.Settings.{recovery_settings}
use local_api_relay.Store.Health.{
  is_route, reset_row, reset_route_checking, at_epoch, health_v14, health_of, record_success,
  record_failure, apply_failed_probe, mark_available, mark_failed, push_event, next_failed_count,
  available_row, failed_row, record_probe_result,
}
use local_api_relay.Store.Health.Quarantine.{find-update_self, count-update_self}
use local_api_relay.Store.Health.Threshold.{fail_times, fail_times-TakenOut}

-- `model_route_id` is the primary key of the table.
abbrev pub IsKeyed : Text → Store → Type 0
IsKeyed id s = count_where (is_route id) s.health ≤ 1

at_epoch_sub :
    (v14 : Bool) (id : Text) (epoch : ℕ) (h : HealthRow)
    → at_epoch v14 id epoch h ≡ true
    → is_route id h ≡ true
at_epoch_sub v14 id epoch h e = ground arith

module _ (env : Env) (s : Store) (id : Text) (epoch : ℕ) (http : Option ℕ) {h : HealthRow}
    (current : health_v14 s ≡ true) (writable : env.fail_operational_write ≡ false)
    (keyed : IsKeyed id s) (found : health_of id s ≡ some h) where
  missed : h.quarantine_epoch ≢ epoch → find_where (at_epoch true id epoch) s.health ≡ none
  unfolding health_of
  missed other =
      find_where_unique (at_epoch true id epoch) (is_route id) (at_epoch_sub true id epoch) s.health
        h found (ground arith) keyed

  stale_success : h.quarantine_epoch ≢ epoch → record_success env s id epoch http ≡ ok s
  unfolding record_success mark_available health_of
  stale_success other = rw current (
      rw (
        update_where-none (at_epoch true id epoch) (available_row true env http) s.health
            (missed other),
        count_where-none (at_epoch true id epoch) s.health (missed other),
        found,
      ))

  stale_failure : h.quarantine_epoch ≢ epoch → record_failure env s id epoch http ≡ ok s
  unfolding record_failure
  stale_failure other = ground arith

  -- With schema 14 or later, working writes and a unique key, a probe result whose epoch is not the
  -- epoch of the route's row is discarded: the call succeeds and the store stays as it was.
  pub stale_probe :
      (succeeded : Bool)
      → h.quarantine_epoch ≢ epoch
      → record_probe_result env s id epoch succeeded http ≡ ok s
  unfolding record_probe_result
  stale_probe succeeded other = ground (arith, stale_success other, stale_failure other)

  hit : h.quarantine_epoch ≡ epoch → at_epoch true id epoch h ≡ true
  unfolding health_of
  hit same = ground (arith, find_where_sound (is_route id) s.health h found)

  hit_count :
      h.quarantine_epoch ≡ epoch → (count_where (at_epoch true id epoch) s.health == 1) ≡ true
  unfolding health_of
  hit_count same = ground (
    arith,
    count_where-le (at_epoch true id epoch) (is_route id) (at_epoch_sub true id epoch) s.health,
    count_where_pos (at_epoch true id epoch) (is_route id) s.health h found (hit same),
    keyed,
  )

  updated :
      (f : HealthRow → HealthRow)
      → ((x : HealthRow) → (f x).route_id ≡ x.route_id)
      → h.quarantine_epoch ≡ epoch
      → find_where (is_route id) (update_where (at_epoch true id epoch) f s.health) ≡ some (f h)
  unfolding health_of
  updated f keep same =
      rw
        (
          find_where-update (is_route id) (at_epoch true id epoch) f
              (λ x _. ap (λ (t : Text). text_eq t id) (keep x)) s.health,
          found,
        )
        (rw (hit same))

  -- A successful probe under the current epoch brings the route back, with all its counters at 0.
  pub fresh_success :
      h.quarantine_epoch ≡ epoch
      → (s' : Store) × (record_probe_result env s id epoch true http ≡ ok s')
        × (health_of id s' ≡ some (available_row true env http h))
  unfolding record_probe_result record_success mark_available health_of available_row
  fresh_success same = (
    push_event (mark_available env s id epoch http) (check_available id),
    ground (arith, hit_count same),
    rw current (updated (available_row true env http) (λ x. refl) same),
  )

  -- A failed probe under the current epoch takes the route out, or keeps it out; only for a route
  -- that was out already does it advance the count of failed probes.
  pub fresh_failure :
      h.quarantine_epoch ≡ epoch
      → (s' : Store) × (record_probe_result env s id epoch false http ≡ ok s')
        × (health_of id s'
            ≡ some (
                failed_row true env
                  (recovery_settings env s)
                  http
                  (next_failed_count h.state h.failed_probe_count)
                  h))
        × (s'.schema ≡ s.schema)
        × (s'.settings ≡ s.settings)
        × (count_where (is_route id) s'.health ≡ count_where (is_route id) s.health)
  unfolding record_probe_result record_failure apply_failed_probe mark_failed health_of failed_row
  fresh_failure same =
      let r = recovery_settings env s in
      let k = next_failed_count h.state h.failed_probe_count in
      (
        push_event (mark_failed env s id k http r true epoch) (check_unavailable id k),
        ground (arith, hit_count same),
        updated (failed_row true env r http k) (λ x. refl) same,
        refl,
        refl,
        count_where-update (is_route id) (at_epoch true id epoch) (failed_row true env r http k)
            (λ x _. refl) s.health,
      )

-- A probe that started while the route was served cannot undo a quarantine: with schema 14 or
-- later, working writes and a unique key, once the failures in a row that reach the threshold have
-- taken an available route out, the result of a probe that started under its old epoch, good or
-- bad, changes nothing.
pub stale_probe_after_quarantine :
    (env later : Env) (id : Text) (category : String) (http result_http : Option ℕ) (t n : ℕ)
    (s : Store) (h : HealthRow) (succeeded : Bool)
    → env.fail_operational_write ≡ false
    → later.fail_operational_write ≡ false
    → health_v14 s ≡ true
    → IsKeyed id s
    → health_of id s ≡ some h
    → h.state ≡ available
    → (recovery_settings env s).quarantine_threshold ≡ pos t
    → h.consecutive_failures + suc n ≡ t
    → (s' : Store) × (row : HealthRow) × (fail_times (suc n) env s id category http ≡ ok s')
      × (health_of id s' ≡ some row)
      × (row.state ≡ unavailable)
      × (record_probe_result later s' id h.quarantine_epoch succeeded result_http ≡ ok s')
stale_probe_after_quarantine env later id category http result_http t n s h succeeded writable
      writable' v keyed f st e lt =
    let (s', row, done, w, o) =
      fail_times-TakenOut env id category http t writable n s h v f st e lt in
    let v' : health_v14 s' ≡ true = rw w.schema v in
    let keyed' : IsKeyed id s' = rw w.rows keyed in
    (
      s',
      row,
      done,
      w.written,
      o.state,
      stale_probe later s' id h.quarantine_epoch result_http v' writable' keyed' w.written succeeded
          (omega (arith, o.epoch)),
    )

module _ (s : Store) (id : Text) where
  reset-found :
      {h : HealthRow}
      → health_of id s ≡ some h
      → health_of id (reset_route_checking s id) ≡ some (reset_row (health_v14 s) h)
  unfolding reset_route_checking reset_row
  reset-found f =
      find-update_self id (reset_row (health_v14 s)) (λ x. refl) s (reset_route_checking s id) f
        refl

  reset-IsKeyed : IsKeyed id s → IsKeyed id (reset_route_checking s id)
  unfolding reset_route_checking reset_row
  reset-IsKeyed keyed =
      rw (count-update_self id (reset_row (health_v14 s)) (λ x. refl) s.health) keyed

  reset-v14 : health_v14 s ≡ true → health_v14 (reset_route_checking s id) ≡ true
  unfolding reset_route_checking
  reset-v14 v = v

-- The store after a reset, and what the good result of a probe with the epoch from before makes of it.
pub record IsResumed (env : Env) (id : Text) (http : Option ℕ) (h : HealthRow) (s : Store)
    : Type 0 where
  pub reset_h : HealthRow
  pub reset_found : health_of id s ≡ some reset_h
  pub waiting : reset_h.state ≡ checking
  pub same_epoch : reset_h.quarantine_epoch ≡ h.quarantine_epoch
  pub after : Store
  pub succeeded : record_probe_result env s id h.quarantine_epoch true http ≡ ok after
  pub row : HealthRow
  pub row_found : health_of id after ≡ some row
  pub serves : row.state ≡ available
  pub failures : row.consecutive_failures ≡ 0
  pub probes : row.failed_probe_count ≡ 0
  pub schedule : row.next_probe_at_ms ≡ none
  pub checked : row.checked_at ≡ some env.epoch_seconds
  pub epoch : row.quarantine_epoch ≡ h.quarantine_epoch

-- A reset is no quarantine: with schema 14 or later, working writes and a unique key it sets the
-- route to checking and keeps its epoch. So the good result of a probe under that epoch that
-- arrives after the reset succeeds and makes the route available, with its counters at 0, no probe
-- scheduled and the same epoch.
pub probe_survives_reset :
    (env : Env) (s : Store) (id : Text) (http : Option ℕ) (h : HealthRow)
    → env.fail_operational_write ≡ false
    → health_v14 s ≡ true
    → IsKeyed id s
    → health_of id s ≡ some h
    → IsResumed env id http h (reset_route_checking s id)
probe_survives_reset env s id http h writable v keyed f =
    let found : health_of id (reset_route_checking s id) ≡ some (reset_row true h) =
      rw v at (reset-found s id f) in
    let (s', done, found') =
      fresh_success env (reset_route_checking s id) id h.quarantine_epoch http (reset-v14 s id v)
        writable (reset-IsKeyed s id keyed) found (unfold reset_row in refl) in
    record {
      reset_h = reset_row true h;
      reset_found = found;
      waiting = unfold reset_row in refl;
      same_epoch = unfold reset_row in refl;
      after = s';
      succeeded = done;
      row = available_row true env http (reset_row true h);
      row_found = found';
      serves = unfold available_row in refl;
      failures = unfold available_row in refl;
      probes = unfold available_row in refl;
      schedule = unfold available_row in refl;
      checked = unfold available_row in refl;
      epoch = unfold available_row reset_row in refl;
    }
