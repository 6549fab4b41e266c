-- ===== src/Server/Storage/Overlay.antt =====
-- src/server.rs: a route that is known to be bad is not a candidate, whether or not that persisted.
use local_api_relay.Common.{
  ℕ, suc, String, Bool, true, false, Option, none, some, List, [], ◌∷◌, arith, ap, ◌∙◌, ◌≡◌, refl,
  inl, inr, Bool-cases, find_where, delete_where,
}
use local_api_relay.Common.Int.{ℤ, pos, ltb_ℤ}
use local_api_relay.Common.Text.{Text, text_eq_refl}
use local_api_relay.Store.{
  RouteHealth, available, unavailable, Category, route_health, RecoverySettings, HealthRow,
  StoreError, bail, Store, ok, err, Env,
}
use local_api_relay.Store.Settings.{recovery_settings}
use local_api_relay.Store.Health
use local_api_relay.Store.Health.{health_of, health_of-same, health_v14, failed_row}
use local_api_relay.Store.Health.Stale.{IsKeyed, fresh_failure}
use local_api_relay.Store.Health.Quarantine.{quarantine_route-Wrote, failure_row}
use local_api_relay.Server.{RouteHealthOverride, AppState}
use local_api_relay.Server.Storage.{
  mark_storage_category_failed, mark_storage_category_recovered, note_health_result,
  insert_override, remove_override, quarantine_route, record_probe_result, is_override,
  effective_health,
}

find-delete :
    (id : Text) (os : List RouteHealthOverride)
    → find_where (is_override id) (delete_where (is_override id) os) ≡ none
unfolding find_where delete_where
find-delete id [] = refl
find-delete id (o ∷ os) = ground (arith, find-delete id os)

overrides-failed :
    (now : ℤ) (app : AppState) (c : Category) (e : StoreError) (lost : Option ℕ)
    → ((mark_storage_category_failed now app c e lost).route_health_override
        ≡ app.route_health_override)
      × ((mark_storage_category_failed now app c e lost).store.health ≡ app.store.health)
unfolding mark_storage_category_failed
overrides-failed now app c e lost = ground arith

overrides-recovered :
    (now : ℤ) (b : Bool) (app : AppState) (c : Category)
    → ((mark_storage_category_recovered now b app c).route_health_override
        ≡ app.route_health_override)
      × ((mark_storage_category_recovered now b app c).store.health ≡ app.store.health)
unfolding mark_storage_category_recovered
overrides-recovered now b app c = ground arith

-- The health that routing sees for a route.
abbrev pub seen : List RouteHealthOverride → Text → Option HealthRow → Option RouteHealth
seen overrides id none = none
seen overrides id (some h) = some (effective_health overrides id h.state)

pub route_health_of : Text → AppState → Option RouteHealth
route_health_of id app = seen app.route_health_override id (health_of id app.store)

module _ (env : Env) (app : AppState) (o : RouteHealthOverride) (persisted : RouteHealth) where
  -- A health write that fails leaves the value that it would have written in force.
  pub effective-err :
      (e : StoreError)
      → effective_health
          (note_health_result env app o (err e)).route_health_override
          o.route_id
          persisted
        ≡ o.state
  unfolding note_health_result effective_health find_where
  effective-err e = rw (
    (overrides-failed env.epoch_seconds (insert_override o app) route_health e (some 1)).0,
    text_eq_refl o.route_id,
  )

  -- A health write that persists leaves the persisted value in force.
  pub effective-ok :
      (s : Store)
      → effective_health
          (note_health_result env app o (ok s)).route_health_override
          o.route_id
          persisted
        ≡ persisted
  unfolding note_health_result effective_health
  effective-ok s = rw (
    (overrides-recovered env.epoch_seconds env.quick_check_ok
        (remove_override o.route_id (record app { store = s })) route_health).0,
    find-delete o.route_id app.route_health_override,
  )

  health-err :
      (e : StoreError) → (note_health_result env app o (err e)).store.health ≡ app.store.health
  unfolding note_health_result
  health-err e =
      (overrides-failed env.epoch_seconds (insert_override o app) route_health e (some 1)).1

  health-ok : (s : Store) → (note_health_result env app o (ok s)).store.health ≡ s.health
  unfolding note_health_result
  health-ok s =
      (overrides-recovered env.epoch_seconds env.quick_check_ok
        (remove_override o.route_id (record app { store = s })) route_health).1

module _ (env : Env) (app : AppState) (o : RouteHealthOverride) where
  pub note-err :
      (e : StoreError) {h : HealthRow}
      → health_of o.route_id app.store ≡ some h
      → route_health_of o.route_id (note_health_result env app o (err e)) ≡ some o.state
  unfolding route_health_of
  note-err e {h} found =
      rw
        (
          health_of-same o.route_id app.store (note_health_result env app o (err e)).store
              (health-err env app o h.state e),
          found,
        )
        (ap some (effective-err env app o h.state e))

  pub note-ok :
      (s : Store) {h : HealthRow}
      → health_of o.route_id s ≡ some h
      → route_health_of o.route_id (note_health_result env app o (ok s)) ≡ some h.state
  unfolding route_health_of
  note-ok s {h} found =
      rw
        (
          health_of-same o.route_id s (note_health_result env app o (ok s)).store
              (health-ok env app o h.state s),
          found,
        )
        (ap some (effective-ok env app o h.state s))

module _ (env : Env) (s : Store) (id : Text) (http : Option ℕ)
    (broken : env.fail_operational_write ≡ true) where
  pub probe_refused :
      (epoch : ℕ) (succeeded : Bool)
      → Health.record_probe_result env s id epoch succeeded http
        ≡ err (bail "injected operational write failure")
  unfolding Health.record_probe_result
  probe_refused epoch succeeded = rw broken

  quarantine_refused :
      (category : String)
      → Health.quarantine_route env s id category http
        ≡ err (bail "injected operational write failure")
  unfolding Health.quarantine_route
  quarantine_refused category = rw broken

failure_row_out :
    (env : Env) (r : RecoverySettings) (category : String) (http : Option ℕ) (h : HealthRow)
    → h.state ≡ available
    → ltb_ℤ (pos (suc h.consecutive_failures)) r.quarantine_threshold ≡ false
    → (failure_row env r category http h).state ≡ unavailable
unfolding failure_row Health.quarantined_row
failure_row_out env r category http h st reached = rw (reached, st)

module _ (env : Env) (app : AppState) (id : Text) (http : Option ℕ) (h : HealthRow)
    (current : health_v14 app.store ≡ true) (found : health_of id app.store ≡ some h) where
  -- With schema 14 or later and the primary key unique, after a failed probe under the route's
  -- current epoch routing sees the route as unavailable, whether or not the result could be
  -- written.
  pub failed_probe_excludes :
      IsKeyed id app.store
      → route_health_of id (record_probe_result env app id h.quarantine_epoch false http)
        ≡ some unavailable
  unfolding record_probe_result
  failed_probe_excludes keyed = elim (Bool-cases env.fail_operational_write) [
    | inl broken ↦
        rw (probe_refused env app.store id http broken h.quarantine_epoch false)
          (note-err env app _ _ found)
    | inr works ↦
        let (s', done, found', _, _, _) =
          fresh_failure env app.store id h.quarantine_epoch http current works keyed found refl in
        rw done (unfold failed_row in note-ok env app _ s' found')
  ]

  -- With schema 14 or later, when a failure brings the counter of an available route to the
  -- threshold, routing sees the route as unavailable, whether or not the quarantine could be
  -- written.
  pub quarantine_excludes :
      (category : String)
      → h.state ≡ available
      → ltb_ℤ
          (pos (suc h.consecutive_failures))
          (recovery_settings env app.store).quarantine_threshold
        ≡ false
      → route_health_of id (quarantine_route env app id category http) ≡ some unavailable
  unfolding quarantine_route
  quarantine_excludes category st reached = elim (Bool-cases env.fail_operational_write) [
    | inl broken ↦
        rw (quarantine_refused env app.store id http broken category) (note-err env app _ _ found)
    | inr works ↦
        let (s', done, w) =
          quarantine_route-Wrote env app.store id category http current works found in
        let r = recovery_settings env app.store in
        rw done (
          note-ok env app _ s' w.written
          ∙ ap some (failure_row_out env r category http h st reached))
  ]
