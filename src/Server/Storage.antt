-- ===== src/Server/Storage.antt =====
-- src/server.rs: the Storage status, and the best-effort writes that may degrade it. Each function
-- runs as one step: what other tasks do between its two locks is left out.
pub mod Status
pub mod Overlay
use local_api_relay.Common.{
  ℕ, ◌+◌, String, Bool, true, false, not, ◌&&◌, Option, none, some, List, [], ◌∷◌, if◌then◌else◌,
  is_some, unwrap_or, keep, find_where, delete_where,
}
use local_api_relay.Common.Int.{ℤ}
use local_api_relay.Common.Text.{Text, text_eq}
use local_api_relay.Store.{
  RouteHealth, available, unavailable, is_available, Category, call_records, route_health,
  NewCallRecord, Event, storage_degraded, storage_recovered, storage_not_ready, StoreError, Store,
  Result, ok, err, Env,
}
use local_api_relay.Store.Health
use local_api_relay.Store.Calls.{record_call, record_usage_gap}
use local_api_relay.Server.{
  StorageState, healthy, degraded, not_ready, is_healthy, StorageCategoryFailure, StorageHealth,
  RouteHealthOverride, AppState, persist_operational_event,
}

-- `categories.get`, `insert` and `remove`.
abbrev pub category_failure : Category → StorageHealth → Option StorageCategoryFailure
category_failure call_records h = h.call_records
category_failure route_health h = h.route_health

abbrev pub set_category : Category → Option StorageCategoryFailure → StorageHealth → StorageHealth
set_category call_records f h = record h { call_records = f }
set_category route_health f h = record h { route_health = f }

-- `categories.is_empty()`
abbrev pub all_persist : StorageHealth → Bool
all_persist h = not (is_some h.call_records) && not (is_some h.route_health)

-- A lost count that is unknown stays unknown.
abbrev pub add_lost : Option ℕ → Option ℕ → Option ℕ
add_lost none lost = none
add_lost (some known) none = none
add_lost (some known) (some lost) = some (known + lost)

unfoldable pub next_failure :
    ℤ → StoreError → Option ℕ → Option StorageCategoryFailure → StorageCategoryFailure
next_failure now error lost_records none = record {
  since = now;
  error = error;
  lost_records = lost_records;
}
next_failure now error lost_records (some f) = record f {
  error = error;
  lost_records = add_lost f.lost_records lost_records;
}

-- `now` is `timeutil::now_epoch()`.
unfoldable pub mark_storage_category_failed :
    ℤ → AppState → Category → StoreError → Option ℕ → AppState
mark_storage_category_failed now app category error lost_records =
    let h = app.storage_health in
    let f = next_failure now error lost_records (category_failure category h) in
    let h' = set_category category (some f) h in
    if is_healthy h.state
    then persist_operational_event
        (record app { storage_health = record h' { state = degraded; since = now } })
        (storage_degraded category)
    else record app { storage_health = h' }

abbrev pub settle : Bool → StorageState
settle integrity_ok = if integrity_ok then healthy else not_ready

abbrev pub settled_event : Bool → Category → Event
settled_event integrity_ok category =
    if integrity_ok then storage_recovered category else storage_not_ready category

unfoldable pub mark_storage_category_recovered : ℤ → Bool → AppState → Category → AppState
mark_storage_category_recovered now integrity_ok app category =
    let h = app.storage_health in
    let h' = set_category category none h in
    if not (is_some (category_failure category h))
    then app
    else if not (all_persist h')
    then record app { storage_health = h' }
    else persist_operational_event
        (record app { storage_health = record h' { state = settle integrity_ok; since = now } })
        (settled_event integrity_ok category)

-- `write_call_record`, after its store call.
unfoldable pub note_call_result : Env → AppState → Result Store → AppState
note_call_result env app (ok s) =
    mark_storage_category_recovered env.epoch_seconds env.quick_check_ok (record app { store = s })
      call_records
note_call_result env app (err e) =
    mark_storage_category_failed env.epoch_seconds
      (record app { store = record_usage_gap app.store env.now_epoch_ms }) call_records e (some 1)

unfoldable pub write_call_record : Env → AppState → NewCallRecord → AppState
write_call_record env app call = note_call_result env app (record_call env app.store call)

abbrev pub is_override : Text → RouteHealthOverride → Bool
is_override id o = text_eq o.route_id id

abbrev pub remove_override : Text → AppState → AppState
remove_override id app = record app {
  route_health_override = delete_where (is_override id) app.route_health_override;
}

abbrev pub insert_override : RouteHealthOverride → AppState → AppState
insert_override o app = record app {
  route_health_override = o ∷ delete_where (is_override o.route_id) app.route_health_override;
}

-- After a write to a route's health: the override goes when the write persists, and takes the value
-- that could not be written when it does not.
unfoldable pub note_health_result : Env → AppState → RouteHealthOverride → Result Store → AppState
note_health_result env app fallback (ok s) =
    mark_storage_category_recovered env.epoch_seconds env.quick_check_ok
      (remove_override fallback.route_id (record app { store = s })) route_health
note_health_result env app fallback (err e) =
    mark_storage_category_failed env.epoch_seconds (insert_override fallback app) route_health e
      (some 1)

unfoldable pub quarantine_route : Env → AppState → Text → String → Option ℕ → AppState
quarantine_route env app id failure_category http_status =
    note_health_result env app
      (record { route_id = id; state = unavailable; failure_category = some failure_category })
      (Health.quarantine_route env app.store id failure_category http_status)

unfoldable pub record_probe_result : Env → AppState → Text → ℕ → Bool → Option ℕ → AppState
record_probe_result env app id epoch succeeded http_status =
    note_health_result env app
      (record {
        route_id = id;
        state = if succeeded then available else unavailable;
        failure_category = if succeeded then none else some "native_check_failed";
      })
      (Health.record_probe_result env app.store id epoch succeeded http_status)

abbrev pub state_or : RouteHealth → Option RouteHealthOverride → RouteHealth
state_or persisted none = persisted
state_or persisted (some o) = o.state

unfoldable pub effective_health : List RouteHealthOverride → Text → RouteHealth → RouteHealth
effective_health overrides id persisted = state_or persisted (find_where (is_override id) overrides)
