-- ===== src/Server/Storage/Status.antt =====
-- src/server.rs: the Storage status is Healthy only while every category persists, and Degraded only
-- while one does not.
use local_api_relay.Common.{
  ℕ, ◌+◌, none, refl, Bool, true, false, not, ◌||◌, Option, some, List, [], ◌∷◌, String, arith, ◌≡◌,
}
use local_api_relay.Common.Int.{ℤ}
use local_api_relay.Common.Text.{Text}
use local_api_relay.Store.{
  Category, call_records, route_health, NewCallRecord, StoreError, Store, Result, ok, err, Env,
}
use local_api_relay.Store.Calls.{record_usage_gap}
use local_api_relay.Server.{
  StorageState, StorageCategoryFailure, degraded, is_healthy, StorageHealth, RouteHealthOverride,
  AppState,
}
use local_api_relay.Server.Storage.{
  category_failure, all_persist, next_failure, mark_storage_category_failed,
  mark_storage_category_recovered, note_call_result, write_call_record, note_health_result,
  quarantine_route, record_probe_result, remove_override, insert_override,
}

abbrev is_degraded : StorageState → Bool
is_degraded degraded = true
is_degraded _ = false

pub record IsConsistent (h : StorageHealth) : Type 0 where
  pub healthy_persists : (not (is_healthy h.state) || all_persist h) ≡ true
  pub degraded_fails : (not (is_degraded h.state) || not (all_persist h)) ≡ true

abbrev pub Consistent : AppState → Type 0
Consistent app = IsConsistent app.storage_health

failed-Consistent :
    (now : ℤ) (app : AppState) (c : Category) (e : StoreError) (lost : Option ℕ)
    → Consistent app
    → Consistent (mark_storage_category_failed now app c e lost)
unfolding mark_storage_category_failed
failed-Consistent now app call_records e lost v = ground arith
failed-Consistent now app route_health e lost v = ground arith

recovered-Consistent :
    (now : ℤ) (b : Bool) (app : AppState) (c : Category)
    → Consistent app
    → Consistent (mark_storage_category_recovered now b app c)
unfolding mark_storage_category_recovered
recovered-Consistent now b app call_records v = ground arith
recovered-Consistent now b app route_health v = ground arith

note_health-Consistent :
    (env : Env) (app : AppState) (o : RouteHealthOverride) (r : Result Store)
    → Consistent app
    → Consistent (note_health_result env app o r)
unfolding note_health_result
note_health-Consistent env app o (ok s) v =
    recovered-Consistent env.epoch_seconds env.quick_check_ok
      (remove_override o.route_id (record app { store = s })) route_health v
note_health-Consistent env app o (err e) v =
    failed-Consistent env.epoch_seconds (insert_override o app) route_health e (some 1) v

note_call-Consistent :
    (env : Env) (app : AppState) (r : Result Store)
    → Consistent app
    → Consistent (note_call_result env app r)
unfolding note_call_result
note_call-Consistent env app (ok s) v =
    recovered-Consistent env.epoch_seconds env.quick_check_ok (record app { store = s })
      call_records v
note_call-Consistent env app (err e) v =
    failed-Consistent env.epoch_seconds
      (record app { store = record_usage_gap app.store env.now_epoch_ms }) call_records e (some 1) v

-- The degradable writes of the server.
pub data Write : Type 0 where
  call : NewCallRecord → Write
  quarantine : Text → String → Option ℕ → Write
  probe : Text → ℕ → Bool → Option ℕ → Write

pub write : Env → AppState → Write → AppState
write env app (call c) = write_call_record env app c
write env app (quarantine id category http) = quarantine_route env app id category http
write env app (probe id epoch succeeded http) = record_probe_result env app id epoch succeeded http

pub writes : AppState → List (Env × Write) → AppState
writes app [] = app
writes app ((env, w) ∷ ws) = writes (write env app w) ws

pub write-Consistent :
    (env : Env) (app : AppState) (w : Write) → Consistent app → Consistent (write env app w)
unfolding write write_call_record quarantine_route record_probe_result
write-Consistent env app (call c) v = note_call-Consistent env app _ v
write-Consistent env app (quarantine id category http) v = note_health-Consistent env app _ _ v
write-Consistent env app (probe id epoch succeeded http) v = note_health-Consistent env app _ _ v

-- Whatever degradable writes succeed or fail, in any order, from a consistent status on: the status
-- is Healthy only while no category fails to persist, and Degraded only while one does.
pub writes-Consistent :
    (app : AppState) (ws : List (Env × Write)) → Consistent app → Consistent (writes app ws)
unfolding writes
writes-Consistent app [] v = v
writes-Consistent app ((env, w) ∷ ws) v =
    writes-Consistent (write env app w) ws (write-Consistent env app w v)

-- When a category began to fail, if it fails now.
abbrev pub failing_since : ℤ → Option StorageCategoryFailure → ℤ
failing_since now none = now
failing_since now (some f) = f.since

-- A count is known while every failure so far had a known count.
abbrev pub sum_known : Option ℕ → Option ℕ → Option ℕ
sum_known (some a) (some b) = some (a + b)
sum_known (some a) none = none
sum_known none lost = none

abbrev pub total_lost : Option ℕ → Option StorageCategoryFailure → Option ℕ
total_lost lost none = lost
total_lost lost (some f) = sum_known f.lost_records lost

abbrev Notes :
    ℤ
    → StoreError
    → Option ℕ
    → Option StorageCategoryFailure
    → Option StorageCategoryFailure
    → Type 0
Notes now e lost old new =
    (f : StorageCategoryFailure) × (new ≡ some f)
    × (f.since ≡ failing_since now old)
    × (f.error ≡ e)
    × (f.lost_records ≡ total_lost lost old)

noted-failure :
    (now : ℤ) (e : StoreError) (lost : Option ℕ) (old : Option StorageCategoryFailure)
    {new : Option StorageCategoryFailure}
    → new ≡ some (next_failure now e lost old)
    → Notes now e lost old new
unfolding next_failure
noted-failure now e lost none is = (_, is, refl, refl, refl)
noted-failure now e lost (some f) is = (_, is, refl, refl, ground arith)

-- After a write of a category fails, the status is not Healthy, and the category has a failure
-- since its first failed write, with the last error and, while every loss is known, the sum of the
-- losses.
pub failed_status :
    (now : ℤ) (app : AppState) (c : Category) (e : StoreError) (lost : Option ℕ)
    → (is_healthy (mark_storage_category_failed now app c e lost).storage_health.state ≡ false)
      × ((f : StorageCategoryFailure) × (category_failure c
              (mark_storage_category_failed now app c e lost).storage_health
            ≡ some f)
          × (f.since ≡ failing_since now (category_failure c app.storage_health))
          × (f.error ≡ e)
          × (f.lost_records ≡ total_lost lost (category_failure c app.storage_health)))
unfolding mark_storage_category_failed
failed_status now app call_records e lost =
    (ground arith, noted-failure now e lost app.storage_health.call_records (ground arith))
failed_status now app route_health e lost =
    (ground arith, noted-failure now e lost app.storage_health.route_health (ground arith))
