-- ===== src/Server/Relay/Effects.antt =====
-- src/server.rs: what the writes of a call leave as it was.
use local_api_relay.Common.{ℕ, String, Bool, Option, some, ◌∙◌, arith, ◌≡◌, refl}
use local_api_relay.Common.Int.{ℤ}
use local_api_relay.Common.Text.{Text}
use local_api_relay.Store.{Category, Env, Store, Result, ok, err, NewCallRecord, StoreError}
use local_api_relay.Store.Calls.{record_call, record_usage_gap}
use local_api_relay.Server.{AppState, RouteHealthOverride}
use local_api_relay.Server.Storage.{
  quarantine_route, note_health_result, note_call_result, write_call_record,
  mark_storage_category_failed, mark_storage_category_recovered, remove_override, insert_override,
}
use local_api_relay.Server.Recorder.{
  CallRecorder, finalize_and_write, emit_call_events, call_record,
}

-- The write of a call record asks no upstream and touches no route's health.
pub record Kept (a b : AppState) : Type 0 where
  pub sent : b.sent ≡ a.sent
  pub health : b.store.health ≡ a.store.health
  pub overrides : b.route_health_override ≡ a.route_health_override

Kept-refl : (a : AppState) → Kept a a
Kept-refl a = record { sent = refl; health = refl; overrides = refl }

Kept-trans : {a b c : AppState} → Kept a b → Kept b c → Kept a c
Kept-trans k l = record {
  sent = l.sent ∙ k.sent;
  health = l.health ∙ k.health;
  overrides = l.overrides ∙ k.overrides;
}

failed-Kept :
    (now : ℤ) (app : AppState) (c : Category) (e : StoreError) (lost : Option ℕ)
    → Kept app (mark_storage_category_failed now app c e lost)
unfolding mark_storage_category_failed
failed-Kept now app c e lost = record {
  sent = ground arith;
  health = ground arith;
  overrides = ground arith;
}

recovered-Kept :
    (now : ℤ) (intact : Bool) (app : AppState) (c : Category)
    → Kept app (mark_storage_category_recovered now intact app c)
unfolding mark_storage_category_recovered
recovered-Kept now intact app c = record {
  sent = ground arith;
  health = ground arith;
  overrides = ground arith;
}

record_call-health :
    (env : Env) (s s' : Store) (call : NewCallRecord)
    → record_call env s call ≡ ok s'
    → s'.health ≡ s.health
unfolding record_call
record_call-health env s s' call done = ground arith

record_usage_gap-health : (s : Store) (now : ℤ) → (record_usage_gap s now).health ≡ s.health
unfolding record_usage_gap
record_usage_gap-health s now = ground arith

note_call-Kept :
    (env : Env) (app : AppState) (call : NewCallRecord) (res : Result Store)
    → record_call env app.store call ≡ res
    → Kept app (note_call_result env app res)
unfolding note_call_result
note_call-Kept env app call (ok s) done =
    let h = record_call-health env app.store s call done in
    Kept-trans (record { sent = refl; health = h; overrides = refl })
      (recovered-Kept env.epoch_seconds env.quick_check_ok (record app { store = s })
        Category.call_records)
note_call-Kept env app call (err e) done =
    let h = record_usage_gap-health app.store env.now_epoch_ms in
    Kept-trans (record { sent = refl; health = h; overrides = refl })
      (failed-Kept env.epoch_seconds
        (record app { store = record_usage_gap app.store env.now_epoch_ms }) Category.call_records e
        (some 1))

write_call_record-Kept :
    (env : Env) (app : AppState) (call : NewCallRecord) → Kept app (write_call_record env app call)
unfolding write_call_record
write_call_record-Kept env app call =
    note_call-Kept env app call (record_call env app.store call) refl

emit-Kept : (app : AppState) (r : CallRecorder) → Kept app (emit_call_events app r)
unfolding emit_call_events
emit-Kept app r = record { sent = ground arith; health = ground arith; overrides = ground arith }

pub finalize-Kept :
    (env : Env) (now : ℕ) (app : AppState) (r : CallRecorder) (succeeded : Bool)
    → Kept app (finalize_and_write env now app r succeeded)
unfolding finalize_and_write
finalize-Kept env now app r succeeded =
    Kept-trans (emit-Kept app r)
      (write_call_record-Kept env (emit_call_events app r) (call_record now r succeeded))

note_health-sent :
    (env : Env) (app : AppState) (o : RouteHealthOverride) (res : Result Store)
    → (note_health_result env app o res).sent ≡ app.sent
unfolding note_health_result
note_health-sent env app o (ok s) =
    (recovered-Kept env.epoch_seconds env.quick_check_ok
      (remove_override o.route_id (record app { store = s })) Category.route_health).sent
note_health-sent env app o (err e) =
    (failed-Kept env.epoch_seconds (insert_override o app) Category.route_health e (some 1)).sent

pub quarantine-sent :
    (env : Env) (app : AppState) (id : Text) (category : String) (http : Option ℕ)
    → (quarantine_route env app id category http).sent ≡ app.sent
unfolding quarantine_route
quarantine-sent env app id category http = note_health-sent env app _ _
