-- ===== src/Server.antt =====
-- src/server.rs: the state that the handlers share. The database behind its lock, the in-memory
-- health of the routes whose last health write did not persist, and the Storage status.
pub mod Storage
pub mod Recorder
pub mod Json
pub mod Protocol
pub mod Relay
pub mod Probing
pub mod Handlers
pub mod Sse
pub mod Stream
pub mod Streaming
mod Tests
use local_api_relay.Common.{
  ℕ, ◌+◌, String, Bool, true, false, not, Option, none, some, List, [], ◌∷◌, ◌++◌, map,
  if◌then◌else◌, keep, find_where, delete_where,
}
use local_api_relay.Common.Int.{ℤ}
use local_api_relay.Common.Text.{Text, text_eq}
use local_api_relay.Store.{
  RouteHealth, available, unavailable, is_available, Category, call_records, route_health, Event,
  StoreError, Store,
}

pub data StorageState : Type 0 where
  healthy degraded not_ready : StorageState

abbrev pub is_healthy : StorageState → Bool
is_healthy healthy = true
is_healthy _ = false

pub record StorageCategoryFailure : Type 0 where
  pub since : ℤ
  pub error : StoreError
  pub lost_records : Option ℕ

-- The map `categories` has an entry for each category that fails to persist.
pub record StorageHealth : Type 0 where
  pub state : StorageState
  pub since : ℤ
  pub call_records : Option StorageCategoryFailure
  pub route_health : Option StorageCategoryFailure

pub record RouteHealthOverride : Type 0 where
  pub route_id : Text
  pub state : RouteHealth
  pub failure_category : Option String

-- A request that went to an upstream.
pub record SentRequest : Type 0 where
  pub endpoint : Text
  pub api_key : Text
  pub model : Text

pub record AppState : Type 0 where
  pub store : Store
  pub route_health_override : List RouteHealthOverride
  pub storage_health : StorageHealth
  pub sent : List SentRequest

abbrev pub persist_operational_event : AppState → Event → AppState
persist_operational_event app e = record app {
  store = record app.store { events = app.store.events ++ e ∷ [] };
}
