-- ===== src/Samples.antt =====
-- Concrete values: a store with two routes, its environments, and a call between them.
use local_api_relay.Common.{ℕ, Bool, true, false, none, some, List, [], ◌∷◌}
use local_api_relay.Common.Int.{pos}
use local_api_relay.Common.Text.{Text, codes}
use local_api_relay.Store.{
  RouteHealth, available, unavailable, chat_completions, Provider, PublishedModel, ModelRoute,
  HealthRow, Usage, AttemptOutcome, success, committed, ModelRouteAttempt, NewCallRecord, Store,
  Env,
}
use local_api_relay.Store.Settings.{default_settings}
use local_api_relay.Server.{healthy, StorageHealth, AppState}

abbrev pub first_id : Text
first_id = codes "r1"

abbrev pub second_id : Text
second_id = codes "r2"

abbrev pub model_name : Text
model_name = codes "gpt"

-- The clocks and the faults of one write.
abbrev pub env_at : ℕ → Bool → Env
env_at seconds broken = record {
  epoch_seconds = pos seconds;
  now_epoch_ms = pos 1_000;
  recovery_now_ms = pos 1_000;
  fail_config_commit = false;
  fail_operational_write = broken;
  fail_call_record_write = broken;
  threshold_override = none;
  quick_check_ok = true;
}

abbrev pub works : Env
works = env_at 1 false

abbrev pub broken : Env
broken = env_at 1 true

abbrev pub health_row : Text → RouteHealth → ℕ → HealthRow
health_row id state failures = record {
  route_id = id;
  state = state;
  checked_at = some (pos 1);
  failure_category = none;
  failed_probe_count = 0;
  next_probe_at_ms = none;
  last_http_status = none;
  quarantine_epoch = 3;
  consecutive_failures = failures;
}

abbrev pub out_row : Text → ℕ → HealthRow
out_row id probes = record (health_row id unavailable 0) {
  failure_category = some "upstream_timeout";
  failed_probe_count = probes;
  next_probe_at_ms = some (pos 31_000);
}

abbrev pub provider : Text → Provider
provider id = record {
  id = id;
  display_name = id;
  base_url = codes "https://u";
  api_key = codes "k";
}

abbrev pub model : PublishedModel
model = record {
  id = codes "m1";
  name = model_name;
  input_price = pos 2_000_000;
  output_price = pos 4_000_000;
  cached_price = pos 1_000_000;
  deprecated_at = none;
}

abbrev pub route : Text → Text → ModelRoute
route id provider_id = record {
  id = id;
  published_model_id = codes "m1";
  provider_id = provider_id;
  upstream_model_name = codes "up";
  protocol = chat_completions;
  cost_multiplier = pos 1_000_000;
}

abbrev pub store_of : List HealthRow → Store
store_of rows = record {
  schema = 15;
  settings = default_settings;
  providers = provider (codes "p1") ∷ provider (codes "p2") ∷ [];
  models = model ∷ [];
  routes = route first_id (codes "p1") ∷ route second_id (codes "p2") ∷ [];
  health = rows;
  keys = [];
  eligibility = [];
  calls = [];
  daily_usage = [];
  gaps = [];
  events = [];
}

-- Both routes serve; the first has no failure yet.
abbrev pub serving : Store
serving = store_of (health_row first_id available 0 ∷ health_row second_id available 1 ∷ [])

-- The first route is out after two failed recovery probes.
abbrev pub out : Store
out = store_of (out_row first_id 2 ∷ [])

abbrev pub storage_ok : StorageHealth
storage_ok = record { state = healthy; since = pos 0; call_records = none; route_health = none }

abbrev pub app : AppState
app = record { store = serving; route_health_override = []; storage_health = storage_ok; sent = [] }

abbrev pub attempt : ℕ → Text → AttemptOutcome → ModelRouteAttempt
attempt n id outcome = record {
  sequence = n;
  route_id = id;
  provider_id = codes "p1";
  provider_name = codes "p1";
  started_at_ms = pos 1_000;
  duration_ms = 5;
  http_status = some 200;
  failure_category = none;
  commit_phase = committed;
  outcome = outcome;
}

abbrev pub usage : Usage
usage = record { input_tokens = pos 10; cached_input_tokens = pos 4; output_tokens = pos 3 }

abbrev pub call : NewCallRecord
call = record {
  created_at_ms = pos 86_400_000;
  published_model_name = model_name;
  protocol = chat_completions;
  streamed = false;
  succeeded = true;
  success_provider_id = some (codes "p1");
  success_provider_name = some (codes "p1");
  usage = some usage;
  completion_ms = some 5;
  first_token_ms = none;
  attempts = attempt 0 first_id success ∷ [];
}

-- The store with one key, whose secret hashes to itself, for both routes.
abbrev pub keyed_store : Store
keyed_store = record serving {
  keys =
      record {
        id = codes "k1";
        secret_prefix = codes "lar";
        secret_hash = codes "secret";
        label = codes "l";
        created_at = pos 1;
        revoked_at = none;
        secret = none;
      }
      ∷ [];
  eligibility =
      record { key_id = codes "k1"; route_id = second_id }
      ∷ record { key_id = codes "k1"; route_id = first_id }
      ∷ [];
}
