-- ===== src/Lib.antt =====
-- Local API Relay: a service that relays OpenAI-compatible calls to several upstream providers, and
-- keeps what it learns of them in a SQLite database. This library models its core.
--
-- How the parts interact. A client's call comes to src/server.rs with the candidates that may serve
-- it, in order. The fallback loop asks one after the other until a response is accepted, and blames
-- the routes that failed. A blame is a write to the health table of src/store.rs, which takes a
-- route out after some failures in a row; probes on a back-off schedule bring it back. The call
-- recorder collects the attempts and writes one record of the call, with its cost and the daily
-- aggregate. A write that fails degrades the shared Storage status, and the health that it would
-- have written is kept in memory.
--
-- Which file models what.
--   Common and its children: lists, options, tables as lists of rows, `i64`, text.
--   Timeutil: src/timeutil.rs, `civil_from_days`, `days_from_civil`, `date_key`.
--   Store: src/store.rs, the rows, the errors, and what an operation reads from outside (`Env`: the
--     clocks, the fault injection variables, the threshold override, SQLite's quick check).
--   Store/Settings: `interval_for`, `recovery_settings`, `update_recovery_settings`.
--   Store/Health: `record_probe_result`, `apply_failed_probe`, `quarantine_route`,
--     `clear_route_failure_count`, `reset_route_checking`, and the reset of
--     `startup_probe_configurations`.
--   Store/Calls: `record_call`, `compute_call_cost`, `record_usage_gap`.
--   Store/Windows: `usage_totals`, `window_span_ms`.
--   Store/Retention: `collect_usage_gaps`, `usage_integrity`, `delete_expired_call_records`.
--   Server, Server/Storage: src/server.rs, `AppState`, `mark_storage_category_failed` and
--     `_recovered`, `write_call_record`, `quarantine_route`, `record_probe_result`,
--     `effective_health`.
--   Server/Recorder: `CallRecorder` with `finalize`, `emit_call_events` and `Drop`.
--   Server/Json, Server/Protocol: the JSON values, and the tests on an upstream's answer.
--   Server/Probing: `fetch_upstream_model_list`, `native_probe`, and what the tasks of
--     `spawn_startup_probe_task` and `spawn_recovery_scheduler` do for one probe.
--   Server/Relay: `relay_precommit_fallback_loop`, `relay_non_streaming`.
--   Store/Decimal: `parse_decimal`, `format_decimal` and their two checked forms.
--   Store/Validation: the `validate_` functions, `valid_eligible_model_route_ids`.
--   Store/Providers, Store/Models, Store/Routes: `create_provider`, `update_provider`,
--     `provider_configuration`; `create_published_model`, `deprecate_published_model`,
--     `update_published_model_prices`; `create_model_route`, `update_model_route`.
--   Store/Keys: `create_relay_access_key`, `update_relay_access_key`, `revoke_relay_access_key`.
--   Store/Sessions: `initialize_administrator`, `login`, `session`, `change_password`, `logout`.
--   Store/Probes: `startup_probe_configurations`, `recovery_due_probes`, `model_route_probe`,
--     `available_route_probe_configurations`.
--   Store/Integrity: the histories of these operations. Store/Order: `ORDER BY`. Store/Ensures: rules
--     for what an operation ensures when it succeeds.
--   Store/Routing: `eligible_chat_routes`, `eligible_responses_routes`, `has_eligible_chat_route` and
--     `has_eligible_responses_route`, `eligible_model_route_health`.
--   Server/Handlers: `chat_completions` and `responses` up to the relay they choose,
--     `require_relay_access_key`, `effective_candidates`, `normalize_null_message_content`,
--     `list_relay_models`.
--   Server/Stream, Server/Streaming: `SseRelay`, `render_sse_event`, `relay_streaming` and the polls of
--     its body.
--   Server/Sse: `SseReader`, `sse_event_end`, `SseRelay::read_next_event`.
--   Their children hold the proofs; Samples, and each Tests, concrete runs.
--
-- Conventions. A table is the list of its rows and an operation is a function from the store to the
-- next one; on an error the transaction is rolled back and the store stays. An `i64` is an integer,
-- wrapped where the code's sums and products could leave its range; the counters that start at 0
-- and grow by 1 are natural numbers. The loops go over the lists of candidates and rows, so no fuel
-- is used there. `SseRelay::prime` runs on fuel, one more than the bytes that the upstream sends:
-- each event takes some of them. A clock is read through the arguments. A cost, an `f64` in RMB, is
-- an exact integer in units of 10^-18 RMB, so its rounding is not modelled. The JSON parser and
-- printer, the URL parser, the hashes and the check of a password are parameters; an id or a secret
-- that the random generator draws is an argument.
--
-- Not modelled: the HTTP side of the management surface, the loops of the probe schedulers,
-- migrations, backups, the managed log, the command line and the desktop shell; what other tasks do
-- between two locks of one function; poisoned locks.
pub mod Common
pub mod Samples
pub mod Server
pub mod Store
pub mod Timeutil
