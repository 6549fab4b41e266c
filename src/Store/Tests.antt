-- ===== src/Store/Tests.antt =====
-- Runs of the store's operations at concrete values.
use local_api_relay.Common.{
  length, All, map, ◌+◌, ◌*◌, ◌^◌, min, true, false, none, some, List, [], ◌∷◌, arith, ◌≡◌, ◌↔◌,
  refl, count_where, find_where,
}
use local_api_relay.Common.Int.{pos, ◌≤ℤ◌, add_i64}
use local_api_relay.Store.{
  ModelRouteCandidate, chat_completions, available, unavailable, HealthRow, Store, ok, Env,
}
use local_api_relay.Store.Settings.{
  default_settings, recovery_settings, effective_threshold, interval_for, validate_settings,
}
use local_api_relay.Store.Settings.Backoff.{
  IsValid, validate_settings_iff, interval_for_bounds, interval_for-eq,
}
use local_api_relay.Store.Health.{health_of, record_probe_result, reset_route_checking}
use local_api_relay.Store.Health.Invariant.{
  AllSound, HealthOp, after, run, run-AllSound, probe, quarantine,
}
use local_api_relay.Store.Health.Quarantine.{Wrote}
use local_api_relay.Store.Health.Threshold.{
  fail_times, Counted, TakenOut, fail_times-TakenOut, fail_times-Counted,
}
use local_api_relay.Store.Health.Stale.{
  IsKeyed, stale_probe_after_quarantine, probe_survives_reset, IsResumed,
}
use local_api_relay.Store.Health.Recovery.{fail_probes, fail_probes_backoff}
use local_api_relay.Store.Calls.{
  record_call, record_usage_gap, call_ok, compute_call_cost, success_attempt, cost_of,
}
use local_api_relay.Store.Calls.Daily.{IsAggregate, shown_at, call_total, record_call-IsAggregate}
use local_api_relay.Store.Calls.Gaps.{record_usage_gap-lost, open_gaps, lost}
use local_api_relay.Store.Order.{text_ltb, sort_by, insert_by}
use local_api_relay.Store.Routing.{join, eligible_rows, eligible_routes, joined_row, comes_after}
use local_api_relay.Store.Routing.Candidates.{is_sorted, IsEligible, offers, eligible_rows_correct}
use local_api_relay.Common.Text.{codes, text_eq}
use local_api_relay.Samples.{
  keyed_store, second_id, model_name, first_id, works, health_row, out_row, serving, out, call,
}

valid : IsValid default_settings
valid = (validate_settings_iff default_settings).0 (unfold validate_settings in refl)

validate_settings_iff_example :
    (validate_settings default_settings ≡ ok tt) ↔ IsValid default_settings
validate_settings_iff_example = validate_settings_iff default_settings

interval_for_bounds_example :
    (pos 30_000 ≤ℤ interval_for default_settings 2)
    × (interval_for default_settings 2 ≤ℤ interval_for default_settings 7)
    × (interval_for default_settings 7 ≤ℤ pos (86_400_000 * 2 ^ 20))
    × (interval_for default_settings 7 ≡ interval_for default_settings 5)
interval_for_bounds_example = interval_for_bounds default_settings 2 7 valid (omega arith)

interval_for-eq_example : interval_for default_settings 3 ≡ pos (30_000 * 2 ^ min 3 5)
interval_for-eq_example = interval_for-eq default_settings 3 valid

serving-IsKeyed : (s : Store) → s.health ≡ serving.health → IsKeyed first_id s
unfolding count_where text_eq
serving-IsKeyed s e = rw e (omega arith)

out-IsKeyed : IsKeyed first_id out
unfolding count_where text_eq
out-IsKeyed = omega arith

threshold : (recovery_settings works serving).quarantine_threshold ≡ pos 2
unfolding recovery_settings effective_threshold
threshold = refl

found : health_of first_id serving ≡ some (health_row first_id available 0)
unfolding health_of find_where text_eq
found = refl

found_out : health_of first_id out ≡ some (out_row first_id 2)
unfolding health_of find_where text_eq
found_out = refl

fail_times-TakenOut_example :
    (s' : Store) × (row : HealthRow) × (fail_times 2 works serving first_id "upstream_timeout" none
      ≡ ok s')
    × Wrote first_id row serving s'
    × TakenOut works (recovery_settings works serving) (health_row first_id available 0) row
fail_times-TakenOut_example =
    fail_times-TakenOut works first_id "upstream_timeout" none 2 refl 1 serving
      (health_row first_id available 0) refl found refl threshold refl

fail_times-Counted_example :
    (s' : Store) × (row : HealthRow) × (fail_times 1 works serving first_id "upstream_timeout" none
      ≡ ok s')
    × Wrote first_id row serving s'
    × Counted 1 none (health_row first_id available 0) row
fail_times-Counted_example =
    fail_times-Counted works first_id "upstream_timeout" none 2 refl 1 serving
      (health_row first_id available 0) refl found refl threshold (omega arith)

stale_probe_after_quarantine_example :
    (s' : Store) × (row : HealthRow) × (fail_times 2 works serving first_id "upstream_timeout" none
      ≡ ok s')
    × (health_of first_id s' ≡ some row)
    × (row.state ≡ unavailable)
    × (record_probe_result works s' first_id 3 true (some 200) ≡ ok s')
stale_probe_after_quarantine_example =
    stale_probe_after_quarantine works works first_id "upstream_timeout" none (some 200) 2 1 serving
      (health_row first_id available 0) true refl refl refl (serving-IsKeyed serving refl) found
      refl threshold refl

probe_survives_reset_example :
    IsResumed works first_id (some 200) (out_row first_id 2) (reset_route_checking out first_id)
probe_survives_reset_example =
    probe_survives_reset works out first_id (some 200) (out_row first_id 2) refl refl out-IsKeyed
      found_out

fail_probes_backoff_example :
    (t : Store) × (s' : Store) × (row : HealthRow) × (fail_probes (works ∷ []) out first_id 3 none
      ≡ ok t)
    × (record_probe_result works t first_id 3 false none ≡ ok s')
    × (health_of first_id s' ≡ some row)
    × (row.state ≡ unavailable)
    × (row.failed_probe_count ≡ 4)
    × (row.next_probe_at_ms ≡ some (add_i64 (pos 1_000) (pos (30_000 * 2 ^ min 4 5))))
fail_probes_backoff_example =
    fail_probes_backoff (works ∷ []) works out first_id none (out_row first_id 2) (refl, tt) refl
      valid refl out-IsKeyed found_out refl

sound : AllSound serving
sound = (
  record { scheduled = refl; categorised = refl; counted = refl },
  (record { scheduled = refl; categorised = refl; counted = refl }, tt),
)

history : List (Env × HealthOp)
history =
    (works, quarantine first_id "upstream_timeout" none)
    ∷ (works, quarantine first_id "upstream_timeout" none)
    ∷ (works, probe first_id 4 false (some 500))
    ∷ []

run-AllSound_example : AllSound (run serving history)
run-AllSound_example = run-AllSound serving history sound

recorded : Store
recorded = after serving (record_call works serving call)

records : record_call works serving call ≡ ok recorded
unfolding record_call call_ok count_where recorded
records = refl

nothing_recorded : IsAggregate serving
unfolding shown_at call_total find_where
nothing_recorded m k = refl

record_call-IsAggregate_example : IsAggregate recorded
record_call-IsAggregate_example =
    record_call-IsAggregate works serving recorded call nothing_recorded records

-- 10 tokens in, 4 of them cached, and 3 out, at 2, 1 and 4 RMB for a million tokens.
cost_test : compute_call_cost serving call ≡ some (pos 28_000_000_000_000)
unfolding compute_call_cost success_attempt find_where text_eq cost_of
cost_test = refl

record_usage_gap-lost_example :
    (open_gaps (record_usage_gap serving (pos 7)) ≡ 1)
    × (lost (record_usage_gap serving (pos 7)).gaps ≡ lost serving.gaps + 1)
record_usage_gap-lost_example =
    record_usage_gap-lost serving (pos 7) (unfold count_where in omega arith)

-- Both routes cost the same, so the order is that of their ids.
order_test :
    map
      (λ (c : ModelRouteCandidate). c.route_id)
      (eligible_routes keyed_store (codes "k1") model_name chat_completions)
    ≡ first_id ∷ second_id ∷ []
unfolding eligible_routes eligible_rows sort_by join joined_row insert_by comes_after text_ltb
    text_eq find_where health_of
order_test = refl

eligible_rows_correct_example :
    (is_sorted (eligible_rows keyed_store (codes "k1") model_name chat_completions) ≡ true)
    × All
        (IsEligible keyed_store (codes "k1") model_name chat_completions keyed_store.eligibility)
        (eligible_rows keyed_store (codes "k1") model_name chat_completions)
    × (length (eligible_rows keyed_store (codes "k1") model_name chat_completions)
        ≡ count_where
            (offers keyed_store (codes "k1") model_name chat_completions)
            keyed_store.eligibility)
eligible_rows_correct_example =
    eligible_rows_correct keyed_store (codes "k1") model_name chat_completions
