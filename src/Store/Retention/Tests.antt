-- ===== src/Store/Retention/Tests.antt =====
-- Reports of usage at concrete values.
use local_api_relay.Common.{false, some, [], ◌∷◌, ◌≡◌, refl, arith, count_where, delete_where}
use local_api_relay.Common.Int.{ℤ, pos, ◌-ℤ◌, sub_i64, wrap_i64}
use local_api_relay.Common.Text.{codes, text_eq}
use local_api_relay.Store.{CallRow, Store, Result, ok, err}
use local_api_relay.Store.Calls.{record_call, record_usage_gap, call_ok}
use local_api_relay.Store.Windows.{window_span_ms, usage_totals}
use local_api_relay.Store.Retention.{usage_integrity, delete_expired_call_records}
use local_api_relay.Store.Retention.Unseen.{retention_ms, delete_expired-unseen}
use local_api_relay.Store.Retention.Complete.{lost_call-incomplete}
use local_api_relay.Samples.{serving, call, works}

abbrev row : ℤ → CallRow
row created_at_ms = record {
  call = record call { created_at_ms = created_at_ms };
  cost = some (pos 7);
}

-- The first call is older than the retention at the time of the deletion.
abbrev full : Store
full = record serving { calls = row (pos 1) ∷ row (pos 1_300_000_000) ∷ [] }

deleted :
    (delete_expired_call_records full (pos 1_300_000_000) (pos retention_ms)).calls
    ≡ row (pos 1_300_000_000) ∷ []
unfolding delete_expired_call_records delete_where sub_i64 wrap_i64 ◌-ℤ◌
deleted = refl

delete_expired-unseen_example :
    (usage_totals
        (delete_expired_call_records full (pos 1_300_000_000) (pos retention_ms))
        (codes "14d")
        (pos 1_300_000_001)
      ≡ usage_totals full (codes "14d") (pos 1_300_000_001))
    × (usage_integrity
          (delete_expired_call_records full (pos 1_300_000_000) (pos retention_ms))
          (codes "14d")
          (pos 1_300_000_001)
        ≡ usage_integrity full (codes "14d") (pos 1_300_000_001))
delete_expired-unseen_example =
    delete_expired-unseen full (codes "14d") (pos 1_209_600_000) 1_300_000_000 1_300_000_001
      (unfold window_span_ms text_eq in refl) (omega arith) (omega arith)

abbrev lost : Store
lost = record_usage_gap serving (pos 86_000_000)

abbrev after_call : Result Store → Store
after_call (ok s) = s
after_call (err e) = lost

recorded : Store
recorded = after_call (record_call works lost call)

records : record_call works lost call ≡ ok recorded
unfolding record_call call_ok recorded count_where record_usage_gap
records = refl

lost_call-incomplete_example :
    ((usage_integrity lost (codes "1h") (pos 86_500_000)).complete ≡ false)
    × ((usage_integrity recorded (codes "1h") (pos 86_500_000)).complete ≡ false)
lost_call-incomplete_example =
    lost_call-incomplete works serving recorded call (codes "1h") (pos 86_000_000) (pos 86_500_000)
      refl refl records (unfold window_span_ms text_eq sub_i64 wrap_i64 ◌-ℤ◌ in refl)
