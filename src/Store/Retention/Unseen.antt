-- ===== src/Store/Retention/Unseen.antt =====
-- src/store.rs: what the retention of the call records leaves as it was.
use local_api_relay.Common.{
  ℕ, ◌≤◌, ◌<◌, ◌^◌, Bool, true, false, some, List, [], ◌∷◌, keep, arith, ◌≡◌, refl, ap, subst,
  delete_where,
}
use local_api_relay.Common.Int.{ℤ, pos, leb_ℤ, sub_i64, ◌-ℤ◌, wrap_i64_self, pos_part, -ℤ_parts}
use local_api_relay.Common.Text.{Text}
use local_api_relay.Store.{CallRow, Store}
use local_api_relay.Store.Windows.{
  call_usages, window_span_ms, window_rows, usage_groups, usage_totals,
}
use local_api_relay.Store.Retention.{
  is_silent, is_expired, persisted_usage_gaps, collect_usage_gaps, usage_integrity,
  delete_expired_call_records,
}

-- `RETENTION_DAYS` days.
abbrev pub retention_ms : ℕ
retention_ms = 1_209_600_000

span_bound :
    (window : Text) (span : ℤ)
    → window_span_ms window ≡ some span
    → (span ≡ pos (pos_part span)) × (pos_part span ≤ retention_ms)
unfolding window_span_ms
span_bound window span h = ground arith

sub_exact : (a b : ℕ) → a < 2 ^ 63 → b ≤ retention_ms → sub_i64 (pos a) (pos b) ≡ pos a -ℤ pos b
unfolding sub_i64 ◌-ℤ◌
sub_exact a b h k = wrap_i64_self (pos a -ℤ pos b) (ground arith)

module _ (old : CallRow → Bool) (start : ℤ)
    (beyond : (c : CallRow) → old c ≡ true → leb_ℤ start c.call.created_at_ms ≡ false) where
  call_usages-kept :
      (cs : List CallRow) → call_usages start (delete_where old cs) ≡ call_usages start cs
  unfolding call_usages delete_where
  call_usages-kept [] = refl
  call_usages-kept (c ∷ cs) = ground (arith, beyond c, call_usages-kept cs)

  silent-kept :
      (cs : List CallRow)
      → keep (is_silent (some start)) (delete_where old cs) ≡ keep (is_silent (some start)) cs
  unfolding is_silent delete_where
  silent-kept [] = refl
  silent-kept (c ∷ cs) = ground (arith, beyond c, silent-kept cs)

  module _ (s : Store) (window : Text) (now_ms span : ℤ) (given : window_span_ms window ≡ some span)
      (e : sub_i64 now_ms span ≡ start) where
    abbrev kept : Store
    kept = record s { calls = delete_where old s.calls }

    rows-kept : window_rows kept window now_ms ≡ window_rows s window now_ms
    unfolding window_rows
    rows-kept = rw (window_rows, given, e, call_usages-kept s.calls)

    totals-kept : usage_totals kept window now_ms ≡ usage_totals s window now_ms
    unfolding usage_totals usage_groups
    totals-kept = rw rows-kept

    integrity-kept : usage_integrity kept window now_ms ≡ usage_integrity s window now_ms
    unfolding usage_integrity collect_usage_gaps persisted_usage_gaps
    integrity-kept = rw given (rw e (rw (silent-kept s.calls)))

-- The window of a report that is made no earlier than the deletion starts no earlier either.
later_start :
    (now_ms later span : ℕ) (c : CallRow)
    → now_ms ≤ later
    → later < 2 ^ 63
    → span ≤ retention_ms
    → is_expired (sub_i64 (pos now_ms) (pos retention_ms)) c ≡ true
    → leb_ℤ (sub_i64 (pos later) (pos span)) c.call.created_at_ms ≡ false
later_start now_ms later span c h k l e =
    let e' : is_expired (pos now_ms -ℤ pos retention_ms) c ≡ true =
      subst (λ x. is_expired x c ≡ true) (sub_exact now_ms retention_ms (omega arith) (omega arith))
        e in
    rw (sub_exact later span k l)
      (ground (arith, -ℤ_parts (pos later) (pos span), -ℤ_parts (pos now_ms) (pos retention_ms)))

-- The deletion of the call records that are older than 14 days changes neither the totals nor the
-- gaps of any window but the all-time one, in a report that is made then or later (the clock stays
-- within the range of an `i64`).
pub delete_expired-unseen :
    (s : Store) (window : Text) (span : ℤ) (now_ms later : ℕ)
    → window_span_ms window ≡ some span
    → now_ms ≤ later
    → later < 2 ^ 63
    → (usage_totals
          (delete_expired_call_records s (pos now_ms) (pos retention_ms))
          window
          (pos later)
        ≡ usage_totals s window (pos later))
      × (usage_integrity
            (delete_expired_call_records s (pos now_ms) (pos retention_ms))
            window
            (pos later)
          ≡ usage_integrity s window (pos later))
unfolding delete_expired_call_records
delete_expired-unseen s window span now_ms later given h k =
    let (exact, l) = span_bound window span given in
    let old = is_expired (sub_i64 (pos now_ms) (pos retention_ms)) in
    let start = sub_i64 (pos later) (pos (pos_part span)) in
    let beyond = λ (c : CallRow). later_start now_ms later (pos_part span) c h k l in
    let e : sub_i64 (pos later) span ≡ start = ap (sub_i64 (pos later)) exact in
    (
      totals-kept old start beyond s window (pos later) span given e,
      integrity-kept old start beyond s window (pos later) span given e,
    )
