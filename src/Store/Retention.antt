-- ===== src/Store/Retention.antt =====
-- src/store.rs: which gaps a window of usage has, and the deletion of old call records.
pub mod Unseen
pub mod Complete
mod Tests
use local_api_relay.Common.{
  ℕ, Bool, true, false, not, ◌&&◌, ◌||◌, Option, none, some, List, [], ◌∷◌, ◌++◌, map, keep,
  if◌then◌else◌, is_some, ltb, delete_where,
}
use local_api_relay.Common.Int.{ℤ, pos, ltb_ℤ, leb_ℤ, sub_i64}
use local_api_relay.Common.Text.{Text}
use local_api_relay.Store.{CallRow, UsageGap, Store}
use local_api_relay.Store.Order.{sort_by}
use local_api_relay.Store.Windows.{window_span_ms}

-- The kinds of a reported gap; the category of the first is `call_records` and that of the second
-- `upstream_usage`.
pub data GapKind : Type 0 where
  persistence missing_upstream_usage : GapKind

pub record ReportedGap : Type 0 where
  pub kind : GapKind
  pub gap : UsageGap

pub record UsageIntegrity : Type 0 where
  pub complete : Bool
  pub gaps : List ReportedGap

-- `ORDER BY started_at_ms ASC, id ASC` and `ORDER BY created_at_ms ASC, id ASC`; the ids ascend.
abbrev pub gap_after : UsageGap → UsageGap → Bool
gap_after a b = ltb_ℤ b.started_at_ms a.started_at_ms

abbrev pub call_after : CallRow → CallRow → Bool
call_after a b = ltb_ℤ b.call.created_at_ms a.call.created_at_ms

unfoldable pub persisted_usage_gaps : Store → List ReportedGap
unfolding sort_by
persisted_usage_gaps s =
    map (λ g. record { kind = persistence; gap = g }) (sort_by gap_after s.gaps)

abbrev pub from : Option ℤ → ℤ → Bool
from none x = true
from (some start) x = leb_ℤ start x

abbrev pub ends_from : ℤ → Option ℤ → Bool
ends_from start none = true
ends_from start (some ended) = leb_ℤ start ended

-- What `retain` keeps.
unfoldable pub overlaps : ℤ → Option ℤ → ReportedGap → Bool
overlaps now_ms none g = true
overlaps now_ms (some start) g =
    ltb_ℤ g.gap.started_at_ms now_ms && ends_from start g.gap.ended_at_ms

-- `succeeded = 1 AND input_tokens IS NULL`, and the filter of the window.
unfoldable pub is_silent : Option ℤ → CallRow → Bool
is_silent start c =
    c.call.succeeded && not (is_some c.call.usage) && from start c.call.created_at_ms

abbrev pub missing_usage : CallRow → ReportedGap
missing_usage c = record {
  kind = missing_upstream_usage;
  gap = record {
    started_at_ms = c.call.created_at_ms;
    ended_at_ms = some c.call.created_at_ms;
    lost_records = 1;
  };
}

-- Of two gaps, the category `call_records` comes first.
abbrev pub kind_after : GapKind → GapKind → Bool
kind_after missing_upstream_usage persistence = true
kind_after _ _ = false

-- `sort_by_key(|gap| (gap.started_at_ms, gap.category.clone()))`
unfoldable pub reported_after : ReportedGap → ReportedGap → Bool
reported_after a b =
    gap_after a.gap b.gap || (not (gap_after b.gap a.gap) && kind_after a.kind b.kind)

abbrev pub window_start : ℤ → Option ℤ → Option ℤ
window_start now_ms none = none
window_start now_ms (some span) = some (sub_i64 now_ms span)

unfoldable pub collect_usage_gaps : Store → Option ℤ → ℤ → List ReportedGap
unfolding sort_by
collect_usage_gaps s span now_ms =
    let start = window_start now_ms span in
    sort_by reported_after (
      keep (overlaps now_ms start) (persisted_usage_gaps s)
      ++ map missing_usage (sort_by call_after (keep (is_silent start) s.calls)))

abbrev pub no_gaps : List ReportedGap → Bool
no_gaps [] = true
no_gaps (g ∷ gs) = false

abbrev pub integrity_of : List ReportedGap → UsageIntegrity
integrity_of gaps = record { complete = no_gaps gaps; gaps = gaps }

unfoldable pub usage_integrity : Store → Text → ℤ → UsageIntegrity
usage_integrity s window now_ms = integrity_of (collect_usage_gaps s (window_span_ms window) now_ms)

unfoldable pub usage_integrity_all : Store → UsageIntegrity
usage_integrity_all s = integrity_of (collect_usage_gaps s none (pos 0))

abbrev pub is_expired : ℤ → CallRow → Bool
is_expired start c = ltb_ℤ c.call.created_at_ms start

unfoldable pub delete_expired_call_records : Store → ℤ → ℤ → Store
delete_expired_call_records s now_ms retention_ms = record s {
  calls = delete_where (is_expired (sub_i64 now_ms retention_ms)) s.calls;
}
