-- ===== src/Store/Calls/Gaps.antt =====
-- src/store.rs: the usage gaps, which count the call records that could not be written.
use local_api_relay.Common.{
  ℕ, suc, ◌+◌, ◌≤◌, true, none, some, List, [], ◌∷◌, ◌++◌, arith, ◌≡◌, refl, update_where,
  count_where,
}
use local_api_relay.Common.Int.{ℤ}
use local_api_relay.Store.{NewCallRecord, UsageGap, Store, ok, Env}
use local_api_relay.Store.Calls.{is_open, record_call, record_usage_gap}

pub lost : List UsageGap → ℕ
lost [] = 0
lost (g ∷ gs) = g.lost_records + lost gs

abbrev pub open_gaps : Store → ℕ
open_gaps s = count_where is_open s.gaps

abbrev widen : UsageGap → UsageGap
widen g = record g { lost_records = suc g.lost_records }

lost-append : (gs : List UsageGap) (g : UsageGap) → lost (gs ++ g ∷ []) ≡ lost gs + g.lost_records
unfolding lost
lost-append [] g = omega arith
lost-append (h ∷ gs) g = omega (arith, lost-append gs g)

count-append :
    (gs : List UsageGap) (g : UsageGap)
    → is_open g ≡ true
    → count_where is_open (gs ++ g ∷ []) ≡ suc (count_where is_open gs)
unfolding count_where
count-append [] g o = ground arith
count-append (h ∷ gs) g o = ground (arith, count-append gs g o)

lost-widen :
    (gs : List UsageGap) → lost (update_where is_open widen gs) ≡ lost gs + count_where is_open gs
unfolding lost update_where count_where
lost-widen [] = refl
lost-widen (g ∷ gs) = ground (arith, lost-widen gs)

count-widen :
    (gs : List UsageGap)
    → count_where is_open (update_where is_open widen gs) ≡ count_where is_open gs
unfolding update_where count_where
count-widen [] = refl
count-widen (g ∷ gs) = ground (arith, count-widen gs)

lost-close :
    (t : ℤ) (gs : List UsageGap)
    → (lost (update_where is_open (λ g. record g { ended_at_ms = some t }) gs) ≡ lost gs)
      × (count_where is_open (update_where is_open (λ g. record g { ended_at_ms = some t }) gs) ≡ 0)
unfolding lost update_where count_where
lost-close t [] = (refl, refl)
lost-close t (g ∷ gs) = ground (arith, lost-close t gs)

-- With at most one open gap, recording a failed write leaves exactly one open, and counts one more
-- lost record.
pub record_usage_gap-lost :
    (s : Store) (now_ms : ℤ)
    → open_gaps s ≤ 1
    → (open_gaps (record_usage_gap s now_ms) ≡ 1)
      × (lost (record_usage_gap s now_ms).gaps ≡ lost s.gaps + 1)
unfolding record_usage_gap
record_usage_gap-lost s now_ms one = ground (
  arith,
  lost-append s.gaps (record { started_at_ms = now_ms; ended_at_ms = none; lost_records = 1 }),
  count-append s.gaps (record { started_at_ms = now_ms; ended_at_ms = none; lost_records = 1 })
      refl,
  lost-widen s.gaps,
  count-widen s.gaps,
)

-- A call record that is written closes every open gap and keeps the count of the lost records.
pub record_call-lost :
    (env : Env) (s s' : Store) (call : NewCallRecord)
    → record_call env s call ≡ ok s'
    → (open_gaps s' ≡ 0) × (lost s'.gaps ≡ lost s.gaps)
unfolding record_call
record_call-lost env s s' call done =
    let closed : s'.gaps
        ≡ update_where is_open (λ g. record g { ended_at_ms = some call.created_at_ms }) s.gaps =
      ground arith in
    let (same, none_open) = lost-close call.created_at_ms s.gaps in
    (rw closed none_open, rw closed same)
