-- ===== src/Store/Retention/Complete.antt =====
-- src/store.rs: when the usage of a window is reported as complete.
use local_api_relay.Common.{
  Bool, true, false, not, ◌&&◌, ◌||◌, Option, none, some, List, [], ◌∷◌, ◌++◌, map, keep, any, all,
  arith, ◌≡◌, refl, ap, ◌∙◌, ltb, ◌==◌, count_where, update_where, any-map, suc, count_where-append,
  count_where-update, Bool-cases, inl, inr,
}
use local_api_relay.Common.Int.{ℤ, ltb_ℤ}
use local_api_relay.Common.Text.{Text}
use local_api_relay.Store.{UsageGap, NewCallRecord, Store, ok, Env}
use local_api_relay.Store.Order.{sort_by, any-sort_by}
use local_api_relay.Store.Calls.{is_open, record_call, record_usage_gap}
use local_api_relay.Store.Windows.{window_span_ms}
use local_api_relay.Store.Retention.{
  ReportedGap, persistence, persisted_usage_gaps, overlaps, is_silent, missing_usage, gap_after,
  call_after, reported_after, window_start, collect_usage_gaps, no_gaps, usage_integrity, from,
}

abbrev pub reported : UsageGap → ReportedGap
reported g = record { kind = persistence; gap = g }

abbrev here : ReportedGap → Bool
here g = true

no_gaps_lem : (gs : List ReportedGap) → no_gaps gs ≡ not (any here gs)
no_gaps_lem [] = refl
no_gaps_lem (g ∷ gs) = refl

any-append {ℓ} :
    {A : Type ℓ} (p : A → Bool) (xs ys : List A) → any p (xs ++ ys) ≡ (any p xs || any p ys)
any-append p [] ys = refl
any-append p (x ∷ xs) ys = ground (arith, any-append p xs ys)

any-kept {ℓ} : {A : Type ℓ} (p : A → Bool) (xs : List A) → any (λ x. true) (keep p xs) ≡ any p xs
any-kept p [] = refl
any-kept p (x ∷ xs) = ground (arith, any-kept p xs)

module _ (s : Store) (window : Text) (now_ms : ℤ) where
  abbrev pub start_of : Option ℤ
  start_of = window_start now_ms (window_span_ms window)

  abbrev persisted : List ReportedGap
  persisted = keep (overlaps now_ms start_of) (persisted_usage_gaps s)

  abbrev silent : List ReportedGap
  silent = map missing_usage (sort_by call_after (keep (is_silent start_of) s.calls))

  any-persisted : any here persisted ≡ any (λ g. overlaps now_ms start_of (reported g)) s.gaps
  unfolding persisted_usage_gaps
  any-persisted =
      any-kept (overlaps now_ms start_of) (persisted_usage_gaps s)
      ∙ any-map (overlaps now_ms start_of) reported (sort_by gap_after s.gaps)
      ∙ any-sort_by gap_after (λ g. overlaps now_ms start_of (reported g)) s.gaps

  any-silent : any here silent ≡ any (is_silent start_of) s.calls
  any-silent =
      any-map here missing_usage (sort_by call_after (keep (is_silent start_of) s.calls))
      ∙ any-sort_by call_after (λ c. true) (keep (is_silent start_of) s.calls)
      ∙ any-kept (is_silent start_of) s.calls

  pub complete_lem :
      (usage_integrity s window now_ms).complete
      ≡ not (
          any (λ g. overlaps now_ms start_of (reported g)) s.gaps
          || any (is_silent start_of) s.calls)
  unfolding usage_integrity collect_usage_gaps
  complete_lem =
      no_gaps_lem (sort_by reported_after (persisted ++ silent))
      ∙ ap not (
          any-sort_by reported_after here (persisted ++ silent)
          ∙ any-append here persisted silent
          ∙ rw (any-persisted, any-silent))

count_new :
    (now_ms : ℤ)
    → count_where is_open
        (record { started_at_ms = now_ms; ended_at_ms = none; lost_records = 1 } ∷ [])
      ≡ 1
unfolding count_where
count_new now_ms = refl

closed_gaps :
    (env : Env) (s s' : Store) (call : NewCallRecord)
    → record_call env s call ≡ ok s'
    → s'.gaps
      ≡ update_where is_open (λ g. record g { ended_at_ms = some call.created_at_ms }) s.gaps
unfolding record_call
closed_gaps env s s' call done = ground arith

-- A gap that began before the report.
abbrev pub began : ℤ → UsageGap → Bool
began later g = ltb_ℤ g.started_at_ms later

module _ (later : ℤ) (start : Option ℤ) where
  seen_open :
      (gs : List UsageGap)
      → all (began later) gs ≡ true
      → ltb 0 (count_where is_open gs) ≡ true
      → any (λ g. overlaps later start (reported g)) gs ≡ true
  unfolding overlaps count_where
  seen_open [] b o = ground arith
  seen_open (g ∷ gs) b o = ground (arith, seen_open gs)

  seen_closed :
      (gs : List UsageGap) (ended : ℤ)
      → all (began later) gs ≡ true
      → ltb 0 (count_where is_open gs) ≡ true
      → from start ended ≡ true
      → any
          (λ g. overlaps later start (reported g))
          (update_where is_open (λ g. record g { ended_at_ms = some ended }) gs)
        ≡ true
  unfolding overlaps count_where update_where
  seen_closed [] ended b o f = ground arith
  seen_closed (g ∷ gs) ended b o f = ground (arith, seen_closed gs ended)

  all-append :
      (xs ys : List UsageGap)
      → all (began later) (xs ++ ys) ≡ (all (began later) xs && all (began later) ys)
  all-append [] ys = refl
  all-append (x ∷ xs) ys = ground (arith, all-append xs ys)

  all-widened :
      (gs : List UsageGap)
      → all
          (began later)
          (update_where is_open (λ g. record g { lost_records = suc g.lost_records }) gs)
        ≡ all (began later) gs
  unfolding update_where
  all-widened [] = refl
  all-widened (g ∷ gs) = ground (arith, all-widened gs)

  -- After a lost write a gap is open, and each gap began before the report.
  opened :
      (s : Store) (now_ms : ℤ)
      → all (began later) s.gaps ≡ true
      → ltb_ℤ now_ms later ≡ true
      → (all (began later) (record_usage_gap s now_ms).gaps ≡ true)
        × (ltb 0 (count_where is_open (record_usage_gap s now_ms).gaps) ≡ true)
  unfolding record_usage_gap
  opened s now_ms b n =
      let new : UsageGap = record {
        started_at_ms = now_ms;
        ended_at_ms = none;
        lost_records = 1;
      } in
      let widen = λ (g : UsageGap). record g { lost_records = suc g.lost_records } in
      elim (Bool-cases (count_where is_open s.gaps == 0)) [
        | inl fresh ↦ rw fresh (
          ground (arith, all-append s.gaps (new ∷ [])),
          ground (arith, count_where-append is_open s.gaps (new ∷ []), count_new now_ms),
        )
        | inr old ↦ rw old (
          ground (arith, all-widened s.gaps),
          ground (arith, count_where-update is_open is_open widen (λ g h. refl) s.gaps),
        )
      ]

-- A lost call record is never passed over. Let a lost write be followed by a call record that is
-- written, which closes the open gap. If every earlier gap and the loss began before a report, and
-- its window starts no later than that call, then the report is incomplete, be it made of the store
-- after the lost write or of the store after the next record.
pub lost_call-incomplete :
    (env : Env) (s s' : Store) (call : NewCallRecord) (window : Text) (now_ms later : ℤ)
    → all (began later) s.gaps ≡ true
    → ltb_ℤ now_ms later ≡ true
    → record_call env (record_usage_gap s now_ms) call ≡ ok s'
    → from (window_start later (window_span_ms window)) call.created_at_ms ≡ true
    → ((usage_integrity (record_usage_gap s now_ms) window later).complete ≡ false)
      × ((usage_integrity s' window later).complete ≡ false)
lost_call-incomplete env s s' call window now_ms later b n done f =
    let start = window_start later (window_span_ms window) in
    let lost = record_usage_gap s now_ms in
    let (began_all, is_there) = opened later start s now_ms b n in
    let closed = seen_closed later start lost.gaps call.created_at_ms began_all is_there f in
    (
      ground (
        arith,
        complete_lem lost window later,
        seen_open later start lost.gaps began_all is_there,
      ),
      ground (arith, complete_lem s' window later, closed, closed_gaps env lost s' call done),
    )
