-- ===== src/Server/Recorder/Record.antt =====
-- src/server.rs: the call record that `CallRecorder` produces.
use local_api_relay.Common.{
  ℕ, false, none, List, [], ◌∷◌, ◌++◌, map, if◌then◌else◌, ◌≡◌, refl, ap, ◌∙◌, arith,
}
use local_api_relay.Store.{
  AttemptOutcome, success, client_cancelled, ModelRouteAttempt, NewCallRecord, CommitPhase, Env,
}
use local_api_relay.Server.{AppState}
use local_api_relay.Server.Storage.{write_call_record}
use local_api_relay.Server.Recorder.{
  ModelRouteAttemptDraft, CallRecorder, is_committed, update_last, resolve_attempt,
  resolve_committed_model_route_attempt, attempt_of, call_record, emit_call_events,
  finalize_and_write, drop,
}

pub update_last-append :
    {A : Type 0} (f : A → A) (xs : List A) (x : A) → update_last f (xs ++ x ∷ []) ≡ xs ++ f x ∷ []
unfolding update_last
update_last-append f [] x = refl
update_last-append f (y ∷ []) x = refl
update_last-append f (y ∷ z ∷ xs) x = ap (◌∷◌ y) (update_last-append f (z ∷ xs) x)

map-append :
    {A B : Type 0} (f : A → B) (xs : List A) (x : A) → map f (xs ++ x ∷ []) ≡ map f xs ++ f x ∷ []
map-append f [] x = refl
map-append f (y ∷ xs) x = ap (◌∷◌ (f y)) (map-append f xs x)

-- What a drop makes of the attempt that is pending.
abbrev pub cancelled_or_success : CommitPhase → AttemptOutcome
cancelled_or_success phase = if is_committed phase then client_cancelled else success

-- The recorder that a drop writes the record of.
abbrev pub cancelled : ℕ → CallRecorder → CallRecorder
cancelled now r = resolve_committed_model_route_attempt now r client_cancelled none

resolved-outcome :
    (now : ℕ) (r : CallRecorder) (a : ModelRouteAttemptDraft)
    → a.outcome ≡ none
    → (attempt_of now r (resolve_attempt now client_cancelled none a)).outcome
      ≡ cancelled_or_success a.phase
unfolding attempt_of
resolved-outcome now r a o = ground arith

resolved-route :
    (now : ℕ) (r : CallRecorder) (a : ModelRouteAttemptDraft)
    → (attempt_of now r (resolve_attempt now client_cancelled none a)).route_id ≡ a.route_id
unfolding attempt_of
resolved-route now r a = ground arith

-- A recorder that is dropped before it was finalized, with a last attempt that has no outcome,
-- writes a call record that did not succeed. That attempt is reported under its own route, as
-- cancelled by the client if it was committed, and as a success if it was not.
pub drop-pending :
    (env : Env) (now : ℕ) (app : AppState) (r : CallRecorder) (before : List ModelRouteAttemptDraft)
    (a : ModelRouteAttemptDraft)
    → r.finalized ≡ false
    → r.attempts ≡ before ++ a ∷ []
    → a.outcome ≡ none
    → (call : NewCallRecord) × (b : ModelRouteAttempt) × (drop env now app r
        ≡ write_call_record env (emit_call_events app (cancelled now r)) call)
      × (call.succeeded ≡ false)
      × (call.attempts ≡ map (attempt_of now (cancelled now r)) before ++ b ∷ [])
      × (b.route_id ≡ a.route_id)
      × (b.outcome ≡ cancelled_or_success a.phase)
unfolding drop finalize_and_write call_record resolve_committed_model_route_attempt
drop-pending env now app r before a live e pending =
    let g = resolve_attempt now client_cancelled none in
    (
      call_record now (cancelled now r) false,
      attempt_of now (cancelled now r) (g a),
      rw live refl,
      refl,
      ap (map (attempt_of now (cancelled now r)))
            (ap (update_last g) e ∙ update_last-append g before a)
          ∙ map-append (attempt_of now (cancelled now r)) before (g a),
      resolved-route now (cancelled now r) a,
      resolved-outcome now (cancelled now r) a pending,
    )
