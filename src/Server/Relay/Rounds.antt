-- ===== src/Server/Relay/Rounds.antt =====
-- src/server.rs, `relay_precommit_fallback_loop` under the handler of `relay_non_streaming`: what one
-- round does with a candidate that fails, and with one whose response is accepted.
use local_api_relay.Common.{
  ℕ, Bool, true, false, not, ◌&&◌, Option, none, some, List, [], ◌∷◌, ◌++◌, if◌then◌else◌, length,
  arith, ◌≡◌, refl, ap,
}
use local_api_relay.Common.Text.{Text}
use local_api_relay.Store.{
  ModelRouteCandidate, StreamProtocol, AttemptOutcome, fallback, failed, success, pre_commit,
  committed, Env,
}
use local_api_relay.Server.{AppState}
use local_api_relay.Server.Storage.{quarantine_route}
use local_api_relay.Server.Recorder.{
  ModelRouteAttemptDraft, CallRecorder, begin_model_route_attempt, finish_model_route_attempt,
  note_usage, finalize_and_write,
}
use local_api_relay.Server.Recorder.Record.{update_last-append}
use local_api_relay.Server.Json.{Json}
use local_api_relay.Store.Health
use local_api_relay.Server.Protocol.{
  relay_error_category, is_success_status, is_attributable_upstream_status,
  attributable_http_category, health_neutral_http_category, relay_upstream_transport_error,
  extract_usage,
}
use local_api_relay.Server.Relay.{
  Upstream, no_response, responded, OnSuccess, Exchange, PreCommitFailure, stop, go_on, set_model,
  send, upstream_failed, attempt, round, after_handler, Body, JsonResponse, Reading, accept, reject,
  read_body, non_streaming_handler,
}

-- The attempt that a failed candidate leaves in the record.
abbrev pub failed_draft :
    ℕ
    → ModelRouteCandidate
    → Exchange Body
    → PreCommitFailure
    → AttemptOutcome
    → ModelRouteAttemptDraft
failed_draft n c x f outcome = record {
  sequence = n;
  route_id = c.route_id;
  provider_id = c.provider_id;
  provider_name = c.provider_name;
  started_at = x.started;
  ended_at = some x.ended;
  http_status = f.http_status;
  failure_category = some f.category;
  phase = pre_commit;
  outcome = some outcome;
}

abbrev pub with_attempts : CallRecorder → List ModelRouteAttemptDraft → CallRecorder
with_attempts r drafts = record r { attempts = r.attempts ++ drafts }

module _ (from_slice : List ℕ → Option Json) (protocol : StreamProtocol) where
  -- What one upstream's behaviour comes to, whoever asked.
  abbrev pub judge : Upstream Body → Reading
  judge (no_response is_timeout) =
      let error = relay_upstream_transport_error is_timeout in
      reject (record { error = error; category = relay_error_category error; http_status = none })
  judge (responded status body) =
      if is_success_status status
      then read_body from_slice protocol status body
      else reject (record {
        error = upstream_failed status;
        category =
            if is_attributable_upstream_status status
            then attributable_http_category status
            else health_neutral_http_category;
        http_status = some status;
      })

  -- The responses whose failure says nothing of the route's health.
  abbrev pub is_health_neutral : Upstream Body → Bool
  is_health_neutral (no_response is_timeout) = false
  is_health_neutral (responded status body) =
      not (is_success_status status) && not (is_attributable_upstream_status status)

  -- The state after a failed candidate, whose request is sent: its route takes the blame unless the
  -- failure is health-neutral.
  abbrev pub charge :
      Env → Upstream Body → ModelRouteCandidate → AppState → PreCommitFailure → AppState
  charge env u c app f =
      if is_health_neutral u
      then app
      else quarantine_route env app c.route_id f.category f.http_status

  module _ (name : Text) where
    abbrev handler : OnSuccess Body JsonResponse
    handler = non_streaming_handler from_slice protocol name

    finish_begun :
        (x : Exchange Body) (c : ModelRouteCandidate) (r : CallRecorder) (f : PreCommitFailure)
        (outcome : AttemptOutcome)
        → finish_model_route_attempt x.ended
            (begin_model_route_attempt x.started r c)
            f.http_status
            (some f.category)
            pre_commit
            outcome
          ≡ with_attempts r (failed_draft (length r.attempts) c x f outcome ∷ [])
    unfolding finish_model_route_attempt begin_model_route_attempt
    finish_begun x c r f outcome =
        ap (λ (d : List ModelRouteAttemptDraft). record r { attempts = d })
          (update_last-append _ r.attempts _)

    attempt-reject :
        (c : ModelRouteCandidate) (x : Exchange Body) (app : AppState) (r : CallRecorder)
        (outcome : AttemptOutcome) (u : Upstream Body) (f : PreCommitFailure)
        → judge u ≡ reject f
        → attempt handler protocol c x app r outcome u
          ≡ go_on
              (charge x.env u c app f)
              (finish_model_route_attempt x.ended r f.http_status
                (some f.category)
                pre_commit
                outcome)
              f.error
    unfolding attempt after_handler non_streaming_handler
    attempt-reject c x app r outcome (no_response t) f j = ground arith
    attempt-reject c x app r outcome (responded status b) f j = ground arith

    -- A round that fails goes on, with the blame laid and the attempt in the record.
    pub round-reject :
        (c : ModelRouteCandidate) (x : Exchange Body) (last : Bool) (app : AppState)
        (r : CallRecorder) (f : PreCommitFailure)
        → judge x.upstream ≡ reject f
        → round handler protocol c x last app r
          ≡ go_on
              (charge x.env x.upstream c (send protocol app c) f)
              (with_attempts r
                (failed_draft (length r.attempts) c x f (if last then failed else fallback) ∷ []))
              f.error
    unfolding round
    round-reject c x last app r f j =
        rw
          (
            attempt-reject c x (send protocol app c) (begin_model_route_attempt x.started r c)
                (if last then failed else fallback) x.upstream f j,
            finish_begun x c r f (if last then failed else fallback),
          )
          refl

    -- The recorder once the response of `c` is accepted, and the state once its call is written.
    abbrev pub accepted :
        Exchange Body → ModelRouteCandidate → CallRecorder → ℕ → Json → CallRecorder
    accepted x c r status json =
        note_usage
          (finish_model_route_attempt x.ended (begin_model_route_attempt x.started r c)
            (some status) none committed success)
          (extract_usage protocol (set_model name json))

    abbrev pub settled : Exchange Body → ModelRouteCandidate → AppState → CallRecorder → AppState
    settled x c app r =
        let app' = finalize_and_write x.env x.ended app r true in
        record app' { store = Health.clear_route_failure_count app'.store c.route_id }

    pub round-accept :
        (c : ModelRouteCandidate) (x : Exchange Body) (last : Bool) (app : AppState)
        (r : CallRecorder) (status : ℕ) (body : Body) (json : Json)
        → x.upstream ≡ responded status body
        → judge x.upstream ≡ accept json
        → round handler protocol c x last app r
          ≡ stop
              (settled x c (send protocol app c) (accepted x c r status json))
              (record { status = status; body = set_model name json })
    unfolding round attempt after_handler non_streaming_handler
    round-accept c x last app r status body json u j = rw u (ground (arith, rw u at j))
