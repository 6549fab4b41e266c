-- ===== src/Server/Relay/Verdicts.antt =====
-- src/server.rs, `relay_non_streaming`: which candidate a client's call is answered from, which
-- upstreams it asks, and what it leaves in the call record and in the routes' health.
use local_api_relay.Common.{
  ℕ, suc, true, false, Option, none, some, List, [], ◌∷◌, ◌++◌, length, append_assoc, append-nil,
  ◌∙◌, arith, ◌≡◌, refl, ap, sym,
}
use local_api_relay.Common.Int.{ℤ}
use local_api_relay.Common.Text.{Text}
use local_api_relay.Store.{
  ModelRouteCandidate, StreamProtocol, failed, success, committed, Env, Usage,
}
use local_api_relay.Server.{SentRequest, AppState}
use local_api_relay.Server.Recorder.{
  ModelRouteAttemptDraft, CallRecorder, new_recorder, finalize_and_write, begin_model_route_attempt,
  finish_model_route_attempt, note_usage,
}
use local_api_relay.Server.Recorder.Record.{update_last-append}
use local_api_relay.Server.Json.{Json}
use local_api_relay.Server.Protocol.{extract_usage}
use local_api_relay.Server.Relay.{
  responded, Upstream, Exchange, PreCommitFailure, Relayed, refused, answered, request_to, send,
  relay_from, Body, JsonResponse, accept, reject, set_model, relay_non_streaming,
}
use local_api_relay.Server.Relay.Order.{
  Tried, exchanges, requests, AllFail, charge_all, drafts, last_error, pass, loop-accept,
  loop-reject,
}
use local_api_relay.Server.Relay.Rounds.{
  judge, is_health_neutral, charge, failed_draft, with_attempts, accepted, settled,
}
use local_api_relay.Server.Relay.Effects.{finalize-Kept, quarantine-sent}

module _ (from_slice : List ℕ → Option Json) (protocol : StreamProtocol) where
  charge-sent :
      (env : Env) (u : Upstream Body) (c : ModelRouteCandidate) (app : AppState)
      (f : PreCommitFailure)
      → (charge from_slice protocol env u c app f).sent ≡ app.sent
  charge-sent env u c app f =
      ground (arith, quarantine-sent env app c.route_id f.category f.http_status)

  charge_all-sent :
      (tried : Tried) (app : AppState)
      → (charge_all from_slice protocol app tried).sent ≡ app.sent ++ requests protocol tried
  unfolding charge_all send
  charge_all-sent [] app = sym (append-nil app.sent)
  charge_all-sent ((c, x, f) ∷ tried) app =
      charge_all-sent tried (charge from_slice protocol x.env x.upstream c (send protocol app c) f)
      ∙ ap (λ (l : List SentRequest). l ++ requests protocol tried)
          (charge-sent x.env x.upstream c (send protocol app c) f)
      ∙ append_assoc app.sent (request_to protocol c ∷ []) (requests protocol tried)

  asked :
      (tried : Tried) (c : ModelRouteCandidate) (app : AppState)
      → (send protocol (charge_all from_slice protocol app tried) c).sent
        ≡ app.sent ++ requests protocol tried ++ request_to protocol c ∷ []
  unfolding send
  asked tried c app =
      ap (λ (l : List SentRequest). l ++ request_to protocol c ∷ []) (charge_all-sent tried app)

  -- Each candidate of the list fails without blame.
  abbrev pub AllNeutral : Tried → Type 0
  AllNeutral [] = Unit
  AllNeutral ((c, x, f) ∷ tried) =
      (is_health_neutral from_slice protocol x.upstream ≡ true) × AllNeutral tried

  charge-neutral :
      (env : Env) (u : Upstream Body) (c : ModelRouteCandidate) (app : AppState)
      (f : PreCommitFailure)
      → is_health_neutral from_slice protocol u ≡ true
      → charge from_slice protocol env u c app f ≡ app
  charge-neutral env u c app f h = rw h refl

  charge_all-neutral :
      (tried : Tried) (app : AppState)
      → AllNeutral tried
      → ((charge_all from_slice protocol app tried).store.health ≡ app.store.health)
        × ((charge_all from_slice protocol app tried).route_health_override
            ≡ app.route_health_override)
  unfolding charge_all send
  charge_all-neutral [] app h = (refl, refl)
  charge_all-neutral ((c, x, f) ∷ tried) app (h, hs) =
      rw (charge_all, charge-neutral x.env x.upstream c (send protocol app c) f h)
        (charge_all-neutral tried (send protocol app c) hs)

  drafts-length :
      (n : ℕ) (tried : Tried) → length (drafts from_slice protocol n tried) ≡ length tried
  unfolding drafts
  drafts-length n [] = refl
  drafts-length n ((c, x, f) ∷ tried) = ap suc (drafts-length (suc n) tried)

  -- The attempt of the candidate that the client's response comes from.
  abbrev pub answered_draft : ℕ → ModelRouteCandidate → Exchange Body → ℕ → ModelRouteAttemptDraft
  answered_draft n c x status = record {
    sequence = n;
    route_id = c.route_id;
    provider_id = c.provider_id;
    provider_name = c.provider_name;
    started_at = x.started;
    ended_at = some x.ended;
    http_status = some status;
    failure_category = none;
    phase = committed;
    outcome = some success;
  }

  note_usage-attempts :
      (r : CallRecorder) (usage : Option Usage) → (note_usage r usage).attempts ≡ r.attempts
  unfolding note_usage
  note_usage-attempts r none = refl
  note_usage-attempts r (some usage) = refl

  accepted-attempts :
      (name : Text) (c : ModelRouteCandidate) (x : Exchange Body) (r : CallRecorder) (status : ℕ)
      (json : Json)
      → (accepted from_slice protocol name x c r status json).attempts
        ≡ r.attempts ++ answered_draft (length r.attempts) c x status ∷ []
  unfolding finish_model_route_attempt begin_model_route_attempt
  accepted-attempts name c x r status json =
      note_usage-attempts _ (extract_usage protocol (set_model name json))
      ∙ update_last-append _ r.attempts _

-- The call as the client made it: its clocks, its protocol and the parser of the upstreams' bodies.
module _ (from_slice : List ℕ → Option Json) (protocol : StreamProtocol) (created_at_ms : ℤ)
    (start : ℕ) (env : Env) (now : ℕ) (name : Text) where
  abbrev relay : List (ModelRouteCandidate × Exchange Body) → AppState → Relayed JsonResponse
  relay = relay_non_streaming from_slice protocol created_at_ms start env now name

  abbrev recorder : CallRecorder
  recorder = new_recorder created_at_ms start name protocol false

  -- A complete-response call whose first candidates all fail, each in its own way, and whose next
  -- candidate's response is accepted, is answered with that candidate's status and its JSON under
  -- the published model name. The upstreams asked are those candidates, in order, and none after
  -- them. Of the recorder that the call record is written from, the attempts are one fallback for
  -- each failed candidate and the committed success, numbered in order; and the final state is
  -- reached by blaming each failed candidate that is not health-neutral, writing that record and
  -- clearing the counter of the route that answered.
  pub relay-failover :
      (tried : Tried) (c : ModelRouteCandidate) (x : Exchange Body)
      (rest : List (ModelRouteCandidate × Exchange Body)) (app : AppState) (status : ℕ)
      (body : Body) (json : Json)
      → AllFail from_slice protocol tried
      → x.upstream ≡ responded status body
      → judge from_slice protocol x.upstream ≡ accept json
      → (app' : AppState) × (r : CallRecorder) × (relay (exchanges tried ++ (c, x) ∷ rest) app
          ≡ answered app' (record { status = status; body = set_model name json }))
        × (app'.sent ≡ app.sent ++ requests protocol tried ++ request_to protocol c ∷ [])
        × (r.attempts
            ≡ drafts from_slice protocol 0 tried
              ++ answered_draft from_slice protocol (length tried) c x status ∷ [])
        × (app'
            ≡ settled from_slice protocol name x c
                (send protocol (charge_all from_slice protocol app tried) c)
                r)
  unfolding relay_non_streaming new_recorder
  relay-failover tried c x rest app status body json fails u j =
      let r₀ = with_attempts recorder (drafts from_slice protocol 0 tried) in
      let app₀ = send protocol (charge_all from_slice protocol app tried) c in
      let r = accepted from_slice protocol name x c r₀ status json in
      (
        settled from_slice protocol name x c app₀ r,
        r,
        pass from_slice protocol name env now tried (c, x) rest app recorder none fails
            ∙ loop-accept from_slice protocol name env now c x rest
                (charge_all from_slice protocol app tried) r₀
                (last_error from_slice protocol none tried) status body json u j,
        (finalize-Kept x.env x.ended app₀ r true).sent ∙ asked from_slice protocol tried c app,
        accepted-attempts from_slice protocol name c x r₀ status json
            ∙ rw (drafts-length from_slice protocol 0 tried) refl,
        refl,
      )

  -- A complete-response call all of whose candidates fail (at least one) is refused with the error
  -- of the last one, after each was asked once, in order. Its record is written as not succeeded,
  -- from a recorder whose attempts are the candidates in order, the last one failed and all others
  -- fallbacks; the routes blamed are those whose failure is not health-neutral.
  pub relay-refused :
      (tried : Tried) (c : ModelRouteCandidate) (x : Exchange Body) (f : PreCommitFailure)
      (app : AppState)
      → AllFail from_slice protocol tried
      → judge from_slice protocol x.upstream ≡ reject f
      → (app' : AppState) × (r : CallRecorder) × (relay (exchanges tried ++ (c, x) ∷ []) app
          ≡ refused (finalize_and_write env now app' r false) f.error)
        × ((finalize_and_write env now app' r false).sent
            ≡ app.sent ++ requests protocol tried ++ request_to protocol c ∷ [])
        × (r.attempts
            ≡ drafts from_slice protocol 0 tried ++ failed_draft (length tried) c x f failed ∷ [])
        × (app'
            ≡ charge from_slice protocol x.env x.upstream c
                (send protocol (charge_all from_slice protocol app tried) c)
                f)
  unfolding relay_non_streaming new_recorder relay_from
  relay-refused tried c x f app fails j =
      let r₀ = with_attempts recorder (drafts from_slice protocol 0 tried) in
      let app₀ = charge_all from_slice protocol app tried in
      let app₁ = charge from_slice protocol x.env x.upstream c (send protocol app₀ c) f in
      (
        app₁,
        _,
        pass from_slice protocol name env now tried (c, x) [] app recorder none fails
            ∙ loop-reject from_slice protocol name env now c x f [] true app₀ r₀
                (last_error from_slice protocol none tried) j refl,
        (finalize-Kept env now app₁
              (with_attempts r₀ (failed_draft (length r₀.attempts) c x f failed ∷ [])) false).sent
            ∙ charge-sent from_slice protocol x.env x.upstream c (send protocol app₀ c) f
            ∙ asked from_slice protocol tried c app,
        rw (drafts-length from_slice protocol 0 tried) refl,
        refl,
      )

  last-neutral :
      (tried : Tried) (c : ModelRouteCandidate) (x : Exchange Body) (f : PreCommitFailure)
      (app app' : AppState) (r : CallRecorder)
      → app'
        ≡ charge from_slice protocol x.env x.upstream c
            (send protocol (charge_all from_slice protocol app tried) c)
            f
      → AllNeutral from_slice protocol tried
      → is_health_neutral from_slice protocol x.upstream ≡ true
      → ((finalize_and_write env now app' r false).store.health ≡ app.store.health)
        × ((finalize_and_write env now app' r false).route_health_override
            ≡ app.route_health_override)
  unfolding send
  last-neutral tried c x f app app' r state neutral last =
      let kept = finalize-Kept env now app' r false in
      let same =
        state
        ∙ charge-neutral from_slice protocol x.env x.upstream c
            (send protocol (charge_all from_slice protocol app tried) c) f last in
      let (health, overrides) = charge_all-neutral from_slice protocol tried app neutral in
      (
        kept.health ∙ ap (λ (a : AppState). a.store.health) same ∙ health,
        kept.overrides ∙ ap (λ (a : AppState). a.route_health_override) same ∙ overrides,
      )

  -- When every candidate (at least one) answers with a health-neutral status, such as 400, the call
  -- still asks all of them in order and is refused with the last one's error, and neither the
  -- health table nor the in-memory overrides change.
  pub relay-neutral :
      (tried : Tried) (c : ModelRouteCandidate) (x : Exchange Body) (f : PreCommitFailure)
      (app : AppState)
      → AllFail from_slice protocol tried
      → judge from_slice protocol x.upstream ≡ reject f
      → AllNeutral from_slice protocol tried
      → is_health_neutral from_slice protocol x.upstream ≡ true
      → (app' : AppState) × (relay (exchanges tried ++ (c, x) ∷ []) app ≡ refused app' f.error)
        × (app'.sent ≡ app.sent ++ requests protocol tried ++ request_to protocol c ∷ [])
        × (app'.store.health ≡ app.store.health)
        × (app'.route_health_override ≡ app.route_health_override)
  relay-neutral tried c x f app fails j neutral last =
      let (app₁, r, done, sent, attempts, state) = relay-refused tried c x f app fails j in
      let (health, overrides) = last-neutral tried c x f app app₁ r state neutral last in
      (finalize_and_write env now app₁ r false, done, sent, health, overrides)
