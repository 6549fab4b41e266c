-- ===== src/Server/Relay/Answers.antt =====
-- src/server.rs, `relay_non_streaming`: where the body comes from that a client gets.
use local_api_relay.Common.{
  ℕ, Option, none, some, List, [], ◌∷◌, ◌++◌, ◌≡◌, refl, ap, sym, ◌∙◌, subst, arith, true, false,
}
use local_api_relay.Common.Int.{ℤ}
use local_api_relay.Common.Text.{Text, codes, text_eq}
use local_api_relay.Store.{ModelRouteCandidate, StreamProtocol, Env}
use local_api_relay.Server.{AppState}
use local_api_relay.Server.Recorder.{CallRecorder, new_recorder}
use local_api_relay.Server.Json.{Json}
use local_api_relay.Server.Protocol.{RelayError, is_success_status}
use local_api_relay.Server.Relay.{
  Upstream, no_response, responded, Exchange, answered, Body, bytes, JsonResponse, Reading, accept,
  reject, PreCommitFailure, set_model, read_body, relay_from, non_streaming_handler,
  relay_non_streaming, is_last,
}
use local_api_relay.Server.Relay.Rounds.{judge, round-reject, round-accept}
use local_api_relay.Server.Relay.Replies.{Shows, accepted-Shows}

abbrev Candidates : Type 0
Candidates = List (ModelRouteCandidate × Exchange Body)

module _ (from_slice : List ℕ → Option Json) (protocol : StreamProtocol) (name other : Text) where
  -- The response of one upstream, that had a success status and whose bytes are `body`.
  pub record Answers (x : Exchange Body) (response : JsonResponse) : Type 0 where
    pub sent : List ℕ
    pub answer : x.upstream ≡ responded response.status (bytes sent)
    pub succeeded : is_success_status response.status ≡ true
    pub json : Json
    pub parsed : from_slice sent ≡ some json
    pub shows : Shows protocol name other json response.body

  pub record From (candidates : Candidates) (response : JsonResponse) : Type 0 where
    pub before : Candidates
    pub after : Candidates
    pub candidate : ModelRouteCandidate
    pub exchange : Exchange Body
    pub split : candidates ≡ before ++ (candidate, exchange) ∷ after
    pub answers : Answers exchange response

  later :
      (p : ModelRouteCandidate × Exchange Body) (rest : Candidates) (response : JsonResponse)
      → From rest response
      → From (p ∷ rest) response
  later p rest response f = record {
    before = p ∷ f.before;
    after = f.after;
    candidate = f.candidate;
    exchange = f.exchange;
    split = ap (λ (cs : Candidates). p ∷ cs) f.split;
    answers = f.answers;
  }

  -- An upstream is either rejected, or its answer is accepted.
  data Judged (x : Exchange Body) : Type 0 where
    rejected : (f : PreCommitFailure) → judge from_slice protocol x.upstream ≡ reject f → Judged x
    taken :
        (status : ℕ) (body : Body) (json : Json)
        → x.upstream ≡ responded status body
        → judge from_slice protocol x.upstream ≡ accept json
        → Judged x

  judged :
      (x : Exchange Body) (u : Upstream Body) (j : Reading)
      → x.upstream ≡ u
      → judge from_slice protocol u ≡ j
      → Judged x
  judged x u (reject f) e h = rejected f (ap (judge from_slice protocol) e ∙ h)
  judged x (responded status body) (accept json) e h =
      taken status body json e (ap (judge from_slice protocol) e ∙ h)
  judged x (no_response t) (accept json) e h = absurd (ground arith)

  module _ (apart : text_eq (codes "model") other ≡ false) where
    accepted-body :
        (status : ℕ) (body : Body) (json : Json)
        → judge from_slice protocol (responded status body) ≡ accept json
        → (is_success_status status ≡ true)
          × (read_body from_slice protocol status body ≡ accept json)
    accepted-body status body json h = ground arith

    taken-Answers :
        (x : Exchange Body) (status : ℕ) (body : Body) (json : Json)
        → x.upstream ≡ responded status body
        → judge from_slice protocol x.upstream ≡ accept json
        → Answers x (record { status = status; body = set_model name json })
    taken-Answers x status body json e h =
        let (succeeded, read) =
          accepted-body status body json (sym (ap (judge from_slice protocol) e) ∙ h) in
        let (b, is_b, parsed, shows) =
          accepted-Shows from_slice protocol status body json name other read apart in
        record {
          sent = b;
          answer = e ∙ ap (responded status) is_b;
          succeeded = succeeded;
          json = json;
          parsed = parsed;
          shows = shows;
        }

    answered-inj : {a b : AppState} {p q : JsonResponse} → answered a p ≡ answered b q → p ≡ q
    answered-inj h = cc

    module _ (env : Env) (now : ℕ) where
      loop-From :
          (candidates : Candidates) (app app' : AppState) (r : CallRecorder)
          (error : Option RelayError) (response : JsonResponse)
          → relay_from
              (non_streaming_handler from_slice protocol name)
              protocol
              env
              now
              candidates
              app
              r
              error
            ≡ answered app' response
          → From candidates response
      unfolding relay_from
      loop-From [] app app' r error response h = absurd (cc)
      loop-From ((c, x) ∷ rest) app app' r error response h =
          elim (judged x x.upstream (judge from_slice protocol x.upstream) refl refl) [
            | rejected f j ↦
                later (c, x) rest response
                  (loop-From rest _ app' _ _ response (
                    rw
                      (
                        relay_from,
                        round-reject from_slice protocol name c x (is_last rest) app r f j,
                      )
                      at h))
            | taken status body json u j ↦ record {
              before = [];
              after = rest;
              candidate = c;
              exchange = x;
              split = refl;
              answers =
                  subst (Answers x)
                    (answered-inj (
                      rw
                        (
                          relay_from,
                          round-accept from_slice protocol name c x (is_last rest) app r status body
                              json u j,
                        )
                        at h))
                    (taken-Answers x status body json u j);
            }
          ]

    -- A complete-response call that is answered is answered from one of its candidates: that
    -- upstream sent a success status, which is the client's, and bytes that parse to a complete
    -- response of the protocol: its kind, a filled id and model, a creation time and, for Chat,
    -- choices that are all complete, or, for Responses, an output, a status that is completed or
    -- incomplete, and no error. The client gets that JSON with its `model` replaced by the
    -- published name, and any other field reads as it did upstream.
    pub relay-answered :
        (created_at_ms : ℤ) (start : ℕ) (env : Env) (now : ℕ) (candidates : Candidates)
        (app app' : AppState) (response : JsonResponse)
        → relay_non_streaming from_slice protocol created_at_ms start env now name candidates app
          ≡ answered app' response
        → From candidates response
    unfolding relay_non_streaming
    relay-answered created_at_ms start env now candidates app app' response h =
        loop-From env now candidates app app' (new_recorder created_at_ms start name protocol false)
          none response h
