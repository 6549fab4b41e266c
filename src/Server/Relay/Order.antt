-- ===== src/Server/Relay/Order.antt =====
-- src/server.rs, `relay_precommit_fallback_loop` under the handler of `relay_non_streaming`: what the
-- loop does with the candidates that fail, in their order.
use local_api_relay.Common.{
  ℕ, suc, Bool, false, Option, some, List, [], ◌∷◌, ◌++◌, if◌then◌else◌, length, length-append,
  append-nil, append_assoc, ◌∙◌, arith, ◌≡◌, refl, ap, sym,
}
use local_api_relay.Common.Text.{Text}
use local_api_relay.Store.{ModelRouteCandidate, StreamProtocol, fallback, failed, Env}
use local_api_relay.Server.{SentRequest, AppState}
use local_api_relay.Server.Recorder.{ModelRouteAttemptDraft, CallRecorder}
use local_api_relay.Server.Json.{Json}
use local_api_relay.Server.Protocol.{RelayError}
use local_api_relay.Server.Relay.{
  responded, Exchange, PreCommitFailure, Round, stop, go_on, set_model, Relayed, answered,
  request_to, send, is_last, round, relay_from, Body, JsonResponse, accept, reject,
  non_streaming_handler,
}
use local_api_relay.Server.Relay.Rounds.{
  judge, failed_draft, with_attempts, charge, accepted, settled, round-reject, round-accept,
}

-- Candidates that fail, each with its failure.
abbrev pub Tried : Type 0
Tried = List (ModelRouteCandidate × Exchange Body × PreCommitFailure)

abbrev pub exchanges : Tried → List (ModelRouteCandidate × Exchange Body)
exchanges [] = []
exchanges ((c, x, f) ∷ tried) = (c, x) ∷ exchanges tried

abbrev pub requests : StreamProtocol → Tried → List SentRequest
requests protocol [] = []
requests protocol ((c, x, f) ∷ tried) = request_to protocol c ∷ requests protocol tried

module _ (from_slice : List ℕ → Option Json) (protocol : StreamProtocol) where
  abbrev pub AllFail : Tried → Type 0
  AllFail [] = Unit
  AllFail ((c, x, f) ∷ tried) = (judge from_slice protocol x.upstream ≡ reject f) × AllFail tried

  unfoldable pub charge_all : AppState → Tried → AppState
  charge_all app [] = app
  charge_all app ((c, x, f) ∷ tried) =
      charge_all (charge from_slice protocol x.env x.upstream c (send protocol app c) f) tried

  -- The attempts of candidates that are not the last.
  unfoldable pub drafts : ℕ → Tried → List ModelRouteAttemptDraft
  drafts n [] = []
  drafts n ((c, x, f) ∷ tried) = failed_draft n c x f fallback ∷ drafts (suc n) tried

  more_left :
      (tried : Tried) (cx : ModelRouteCandidate × Exchange Body)
      (rest : List (ModelRouteCandidate × Exchange Body))
      → is_last (exchanges tried ++ cx ∷ rest) ≡ false
  more_left [] cx rest = refl
  more_left ((c, x, f) ∷ tried) cx rest = refl

  recorded :
      (r : CallRecorder) (d : ModelRouteAttemptDraft) (tried : Tried)
      → with_attempts (with_attempts r (d ∷ [])) (drafts (length (r.attempts ++ d ∷ [])) tried)
        ≡ with_attempts r (d ∷ drafts (suc (length r.attempts)) tried)
  recorded r d tried =
      ap (λ (n : ℕ). with_attempts (with_attempts r (d ∷ [])) (drafts n tried))
        (omega (arith, length-append r.attempts (d ∷ [])))
      ∙ ap (λ (l : List ModelRouteAttemptDraft). record r { attempts = l })
          (append_assoc r.attempts (d ∷ []) (drafts (suc (length r.attempts)) tried))

  abbrev pub last_error : Option RelayError → Tried → Option RelayError
  last_error e [] = e
  last_error e ((c, x, f) ∷ tried) = last_error (some f.error) tried

  module _ (name : Text) (env : Env) (now : ℕ) where
    abbrev pub loop :
        List (ModelRouteCandidate × Exchange Body)
        → AppState
        → CallRecorder
        → Option RelayError
        → Relayed JsonResponse
    loop = relay_from (non_streaming_handler from_slice protocol name) protocol env now

    abbrev continue :
        List (ModelRouteCandidate × Exchange Body) → Round JsonResponse → Relayed JsonResponse
    continue rest (stop app response) = answered app response
    continue rest (go_on app r error) = loop rest app r (some error)

    pub loop-reject :
        (c : ModelRouteCandidate) (x : Exchange Body) (f : PreCommitFailure)
        (rest : List (ModelRouteCandidate × Exchange Body)) (last : Bool) (app : AppState)
        (r : CallRecorder) (e : Option RelayError)
        → judge from_slice protocol x.upstream ≡ reject f
        → is_last rest ≡ last
        → loop ((c, x) ∷ rest) app r e
          ≡ loop rest
              (charge from_slice protocol x.env x.upstream c (send protocol app c) f)
              (with_attempts r
                (failed_draft (length r.attempts) c x f (if last then failed else fallback) ∷ []))
              (some f.error)
    unfolding relay_from
    loop-reject c x f rest last app r e j l = ap (continue rest) (
        ap
          (λ (b : Bool).
            round (non_streaming_handler from_slice protocol name) protocol c x b app r)
          l
        ∙ round-reject from_slice protocol name c x last app r f j)

    pub loop-accept :
        (c : ModelRouteCandidate) (x : Exchange Body)
        (rest : List (ModelRouteCandidate × Exchange Body)) (app : AppState) (r : CallRecorder)
        (e : Option RelayError) (status : ℕ) (body : Body) (json : Json)
        → x.upstream ≡ responded status body
        → judge from_slice protocol x.upstream ≡ accept json
        → loop ((c, x) ∷ rest) app r e
          ≡ answered
              (settled from_slice protocol name x c
                (send protocol app c)
                (accepted from_slice protocol name x c r status json))
              (record { status = status; body = set_model name json })
    unfolding relay_from
    loop-accept c x rest app r e status body json u j =
        ap (continue rest)
          (round-accept from_slice protocol name c x (is_last rest) app r status body json u j)

    -- Past candidates that all fail, the loop is where it would be with their attempts in the record.
    pub pass :
        (tried : Tried) (cx : ModelRouteCandidate × Exchange Body)
        (rest : List (ModelRouteCandidate × Exchange Body)) (app : AppState) (r : CallRecorder)
        (e : Option RelayError)
        → AllFail tried
        → loop (exchanges tried ++ cx ∷ rest) app r e
          ≡ loop
              (cx ∷ rest)
              (charge_all app tried)
              (with_attempts r (drafts (length r.attempts) tried))
              (last_error e tried)
    unfolding charge_all drafts
    pass [] cx rest app r e h =
        ap (λ (l : List ModelRouteAttemptDraft). loop (cx ∷ rest) app (record r { attempts = l }) e)
          (sym (append-nil r.attempts))
    pass ((c, x, f) ∷ tried) cx rest app r e (h, hs) =
        let d = failed_draft (length r.attempts) c x f fallback in
        let app' = charge from_slice protocol x.env x.upstream c (send protocol app c) f in
        loop-reject c x f (exchanges tried ++ cx ∷ rest) false app r e h (more_left tried cx rest)
        ∙ pass tried cx rest app' (with_attempts r (d ∷ [])) (some f.error) hs
        ∙ ap
            (λ (r' : CallRecorder).
              loop (cx ∷ rest) (charge_all app' tried) r' (last_error (some f.error) tried))
            (recorded r d tried)
