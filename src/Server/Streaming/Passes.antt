-- ===== src/Server/Streaming/Passes.antt =====
-- src/server.rs, `relay_streaming`: what a poll of the body passes on, and what comes after it.
use local_api_relay.Common.{
  ℕ, Bool, true, false, not, ◌&&◌, ◌||◌, Option, none, some, is_some, arith, ◌≡◌, refl, ap, sym,
  ◌∙◌, subst, Bool-cases, inl, inr,
}
use local_api_relay.Common.Text.{Text, codes, text_eq}
use local_api_relay.Store.{
  StreamProtocol, chat_completions, responses, Env, success, stream_terminated,
}
use local_api_relay.Server.{AppState}
use local_api_relay.Server.Json.{Json}
use local_api_relay.Server.Protocol.{some_and}
use local_api_relay.Server.Recorder.{
  note_usage, note_first_chunk, finalize_and_write, resolve_committed_model_route_attempt,
}
use local_api_relay.Server.Sse.{Bytes, SseEvent}
use local_api_relay.Server.Stream.{
  is_terminal_sse_event, is_valid_sse_protocol_event, responses_terminal_failure,
}
use local_api_relay.Server.Streaming.{
  SseRelay, BodyChunk, relayed, done, broke, pending, pop_event, next_body_chunk, note_event,
  polled, is_responses, Streaming, sent, closed, terminate, poll, take_usage, blame_committed,
}
use local_api_relay.Server.Streaming.Polls.{
  relay_event-Passed, Same, pop-Same, noted-finished, noted-failure, unfinished,
}
use local_api_relay.Server.Streaming.Renaming.{IsRendered, event-IsRendered}

-- The event is the last of its protocol.
abbrev pub ends : StreamProtocol → SseEvent → Bool
ends chat_completions e = some_and e.payload (λ d. text_eq d (codes "[DONE]"))
ends responses e = some_and e.event_type (λ t.
    text_eq t (codes "response.completed")
    || text_eq t (codes "response.failed")
    || text_eq t (codes "response.incomplete"))

module _ (from_str : Bytes → Option Json) (to_string : Json → Bytes) where
  valid-responses :
      (e : SseEvent)
      → (is_some e.payload && not (is_valid_sse_protocol_event from_str responses e true)) ≡ false
      → is_valid_sse_protocol_event from_str responses e true ≡ true
  unfolding is_valid_sse_protocol_event
  valid-responses e valid = ground arith

  terminal-ends :
      (protocol : StreamProtocol) (e : SseEvent)
      → (is_some e.payload && not (is_valid_sse_protocol_event from_str protocol e true)) ≡ false
      → is_terminal_sse_event from_str protocol e ≡ ends protocol e
  unfolding is_terminal_sse_event
  terminal-ends chat_completions e valid = refl
  terminal-ends responses e valid = ground (arith, valid-responses e valid)

  sent_inj :
      {a b : Bytes} {app app' : AppState} {st st' : Streaming}
      → sent a app st ≡ sent b app' st'
      → (a ≡ b) × (app ≡ app') × (st ≡ st')
  sent_inj h = (cc, cc, cc)

  -- The stream after a chunk is passed on.
  abbrev passed_on : ℕ → Streaming → SseRelay → Streaming
  passed_on now st r = record st {
    relay = take_usage r;
    recorder = note_usage (note_first_chunk now st.recorder) r.captured_usage;
  }

  polled-sent :
      (env : Env) (now : ℕ) (app app' : AppState) (st st' : Streaming) (bs : Bytes)
      (x : BodyChunk × SseRelay)
      → polled from_str to_string env now app st x ≡ sent bs app' st'
      → (r : SseRelay) × (x ≡ (relayed bs, r)) × (app ≡ app') × (passed_on now st r ≡ st')
  polled-sent env now app app' st st' bs (relayed b, r) h =
      let (same, is_app, is_st) = sent_inj h in
      (r, ap (λ (b : Bytes). (relayed b, r)) same, is_app, is_st)
  polled-sent env now app app' st st' bs (done, r) h = absurd (cc)
  polled-sent env now app app' st st' bs (broke error, r) h = absurd (cc)

  -- What the poll after the next one gives, at any time and state of the application.
  pub data Next (env : Env) (now : ℕ) (app : AppState) (st : Streaming) (protocol : StreamProtocol)
      (e : SseEvent) : Type 0 where
    goes_on : ends protocol e ≡ false → st.relay.finished ≡ false → Next env now app st protocol e
    completes :
        ends protocol e ≡ true
        → (is_responses protocol && responses_terminal_failure from_str e) ≡ false
        → poll from_str to_string env now app st
          ≡ closed (
              finalize_and_write env now app
                (resolve_committed_model_route_attempt now st.recorder success none)
                true)
        → Next env now app st protocol e
    fails :
        ends protocol e ≡ true
        → (is_responses protocol && responses_terminal_failure from_str e) ≡ true
        → poll from_str to_string env now app st
          ≡ closed (
              blame_committed env
                (finalize_and_write env now app
                  (resolve_committed_model_route_attempt now st.recorder stream_terminated
                    (some "upstream_semantic_failure"))
                  false)
                st
                "upstream_semantic_failure")
        → Next env now app st protocol e

  finished-done :
      (r : SseRelay) → r.finished ≡ true → next_body_chunk from_str to_string r ≡ (done, r)
  unfolding next_body_chunk
  finished-done r f = rw f refl

  module _ (env : Env) (now : ℕ) (app : AppState) (before : Streaming) (r : SseRelay) (time : ℕ)
      (f : r.finished ≡ true) where
    abbrev open_stream : Streaming
    open_stream = passed_on time before r

    closes_well :
        r.terminal_semantic_failure ≡ false
        → poll from_str to_string env now app open_stream
          ≡ closed (
              finalize_and_write env now app
                (resolve_committed_model_route_attempt now open_stream.recorder success none)
                true)
    unfolding poll note_usage
    closes_well unflagged = rw (poll, finished-done (take_usage r) f, unflagged) refl

    closes_failed :
        r.terminal_semantic_failure ≡ true
        → poll from_str to_string env now app open_stream
          ≡ closed (
              blame_committed env
                (finalize_and_write env now app
                  (resolve_committed_model_route_attempt now open_stream.recorder stream_terminated
                    (some "upstream_semantic_failure"))
                  false)
                open_stream
                "upstream_semantic_failure")
    unfolding poll note_usage terminate
    closes_failed flagged = rw (poll, finished-done (take_usage r) f, flagged) refl

  passed-Next :
      (env : Env) (now : ℕ) (app : AppState) (before : Streaming) (time : ℕ) (r : SseRelay)
      (e : SseEvent) (q : SseRelay)
      → r ≡ note_event from_str to_string e q
      → q.finished ≡ false
      → q.terminal_semantic_failure ≡ false
      → (is_some e.payload && not (is_valid_sse_protocol_event from_str q.protocol e true)) ≡ false
      → Next env now app (passed_on time before r) q.protocol e
  passed-Next env now app before time r e q noted live unflagged valid =
      let terminal = terminal-ends q.protocol e valid in
      let finished : r.finished ≡ ends q.protocol e =
        ap (λ (x : SseRelay). x.finished) noted
        ∙ noted-finished from_str to_string e q live
        ∙ terminal in
      elim (Bool-cases (ends q.protocol e)) [
        | inr on ↦ goes_on on (finished ∙ on)
        | inl last ↦
            let flagged : r.terminal_semantic_failure
                ≡ (is_responses q.protocol && responses_terminal_failure from_str e) =
              ap (λ (x : SseRelay). x.terminal_semantic_failure) noted
              ∙ noted-failure from_str to_string e q unflagged (terminal ∙ last) in
            elim (Bool-cases (is_responses q.protocol && responses_terminal_failure from_str e)) [
              | inl bad ↦
                  fails last bad
                    (closes_failed env now app before r time (finished ∙ last) (flagged ∙ bad))
              | inr good ↦
                  completes last good
                    (closes_well env now app before r time (finished ∙ last) (flagged ∙ good))
            ]
      ]

  -- A poll of a streamed body that is not finished and has noted no failure, when it sends bytes,
  -- changes no state of the application and passes on one event, the next of the queue or of the
  -- upstream. If the event's data names another model than the published one, the bytes are its
  -- lines in order, less the empty ones, with one line of new data in the place of its lines of
  -- data, at the first of them; the new data names the published model and any other field of it
  -- reads as before. If it does not, the bytes are the event as it came. After the last event of
  -- the protocol (the end mark of Chat, or a completed, failed or incomplete response) the next
  -- poll closes the body, whatever the upstream still sends: the call is recorded as succeeded, or,
  -- after a failed response, as not succeeded and the route that answered is blamed. After any
  -- other event the stream stays open.
  pub poll-IsRendered :
      (env env' : Env) (now now' : ℕ) (app app' later : AppState) (st st' : Streaming) (bs : Bytes)
      (inner outer : Text)
      → text_eq (codes "model") inner ≡ false
      → text_eq (codes "response") outer ≡ false
      → st.relay.finished ≡ false
      → st.relay.terminal_semantic_failure ≡ false
      → poll from_str to_string env now app st ≡ sent bs app' st'
      → (e : SseEvent) × (q : SseRelay) × (app ≡ app')
        × (pop_event st.relay st.relay.queued_events ≡ pending e q)
        × IsRendered from_str to_string st.relay.protocol st.relay.published_model_name inner outer
            e bs
        × Next env' now' later st' st.relay.protocol e
  unfolding poll
  poll-IsRendered env env' now now' app app' later st st' bs inner outer not_model not_response live
        unflagged h =
      let (r, polls, is_app, is_st) = polled-sent env now app app' st st' bs _ h in
      let p =
        relay_event-Passed from_str to_string st.relay r bs
          (pop_event st.relay st.relay.queued_events) refl
          (sym (unfinished from_str to_string st.relay live) ∙ polls) in
      let (same, protocol, name, flag) =
        subst (Same from_str to_string st.relay) p.popped
          (pop-Same from_str to_string st.relay st.relay.queued_events) in
      (
        p.passed,
        p.before,
        is_app,
        p.popped,
        subst
            (λ (n : Text).
              IsRendered from_str to_string st.relay.protocol n inner outer p.passed bs)
            name
            (subst
              (λ (x : StreamProtocol).
                IsRendered from_str to_string x p.before.published_model_name inner outer p.passed
                  bs)
              protocol
              (subst
                (IsRendered from_str to_string p.before.protocol p.before.published_model_name inner
                  outer p.passed)
                (sym p.rendered)
                (event-IsRendered from_str to_string p.before.protocol p.before.published_model_name
                  inner outer not_model not_response p.passed))),
        subst (λ (x : StreamProtocol). Next env' now' later st' x p.passed) protocol
            (subst (λ (x : Streaming). Next env' now' later x p.before.protocol p.passed) is_st
              (passed-Next env' now' later st now r p.passed p.before p.noted (same ∙ live)
                (flag ∙ unflagged) p.valid)),
      )
