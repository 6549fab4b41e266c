-- ===== src/Server/Streaming.antt =====
-- src/server.rs: `SseRelay` as a state, its polls by the client's body, and `relay_streaming`. The body
-- is polled by the client, one poll at a time; each poll comes with its clocks.
pub mod Polls
pub mod Passes
pub mod Rendering
pub mod Renaming
mod Tests
use local_api_relay.Common.{
  ℕ, zero, suc, String, Bool, true, false, not, ◌&&◌, ◌||◌, Option, none, some, List, [], ◌∷◌, ◌++◌,
  ltb, leb, ◌==◌, ◌+◌, map, if◌then◌else◌, is_some, length,
}
use local_api_relay.Common.Int.{ℤ}
use local_api_relay.Common.Text.{Text, codes, text_eq, trim}
use local_api_relay.Store.{
  ModelRouteCandidate, StreamProtocol, chat_completions, responses, Usage, AttemptOutcome, success,
  stream_terminated, Env,
}
use local_api_relay.Server.{AppState}
use local_api_relay.Server.Storage.{quarantine_route}
use local_api_relay.Server.Recorder.{
  CallRecorder, new_recorder, mark_committed, note_first_chunk, note_usage,
  resolve_committed_model_route_attempt, committed_route_id, finalize_and_write,
}
use local_api_relay.Server.Json.{Json}
use local_api_relay.Server.Protocol.{
  RelayError, ErrorCode, relay_error_category, upstream_timeout, relay_upstream_timeout_error,
  extract_usage, some_and, ◌>>=◌,
}
use local_api_relay.Server.Relay.{
  Exchange, PreCommitFailure, PreCommitOutcome, commit, fall_through, OnSuccess, Relayed,
  relay_from,
}
use local_api_relay.Server.Sse.{
  Bytes, SseEvent, Chunk, chunk, idle, broken, Read, event, ended, failed, read_next_event,
  invalid_response,
}
use local_api_relay.Server.Stream.{
  is_valid_sse_protocol_event, is_terminal_sse_event, responses_terminal_failure, render_sse_event,
}

pub record SseRelay : Type 0 where
  pub upstream : List Chunk
  pub reader : Bytes
  pub queued_events : List SseEvent
  pub protocol : StreamProtocol
  pub published_model_name : Text
  pub captured_usage : Option Usage
  pub terminal_semantic_failure : Bool
  pub finished : Bool

pub data Primed : Type 0 where
  primed : SseRelay → Primed
  unprimed : RelayError → Primed
  out_of_fuel : Primed

-- What a poll of the relay gives.
pub data BodyChunk : Type 0 where
  relayed : Bytes → BodyChunk
  done : BodyChunk
  broke : RelayError → BodyChunk

-- The event that a poll looks at, from the queue or from the upstream.
pub data Pending : Type 0 where
  pending : SseEvent → SseRelay → Pending
  no_event : SseRelay → Pending
  no_read : RelayError → SseRelay → Pending

abbrev pub read_pending : SseRelay → Read → Pending
read_pending r (event e rest left) = pending e (record r { reader = rest; upstream = left })
read_pending r (ended rest) = no_event (record r { reader = rest; upstream = []; finished = true })
read_pending r (failed error rest left) =
    no_read error (record r { reader = rest; upstream = left })

abbrev pub pop_event : SseRelay → List SseEvent → Pending
pop_event r [] = read_pending r (read_next_event r.reader r.upstream)
pop_event r (e ∷ es) = pending e (record r { queued_events = es })

abbrev pub is_responses : StreamProtocol → Bool
is_responses responses = true
is_responses chat_completions = false

abbrev pub usage_after : Option Usage → Option Usage → Option Usage
usage_after old none = old
usage_after old (some new) = some new

-- `value.split(';').next()`
unfoldable pub before_semicolon : Text → Text
before_semicolon [] = []
before_semicolon (c ∷ s) = if c == 59 then [] else c ∷ before_semicolon s

abbrev pub ascii_lower : ℕ → ℕ
ascii_lower c = if leb 65 c && leb c 90 then c + 32 else c

unfoldable pub is_event_stream_content_type : Text → Bool
is_event_stream_content_type value =
    text_eq (map ascii_lower (trim (before_semicolon value))) (codes "text/event-stream")

module _ (from_str : Bytes → Option Json) (to_string : Json → Bytes) where
  -- One round of the loop of `SseRelay::prime`, once the next event is read; `again` is the rest of
  -- the loop.
  abbrev pub prime_round : (SseRelay → Primed) → SseRelay → Read → Primed
  prime_round again r (ended rest) =
      unprimed (invalid_response "upstream SSE stream ended before its first event")
  prime_round again r (failed error rest left) = unprimed error
  prime_round again r (event e rest left) =
      let r' = record r {
        reader = rest;
        upstream = left;
        queued_events = r.queued_events ++ e ∷ [];
      } in
      if not (is_some e.payload)
      then again r'
      else if is_valid_sse_protocol_event from_str r.protocol e false
      then primed r'
      else unprimed (invalid_response "upstream SSE stream started with an invalid protocol event")

  unfoldable pub prime_from : ℕ → SseRelay → Primed
  prime_from zero r = out_of_fuel
  prime_from (suc fuel) r = prime_round (prime_from fuel) r (read_next_event r.reader r.upstream)

  abbrev payload_of : SseEvent → Option Json
  payload_of e = e.payload >>= from_str

  -- What the relay notes of an event that it passes on.
  unfoldable pub note_event : SseEvent → SseRelay → SseRelay
  note_event e r =
      let terminal = is_terminal_sse_event from_str r.protocol e in
      record r {
        finished = if terminal then true else r.finished;
        queued_events = if terminal then [] else r.queued_events;
        terminal_semantic_failure =
            if terminal && is_responses r.protocol && responses_terminal_failure from_str e
            then true
            else r.terminal_semantic_failure;
        captured_usage = usage_after r.captured_usage (payload_of e >>= extract_usage r.protocol);
      }

  abbrev pub relay_event : Pending → BodyChunk × SseRelay
  relay_event (no_event r) =
      (broke (invalid_response "upstream SSE stream ended before its terminal event"), r)
  relay_event (no_read error r) = (broke error, r)
  relay_event (pending e r) =
      if is_some e.payload && not (is_valid_sse_protocol_event from_str r.protocol e true)
      then (
        broke (invalid_response "upstream SSE stream sent an invalid protocol event"),
        record r { finished = true; queued_events = [] },
      )
      else (
        relayed (render_sse_event from_str to_string r.protocol e r.published_model_name),
        note_event e r,
      )

  -- `SseRelay::next_body_chunk`
  unfoldable pub next_body_chunk : SseRelay → BodyChunk × SseRelay
  next_body_chunk r = if r.finished then (done, r) else relay_event (pop_event r r.queued_events)

-- The state of a streamed body.
pub record Streaming : Type 0 where
  pub relay : SseRelay
  pub recorder : CallRecorder
  pub http_status : ℕ

pub data Polled : Type 0 where
  sent : Bytes → AppState → Streaming → Polled
  closed : AppState → Polled

abbrev pub blame_committed : Env → AppState → Streaming → String → AppState
blame_committed env app st category = elim (committed_route_id st.recorder) [
  | none ↦ app
  | some id ↦ quarantine_route env app id category (some st.http_status)
]

-- `category != "upstream_timeout"`, by the code that has that category.
abbrev pub is_timeout : RelayError → Bool
is_timeout error = elim error.code [ some upstream_timeout ↦ true | _ ↦ false ]

abbrev pub take_usage : SseRelay → SseRelay
take_usage r = record r { captured_usage = none }

-- The end of a stream that is not credited.
unfoldable pub terminate : Env → ℕ → AppState → Streaming → String → AppState
terminate env now app st category =
    finalize_and_write env now app
      (resolve_committed_model_route_attempt now st.recorder stream_terminated (some category))
      false

abbrev pub close_done : Env → ℕ → AppState → Streaming → AppState
close_done env now app st =
    if st.relay.terminal_semantic_failure
    then blame_committed env (terminate env now app st "upstream_semantic_failure") st
        "upstream_semantic_failure"
    else finalize_and_write env now app
        (resolve_committed_model_route_attempt now st.recorder success none) true

abbrev pub close_broken : Env → ℕ → AppState → Streaming → RelayError → AppState
close_broken env now app st error =
    let category = relay_error_category error in
    let app' = terminate env now app st category in
    if is_timeout error then app' else blame_committed env app' st category

module _ (from_str : Bytes → Option Json) (to_string : Json → Bytes) where
  abbrev pub polled : Env → ℕ → AppState → Streaming → BodyChunk × SseRelay → Polled
  polled env now app st (relayed bs, r) = sent bs app (record st {
    relay = take_usage r;
    recorder = note_usage (note_first_chunk now st.recorder) r.captured_usage;
  })
  polled env now app st (done, r) = closed (
      close_done env now app
        (record st { relay = take_usage r; recorder = note_usage st.recorder r.captured_usage }))
  polled env now app st (broke error, r) =
      closed (close_broken env now app (record st { relay = r }) error)

  -- One poll of the body of `relay_streaming`.
  unfoldable pub poll : Env → ℕ → AppState → Streaming → Polled
  poll env now app st = polled env now app st (next_body_chunk from_str to_string st.relay)

-- The answer of an upstream to a streamed call: its content type, its chunks, and whether the deadline
-- of the first event passes before the relay is primed.
pub record StreamBody : Type 0 where
  pub content_type : Option Text
  pub chunks : List Chunk
  pub first_event_late : Bool

abbrev pub new_relay : StreamProtocol → Text → List Chunk → SseRelay
new_relay protocol name chunks = record {
  upstream = chunks;
  reader = [];
  queued_events = [];
  protocol = protocol;
  published_model_name = name;
  captured_usage = none;
  terminal_semantic_failure = false;
  finished = false;
}

-- The bytes that an upstream still sends. An event takes some of them, so that many reads, and one
-- more, are enough to prime a relay.
abbrev pub size : List Chunk → ℕ
size [] = 0
size (chunk bs ∷ chunks) = length bs + size chunks
size (idle ∷ chunks) = size chunks
size (broken is_timeout ∷ chunks) = size chunks

module _ (from_str : Bytes → Option Json) (to_string : Json → Bytes)
    (protocol : StreamProtocol) where
  -- `SseRelay::prime`
  unfoldable pub prime : Text → List Chunk → Primed
  prime name chunks =
      prime_from from_str to_string (suc (size chunks)) (new_relay protocol name chunks)

  abbrev not_primed : CallRecorder → ℕ → RelayError → PreCommitOutcome Streaming
  not_primed r status error =
      fall_through
        (record { error = error; category = relay_error_category error; http_status = some status })
        r

  abbrev start : AppState → CallRecorder → ℕ → Primed → PreCommitOutcome Streaming
  start app r status (primed relay) =
      commit app
        (record { relay = relay; recorder = mark_committed r status; http_status = status })
  start app r status (unprimed error) = not_primed r status error
  start app r status out_of_fuel = not_primed r status relay_upstream_timeout_error

  abbrev no_stream : RelayError
  no_stream = invalid_response "upstream did not return an SSE stream"

  -- The handler that `relay_streaming` gives to the loop.
  unfoldable pub streaming_handler : Text → OnSuccess StreamBody Streaming
  streaming_handler name env now app r status body =
      if not (some_and body.content_type is_event_stream_content_type)
      then fall_through
          (record {
            error = no_stream;
            category = "invalid_upstream_response";
            http_status = some status;
          })
          r
      else if body.first_event_late
      then not_primed r status relay_upstream_timeout_error
      else start app r status (prime name body.chunks)

  unfoldable pub relay_streaming :
      ℤ
      → ℕ
      → Env
      → ℕ
      → Text
      → List (ModelRouteCandidate × Exchange StreamBody)
      → AppState
      → Relayed Streaming
  relay_streaming created_at_ms started env now name candidates app =
      relay_from (streaming_handler name) protocol env now candidates app
        (new_recorder created_at_ms started name protocol true) none
