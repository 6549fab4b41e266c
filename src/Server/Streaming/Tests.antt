-- ===== src/Server/Streaming/Tests.antt =====
-- Runs of the streams at concrete values.
use local_api_relay.Common.{ℕ, false, none, some, List, [], ◌∷◌, ◌++◌, Option, ◌≡◌, refl}
use local_api_relay.Common.Text.{codes, text_eq}
use local_api_relay.Store.{chat_completions}
use local_api_relay.Server.{AppState}
use local_api_relay.Server.Recorder.{mark_committed}
use local_api_relay.Server.Json.{
  Json, object, entry, end, string, number, array, nil, get, field, as_str,
}
use local_api_relay.Server.Protocol.{RelayError, api_error, upstream_timeout, ◌>>=◌}
use local_api_relay.Server.Sse.Framing.{read_events, whole_events, chunks_of, read_events-whole}
use local_api_relay.Server.Relay.Effects.{Kept}
use local_api_relay.Server.Sse
use local_api_relay.Server.Sse.{
  SseEvent, chunk, idle, read_next_event, next_event, sse_event_end, position, starts_with, take,
  drop_first, utf8_from, parse_event, read_lines, read_line, split_inclusive, split_once,
  strip_suffix,
}
use local_api_relay.Server.Stream.{
  is_valid_sse_protocol_event, render_sse_event, render_payload, render_lines,
  is_chat_completion_chunk,
}
use local_api_relay.Server.Streaming.{
  prime, new_relay, SseRelay, Streaming, next_body_chunk, pop_event, closed, poll, sent, pending,
}
use local_api_relay.Server.Streaming.Polls.{is_out_of_fuel, prime_ends, poll_timeout}
use local_api_relay.Server.Streaming.Passes.{Next, poll-IsRendered}
use local_api_relay.Server.Streaming.Renaming.{IsRendered}
use local_api_relay.Server.Handlers.{update_field}
use local_api_relay.Common.Int.{pos}
use local_api_relay.Samples.{works, app, model_name}
use local_api_relay.Server.Tests.{waiting, parse}

-- A terminator that is cut in the middle.
read_events-whole_example :
    read_events 3 [] (chunks_of (codes "data: a\n" ∷ codes "\ndata: b\n\n" ∷ []))
    ≡ whole_events 3 (codes "data: a\n\ndata: b\n\n")
read_events-whole_example = read_events-whole 3 [] (codes "data: a\n" ∷ codes "\ndata: b\n\n" ∷ [])

-- A printer of JSON that shows nothing.
abbrev print : Json → List ℕ
print v = []

prime_ends_example :
    is_out_of_fuel
      (prime parse print chat_completions model_name (chunk (codes ": hi\n\n") ∷ idle ∷ []))
    ≡ false
prime_ends_example =
    prime_ends parse print chat_completions model_name (chunk (codes ": hi\n\n") ∷ idle ∷ [])

-- A chunk under the upstream's model name, a parser that reads it, and a printer of the name alone.
abbrev foreign_json : Json
foreign_json = object (
    entry (codes "object") (string (codes "chat.completion.chunk")) (
      entry (codes "id") (string (codes "c1")) (
        entry (codes "created") (number (pos 1))
          (entry (codes "model") (string (codes "up")) (entry (codes "choices") (array nil) end)))))

abbrev read_foreign : List ℕ → Option Json
read_foreign bs = some foreign_json

abbrev show_model : Json → List ℕ
show_model v = elim (get (codes "model") v >>= as_str) [ none ↦ [] | some name ↦ name ]

abbrev foreign_stream : Streaming
foreign_stream = record {
  relay = new_relay chat_completions model_name (chunk (codes "id: 7\ndata: x\n\n") ∷ []);
  recorder = mark_committed waiting 200;
  http_status = 200;
}

abbrev renamed_text : List ℕ
renamed_text = codes "id: 7\ndata: " ++ model_name ++ codes "\n\n"

abbrev after_foreign : Streaming
after_foreign = elim (poll read_foreign show_model works 9 app foreign_stream) [
  | sent bs app' st ↦ st
  | closed app' ↦ foreign_stream
]

sends_renamed :
    poll read_foreign show_model works 9 app foreign_stream ≡ sent renamed_text app after_foreign
unfolding poll next_body_chunk read_next_event next_event sse_event_end position starts_with
    utf8_from take drop_first parse_event read_lines split_inclusive read_line strip_suffix text_eq
    split_once is_valid_sse_protocol_event render_sse_event render_payload render_lines update_field
    field is_chat_completion_chunk
sends_renamed = refl

poll-IsRendered_example :
    (e : SseEvent) × (q : SseRelay) × (app ≡ app)
    × (pop_event foreign_stream.relay foreign_stream.relay.queued_events ≡ pending e q)
    × IsRendered read_foreign show_model chat_completions model_name
        (codes "id")
        (codes "id")
        e
        renamed_text
    × Next read_foreign show_model works 10 app after_foreign chat_completions e
poll-IsRendered_example =
    poll-IsRendered read_foreign show_model works works 9 10 app app app foreign_stream
      after_foreign renamed_text (codes "id") (codes "id") (unfold text_eq in refl)
      (unfold text_eq in refl) refl refl sends_renamed

abbrev idle_stream : Streaming
idle_stream = record {
  relay = new_relay chat_completions model_name (chunk (codes "data:") ∷ idle ∷ []);
  recorder = mark_committed waiting 200;
  http_status = 200;
}

abbrev idle_error : RelayError
idle_error =
    api_error 504 "upstream SSE stream became idle before its next event" (some upstream_timeout)

goes_idle :
    read_next_event [] (chunk (codes "data:") ∷ idle ∷ [])
    ≡ Sse.failed idle_error (codes "data:") []
unfolding read_next_event next_event sse_event_end position starts_with
goes_idle = refl

poll_timeout_example :
    (app' : AppState) × (poll parse print works 9 app idle_stream ≡ closed app') × Kept app app'
poll_timeout_example =
    poll_timeout parse print works 9 app idle_stream idle_error (codes "data:") [] refl refl
      goes_idle refl

-- An event whose lines end in a lone carriage return is framed, but its `data` line is not seen.
carriage_return_test : (parse_event (codes "event: x\rdata: y\r\r")).payload ≡ none
unfolding parse_event read_lines read_line split_inclusive split_once strip_suffix text_eq
carriage_return_test = refl
