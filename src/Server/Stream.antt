-- ===== src/Server/Stream.antt =====
-- src/server.rs: `SseRelay`, which relays the events of a stream, and `relay_streaming`. The JSON
-- library's parser and printer are `from_str` and `to_string`. The deadline of the first event is one
-- of the things that an upstream does. A stream's bytes count as sent when the body is polled.
use local_api_relay.Common.{
  ℕ, Bool, true, false, not, ◌+◌, ◌/◌, ◌%◌, ◌&&◌, ◌||◌, Option, none, some, List, [], ◌∷◌, ◌++◌,
  ltb, if◌then◌else◌, is_some,
}
use local_api_relay.Common.Text.{Text, codes, text_eq, is_empty}
use local_api_relay.Store.{StreamProtocol, chat_completions, responses}
use local_api_relay.Server.Json.{Json, string, object, get, as_str, as_i64, as_array, is_null}
use local_api_relay.Server.Protocol.{some_and, str_at, str_is, has_name, ◌>>=◌}
use local_api_relay.Server.Handlers.{update_field}
use local_api_relay.Server.Sse.{Bytes, SseEvent, starts_with, split_inclusive, line_of}

-- The UTF-8 bytes of a text.
abbrev pub utf8_char : ℕ → Bytes
utf8_char c =
    if ltb c 0x80
    then c ∷ []
    else if ltb c 0x800
    then (0xC0 + c / 0x40) ∷ (0x80 + c % 0x40) ∷ []
    else if ltb c 0x10000
    then (0xE0 + c / 0x1000) ∷ (0x80 + c / 0x40 % 0x40) ∷ (0x80 + c % 0x40) ∷ []
    else (0xF0 + c / 0x40000)
      ∷ (0x80 + c / 0x1000 % 0x40)
      ∷ (0x80 + c / 0x40 % 0x40)
      ∷ (0x80 + c % 0x40)
      ∷ []

unfoldable pub utf8 : Text → Bytes
utf8 [] = []
utf8 (c ∷ s) = utf8_char c ++ utf8 s

unfoldable pub is_chat_completion_chunk : Json → Bool
is_chat_completion_chunk chunk =
    str_is "object" "chat.completion.chunk" chunk
    && has_name "id" chunk
    && is_some (get (codes "created") chunk >>= as_i64)
    && has_name "model" chunk
    && is_some (get (codes "choices") chunk >>= as_array)

abbrev pub is_done : Option Bytes → Bool
is_done payload = some_and payload (λ d. text_eq d (codes "[DONE]"))

-- The type of a Responses event, on its `event` line and in its payload.
abbrev pub is_typed : Option Bytes → Json → Bool
is_typed none payload = false
is_typed (some t) payload =
    starts_with (codes "response.") t && some_and (str_at "type" payload) (λ s. text_eq (utf8 s) t)

module _ (from_str : Bytes → Option Json) where
  abbrev parsed : Option Bytes → Option Json
  parsed none = none
  parsed (some d) = from_str d

  unfoldable pub is_valid_sse_protocol_event : StreamProtocol → SseEvent → Bool → Bool
  is_valid_sse_protocol_event chat_completions e allow_chat_done =
      not (is_some e.payload)
      || (allow_chat_done && is_done e.payload)
      || some_and (parsed e.payload) is_chat_completion_chunk
  is_valid_sse_protocol_event responses e allow_chat_done =
      not (is_some e.payload) || some_and (parsed e.payload) (is_typed e.event_type)

  abbrev is_terminal_type : Bytes → Bool
  is_terminal_type t =
      text_eq t (codes "response.completed")
      || text_eq t (codes "response.failed")
      || text_eq t (codes "response.incomplete")

  unfoldable pub is_terminal_sse_event : StreamProtocol → SseEvent → Bool
  is_terminal_sse_event chat_completions e = is_done e.payload
  is_terminal_sse_event responses e =
      some_and e.event_type is_terminal_type && is_valid_sse_protocol_event responses e true

  abbrev is_failed_status : Text → Bool
  is_failed_status s = text_eq s (codes "failed") || text_eq s (codes "cancelled")

  -- `status`, or that of `response` when the payload has none.
  abbrev status_of : Json → Option Json
  status_of payload = elim (get (codes "status") payload) [
    | some status ↦ some status
    | none ↦ get (codes "response") payload >>= get (codes "status")
  ]

  unfoldable pub responses_terminal_failure : SseEvent → Bool
  responses_terminal_failure e =
      some_and e.event_type (λ t. text_eq t (codes "response.failed"))
      || some_and (parsed e.payload) (λ payload.
        some_and (status_of payload >>= as_str) is_failed_status
        || some_and (get (codes "error") payload) (λ error. not (is_null error)))

  -- The model that the payload names, and the payload under another name.
  abbrev pub model_of_payload : StreamProtocol → Json → Option Text
  model_of_payload chat_completions payload = str_at "model" payload
  model_of_payload responses payload = get (codes "response") payload >>= str_at "model"

  abbrev rename : Text → Json → Json
  rename name (object fs) = object (update_field (codes "model") (λ v. string name) fs)
  rename name v = v

  abbrev pub with_model : StreamProtocol → Text → Json → Json
  with_model chat_completions name payload = rename name payload
  with_model responses name (object fs) = object (update_field (codes "response") (rename name) fs)
  with_model responses name v = v

  abbrev is_data_line : Bytes → Bool
  is_data_line line = text_eq line (codes "data") || starts_with (codes "data:") line

  -- The lines of the rendered event: the first `data` line carries the new payload, the others go.
  unfoldable pub render_lines : Bytes → Bool → List Bytes → Bytes
  render_lines serialized wrote_data [] = []
  render_lines serialized wrote_data (piece ∷ pieces) =
      let line = line_of piece in
      let rest = render_lines serialized (wrote_data || is_data_line line) pieces in
      if is_data_line line
      then (if wrote_data then rest else codes "data: " ++ serialized ++ 10 ∷ rest)
      else if is_empty line
      then rest
      else line ++ 10 ∷ rest

  module _ (to_string : Json → Bytes) where
    unfoldable pub render_payload : StreamProtocol → SseEvent → Text → Json → Bytes
    render_payload protocol e name payload = elim (model_of_payload protocol payload) [
      | none ↦ e.raw
      | some model ↦
          if text_eq model name
          then e.raw
          else render_lines (to_string (with_model protocol name payload)) false
              (split_inclusive e.raw)
            ++ 10 ∷ []
    ]

    unfoldable pub render_sse_event : StreamProtocol → SseEvent → Text → Bytes
    render_sse_event protocol e name = elim (parsed e.payload) [
      | none ↦ e.raw
      | some payload ↦ render_payload protocol e name payload
    ]
