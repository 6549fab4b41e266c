-- ===== src/Server/Sse.antt =====
-- src/server.rs, `SseReader`: how the bytes of an upstream's stream become events. A `str` is its UTF-8
-- bytes here.
pub mod Windows
pub mod Framing
use local_api_relay.Common.{
  String, ℕ, zero, suc, ◌+◌, ◌-◌, min, Bool, true, false, not, ◌&&◌, ◌||◌, Option, none, some, List,
  [], ◌∷◌, ◌++◌, ltb, leb, ◌==◌, if◌then◌else◌, unwrap_or, length,
}
use local_api_relay.Server.Protocol.{
  RelayError, api_error, relay_upstream_transport_error, invalid_upstream_response,
  upstream_timeout,
}
use local_api_relay.Common.Text.{codes, text_eq, is_empty}

abbrev pub Bytes : Type 0
Bytes = List ℕ

-- `starts_with`
unfoldable pub starts_with : Bytes → Bytes → Bool
starts_with [] bs = true
starts_with (a ∷ p) [] = false
starts_with (a ∷ p) (b ∷ bs) = a == b && starts_with p bs

abbrev pub shift : ℕ → Option ℕ → Option ℕ
shift n none = none
shift n (some k) = some (n + k)

-- `windows(n).position(test)`, where the test looks at the first bytes of what is left.
unfoldable pub position : (Bytes → Bool) → Bytes → Option ℕ
position test [] = none
position test (b ∷ bs) =
    let rest = position test bs in if test (b ∷ bs) then some 0 else shift 1 rest

abbrev pub crlf_crlf : Bytes → Bool
crlf_crlf = starts_with (13 ∷ 10 ∷ 13 ∷ 10 ∷ [])

abbrev pub blank_line : Bytes → Bool
blank_line bs = starts_with (10 ∷ 10 ∷ []) bs || starts_with (13 ∷ 13 ∷ []) bs

abbrev pub earlier : Option ℕ → Option ℕ → Option ℕ
earlier none b = b
earlier (some a) none = some a
earlier (some a) (some b) = some (min a b)

unfoldable pub sse_event_end : Bytes → Option ℕ
sse_event_end buffer =
    earlier (shift 4 (position crlf_crlf buffer)) (shift 2 (position blank_line buffer))

abbrev pub between : ℕ → ℕ → ℕ → Bool
between lo hi b = leb lo b && leb b hi

-- `str::from_utf8(..).is_ok()`: `n` bytes are missing from the current character, the next one of
-- them from `lo` to `hi`.
unfoldable pub utf8_from : ℕ → ℕ → ℕ → Bytes → Bool
utf8_from zero lo hi [] = true
utf8_from (suc n) lo hi [] = false
utf8_from (suc n) lo hi (b ∷ bs) = between lo hi b && utf8_from n 0x80 0xBF bs
utf8_from zero lo hi (b ∷ bs) =
    (ltb b 0x80 && utf8_from 0 0x80 0xBF bs)
    || (between 0xC2 0xDF b && utf8_from 1 0x80 0xBF bs)
    || (b == 0xE0 && utf8_from 2 0xA0 0xBF bs)
    || ((between 0xE1 0xEC b || between 0xEE 0xEF b) && utf8_from 2 0x80 0xBF bs)
    || (b == 0xED && utf8_from 2 0x80 0x9F bs)
    || (b == 0xF0 && utf8_from 3 0x90 0xBF bs)
    || (between 0xF1 0xF3 b && utf8_from 3 0x80 0xBF bs)
    || (b == 0xF4 && utf8_from 3 0x80 0x8F bs)

abbrev pub is_utf8 : Bytes → Bool
is_utf8 = utf8_from 0 0x80 0xBF

-- `strip_suffix` of one byte.
unfoldable pub strip_suffix : ℕ → Bytes → Option Bytes
strip_suffix c [] = none
strip_suffix c (b ∷ []) = if b == c then some [] else none
strip_suffix c (a ∷ b ∷ bs) = elim (strip_suffix c (b ∷ bs)) [ none ↦ none | some s ↦ some (a ∷ s) ]

abbrev pub or_same : Bytes → Option Bytes → Bytes
or_same line o = unwrap_or line o

abbrev pub to_first : ℕ → List Bytes → List Bytes
to_first b [] = (b ∷ []) ∷ []
to_first b (line ∷ lines) = (b ∷ line) ∷ lines

-- `split_inclusive('\n')`
unfoldable pub split_inclusive : Bytes → List Bytes
split_inclusive [] = []
split_inclusive (b ∷ bs) =
    let rest = split_inclusive bs in if b == 10 then (b ∷ []) ∷ rest else to_first b rest

-- What `lines` makes of a piece, and the `strip_suffix('\r')` that the code adds.
abbrev pub std_line : Bytes → Option Bytes → Bytes
std_line piece none = piece
std_line piece (some whole) = or_same whole (strip_suffix 13 whole)

abbrev pub line_of : Bytes → Bytes
line_of piece =
    let line = std_line piece (strip_suffix 10 piece) in or_same line (strip_suffix 13 line)

abbrev pub add_first : ℕ → Bytes × Bytes → Bytes × Bytes
add_first b (field, value) = (b ∷ field, value)

-- `split_once(':').unwrap_or((line, ""))`
unfoldable pub split_once : Bytes → Bytes × Bytes
split_once [] = ([], [])
split_once (b ∷ bs) = let rest = split_once bs in if b == 58 then ([], bs) else add_first b rest

abbrev pub without_space : Bytes → Bytes
without_space [] = []
without_space (b ∷ bs) = if b == 32 then bs else b ∷ bs

-- `payload` is the field `data`.
pub record SseEvent : Type 0 where
  pub raw : Bytes
  pub event_type : Option Bytes
  pub payload : Option Bytes

-- `data_lines.join("\n")`, one line at a time.
abbrev pub add_data : Bytes → Option Bytes → Option Bytes
add_data value none = some value
add_data value (some old) = some (old ++ 10 ∷ value)

abbrev pub is_comment : Bytes → Bool
is_comment [] = true
is_comment (b ∷ bs) = b == 58

-- One round of the loop over the lines of an event.
unfoldable pub read_line : SseEvent → Bytes → SseEvent
read_line e line =
    let parts = split_once line in
    let value = without_space parts.1 in
    if is_comment line
    then e
    else if text_eq parts.0 (codes "event")
    then record e { event_type = some value }
    else if text_eq parts.0 (codes "data")
    then record e { payload = add_data value e.payload }
    else e

unfoldable pub read_lines : SseEvent → List Bytes → SseEvent
read_lines e [] = e
read_lines e (piece ∷ pieces) = read_lines (read_line e (line_of piece)) pieces

unfoldable pub parse_event : Bytes → SseEvent
parse_event raw =
    read_lines (record { raw = raw; event_type = none; payload = none }) (split_inclusive raw)

unfoldable pub take : ℕ → Bytes → Bytes
take zero bs = []
take (suc n) [] = []
take (suc n) (b ∷ bs) = b ∷ take n bs

unfoldable pub drop_first : ℕ → Bytes → Bytes
drop_first zero bs = bs
drop_first (suc n) [] = []
drop_first (suc n) (b ∷ bs) = drop_first n bs

-- What `next_event` returns; the buffer is left without the bytes of the event.
pub data Next : Type 0 where
  incomplete : Next
  not_utf8 : Bytes → Next
  complete : SseEvent → Bytes → Next

abbrev pub framed : Bytes → Bytes → Next
framed raw rest = if is_utf8 raw then complete (parse_event raw) rest else not_utf8 rest

abbrev pub next_at : Option ℕ → Bytes → Next
next_at none buffered = incomplete
next_at (some n) buffered = framed (take n buffered) (drop_first n buffered)

-- `SseReader::next_event`
unfoldable pub next_event : Bytes → Next
next_event buffered = next_at (sse_event_end buffered) buffered

-- One wait for the next chunk of an upstream: its bytes, the idle deadline, or a transport error,
-- which may be a timeout too. The stream ends where the list does.
pub data Chunk : Type 0 where
  chunk : Bytes → Chunk
  idle : Chunk
  broken : Bool → Chunk

pub data Read : Type 0 where
  event : SseEvent → Bytes → List Chunk → Read
  ended : Bytes → Read
  failed : RelayError → Bytes → List Chunk → Read

abbrev pub invalid_response : String → RelayError
invalid_response message = api_error 502 message (some invalid_upstream_response)

-- The event that is there, if any, before the wait for a chunk.
abbrev pub read_or : Next → List Chunk → Read → Read
read_or incomplete chunks waited = waited
read_or (not_utf8 rest) chunks waited =
    failed (invalid_response "upstream SSE event is not valid UTF-8") rest chunks
read_or (complete e rest) chunks waited = event e rest chunks

-- `SseRelay::read_next_event`, on the bytes of the reader and the chunks still to come.
unfoldable pub read_next_event : Bytes → List Chunk → Read
read_next_event buffered [] = read_or (next_event buffered) [] (ended buffered)
read_next_event buffered (chunk bs ∷ chunks) =
    read_or (next_event buffered) (chunk bs ∷ chunks) (read_next_event (buffered ++ bs) chunks)
read_next_event buffered (idle ∷ chunks) = read_or (next_event buffered) (idle ∷ chunks) (
    failed
      (api_error 504 "upstream SSE stream became idle before its next event"
        (some upstream_timeout))
      buffered chunks)
read_next_event buffered (broken is_timeout ∷ chunks) =
    read_or (next_event buffered) (broken is_timeout ∷ chunks)
      (failed (relay_upstream_transport_error is_timeout) buffered chunks)
