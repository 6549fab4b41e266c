-- ===== src/Server/Sse/Framing.antt =====
-- src/server.rs, `SseReader`: the events of a stream do not depend on how it is cut into chunks.
use local_api_relay.Common.{
  ℕ, zero, suc, ◌≤◌, Option, none, some, List, [], ◌∷◌, ◌++◌, length, append_assoc, append-nil,
  arith, ◌≡◌, refl, ap, sym, ◌∙◌, Option-cases, inl, inr,
}
use local_api_relay.Server.Sse.{
  Bytes, SseEvent, sse_event_end, take, drop_first, Next, incomplete, not_utf8, complete, framed,
  next_at, next_event, Chunk, chunk, idle, broken, Read, event, ended, failed, read_or,
  read_next_event,
}
use local_api_relay.Server.Sse.Windows.{sse_event_end-append, take-append, drop_first-append}

-- The rest of what `next_event` gives, with more bytes behind it.
abbrev pub followed : Bytes → Next → Next
followed more incomplete = incomplete
followed more (not_utf8 rest) = not_utf8 (rest ++ more)
followed more (complete e rest) = complete e (rest ++ more)

framed-followed :
    (raw rest more : Bytes) → framed raw (rest ++ more) ≡ followed more (framed raw rest)
framed-followed raw rest more = ground arith

next_at-append :
    (bs more : Bytes) (n : ℕ)
    → n ≤ length bs
    → next_at (some n) (bs ++ more) ≡ followed more (next_at (some n) bs)
next_at-append bs more n fits =
    ap (λ (r : Bytes). framed r (drop_first n (bs ++ more))) (take-append n bs more fits)
    ∙ ap (framed (take n bs)) (drop_first-append n bs more fits)
    ∙ framed-followed (take n bs) (drop_first n bs) more

next_event-append :
    (bs more : Bytes) (n : ℕ)
    → sse_event_end bs ≡ some n
    → next_event (bs ++ more) ≡ followed more (next_event bs)
unfolding next_event
next_event-append bs more n h =
    let (end, fits, _) = sse_event_end-append bs more n h in
    ap (λ (o : Option ℕ). next_at o (bs ++ more)) end
    ∙ next_at-append bs more n fits
    ∙ ap (λ (o : Option ℕ). followed more (next_at o bs)) (sym h)

next_event-incomplete : (bs : Bytes) → sse_event_end bs ≡ none → next_event bs ≡ incomplete
unfolding next_event
next_event-incomplete bs h = ap (λ (o : Option ℕ). next_at o bs) h

abbrev pub concat : List Bytes → Bytes
concat [] = []
concat (bs ∷ chunks) = bs ++ concat chunks

abbrev pub chunks_of : List Bytes → List Chunk
chunks_of [] = []
chunks_of (bs ∷ chunks) = chunk bs ∷ chunks_of chunks

abbrev bytes_of : List Chunk → Bytes
bytes_of [] = []
bytes_of (chunk bs ∷ chunks) = bs ++ bytes_of chunks
bytes_of (idle ∷ chunks) = bytes_of chunks
bytes_of (broken is_timeout ∷ chunks) = bytes_of chunks

-- A read, with the bytes that are left wherever they are.
abbrev pub overall : Read → Next
overall (event e rest chunks) = complete e (rest ++ bytes_of chunks)
overall (ended rest) = incomplete
overall (failed error rest chunks) = not_utf8 (rest ++ bytes_of chunks)

bytes-concat : (cs : List Bytes) → bytes_of (chunks_of cs) ≡ concat cs
bytes-concat [] = refl
bytes-concat (c ∷ cs) = ap (◌++◌ c) (bytes-concat cs)

overall-framed :
    (raw rest : Bytes) (chunks : List Chunk) (waited : Read)
    → overall (read_or (framed raw rest) chunks waited)
      ≡ followed (bytes_of chunks) (framed raw rest)
overall-framed raw rest chunks waited = ground arith

-- Where an event is there, the chunks that are still to come do not matter.
overall-ready :
    (buffered : Bytes) (chunks : List Chunk) (waited : Read) (n : ℕ)
    → sse_event_end buffered ≡ some n
    → overall (read_or (next_event buffered) chunks waited)
      ≡ next_event (buffered ++ bytes_of chunks)
unfolding next_event
overall-ready buffered chunks waited n found =
    ap (λ (o : Option ℕ). overall (read_or (next_at o buffered) chunks waited)) found
    ∙ overall-framed (take n buffered) (drop_first n buffered) chunks waited
    ∙ ap (λ (o : Option ℕ). followed (bytes_of chunks) (next_at o buffered)) (sym found)
    ∙ sym (next_event-append buffered (bytes_of chunks) n found)

overall-waiting :
    (buffered : Bytes) (chunks : List Chunk) (waited : Read)
    → sse_event_end buffered ≡ none
    → read_or (next_event buffered) chunks waited ≡ waited
overall-waiting buffered chunks waited h =
    ap (λ (x : Next). read_or x chunks waited) (next_event-incomplete buffered h)

-- A read gives what the reader would give if all the bytes were there.
pub read-overall :
    (buffered : Bytes) (cs : List Bytes)
    → overall (read_next_event buffered (chunks_of cs)) ≡ next_event (buffered ++ concat cs)
unfolding read_next_event
read-overall buffered [] = elim (Option-cases (sse_event_end buffered)) [
  | inl none_yet ↦
      ap overall (overall-waiting buffered [] (ended buffered) none_yet)
      ∙ sym (next_event-incomplete buffered none_yet)
      ∙ ap next_event (sym (append-nil buffered))
  | inr (n, found) ↦ overall-ready buffered [] (ended buffered) n found
]
read-overall buffered (c ∷ cs) =
    let rest = read_next_event (buffered ++ c) (chunks_of cs) in
    elim (Option-cases (sse_event_end buffered)) [
      | inl none_yet ↦
          ap overall (overall-waiting buffered (chunk c ∷ chunks_of cs) rest none_yet)
          ∙ read-overall (buffered ++ c) cs
          ∙ ap next_event (append_assoc buffered c (concat cs))
      | inr (n, found) ↦
          overall-ready buffered (chunk c ∷ chunks_of cs) rest n found
          ∙ ap (λ (bs : Bytes). next_event (buffered ++ (c ++ bs))) (bytes-concat cs)
    ]

abbrev IsPlain : Read → Type 0
IsPlain (event e rest chunks) = (cs : List Bytes) × (chunks ≡ chunks_of cs)
IsPlain (ended rest) = Unit
IsPlain (failed error rest chunks) = Unit

read_or-IsPlain :
    (x : Next) (cs : List Bytes) (waited : Read)
    → IsPlain waited
    → IsPlain (read_or x (chunks_of cs) waited)
read_or-IsPlain incomplete cs waited h = h
read_or-IsPlain (not_utf8 rest) cs waited h = tt
read_or-IsPlain (complete e rest) cs waited h = (cs, refl)

read-IsPlain :
    (buffered : Bytes) (cs : List Bytes) → IsPlain (read_next_event buffered (chunks_of cs))
unfolding read_next_event
read-IsPlain buffered [] = read_or-IsPlain (next_event buffered) [] (ended buffered) tt
read-IsPlain buffered (c ∷ cs) =
    read_or-IsPlain (next_event buffered) (c ∷ cs) (read_next_event (buffered ++ c) (chunks_of cs))
      (read-IsPlain (buffered ++ c) cs)

-- The events of the first `n` reads, up to the end of the stream or its first failure.
unfoldable pub read_events : ℕ → Bytes → List Chunk → List SseEvent
read_events zero buffered chunks = []
read_events (suc n) buffered chunks = elim (read_next_event buffered chunks) [
  | event e rest left ↦ e ∷ read_events n rest left
  | ended rest ↦ []
  | failed error rest left ↦ []
]

-- The first `n` events of bytes that are all there.
unfoldable pub whole_events : ℕ → Bytes → List SseEvent
whole_events zero bs = []
whole_events (suc n) bs = elim (next_event bs) [
  | complete e rest ↦ e ∷ whole_events n rest
  | incomplete ↦ []
  | not_utf8 rest ↦ []
]

abbrev after_next : ℕ → Next → List SseEvent
after_next n incomplete = []
after_next n (not_utf8 rest) = []
after_next n (complete e rest) = e ∷ whole_events n rest

module _ (n : ℕ)
    (rest_same : (buffered : Bytes) (cs : List Bytes)
      → read_events n buffered (chunks_of cs) ≡ whole_events n (buffered ++ concat cs)) where
  abbrev after_read : Read → List SseEvent
  after_read (event e rest left) = e ∷ read_events n rest left
  after_read (ended rest) = []
  after_read (failed error rest left) = []

  after-same : (r : Read) → IsPlain r → after_read r ≡ after_next n (overall r)
  after-same (event e rest left) (cs, plain) = rw plain (
      ap (◌∷◌ e) (
        rest_same rest cs
        ∙ ap (λ (bs : Bytes). whole_events n (rest ++ bs)) (sym (bytes-concat cs))))
  after-same (ended rest) h = refl
  after-same (failed error rest left) h = refl

-- The events that a stream gives depend only on its bytes, not on how they are cut into chunks: any
-- number of reads of chunks that all arrive gives the events that the reader finds in the buffered
-- bytes followed by all chunks at once, up to the end of the bytes or an event that is not UTF-8.
pub read_events-whole :
    (n : ℕ) (buffered : Bytes) (cs : List Bytes)
    → read_events n buffered (chunks_of cs) ≡ whole_events n (buffered ++ concat cs)
unfolding read_events whole_events
read_events-whole zero buffered cs = refl
read_events-whole (suc n) buffered cs =
    after-same n (read_events-whole n) (read_next_event buffered (chunks_of cs))
      (read-IsPlain buffered cs)
    ∙ ap (after_next n) (read-overall buffered cs)
