-- ===== src/Server/Streaming/Polls.antt =====
-- src/server.rs: how a relayed stream starts and ends.
use local_api_relay.Common.{
  ℕ, zero, suc, Bool, true, false, not, ◌&&◌, Option, List, [], ◌∷◌, ◌++◌, ◌+◌, ◌≤◌, ◌<◌,
  if◌then◌else◌, is_some, length, length-append, subst, arith, ◌≡◌, refl, ap, sym, ◌∙◌, Bool-cases,
  Option-cases, inl, inr,
}
use local_api_relay.Common.Text.{Text}
use local_api_relay.Store.{StreamProtocol, Env}
use local_api_relay.Server.{AppState}
use local_api_relay.Server.Json.{Json}
use local_api_relay.Server.Protocol.{RelayError, relay_error_category}
use local_api_relay.Server.Relay.Effects.{Kept, finalize-Kept}
use local_api_relay.Server.Sse.{
  Bytes, SseEvent, Chunk, chunk, idle, broken, Read, event, ended, failed, read_or, read_next_event,
  Next, incomplete, not_utf8, complete, framed, next_event, sse_event_end, take, drop_first,
}
use local_api_relay.Server.Sse.Windows.{sse_event_end-append, drop_first-length}
use local_api_relay.Server.Stream.{
  is_terminal_sse_event, is_valid_sse_protocol_event, render_sse_event, responses_terminal_failure,
}
use local_api_relay.Server.Streaming.{
  SseRelay, Primed, primed, unprimed, out_of_fuel, prime_from, prime_round, prime, size, new_relay,
  relayed, done, broke, Pending, pending, no_event, no_read, pop_event, read_pending, note_event,
  next_body_chunk, relay_event, polled, is_responses, Streaming, closed, terminate, poll,
  is_timeout,
}

-- The bytes left after the next event are fewer.
abbrev Shorter : ℕ → Next → Type 0
Shorter n incomplete = Unit
Shorter n (not_utf8 rest) = length rest < n
Shorter n (complete e rest) = length rest < n

framed-Shorter : (n : ℕ) (raw rest : Bytes) → length rest < n → Shorter n (framed raw rest)
framed-Shorter n raw rest h = ground arith

next-Shorter : (bs : Bytes) → Shorter (length bs) (next_event bs)
unfolding next_event
next-Shorter bs = elim (Option-cases (sse_event_end bs)) [
  | inl e ↦ rw e tt
  | inr (n, e) ↦
      let (_, fits, some_bytes) = sse_event_end-append bs [] n e in
      rw e (
        framed-Shorter (length bs) (take n bs) (drop_first n bs)
          (drop_first-length n bs some_bytes fits))
]

abbrev Smaller : ℕ → Read → Type 0
Smaller n (event e rest left) = length rest + size left < n
Smaller n (ended rest) = Unit
Smaller n (failed error rest left) = Unit

read_or-Smaller :
    (m n : ℕ) (x : Next) (chunks : List Chunk) (waited : Read)
    → Shorter m x
    → m + size chunks ≤ n
    → Smaller n waited
    → Smaller n (read_or x chunks waited)
read_or-Smaller m n incomplete chunks waited h le w = w
read_or-Smaller m n (not_utf8 rest) chunks waited h le w = tt
read_or-Smaller m n (complete e rest) chunks waited h le w = omega arith

read-Smaller :
    (bs : Bytes) (chunks : List Chunk)
    → Smaller (length bs + size chunks) (read_next_event bs chunks)
unfolding read_next_event
read-Smaller bs [] =
    read_or-Smaller (length bs) _ (next_event bs) [] _ (next-Shorter bs) (omega arith) tt
read-Smaller bs (chunk more ∷ chunks) =
    read_or-Smaller (length bs) _ (next_event bs) (chunk more ∷ chunks) _ (next-Shorter bs)
      (omega arith)
      (subst (λ (n : ℕ). Smaller n (read_next_event (bs ++ more) chunks))
        (omega (arith, length-append bs more)) (read-Smaller (bs ++ more) chunks))
read-Smaller bs (idle ∷ chunks) =
    read_or-Smaller (length bs) _ (next_event bs) (idle ∷ chunks) _ (next-Shorter bs) (omega arith)
      tt
read-Smaller bs (broken t ∷ chunks) =
    read_or-Smaller (length bs) _ (next_event bs) (broken t ∷ chunks) _ (next-Shorter bs)
      (omega arith) tt

relayed-inj : {a b : Bytes} → relayed a ≡ relayed b → a ≡ b
relayed-inj h = cc

abbrev pub is_out_of_fuel : Primed → Bool
is_out_of_fuel out_of_fuel = true
is_out_of_fuel (primed relay) = false
is_out_of_fuel (unprimed error) = false

module _ (from_str : Bytes → Option Json) (to_string : Json → Bytes) where
  abbrev Primes : ℕ → SseRelay → Type 0
  Primes fuel r = is_out_of_fuel (prime_from from_str to_string fuel r) ≡ false

  module _ (fuel : ℕ)
      (shorter : (r : SseRelay) → length r.reader + size r.upstream < fuel → Primes fuel r) where
    prime_round-ends :
        (r : SseRelay) (x : Read)
        → Smaller (length r.reader + size r.upstream) x
        → length r.reader + size r.upstream < suc fuel
        → is_out_of_fuel (prime_round from_str to_string (prime_from from_str to_string fuel) r x)
          ≡ false
    prime_round-ends r (ended rest) s h = refl
    prime_round-ends r (failed error rest left) s h = refl
    prime_round-ends r (event x rest left) s h =
        let r' : SseRelay = record r {
          reader = rest;
          upstream = left;
          queued_events = r.queued_events ++ x ∷ [];
        } in
        ground (arith, shorter r' (omega arith))

  prime-Primes :
      (fuel : ℕ) (r : SseRelay) → length r.reader + size r.upstream < fuel → Primes fuel r
  unfolding prime_from
  prime-Primes zero r h = absurd (omega arith)
  prime-Primes (suc fuel) r h =
      prime_round-ends fuel (prime-Primes fuel) r (read_next_event r.reader r.upstream)
        (read-Smaller r.reader r.upstream) h

  -- The loop that primes a relay never runs out of its fuel, whatever the upstream sends: it ends
  -- with a primed relay or an error.
  pub prime_ends :
      (protocol : StreamProtocol) (name : Text) (chunks : List Chunk)
      → is_out_of_fuel (prime from_str to_string protocol name chunks) ≡ false
  unfolding prime
  prime_ends protocol name chunks =
      prime-Primes (suc (size chunks)) (new_relay protocol name chunks) (omega arith)

  -- An event that is passed on, with what it leaves.
  pub record Passed (r r' : SseRelay) (bs : Bytes) : Type 0 where
    pub passed : SseEvent
    pub before : SseRelay
    pub popped : pop_event r r.queued_events ≡ pending passed before
    pub rendered :
        bs ≡ render_sse_event from_str to_string before.protocol passed before.published_model_name
    pub valid :
        (is_some passed.payload
          && not (is_valid_sse_protocol_event from_str before.protocol passed true))
        ≡ false
    pub noted : r' ≡ note_event from_str to_string passed before

  pub relay_event-Passed :
      (r r' : SseRelay) (bs : Bytes) (p : Pending)
      → pop_event r r.queued_events ≡ p
      → relay_event from_str to_string p ≡ (relayed bs, r')
      → Passed r r' bs
  relay_event-Passed r r' bs (no_event q) e h = absurd (ground (arith, ap (λ x. x.0) h))
  relay_event-Passed r r' bs (no_read error q) e h = absurd (ground (arith, ap (λ x. x.0) h))
  relay_event-Passed r r' bs (pending x q) e h =
      elim (Bool-cases
        (is_some x.payload && not (is_valid_sse_protocol_event from_str q.protocol x true))) [
          | inl bad ↦ absurd (ground (arith, rw bad at h))
          | inr good ↦
              let h' = rw good at h in
              record {
                passed = x;
                before = q;
                popped = e;
                valid = good;
                rendered = sym (relayed-inj (ap (λ y. y.0) h'));
                noted = sym (ap (λ y. y.1) h');
              }
        ]

  abbrev pub Same : SseRelay → Pending → Type 0
  Same r (pending e q) =
      (q.finished ≡ r.finished)
      × (q.protocol ≡ r.protocol)
      × (q.published_model_name ≡ r.published_model_name)
      × (q.terminal_semantic_failure ≡ r.terminal_semantic_failure)
  Same r (no_event q) = Unit
  Same r (no_read error q) = Unit

  read-Same : (r : SseRelay) (x : Read) → Same r (read_pending r x)
  read-Same r (event e rest left) = (refl, refl, refl, refl)
  read-Same r (ended rest) = tt
  read-Same r (failed error rest left) = tt

  pub pop-Same : (r : SseRelay) (es : List SseEvent) → Same r (pop_event r es)
  pop-Same r [] = read-Same r (read_next_event r.reader r.upstream)
  pop-Same r (e ∷ es) = (refl, refl, refl, refl)

  pub noted-finished :
      (e : SseEvent) (q : SseRelay)
      → q.finished ≡ false
      → (note_event from_str to_string e q).finished ≡ is_terminal_sse_event from_str q.protocol e
  unfolding note_event
  noted-finished e q live = ground arith

  pub noted-failure :
      (e : SseEvent) (q : SseRelay)
      → q.terminal_semantic_failure ≡ false
      → is_terminal_sse_event from_str q.protocol e ≡ true
      → (note_event from_str to_string e q).terminal_semantic_failure
        ≡ (is_responses q.protocol && responses_terminal_failure from_str e)
  unfolding note_event
  noted-failure e q unflagged terminal = ground arith

  pub unfinished :
      (r : SseRelay)
      → r.finished ≡ false
      → next_body_chunk from_str to_string r
        ≡ relay_event from_str to_string (pop_event r r.queued_events)
  unfolding next_body_chunk
  unfinished r live =
      ap
        (λ (b : Bool).
          if b then (done, r) else relay_event from_str to_string (pop_event r r.queued_events))
        live

  broken_read :
      (r : SseRelay) (error : RelayError) (rest : Bytes) (left : List Chunk)
      → r.finished ≡ false
      → r.queued_events ≡ []
      → read_next_event r.reader r.upstream ≡ failed error rest left
      → next_body_chunk from_str to_string r
        ≡ (broke error, record r { reader = rest; upstream = left })
  broken_read r error rest left live empty_queue fails =
      unfinished r live
      ∙ ap (λ (es : List SseEvent). relay_event from_str to_string (pop_event r es)) empty_queue
      ∙ ap (λ (x : Read). relay_event from_str to_string (read_pending r x)) fails

  -- A read of a committed stream that fails with a timeout, the queue being empty, closes the body
  -- with a state in which no upstream was asked and neither the health table nor the in-memory
  -- overrides have changed: an idle upstream is not blamed.
  pub poll_timeout :
      (env : Env) (now : ℕ) (app : AppState) (st : Streaming) (error : RelayError) (rest : Bytes)
      (left : List Chunk)
      → st.relay.finished ≡ false
      → st.relay.queued_events ≡ []
      → read_next_event st.relay.reader st.relay.upstream ≡ failed error rest left
      → is_timeout error ≡ true
      → (app' : AppState) × (poll from_str to_string env now app st ≡ closed app') × Kept app app'
  unfolding poll terminate
  poll_timeout env now app st error rest left live empty_queue fails timeout = (
    terminate env now app st (relay_error_category error),
    ap (polled from_str to_string env now app st)
          (broken_read st.relay error rest left live empty_queue fails)
        ∙ rw timeout refl,
    finalize-Kept env now app _ false,
  )
