-- ===== src/Server/Streaming/Rendering.antt =====
-- src/server.rs, `render_sse_event`: what the bytes are that a client gets for an event.
use local_api_relay.Common.{
  Bool, true, false, not, ◌||◌, Option, List, [], ◌∷◌, ◌++◌, if◌then◌else◌, map, all, arith, ◌≡◌,
  refl, ap, sym, ◌∙◌, Bool-cases, inl, inr, ◌==◌, append_assoc,
}
use local_api_relay.Common.Text.{codes, text_eq, is_empty}
use local_api_relay.Server.Json.{Json}
use local_api_relay.Server.Sse.{Bytes, starts_with, split_once, line_of}
use local_api_relay.Server.Stream.{render_lines}

-- A line is of the field `data`, as the parser of events cuts it.
abbrev pub has_data : Bytes → Bool
has_data line = text_eq (split_once line).0 (codes "data")

-- The lines that an event keeps whatever its data becomes.
unfoldable pub others : List Bytes → List Bytes
others [] = []
others (l ∷ ls) = let rest = others ls in if has_data l || is_empty l then rest else l ∷ rest

unfoldable pub text_of : List Bytes → Bytes
text_of [] = []
text_of (l ∷ ls) = l ++ 10 ∷ text_of ls

-- The text of the lines, with the data in the place of their first line of data.
pub data IsReplaced (lines : List Bytes) (content bs : Bytes) : Type 0 where
  no_data :
      all (λ l. not (has_data l)) lines ≡ true
      → bs ≡ text_of (others lines)
      → IsReplaced lines content bs
  data_at :
      (before : List Bytes) (line : Bytes) (after : List Bytes)
      → lines ≡ before ++ line ∷ after
      → all (λ l. not (has_data l)) before ≡ true
      → has_data line ≡ true
      → bs ≡ text_of (others before) ++ (codes "data: " ++ content ++ 10 ∷ text_of (others after))
      → IsReplaced lines content bs

-- The test of the code, at a field of any name without a colon.
name-split :
    (w : Bytes) (l : Bytes)
    → all (λ c. not (c == 58)) w ≡ true
    → (text_eq l w || starts_with (w ++ 58 ∷ []) l) ≡ text_eq (split_once l).0 w
unfolding text_eq starts_with split_once
name-split [] [] h = refl
name-split [] (b ∷ bs) h = ground arith
name-split (c ∷ w) [] h = refl
name-split (c ∷ w) (b ∷ bs) h = ground (arith, name-split w bs)

data-split : (l : Bytes) → (text_eq l (codes "data") || starts_with (codes "data:") l) ≡ has_data l
data-split l = name-split (codes "data") l refl

-- A line in front of the text of others.
abbrev with_line : Bytes → Bytes → Bytes
with_line line bs = if is_empty line then bs else line ++ 10 ∷ bs

others-plain :
    (line : Bytes) (lines : List Bytes)
    → has_data line ≡ false
    → text_of (others (line ∷ lines)) ≡ with_line line (text_of (others lines))
unfolding others text_of
others-plain line lines plain = elim (Bool-cases (is_empty line)) [
  | inl e ↦ rw (plain, e) refl
  | inr e ↦ rw (plain, e) refl
]

with_line-append : (line a b : Bytes) → with_line line (a ++ b) ≡ with_line line a ++ b
with_line-append line a b = elim (Bool-cases (is_empty line)) [
  | inl e ↦ rw e refl
  | inr e ↦ rw e (sym (append_assoc line (10 ∷ a) b))
]

abbrev replacement : Bytes → List Bytes → Bytes
replacement content after = codes "data: " ++ content ++ 10 ∷ text_of (others after)

add_line :
    (content bs : Bytes) (line : Bytes) (lines : List Bytes)
    → has_data line ≡ false
    → IsReplaced lines content bs
    → IsReplaced (line ∷ lines) content (with_line line bs)
add_line content bs line lines plain (no_data free is) =
    no_data (ground (arith, plain)) (ap (with_line line) is ∙ sym (others-plain line lines plain))
add_line content bs line lines plain (data_at before d after split free here is) =
    data_at (line ∷ before) d after (ap (λ (ls : List Bytes). line ∷ ls) split)
      (ground (arith, plain)) here
      (ap (with_line line) is
        ∙ with_line-append line (text_of (others before)) (replacement content after)
        ∙ ap (λ (x : Bytes). x ++ replacement content after) (sym (others-plain line before plain)))

module _ (from_str : Bytes → Option Json) where
  render_lines-written :
      (content : Bytes) (pieces : List Bytes)
      → render_lines from_str content true pieces ≡ text_of (others (map line_of pieces))
  unfolding render_lines others text_of
  render_lines-written content [] = refl
  render_lines-written content (p ∷ ps) =
      ground (arith, render_lines-written content ps, data-split (line_of p))

  pub render_lines-IsReplaced :
      (content : Bytes) (pieces : List Bytes)
      → IsReplaced (map line_of pieces) content (render_lines from_str content false pieces)
  unfolding render_lines text_of others
  render_lines-IsReplaced content [] = no_data refl refl
  render_lines-IsReplaced content (p ∷ ps) = elim (Bool-cases (has_data (line_of p))) [
    | inl e ↦
        data_at [] (line_of p) (map line_of ps) refl refl e
          (rw (data-split (line_of p), e, render_lines-written content ps) refl)
    | inr e ↦
        rw (data-split (line_of p), e)
          (add_line content (render_lines from_str content false ps) (line_of p) (map line_of ps) e
            (render_lines-IsReplaced content ps))
  ]
