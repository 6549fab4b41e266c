-- ===== src/Server/Streaming/Renaming.antt =====
-- src/server.rs, `render_sse_event`: whose model name a client sees in an event, and what else of the
-- event it gets.
use local_api_relay.Common.{
  Bool, true, false, not, Option, none, some, [], ◌∷◌, ◌++◌, map, ◌≡◌, refl, sym, ◌∙◌, subst,
  Bool-cases, Option-cases, inl, inr,
}
use local_api_relay.Common.Text.{Text, codes, text_eq}
use local_api_relay.Store.{StreamProtocol, chat_completions, responses}
use local_api_relay.Server.Json.{
  Json, Fields, string, object, number, other_number, array, null, boolean, field, get, as_str,
}
use local_api_relay.Server.Protocol.{◌>>=◌}
use local_api_relay.Server.Handlers.Normalize.{field-update_same, field-update_other}
use local_api_relay.Server.Sse.{Bytes, SseEvent, split_inclusive, line_of}
use local_api_relay.Server.Stream.{
  render_lines, render_payload, render_sse_event, model_of_payload, with_model,
}
use local_api_relay.Server.Streaming.Rendering.{IsReplaced, render_lines-IsReplaced}

-- The model that a payload names.
abbrev pub model_named : StreamProtocol → Json → Option Text
model_named chat_completions v = get (codes "model") v >>= as_str
model_named responses v = get (codes "response") v >>= (λ r. get (codes "model") r >>= as_str)

abbrev pub is_foreign : Text → Option Text → Bool
is_foreign name none = false
is_foreign name (some model) = not (text_eq model name)

-- The new payload names the published model; any other field, `inner` of the object that names the
-- model and `outer` of the one around it, is as it was.
abbrev pub Renamed : StreamProtocol → Text → Text → Text → Json → Json → Type 0
Renamed chat_completions name inner outer json json' =
    (get (codes "model") json' ≡ some (string name)) × (get inner json' ≡ get inner json)
Renamed responses name inner outer json json' =
    ((get (codes "response") json' >>= get (codes "model")) ≡ some (string name))
    × ((get (codes "response") json' >>= get inner) ≡ (get (codes "response") json >>= get inner))
    × (get outer json' ≡ get outer json)

module _ (from_str : Bytes → Option Json) (name inner outer : Text)
    (not_model : text_eq (codes "model") inner ≡ false)
    (not_response : text_eq (codes "response") outer ≡ false) where
  rename-Renamed :
      (v : Json) (model : Text)
      → (get (codes "model") v >>= as_str) ≡ some model
      → (get (codes "model") (with_model from_str chat_completions name v) ≡ some (string name))
        × (get inner (with_model from_str chat_completions name v) ≡ get inner v)
  rename-Renamed (object fs) model h = elim (Option-cases (field (codes "model") fs)) [
    | inl e ↦ absurd (cc (rw e at h))
    | inr (v, e) ↦ (
      field-update_same (codes "model") (λ v. string name) fs ∙ rw e refl,
      field-update_other (codes "model") inner (λ v. string name) not_model fs,
    )
  ]
  rename-Renamed null model h = absurd (cc)
  rename-Renamed (boolean b) model h = absurd (cc)
  rename-Renamed (number z) model h = absurd (cc)
  rename-Renamed other_number model h = absurd (cc)
  rename-Renamed (string s) model h = absurd (cc)
  rename-Renamed (array vs) model h = absurd (cc)

  response-Renamed :
      (fs : Fields) (model : Text)
      → model_named responses (object fs) ≡ some model
      → Renamed responses name inner outer
          (object fs)
          (with_model from_str responses name (object fs))
  response-Renamed fs model h = elim (Option-cases (field (codes "response") fs)) [
    | inl e ↦ absurd (cc (rw e at h))
    | inr (r, e) ↦
        let (named, kept) = rename-Renamed r model (rw e at h) in
        (
          rw
              (
                field-update_same (codes "response") (with_model from_str chat_completions name) fs,
                e,
              )
              named,
          rw
              (
                field-update_same (codes "response") (with_model from_str chat_completions name) fs,
                e,
              )
              kept,
          field-update_other (codes "response") outer (with_model from_str chat_completions name)
              not_response fs,
        )
  ]

  with_model-Renamed :
      (protocol : StreamProtocol) (v : Json) (model : Text)
      → model_named protocol v ≡ some model
      → Renamed protocol name inner outer v (with_model from_str protocol name v)
  with_model-Renamed chat_completions v model h = rename-Renamed v model h
  with_model-Renamed responses (object fs) model h = response-Renamed fs model h
  with_model-Renamed responses null model h = absurd (cc)
  with_model-Renamed responses (boolean b) model h = absurd (cc)
  with_model-Renamed responses (number z) model h = absurd (cc)
  with_model-Renamed responses other_number model h = absurd (cc)
  with_model-Renamed responses (string s) model h = absurd (cc)
  with_model-Renamed responses (array vs) model h = absurd (cc)

-- The JSON of an event's data.
abbrev pub payload_json : (Bytes → Option Json) → SseEvent → Option Json
payload_json from_str e = e.payload >>= from_str

-- The bytes that a client gets for an event.
pub data IsRendered (from_str : Bytes → Option Json) (to_string : Json → Bytes)
    (protocol : StreamProtocol) (name inner outer : Text) (e : SseEvent) (bs : Bytes) : Type 0 where
  as_sent :
      is_foreign name (payload_json from_str e >>= model_named protocol) ≡ false
      → bs ≡ e.raw
      → IsRendered from_str to_string protocol name inner outer e bs
  renamed :
      (json json' : Json) (text : Bytes)
      → payload_json from_str e ≡ some json
      → is_foreign name (model_named protocol json) ≡ true
      → Renamed protocol name inner outer json json'
      → IsReplaced (map line_of (split_inclusive e.raw)) (to_string json') text
      → bs ≡ text ++ 10 ∷ []
      → IsRendered from_str to_string protocol name inner outer e bs

model_of_payload-named :
    (from_str : Bytes → Option Json) (protocol : StreamProtocol) (v : Json)
    → model_of_payload from_str protocol v ≡ model_named protocol v
model_of_payload-named from_str chat_completions v = refl
model_of_payload-named from_str responses v = refl

module _ (from_str : Bytes → Option Json) (to_string : Json → Bytes) (protocol : StreamProtocol)
    (name inner outer : Text) (not_model : text_eq (codes "model") inner ≡ false)
    (not_response : text_eq (codes "response") outer ≡ false) (e : SseEvent) where
  payload-IsRendered :
      (json : Json)
      → payload_json from_str e ≡ some json
      → IsRendered from_str to_string protocol name inner outer e
          (render_payload from_str to_string protocol e name json)
  unfolding render_payload
  payload-IsRendered json is = elim (Option-cases (model_named protocol json)) [
    | inl nameless ↦
        as_sent (rw (is, nameless) refl)
          (rw (render_payload, model_of_payload-named from_str protocol json, nameless) refl)
    | inr (model, named) ↦ elim (Bool-cases (text_eq model name)) [
      | inl own ↦
          as_sent (rw (is, named, own) refl)
            (rw (render_payload, model_of_payload-named from_str protocol json, named, own) refl)
      | inr foreign ↦
          let json' = with_model from_str protocol name json in
          renamed json json' (render_lines from_str (to_string json') false (split_inclusive e.raw))
            is (rw (named, foreign) refl)
            (with_model-Renamed from_str name inner outer not_model not_response protocol json model
              named)
            (render_lines-IsReplaced from_str (to_string json') (split_inclusive e.raw))
            (rw (render_payload, model_of_payload-named from_str protocol json, named, foreign)
              refl)
    ]
  ]

  data-IsRendered :
      (payload : Option Bytes)
      → e.payload ≡ payload
      → IsRendered from_str to_string protocol name inner outer e
          (render_sse_event from_str to_string protocol e name)
  unfolding render_sse_event
  data-IsRendered none is = as_sent (rw is refl) (rw (render_sse_event, is) refl)
  data-IsRendered (some d) is = elim (Option-cases (from_str d)) [
    | inl unparsed ↦ as_sent (rw (is, unparsed) refl) (rw (render_sse_event, is, unparsed) refl)
    | inr (json, parsed) ↦
        let rendered : render_sse_event from_str to_string protocol e name
            ≡ render_payload from_str to_string protocol e name json =
          simp (render_sse_event, is, parsed) in
        subst (IsRendered from_str to_string protocol name inner outer e) (sym rendered)
          (payload-IsRendered json (rw is parsed))
  ]

  pub event-IsRendered :
      IsRendered from_str to_string protocol name inner outer e
        (render_sse_event from_str to_string protocol e name)
  event-IsRendered = data-IsRendered e.payload refl
