-- ===== src/Server/Relay/Replies.antt =====
-- src/server.rs, `relay_non_streaming`: the body that the client gets.
use local_api_relay.Common.{ℕ, true, false, Option, none, some, List, ◌≡◌, refl, arith}
use local_api_relay.Common.Text.{Text, codes, text_eq, text_eq_refl, text_eq_iff}
use local_api_relay.Store.{StreamProtocol, chat_completions, responses}
use local_api_relay.Server.Json.{Json, Fields, end, entry, string, object, field, insert, get}
use local_api_relay.Server.Protocol.{
  validate_complete_response, is_complete_chat_completion, is_complete_responses_response,
  is_semantic_failure,
}
use local_api_relay.Server.Relay.Complete.{IsComplete, accepted-IsComplete}
use local_api_relay.Server.Relay.{Body, unreadable, bytes, accept, read_json, read_body, set_model}

pub field-insert_same : (key : Text) (v : Json) (fs : Fields) → field key (insert key v fs) ≡ some v
unfolding field insert
field-insert_same key v end = ground (arith, text_eq_refl key)
field-insert_same key v (entry k w fs) = ground (arith, field-insert_same key v fs)

pub field-insert_other :
    (key other : Text) (v : Json)
    → text_eq key other ≡ false
    → (fs : Fields) → field other (insert key v fs) ≡ field other fs
unfolding field insert
field-insert_other key other v ne end = ground arith
field-insert_other key other v ne (entry k w fs) =
    ground (arith, field-insert_other key other v ne fs, text_eq_iff k key)

valid-is_object :
    (protocol : StreamProtocol) (body : Json)
    → validate_complete_response protocol body ≡ true
    → (fs : Fields) × (body ≡ object fs)
unfolding validate_complete_response is_complete_chat_completion is_complete_responses_response
valid-is_object protocol (object fs) v = (fs, refl)
valid-is_object chat_completions Json.null v = ground arith
valid-is_object responses Json.null v = ground arith
valid-is_object chat_completions (Json.boolean b) v = ground arith
valid-is_object responses (Json.boolean b) v = ground arith
valid-is_object chat_completions (Json.number z) v = ground arith
valid-is_object responses (Json.number z) v = ground arith
valid-is_object chat_completions Json.other_number v = ground arith
valid-is_object responses Json.other_number v = ground arith
valid-is_object chat_completions (string s) v = ground arith
valid-is_object responses (string s) v = ground arith
valid-is_object chat_completions (Json.array vs) v = ground arith
valid-is_object responses (Json.array vs) v = ground arith

-- The response shows, under the published name, the JSON that an upstream sent.
pub record Shows (protocol : StreamProtocol) (name other : Text) (json body : Json) : Type 0 where
  pub complete : IsComplete protocol json
  pub model : get (codes "model") body ≡ some (string name)
  pub kept : get other body ≡ get other json

valid-Shows :
    (protocol : StreamProtocol) (name other : Text) (json : Json)
    → validate_complete_response protocol json ≡ true
    → is_semantic_failure protocol json ≡ false
    → text_eq (codes "model") other ≡ false
    → Shows protocol name other json (set_model name json)
valid-Shows protocol name other json valid unfailed ne =
    let (fs, is_fs) = valid-is_object protocol json valid in
    record {
      complete = accepted-IsComplete protocol json valid unfailed;
      model = rw is_fs (field-insert_same (codes "model") (string name) fs);
      kept = rw is_fs (field-insert_other (codes "model") other (string name) ne fs);
    }

module _ (from_slice : List ℕ → Option Json) (protocol : StreamProtocol) (status : ℕ) where
  accepted-valid :
      (parsed : Option Json) (json : Json)
      → read_json from_slice protocol status parsed ≡ accept json
      → (parsed ≡ some json)
        × (validate_complete_response protocol json ≡ true)
        × (is_semantic_failure protocol json ≡ false)
  accepted-valid none json e = ground arith
  accepted-valid (some body) json e = ground arith

  -- A body that the handler accepts was read in full, parsed, and is complete.
  pub accepted-Shows :
      (body : Body) (json : Json) (name other : Text)
      → read_body from_slice protocol status body ≡ accept json
      → text_eq (codes "model") other ≡ false
      → (b : List ℕ) × (body ≡ bytes b)
        × (from_slice b ≡ some json)
        × Shows protocol name other json (set_model name json)
  unfolding read_body
  accepted-Shows (unreadable t) json name other e ne = ground arith
  accepted-Shows (bytes b) json name other e ne =
      let (parsed, valid, unfailed) = accepted-valid (from_slice b) json e in
      (b, refl, parsed, valid-Shows protocol name other json valid unfailed ne)
