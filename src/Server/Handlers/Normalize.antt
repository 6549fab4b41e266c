-- ===== src/Server/Handlers/Normalize.antt =====
-- src/server.rs, `normalize_null_message_content`: what an upstream sees of the conversation.
use local_api_relay.Common.{
  Bool, true, false, not, ◌||◌, Option, none, some, [], all, arith, ◌≡◌, refl, ap, ◌∙◌, subst,
  Bool-cases, inl, inr,
}
use local_api_relay.Common.Text.{Text, codes, text_eq, text_eq_iff, text_eq_sym}
use local_api_relay.Server.Json.{
  Json, Items, Fields, nil, item, end, entry, string, array, object, items, field, get, is_null,
}
use local_api_relay.Server.Protocol.{some_and}
use local_api_relay.Server.Relay.Replies.{field-insert_same}
use local_api_relay.Server.Handlers.{
  fix_content, fix_message, fix_messages, fix_array, update_field, normalize_null_message_content,
}

-- The body has no message whose content is null.
abbrev pub is_clean : Json → Bool
is_clean (object fs) = not (some_and (field (codes "content") fs) is_null)
is_clean message = true

abbrev pub changed : (Json → Json) → Option Json → Option Json
changed f none = none
changed f (some v) = some (f v)

pub field-update_same :
    (key : Text) (f : Json → Json) (fs : Fields)
    → field key (update_field key f fs) ≡ changed f (field key fs)
unfolding field update_field
field-update_same key f end = refl
field-update_same key f (entry k v fs) = ground (arith, field-update_same key f fs)

pub field-update_other :
    (key other : Text) (f : Json → Json)
    → text_eq key other ≡ false
    → (fs : Fields) → field other (update_field key f fs) ≡ field other fs
unfolding field update_field
field-update_other key other f ne end = refl
field-update_other key other f ne (entry k v fs) =
    ground (arith, field-update_other key other f ne fs, text_eq_iff k key)

content-clean : (fs : Fields) → is_clean (object (fix_content fs)) ≡ true
content-clean fs = elim (Bool-cases (some_and (field (codes "content") fs) is_null)) [
  | inl e ↦ rw e (rw (field-insert_same (codes "content") (string []) fs) refl)
  | inr e ↦ rw e (rw e refl)
]

message-clean : (v : Json) → is_clean (fix_message v) ≡ true
message-clean (object fs) = content-clean fs
message-clean Json.null = refl
message-clean (Json.boolean b) = refl
message-clean (Json.number z) = refl
message-clean Json.other_number = refl
message-clean (string s) = refl
message-clean (array vs) = refl

messages-clean : (vs : Items) → all is_clean (items (fix_messages vs)) ≡ true
unfolding fix_messages
messages-clean nil = refl
messages-clean (item v vs) = ground (arith, message-clean v, messages-clean vs)

abbrev pub is_conversation : Text → Bool
is_conversation key = text_eq (codes "messages") key || text_eq (codes "input") key

-- No message of the conversation has the content null, if it is an array.
abbrev pub all_clean : Option Json → Bool
all_clean none = true
all_clean (some (array vs)) = all is_clean (items vs)
all_clean (some v) = true

array-clean : (v : Json) → all_clean (some (fix_array v)) ≡ true
array-clean (array vs) = messages-clean vs
array-clean (object fs) = refl
array-clean Json.null = refl
array-clean (Json.boolean b) = refl
array-clean (Json.number z) = refl
array-clean Json.other_number = refl
array-clean (string s) = refl

module _ (a b : Text) (f : Json → Json) (fs : Fields) (distinct : text_eq a b ≡ false) where
  first-updated : field a (update_field b f (update_field a f fs)) ≡ changed f (field a fs)
  first-updated =
      field-update_other b a f (text_eq_sym a b distinct) (update_field a f fs)
      ∙ field-update_same a f fs

  second-updated : field b (update_field b f (update_field a f fs)) ≡ changed f (field b fs)
  second-updated =
      field-update_same b f (update_field a f fs)
      ∙ ap (changed f) (field-update_other a b f distinct fs)

  neither-updated :
      (other : Text)
      → text_eq a other ≡ false
      → text_eq b other ≡ false
      → field other (update_field b f (update_field a f fs)) ≡ field other fs
  neither-updated other na nb =
      field-update_other b other f nb (update_field a f fs) ∙ field-update_other a other f na fs

distinct_keys : text_eq (codes "messages") (codes "input") ≡ false
unfolding text_eq
distinct_keys = refl

conversation-updated :
    (key : Text) (fs : Fields)
    → is_conversation key ≡ true
    → get key (normalize_null_message_content (object fs)) ≡ changed fix_array (field key fs)
unfolding normalize_null_message_content
conversation-updated key fs h = elim (Bool-cases (text_eq (codes "messages") key)) [
  | inl e ↦
      subst
        (λ (k : Text).
          get k (normalize_null_message_content (object fs)) ≡ changed fix_array (field k fs))
        ((text_eq_iff (codes "messages") key).0 e)
        (first-updated (codes "messages") (codes "input") fix_array fs distinct_keys)
  | inr e ↦
      subst
        (λ (k : Text).
          get k (normalize_null_message_content (object fs)) ≡ changed fix_array (field k fs))
        ((text_eq_iff (codes "input") key).0 (ground arith))
        (second-updated (codes "messages") (codes "input") fix_array fs distinct_keys)
]

changed-clean : (o : Option Json) → all_clean (changed fix_array o) ≡ true
changed-clean none = refl
changed-clean (some v) = array-clean v

-- What the normalization leaves of a request: no null content in a conversation, and the fields
-- other than the two conversations as they were.
pub conversation-clean :
    (fs : Fields) (key : Text)
    → is_conversation key ≡ true
    → all_clean (get key (normalize_null_message_content (object fs))) ≡ true
conversation-clean fs key is_key =
    ap all_clean (conversation-updated key fs is_key) ∙ changed-clean (field key fs)

pub conversation-other :
    (fs : Fields) (other : Text)
    → is_conversation other ≡ false
    → get other (normalize_null_message_content (object fs)) ≡ field other fs
unfolding normalize_null_message_content
conversation-other fs other is_other =
    neither-updated (codes "messages") (codes "input") fix_array fs distinct_keys other
      (ground arith) (ground arith)
