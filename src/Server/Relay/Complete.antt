-- ===== src/Server/Relay/Complete.antt =====
-- src/server.rs: what a body is that `validate_complete_response` and the test for a failure let
-- through.
use local_api_relay.Common.{
  Bool, true, false, not, ◌&&◌, ◌||◌, Option, none, some, List, [], ◌∷◌, all, All, length, arith,
  ◌≡◌, ◌≢◌, ◌⊎◌, inl, inr, refl, is_some, String, ap,
}
use local_api_relay.Common.Text.{Text, codes, text_eq, text_eq_iff, is_empty}
use local_api_relay.Store.{StreamProtocol, chat_completions, responses}
use local_api_relay.Server.Json.{Json, get, as_i64, as_array, is_object, is_null}
use local_api_relay.Server.Protocol.{
  ◌>>=◌, some_and, str_at, str_is, has_name, is_nonempty, is_complete_choice,
  is_complete_chat_completion, is_complete_responses_response, responses_semantic_failure,
  validate_complete_response, is_semantic_failure,
}

-- What both protocols ask of a body.
pub record IsNamed (kind created : String) (body : Json) : Type 0 where
  pub object_kind : str_at "object" body ≡ some (codes kind)
  pub id : Text
  pub has_id : str_at "id" body ≡ some id
  pub id_filled : is_empty id ≡ false
  pub has_created : is_some (get (codes created) body >>= as_i64) ≡ true
  pub model : Text
  pub has_model : str_at "model" body ≡ some model
  pub model_filled : is_empty model ≡ false

pub record IsChoice (choice : Json) : Type 0 where
  pub index : is_some (get (codes "index") choice >>= as_i64) ≡ true
  pub message : Json
  pub has_message : get (codes "message") choice ≡ some message
  pub message_is_object : is_object message ≡ true
  pub finished : is_some (get (codes "finish_reason") choice) ≡ true

pub record IsChatCompletion (body : Json) : Type 0 where
  pub named : IsNamed "chat.completion" "created" body
  pub choices : List Json
  pub has_choices : (get (codes "choices") body >>= as_array) ≡ some choices
  pub some_choice : length choices ≢ 0
  pub each : All IsChoice choices

pub record IsResponse (body : Json) : Type 0 where
  pub named : IsNamed "response" "created_at" body
  pub status : Text
  pub has_status : str_at "status" body ≡ some status
  pub ended : (status ≡ codes "completed") ⊎ (status ≡ codes "incomplete")
  pub has_output : is_some (get (codes "output") body >>= as_array) ≡ true
  pub no_error : some_and (get (codes "error") body) (λ e. not (is_null e)) ≡ false

abbrev pub IsComplete : StreamProtocol → Json → Type 0
IsComplete chat_completions body = IsChatCompletion body
IsComplete responses body = IsResponse body

some_and-inv :
    {A : Type 0} (o : Option A) (p : A → Bool)
    → some_and o p ≡ true
    → (a : A) × (o ≡ some a) × (p a ≡ true)
some_and-inv none p h = absurd (cc)
some_and-inv (some a) p h = (a, refl, h)

named :
    (kind created : String) (body : Json)
    → str_is "object" kind body ≡ true
    → has_name "id" body ≡ true
    → is_some (get (codes created) body >>= as_i64) ≡ true
    → has_name "model" body ≡ true
    → IsNamed kind created body
named kind created body k i c m =
    let (object_kind, found, same) = some_and-inv (str_at "object" body) _ k in
    let (id, has_id, id_filled) = some_and-inv (str_at "id" body) _ i in
    let (model, has_model, model_filled) = some_and-inv (str_at "model" body) _ m in
    record {
      object_kind = rw found (ap some ((text_eq_iff object_kind (codes kind)).0 same));
      id = id;
      has_id = has_id;
      id_filled = ground arith;
      has_created = c;
      model = model;
      has_model = has_model;
      model_filled = ground arith;
    }

choice : (c : Json) → is_complete_choice c ≡ true → IsChoice c
unfolding is_complete_choice
choice c h =
    let (message, has_message, is_obj) =
      some_and-inv (get (codes "message") c) is_object (ground arith) in
    record {
      index = ground arith;
      message = message;
      has_message = has_message;
      message_is_object = is_obj;
      finished = ground arith;
    }

each_choice : (cs : List Json) → all is_complete_choice cs ≡ true → All IsChoice cs
each_choice [] h = tt
each_choice (c ∷ cs) h = (choice c (ground arith), each_choice cs (ground arith))

filled : (cs : List Json) → is_nonempty cs ≡ true → length cs ≢ 0
filled [] h = absurd (cc)
filled (c ∷ cs) h = λ none. ground arith

chat_completion : (body : Json) → is_complete_chat_completion body ≡ true → IsChatCompletion body
unfolding is_complete_chat_completion
chat_completion body h =
    let (choices, has_choices, good) =
      some_and-inv (get (codes "choices") body >>= as_array)
        (λ cs. is_nonempty cs && all is_complete_choice cs) (ground arith) in
    record {
      named =
          named "chat.completion" "created" body (ground arith) (ground arith) (ground arith)
            (ground arith);
      choices = choices;
      has_choices = has_choices;
      some_choice = filled choices (ground arith);
      each = each_choice choices (ground arith);
    }

abbrev is_status : Text → Bool
is_status s =
    text_eq s (codes "completed")
    || text_eq s (codes "failed")
    || text_eq s (codes "cancelled")
    || text_eq s (codes "incomplete")

abbrev is_failure : Text → Bool
is_failure s = text_eq s (codes "failed") || text_eq s (codes "cancelled")

last_one : (a b c d : Bool) → (a || b || c || d) ≡ true → (b || c) ≡ false → (a ≡ true) ⊎ (d ≡ true)
last_one true b c d h f = inl refl
last_one false b c d h f = inr (ground arith)

ended-of :
    (s : Text)
    → is_status s ≡ true
    → is_failure s ≡ false
    → (s ≡ codes "completed") ⊎ (s ≡ codes "incomplete")
ended-of s h f = elim (last_one (text_eq s (codes "completed")) _ _ _ h f) [
  | inl e ↦ inl ((text_eq_iff s (codes "completed")).0 e)
  | inr e ↦ inr ((text_eq_iff s (codes "incomplete")).0 e)
]

-- The tests of a Responses body, taken apart.
first_of : (a b : Bool) → (a && b) ≡ true → (a ≡ true) × (b ≡ true)
first_of true b h = (refl, h)
first_of false b h = absurd (cc)

neither : (a b : Bool) → (a || b) ≡ false → (a ≡ false) × (b ≡ false)
neither false b h = (refl, h)
neither true b h = absurd (cc)

response :
    (body : Json)
    → is_complete_responses_response body ≡ true
    → responses_semantic_failure body ≡ false
    → IsResponse body
unfolding is_complete_responses_response responses_semantic_failure
response body h f =
    let (h₁, output) = first_of _ (is_some (get (codes "output") body >>= as_array)) h in
    let (h₂, good) = first_of _ (some_and (str_at "status" body) is_status) h₁ in
    let (h₃, model) = first_of _ (has_name "model" body) h₂ in
    let (h₄, created) = first_of _ (is_some (get (codes "created_at") body >>= as_i64)) h₃ in
    let (kind, id) = first_of _ (has_name "id" body) h₄ in
    let (unfailed, no_error) = neither (some_and (str_at "status" body) is_failure) _ f in
    let (status, has_status, known) = some_and-inv (str_at "status" body) is_status good in
    record {
      named = named "response" "created_at" body kind id created model;
      status = status;
      has_status = has_status;
      ended = ended-of status known (rw has_status at unfailed);
      has_output = output;
      no_error = no_error;
    }

pub accepted-IsComplete :
    (protocol : StreamProtocol) (body : Json)
    → validate_complete_response protocol body ≡ true
    → is_semantic_failure protocol body ≡ false
    → IsComplete protocol body
unfolding validate_complete_response is_semantic_failure
accepted-IsComplete chat_completions body v f = chat_completion body v
accepted-IsComplete responses body v f = response body v f
