-- ===== src/Store/Validation.antt =====
-- src/store.rs: the validators of the configuration. `reqwest::Url::parse` is a parameter; the other
-- checks are on the trimmed text, whose length is in bytes.
pub mod RouteIds
use local_api_relay.Common.{
  ℕ, String, Bool, true, false, not, ◌&&◌, ◌||◌, Option, none, some, List, [], ◌∷◌, length, ltb,
  ◌==◌, if◌then◌else◌, is_some,
}
use local_api_relay.Common.Text.{Text, codes, text_eq, is_empty, byte_len, trim, trim_end_matches}
use local_api_relay.Store.{
  StreamProtocol, chat_completions, responses, Result, ok, err, ◌>>=◌, ◌>>◌, guard, ok_or, field,
}
use local_api_relay.Store.Order.{sort_by, by_text}

-- `CHECK(length(trim(column)) > 0)`: spaces are trimmed, and SQLite counts the characters before the
-- first NUL.
unfoldable pub has_length : Text → Bool
has_length [] = false
has_length (c ∷ s) = if c == 0x20 then has_length s else not (c == 0)

abbrev pub trimmed_within : ℕ → String → String → Text → Result Text
trimmed_within limit column message value = do
  let trimmed = trim value
  guard (not (is_empty trimmed || ltb limit (byte_len trimmed))) (field column message)
  ok trimmed

unfoldable pub validate_display_name : Text → Result Text
validate_display_name =
    trimmed_within 128 "display_name" "provider name must be between 1 and 128 characters"

unfoldable pub validate_api_key : Text → Result Text
validate_api_key =
    trimmed_within 8_192 "api_key" "upstream API key must be between 1 and 8192 characters"

unfoldable pub validate_published_model_name : Text → Result Text
validate_published_model_name =
    trimmed_within 128 "name" "published model name must be between 1 and 128 characters"

unfoldable pub validate_upstream_model_name : Text → Result Text
validate_upstream_model_name =
    trimmed_within 256 "upstream_model_name"
      "upstream model name must be between 1 and 256 characters"

unfoldable pub validate_relay_key_label : Text → Result Text
validate_relay_key_label =
    trimmed_within 128 "label" "relay access key label must be between 1 and 128 characters"

-- What the code reads of a parsed URL.
pub record Url : Type 0 where
  pub scheme : Text
  pub host : Option Text
  pub username : Text
  pub password : Option Text
  pub query : Option Text
  pub fragment : Option Text

abbrev pub is_plain_http : Url → Bool
is_plain_http url =
    (text_eq url.scheme (codes "http") || text_eq url.scheme (codes "https"))
    && is_some url.host
    && is_empty url.username
    && not (is_some url.password)
    && not (is_some url.query)
    && not (is_some url.fragment)

unfoldable pub validate_base_url : (Text → Option Url) → Text → Result Text
validate_base_url parse value = do
  let trimmed = trim_end_matches (λ c. c == b'/') (trim value)
  url ← ok_or (parse trimmed) (field "base_url" "base URL must be a valid HTTP URL")
  guard (is_plain_http url)
      (field "base_url" "base URL must be a valid HTTP URL without credentials, query, or fragment")
  ok trimmed

-- The protocol that a text names; the columns hold the same two texts.
unfoldable pub validate_protocol : Text → Result StreamProtocol
validate_protocol protocol =
    if text_eq protocol (codes "chat_completions")
    then ok chat_completions
    else if text_eq protocol (codes "responses")
    then ok responses
    else err (field "protocol" "protocol must be chat_completions or responses")

-- `Vec::sort` and `Vec::dedup`
abbrev pub sort : List Text → List Text
sort = sort_by (by_text (λ (x : Text). x))

unfoldable pub dedup : List Text → List Text
dedup [] = []
dedup (x ∷ []) = x ∷ []
dedup (x ∷ y ∷ ys) = let rest = dedup (y ∷ ys) in if text_eq x y then rest else x ∷ rest

unfoldable pub valid_eligible_model_route_ids : List Text → Result (List Text)
unfolding sort_by dedup
valid_eligible_model_route_ids ids = do
  guard (not (length ids == 0))
      (field "model_route_ids" "at least one eligible model route is required")
  guard (length (dedup (sort ids)) == length ids)
      (field "model_route_ids" "eligible model routes must not contain duplicates")
  ok (dedup (sort ids))
