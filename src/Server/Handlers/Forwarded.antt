-- ===== src/Server/Handlers/Forwarded.antt =====
-- src/server.rs: what becomes of a client's request before it goes to a relay.
use local_api_relay.Common.{Bool, true, false, some, ◌≡◌}
use local_api_relay.Common.Text.{Text, codes, text_eq}
use local_api_relay.Server.Json.{Json, Fields, boolean, field, get}
use local_api_relay.Server.Handlers.{RelayCall}
use local_api_relay.Server.Handlers.Normalize.{all_clean}

-- What `check_stream` leaves of the fields.
abbrev Filled : Fields → Bool × Fields → Type 0
Filled fs streamed =
    (field (codes "stream") streamed.1 ≡ some (boolean streamed.0))
    × ((other : Text)
        → (text_eq (codes "stream") other ≡ false)
        → field other streamed.1 ≡ field other fs)

-- What the request of a call has of the client's body.
abbrev pub Forwards : Json → RelayCall → Text → Text → Type 0
Forwards json call key other =
    (all_clean (get key call.request) ≡ true)
    × (get other call.request ≡ get other json)
    × (get (codes "stream") call.request ≡ some (boolean call.stream))
