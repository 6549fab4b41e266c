-- ===== src/Store/ConfigTests.antt =====
-- Runs of the operations on the configuration and the administrator at concrete values.
use local_api_relay.Common.{
  Bool, true, false, Option, none, some, List, [], ◌∷◌, length, arith, ◌≡◌, ◌≢◌, ◌↔◌, refl,
  count_where, find_where, map,
}
use local_api_relay.Common.Int.{pos, negsuc}
use local_api_relay.Common.Text.{Text, codes, text_eq}
use local_api_relay.Samples.{works, first_id, route, out_row, store_of}
use local_api_relay.Store.{Store, Result, ok, err, field, responses, Env}
use local_api_relay.Store.Settings.{default_settings}
use local_api_relay.Store.Decimal.{parse_decimal, format_parts, format_decimal}
use local_api_relay.Store.Decimal.RoundTrip.{parse_decimal-format_decimal}
use local_api_relay.Store.Health.{health_of}
use local_api_relay.Store.Health.Invariant.{AllSound, probe}
use local_api_relay.Store.Routing.{eligible_routes}
use local_api_relay.Store.Validation.{Url, valid_eligible_model_route_ids, sort}
use local_api_relay.Store.Validation.RouteIds.{Distinct, valid_ids_iff}
use local_api_relay.Store.Probes.Due.{ComesBack, out_recovers}
use local_api_relay.Store.Integrity.{IsWhole}
use local_api_relay.Store.Integrity.History.{
  add_provider, add_model, add_route, add_key, edit_route, Op, config, health, run, run-IsWhole,
}
use local_api_relay.Store.Integrity.Service.{permits, length-eligible_routes}
use local_api_relay.Store.Sessions.{bootstrap, active, Administrator, change_password}
use local_api_relay.Store.Sessions.Live.{live, apply, changed, apply-live, SessionOp, set_password}

half : format_decimal (negsuc 499_999) ≡ codes "-0.5"
unfolding format_decimal format_parts
half = refl

spaces_and_zeros : parse_decimal (codes " 007.10 ") "price" "price" ≡ ok (pos 7_100_000)
unfolding parse_decimal
spaces_and_zeros = refl

-- The largest amount, and one millionth more.
largest :
    parse_decimal (codes "9223372036854.775807") "price" "p" ≡ ok (pos 9_223_372_036_854_775_807)
unfolding parse_decimal
largest = refl

too_large :
    parse_decimal (codes "9223372036854.775808") "price" "p"
    ≡ err (field "p" "price is outside the supported range")
unfolding parse_decimal
too_large = refl

parse_decimal-format_decimal_example :
    parse_decimal (format_decimal (negsuc 1_230_499_999)) "price" "p" ≡ ok (negsuc 1_230_499_999)
parse_decimal-format_decimal_example =
    parse_decimal-format_decimal (negsuc 1_230_499_999) "price" "p" (omega arith)

abbrev ids : List Text
ids = codes "r2" ∷ codes "r10" ∷ []

valid_ids_iff_example :
    (valid_eligible_model_route_ids ids ≡ ok (codes "r10" ∷ codes "r2" ∷ []))
    ↔ ((length ids ≢ 0) × Distinct ids × ((codes "r10" ∷ codes "r2" ∷ []) ≡ sort ids))
valid_ids_iff_example = valid_ids_iff ids (codes "r10" ∷ codes "r2" ∷ [])

-- A database with no rows, and a history that fills it.
abbrev empty : Store
empty = record {
  schema = 17;
  settings = default_settings;
  providers = [];
  models = [];
  routes = [];
  health = [];
  keys = [];
  eligibility = [];
  calls = [];
  daily_usage = [];
  gaps = [];
  events = [];
}

empty-IsWhole : IsWhole empty
unfolding count_where
empty-IsWhole = record {
  one_id = λ id. omega arith;
  one_identity = λ i. omega arith;
  one_health = λ id. refl;
  ends = tt;
  scopes = tt;
}

abbrev parse_url : Text → Option Url
parse_url text = some (record {
  scheme = codes "https";
  host = some text;
  username = [];
  password = none;
  query = none;
  fragment = none;
})

abbrev hash : Text → Text
hash token = codes "#"

abbrev history : List (Env × Op)
history =
    map (λ op. (works, op))
      (config (add_provider (codes "p1") (codes "One") (codes "https://u/") (codes "k"))
        ∷ config (add_model (codes "gpt") (codes "2") (codes "4.5") (codes "0"))
        ∷ config (
            add_route (codes "r1") (codes "gpt") (codes "p1") (codes "up") (codes "responses")
              (codes "1"))
        ∷ config (add_key (codes "k1") (codes "0123456789") (codes "laptop") (codes "r1" ∷ []))
        ∷ health (probe (codes "r1") 0 true none)
        ∷ config (
            edit_route (codes "r1") (codes "gpt") (codes "p1") (codes "up2") (codes "responses")
              (codes "0.5"))
        ∷ [])

run-IsWhole_example : IsWhole (run parse_url hash empty history)
run-IsWhole_example = run-IsWhole parse_url hash empty history empty-IsWhole

abbrev filled : Store
filled = run parse_url hash empty history

length-eligible_routes_example :
    length (eligible_routes filled (codes "k1") (codes "gpt") responses)
    ≡ count_where (permits filled (codes "k1") (codes "gpt") responses) filled.eligibility
length-eligible_routes_example =
    length-eligible_routes filled run-IsWhole_example (codes "k1") (codes "gpt") responses

-- One route, out after two failed recovery probes, its next one due at 31 000 ms.
abbrev one_route : Store
one_route = record (store_of (out_row first_id 2 ∷ [])) {
  routes = route first_id (codes "p1") ∷ [];
}

one_route-IsWhole : IsWhole one_route
unfolding count_where find_where text_eq
one_route-IsWhole = record {
  one_id = λ id. ground arith;
  one_identity = λ i. ground arith;
  one_health = λ id. refl;
  ends = ((refl, refl), tt);
  scopes = tt;
}

one_route-AllSound : AllSound one_route
one_route-AllSound = (record { scheduled = refl; categorised = refl; counted = refl }, tt)

out_recovers_example :
    ComesBack one_route first_id (out_row first_id 2) (pos 31_000) works (some 200)
unfolding health_of find_where text_eq
out_recovers_example =
    out_recovers one_route first_id one_route-IsWhole refl refl one_route-AllSound refl (pos 31_000)
      works (some 200) refl

-- The administrator's first password change.
abbrev fresh : Administrator
fresh = record {
  credential = some (record { password_hash = codes "h"; must_change = true });
  sessions =
      record { token_hash = codes "t1"; kind = bootstrap; expires_at = pos 100 }
      ∷ record { token_hash = codes "t2"; kind = bootstrap; expires_at = pos 100 }
      ∷ [];
}

abbrev plain : Text → Text
plain token = token

abbrev accepts : Text → Text → Result Bool
accepts password stored = ok true

abbrev change : SessionOp
change =
    set_password (codes "t1") (codes "a long enough password") (codes "h2") (codes "t3") (pos 200)

changed_admin : Administrator
changed_admin = record {
  credential = some (record { password_hash = codes "h2"; must_change = false });
  sessions = record { token_hash = codes "t3"; kind = active; expires_at = pos 200 } ∷ [];
}

change_done : apply plain accepts fresh (pos 10) change ≡ ok changed_admin
unfolding apply change_password find_where text_eq changed_admin
change_done = refl

apply-live_example :
    live changed_admin (pos 50) (codes "t2")
    ≡ changed plain accepts fresh change (live fresh) (pos 50) (codes "t2")
apply-live_example =
    apply-live plain accepts fresh changed_admin (pos 10) (pos 50) change (codes "t2") change_done
      (omega arith)
