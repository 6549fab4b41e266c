-- ===== src/Store/Calls.antt =====
-- src/store.rs: the call records, the permanent daily usage aggregate, and the usage gaps.
pub mod Daily
pub mod Gaps
use local_api_relay.Common.{
  ℕ, suc, Bool, true, not, ◌&&◌, Option, none, some, List, [], ◌∷◌, ◌++◌, ltb, leb, ◌==◌,
  if◌then◌else◌, is_some, any, all, find_where, update_where, count_where,
}
use local_api_relay.Common.Int.{ℤ, pos, pos_part, neg_part, max_ℤ, leb_ℤ, ◌+ℤ◌, ◌-ℤ◌, ◌*ℤ◌}
use local_api_relay.Common.Text.{Text, text_eq}
use local_api_relay.Timeutil.{Date, date_key}
use local_api_relay.Store.{
  Usage, ModelRouteAttempt, NewCallRecord, UsageGap, DailyUsage, ModelRoute, PublishedModel,
  is_success, gap_opened, gap_closed, Store, Result, ok, ◌>>◌, guard, bail, sql, Env,
}

-- The first attempt of the record whose outcome is `success`.
unfoldable pub success_attempt : List ModelRouteAttempt → Option ModelRouteAttempt
success_attempt = find_where (λ a. is_success a.outcome)

-- The tokens at their prices, times the multiplier: micro-RMB per million tokens and micros make
-- units of 10^-18 RMB.
unfoldable pub cost_of : Usage → PublishedModel → ModelRoute → ℤ
unfolding ◌+ℤ◌ ◌-ℤ◌ ◌*ℤ◌
cost_of usage model route =
    (max_ℤ (usage.input_tokens -ℤ usage.cached_input_tokens) (pos 0) *ℤ model.input_price
      +ℤ usage.cached_input_tokens *ℤ model.cached_price
      +ℤ usage.output_tokens *ℤ model.output_price)
    *ℤ route.cost_multiplier

infixl 5 ◌>>?◌
abbrev ◌>>?◌ {ℓ κ} : {A : Type ℓ} {B : Type κ} → Option A → (A → Option B) → Option B
none >>? f = none
some a >>? f = f a

-- `compute_call_cost`
unfoldable pub compute_call_cost : Store → NewCallRecord → Option ℤ
compute_call_cost s record_ = record_.usage >>? λ usage.
    success_attempt record_.attempts >>? λ attempt.
    find_where (λ (r : ModelRoute). text_eq r.id attempt.route_id) s.routes >>? λ route.
    find_where (λ (m : PublishedModel). text_eq m.name record_.published_model_name) s.models
    >>? λ model. some (cost_of usage model route)

abbrev pub date_eq : Date → Date → Bool
date_eq a b =
    pos_part a.year == pos_part b.year
    && neg_part a.year == neg_part b.year
    && a.month == b.month
    && a.day == b.day

-- The primary key of `daily_usage`.
pub record DailyKey : Type 0 where
  pub day : Date
  pub published_model_name : Text
  pub provider_id : Text

abbrev pub daily_key : DailyUsage → DailyKey
daily_key d = record {
  day = d.day;
  published_model_name = d.published_model_name;
  provider_id = d.provider_id;
}

unfoldable pub key_eq : DailyKey → DailyKey → Bool
key_eq a b =
    date_eq a.day b.day
    && text_eq a.published_model_name b.published_model_name
    && text_eq a.provider_id b.provider_id

-- What `DO UPDATE` does to the row that is there.
abbrev pub add_row : DailyUsage → DailyUsage → DailyUsage
add_row row d = record d {
  input_tokens = d.input_tokens +ℤ row.input_tokens;
  cached_input_tokens = d.cached_input_tokens +ℤ row.cached_input_tokens;
  output_tokens = d.output_tokens +ℤ row.output_tokens;
  cost = d.cost +ℤ row.cost;
}

-- `INSERT … ON CONFLICT … DO UPDATE`
unfoldable pub upsert_daily : DailyUsage → List DailyUsage → List DailyUsage
upsert_daily row rows =
    let hit = λ (d : DailyUsage). key_eq (daily_key d) (daily_key row) in
    if is_some (find_where hit rows) then update_where hit (add_row row) rows else rows ++ row ∷ []

-- What one call adds to the aggregate: nothing unless its cost, usage and success are known.
unfoldable pub daily_row : NewCallRecord → Option ℤ → Option DailyUsage
daily_row call cost = cost >>? λ c. call.usage >>? λ usage.
    success_attempt call.attempts >>? λ attempt. some (record {
      day = date_key call.created_at_ms;
      published_model_name = call.published_model_name;
      provider_id = attempt.provider_id;
      provider_name = attempt.provider_name;
      input_tokens = usage.input_tokens;
      cached_input_tokens = usage.cached_input_tokens;
      output_tokens = usage.output_tokens;
      cost = c;
    })

abbrev pub add_daily : Option DailyUsage → List DailyUsage → List DailyUsage
add_daily none rows = rows
add_daily (some row) rows = upsert_daily row rows

-- `ended_at_ms IS NULL`; every gap is of the category of the call records.
abbrev pub is_open : UsageGap → Bool
is_open g = not (is_some g.ended_at_ms)

-- The constraints of `call_records` and `call_attempts`: no negative token count, and each HTTP
-- status from 100 to 599.
abbrev pub status_ok : Option ℕ → Bool
status_ok none = true
status_ok (some status) = leb 100 status && ltb status 600

abbrev pub usage_ok : Option Usage → Bool
usage_ok none = true
usage_ok (some u) =
    leb_ℤ (pos 0) u.input_tokens
    && leb_ℤ (pos 0) u.cached_input_tokens
    && leb_ℤ (pos 0) u.output_tokens

unfoldable pub call_ok : NewCallRecord → Bool
call_ok call =
    usage_ok call.usage && all (λ (a : ModelRouteAttempt). status_ok a.http_status) call.attempts

-- `Store::record_call`
unfoldable pub record_call : Env → Store → NewCallRecord → Result Store
record_call env s call = do
  guard (not env.fail_call_record_write) (bail "injected operational write failure")
  guard (call_ok call) sql
  let cost = if call.succeeded then compute_call_cost s call else none
  let s' = record s {
    calls = s.calls ++ record { call = call; cost = cost } ∷ [];
    daily_usage = add_daily (daily_row call cost) s.daily_usage;
    gaps = update_where is_open (λ g. record g { ended_at_ms = some call.created_at_ms }) s.gaps;
  }
  if ltb 0 (count_where is_open s.gaps)
      then ok (record s' { events = s.events ++ gap_closed ∷ [] })
      else ok s'

-- `Store::record_usage_gap`
unfoldable pub record_usage_gap : Store → ℤ → Store
record_usage_gap s now_ms =
    if count_where is_open s.gaps == 0
    then record s {
      gaps = s.gaps ++ record { started_at_ms = now_ms; ended_at_ms = none; lost_records = 1 } ∷ [];
      events = s.events ++ gap_opened ∷ [];
    }
    else record s {
      gaps = update_where is_open (λ g. record g { lost_records = suc g.lost_records }) s.gaps;
    }
