-- ===== src/Store/Calls/Daily.antt =====
-- src/store.rs, `record_call`: the daily aggregate is the sum of the calls that were recorded.
use local_api_relay.Common.{
  ◌&&◌, Bool, true, false, Option, none, some, List, [], ◌∷◌, ◌++◌, arith, ◌≡◌, ◌↔◌, refl, sym, ap,
  ◌∙◌, inl, inr, Bool-cases, Option-cases, if◌then◌else◌, find_where, find_where-update,
  find_where-append, or_else, find_where-one, find_where-update_ne, find_where_sound,
}
use local_api_relay.Common.Int.{ℤ, pos, ◌+ℤ◌, int_laws}
use local_api_relay.Common.Text.{Text, text_eq, text_eq_iff}
use local_api_relay.Timeutil.{Date, date_key}
use local_api_relay.Store.{
  Usage, ModelRouteAttempt, is_success, NewCallRecord, CallRow, DailyUsage, Store, ok, Env,
}
use local_api_relay.Store.Calls.{
  date_eq, DailyKey, daily_key, key_eq, add_row, upsert_daily, daily_row, add_daily,
  compute_call_cost, record_call, success_attempt,
}

date_eq_iff : (a b : Date) → (date_eq a b ≡ true) ↔ (a ≡ b)
date_eq_iff a b = ground arith

key_eq_iff : (a b : DailyKey) → (key_eq a b ≡ true) ↔ (a ≡ b)
unfolding key_eq
key_eq_iff a b = ground (
  arith,
  date_eq_iff a.day b.day,
  text_eq_iff a.published_model_name b.published_model_name,
  text_eq_iff a.provider_id b.provider_id,
)

pub data Column : Type 0 where
  input cached output money : Column

abbrev pub column : Column → Usage → ℤ → ℤ
column input u cost = u.input_tokens
column cached u cost = u.cached_input_tokens
column output u cost = u.output_tokens
column money u cost = cost

-- What the aggregate shows for a day, model and provider.
abbrev part : Column → DailyUsage → ℤ
part input d = d.input_tokens
part cached d = d.cached_input_tokens
part output d = d.output_tokens
part money d = d.cost

abbrev part_in : Column → Option DailyUsage → ℤ
part_in m none = pos 0
part_in m (some d) = part m d

unfoldable pub shown_at : Column → DailyKey → List DailyUsage → ℤ
shown_at m k rows = part_in m (find_where (λ d. key_eq (daily_key d) k) rows)

-- Whether the first successful attempt went to the provider.
unfoldable pub served_by : Text → List ModelRouteAttempt → Bool
served_by id [] = false
served_by id (a ∷ rest) =
    let later = served_by id rest in
    if is_success a.outcome then text_eq a.provider_id id else later

-- Whether a call is one of that day, model and provider.
unfoldable pub belongs : DailyKey → NewCallRecord → Bool
belongs k c =
    date_eq (date_key c.created_at_ms) k.day
    && text_eq c.published_model_name k.published_model_name
    && served_by k.provider_id c.attempts

-- What a call of known usage and cost has of a column.
unfoldable pub spent : Column → DailyKey → CallRow → ℤ
spent m k c = elim c.cost [
  | none ↦ pos 0
  | some cost ↦ elim c.call.usage [
    | none ↦ pos 0
    | some u ↦ if belongs k c.call then column m u cost else pos 0
  ]
]

-- The sum over all calls.
unfoldable pub call_total : Column → DailyKey → List CallRow → ℤ
call_total m k [] = pos 0
call_total m k (c ∷ cs) = spent m k c +ℤ call_total m k cs

-- The part of a row that a call adds.
abbrev share : Column → DailyKey → Option DailyUsage → ℤ
share m k none = pos 0
share m k (some row) = if key_eq (daily_key row) k then part m row else pos 0

abbrev provider_is : Text → Option ModelRouteAttempt → Bool
provider_is id none = false
provider_is id (some a) = text_eq a.provider_id id

provider_lem :
    (id : Text) (attempts : List ModelRouteAttempt)
    → served_by id attempts ≡ provider_is id (success_attempt attempts)
unfolding success_attempt served_by find_where
provider_lem id [] = refl
provider_lem id (a ∷ rest) = ground (arith, provider_lem id rest)

daily-spent :
    (m : Column) (k : DailyKey) (c : CallRow) → share m k (daily_row c.call c.cost) ≡ spent m k c
unfolding daily_row spent belongs key_eq
daily-spent input k c = ground (arith, provider_lem k.provider_id c.call.attempts)
daily-spent cached k c = ground (arith, provider_lem k.provider_id c.call.attempts)
daily-spent output k c = ground (arith, provider_lem k.provider_id c.call.attempts)
daily-spent money k c = ground (arith, provider_lem k.provider_id c.call.attempts)

key_eq_refl : (k : DailyKey) → key_eq k k ≡ true
key_eq_refl k = (key_eq_iff k k).1 refl

key_eq_ne : (x row k : DailyKey) → key_eq x k ≡ true → key_eq row k ≡ false → key_eq x row ≡ false
key_eq_ne x row k e n = ground (arith, key_eq_iff x k, key_eq_iff x row, key_eq_iff row k)

abbrev has_key : DailyKey → DailyUsage → Bool
has_key k d = key_eq (daily_key d) k

miss : (x row k : DailyKey) → key_eq x row ≡ true → key_eq row k ≡ false → key_eq x k ≡ false
miss x row k e n = ground (arith, key_eq_iff x k, key_eq_iff x row, key_eq_iff row k)

part-add : (m : Column) (row d : DailyUsage) → part m (add_row row d) ≡ part m d +ℤ part m row
part-add input row d = refl
part-add cached row d = refl
part-add output row d = refl
part-add money row d = refl

or_else-none : (m : Column) (o : Option DailyUsage) → part_in m (or_else o none) ≡ part_in m o
or_else-none m none = refl
or_else-none m (some d) = refl

module _ (m : Column) (row : DailyUsage) (rows : List DailyUsage) where
  upsert_same :
      shown_at m (daily_key row) (upsert_daily row rows)
      ≡ shown_at m (daily_key row) rows +ℤ part m row
  unfolding shown_at upsert_daily
  upsert_same =
      let q = has_key (daily_key row) in
      elim (Option-cases (find_where q rows)) [
        | inl fresh ↦
            rw
              (
                fresh,
                find_where-append q rows (row ∷ []),
                fresh,
                find_where-one q row,
                key_eq_refl (daily_key row),
              )
              (omega int_laws)
        | inr (d, old) ↦
            rw (old, find_where-update q q (add_row row) (λ x _. refl) rows, old)
              (rw (find_where_sound q rows d old) (part-add m row d))
      ]

  upsert_other :
      (k : DailyKey)
      → key_eq (daily_key row) k ≡ false
      → shown_at m k (upsert_daily row rows) ≡ shown_at m k rows
  unfolding shown_at upsert_daily
  upsert_other k n =
      let p = has_key (daily_key row) in
      let q = has_key k in
      elim (Option-cases (find_where p rows)) [
        | inl fresh ↦
            rw (fresh, find_where-append q rows (row ∷ []), find_where-one q row, n)
              (or_else-none m (find_where q rows))
        | inr (d, old) ↦ rw (
          old,
          find_where-update_ne q p (add_row row) (λ x e. miss (daily_key x) (daily_key row) k e n)
              (λ x e. miss (daily_key x) (daily_key row) k e n) rows,
        )
      ]

shown_at-upsert :
    (m : Column) (k : DailyKey) (row : DailyUsage) (rows : List DailyUsage)
    → shown_at m k (upsert_daily row rows) ≡ shown_at m k rows +ℤ share m k (some row)
shown_at-upsert m k row rows = elim (Bool-cases (key_eq (daily_key row) k)) [
  | inl same ↦ rw same (rw (← (key_eq_iff (daily_key row) k).0 same) (upsert_same m row rows))
  | inr other ↦ rw other (upsert_other m row rows k other ∙ omega int_laws)
]

call_total-append :
    (m : Column) (k : DailyKey) (cs : List CallRow) (c : CallRow)
    → call_total m k (cs ++ c ∷ []) ≡ call_total m k cs +ℤ spent m k c
unfolding call_total
call_total-append m k [] c = omega int_laws
call_total-append m k (x ∷ xs) c = rw (call_total-append m k xs c) (omega int_laws)

-- The aggregate shows for each day, model and provider the costs of the recorded calls.
abbrev pub IsAggregate : Store → Type 0
IsAggregate s = (m : Column) (k : DailyKey) → shown_at m k s.daily_usage ≡ call_total m k s.calls

add_daily-share :
    (m : Column) (k : DailyKey) (row : Option DailyUsage) (rows : List DailyUsage)
    → shown_at m k (add_daily row rows) ≡ shown_at m k rows +ℤ share m k row
add_daily-share m k none rows = omega int_laws
add_daily-share m k (some row) rows = shown_at-upsert m k row rows

pub call_cost : Store → NewCallRecord → Option ℤ
call_cost s call = if call.succeeded then compute_call_cost s call else none

record_call_rows :
    (env : Env) (s s' : Store) (call : NewCallRecord)
    → record_call env s call ≡ ok s'
    → (s'.daily_usage ≡ add_daily (daily_row call (call_cost s call)) s.daily_usage)
      × (s'.calls ≡ s.calls ++ record { call = call; cost = call_cost s call } ∷ [])
unfolding record_call call_cost
record_call_rows env s s' call done = (ground arith, ground arith)

-- While for each day, model and provider the aggregate shows the sums of the input tokens, the
-- cached tokens, the output tokens and the costs of the recorded calls that started on that day,
-- asked for that model, have a known usage and cost, and whose first successful attempt went to
-- that provider, a call record that is written keeps it so.
pub record_call-IsAggregate :
    (env : Env) (s s' : Store) (call : NewCallRecord)
    → IsAggregate s
    → record_call env s call ≡ ok s'
    → IsAggregate s'
record_call-IsAggregate env s s' call agg done m k =
    let (daily, calls) = record_call_rows env s s' call done in
    let row = daily_row call (call_cost s call) in
    let new : CallRow = record { call = call; cost = call_cost s call } in
    rw (daily, calls)
      (add_daily-share m k row s.daily_usage
        ∙ ap (λ x. x +ℤ share m k row) (agg m k)
        ∙ ap (λ x. call_total m k s.calls +ℤ x) (daily-spent m k new)
        ∙ sym (call_total-append m k s.calls new))
