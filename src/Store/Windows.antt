-- ===== src/Store/Windows.antt =====
-- src/store.rs, `usage_totals`: the tokens and costs of a window, by model and provider. The costs
-- are exact, in units of 10^-18 RMB, where the code adds `f64` values.
pub mod Totals
pub mod Entries
mod Tests
use local_api_relay.Common.{
  ℕ, Bool, true, false, not, ◌&&◌, ◌||◌, Option, none, some, List, [], ◌∷◌, ◌++◌, map, all,
  if◌then◌else◌, is_some, unwrap_or,
}
use local_api_relay.Common.Int.{
  ℤ, pos, negsuc, i64_max, in_range, leb_ℤ, ltb_ℤ, ◌+ℤ◌, add_i64, sub_i64,
}
use local_api_relay.Common.Text.{Text, codes, text_eq}
use local_api_relay.Store.{CallRow, DailyUsage, Store, Result, ok, ◌>>=◌, ◌>>◌, guard, ok_or, sql}
use local_api_relay.Store.Order.{text_ltb, sort_by}
use local_api_relay.Store.Routing.{◌>>?◌}

pub record Amounts : Type 0 where
  pub input_tokens : ℤ
  pub cached_input_tokens : ℤ
  pub output_tokens : ℤ
  pub estimated_cost : ℤ

-- The columns that the query groups by.
pub record Group : Type 0 where
  pub published_model_name : Text
  pub provider_id : Text
  pub provider_name : Text

pub record UsageRow : Type 0 where
  pub group : Group
  pub amounts : Amounts

pub record ProviderUsageShare : Type 0 where
  pub provider_id : Text
  pub provider_name : Text
  pub amounts : Amounts

pub record ModelUsageShare : Type 0 where
  pub published_model_name : Text
  pub amounts : Amounts
  pub providers : List ProviderUsageShare

-- The cache hit rate is the quotient of two numbers, of which the code takes the `f64`.
pub record UsageTotals : Type 0 where
  pub amounts : Amounts
  pub cache_hit_rate : ℤ × ℤ
  pub models : List ModelUsageShare

unfoldable pub window_span_ms : Text → Option ℤ
window_span_ms window =
    if text_eq window (codes "1h")
    then some (pos 3_600_000)
    else if text_eq window (codes "5h")
    then some (pos 18_000_000)
    else if text_eq window (codes "24h")
    then some (pos 86_400_000)
    else if text_eq window (codes "7d")
    then some (pos 604_800_000)
    else if text_eq window (codes "14d")
    then some (pos 1_209_600_000)
    else none

-- `succeeded = 1 AND input_tokens IS NOT NULL AND created_at_ms >= ?1`
abbrev pub counts : ℤ → CallRow → Bool
counts start c = c.call.succeeded && is_some c.call.usage && leb_ℤ start c.call.created_at_ms

-- A call without a provider has a column that the code cannot read as a text.
abbrev pub call_usage : CallRow → Option UsageRow
call_usage c = c.call.usage >>? λ usage. c.call.success_provider_id >>? λ provider_id.
    c.call.success_provider_name >>? λ provider_name. some (record {
      group = record {
        published_model_name = c.call.published_model_name;
        provider_id = provider_id;
        provider_name = provider_name;
      };
      amounts = record {
        input_tokens = usage.input_tokens;
        cached_input_tokens = usage.cached_input_tokens;
        output_tokens = usage.output_tokens;
        estimated_cost = unwrap_or (pos 0) c.cost;
      };
    })

unfoldable pub call_usages : ℤ → List CallRow → Option (List UsageRow)
call_usages start [] = some []
call_usages start (c ∷ cs) =
    let rest = call_usages start cs in
    if counts start c then (call_usage c >>? λ row. rest >>? λ rows. some (row ∷ rows)) else rest

abbrev pub day_usage : DailyUsage → UsageRow
day_usage d = record {
  group = record {
    published_model_name = d.published_model_name;
    provider_id = d.provider_id;
    provider_name = d.provider_name;
  };
  amounts = record {
    input_tokens = d.input_tokens;
    cached_input_tokens = d.cached_input_tokens;
    output_tokens = d.output_tokens;
    estimated_cost = d.cost;
  };
}

-- The rows that the query of the window sums up.
unfoldable pub window_rows : Store → Text → ℤ → Result (List UsageRow)
window_rows s window now_ms = elim (window_span_ms window) [
  | none ↦ ok (map day_usage s.daily_usage)
  | some span ↦ ok_or (call_usages (sub_i64 now_ms span) s.calls) sql
]

unfoldable pub same_group : Group → Group → Bool
same_group a b =
    text_eq a.published_model_name b.published_model_name
    && text_eq a.provider_id b.provider_id
    && text_eq a.provider_name b.provider_name

-- `SUM`, whose result is checked below.
abbrev pub plus : Amounts → Amounts → Amounts
plus a b = record {
  input_tokens = a.input_tokens +ℤ b.input_tokens;
  cached_input_tokens = a.cached_input_tokens +ℤ b.cached_input_tokens;
  output_tokens = a.output_tokens +ℤ b.output_tokens;
  estimated_cost = a.estimated_cost +ℤ b.estimated_cost;
}

-- `GROUP BY`
unfoldable pub merge : UsageRow → List UsageRow → List UsageRow
merge row [] = row ∷ []
merge row (g ∷ gs) =
    let rest = merge row gs in
    if same_group g.group row.group
    then record g { amounts = plus g.amounts row.amounts } ∷ gs
    else g ∷ rest

unfoldable pub group_rows : List UsageRow → List UsageRow
unfolding merge
group_rows [] = []
group_rows (row ∷ rows) = merge row (group_rows rows)

-- SQLite sorts the rows to group them: whether a group comes after another.
unfoldable pub group_after : UsageRow → UsageRow → Bool
group_after x y =
    let a = x.group in
    let b = y.group in
    let m = text_ltb b.published_model_name a.published_model_name in
    let p = text_ltb b.provider_id a.provider_id in
    let n = text_ltb b.provider_name a.provider_name in
    m
    || (text_eq a.published_model_name b.published_model_name
        && (p || (text_eq a.provider_id b.provider_id && n)))

-- `SUM` of integers fails when it leaves the range of an `i64`.
abbrev pub is_i64 : ℤ → Bool
is_i64 = in_range (negsuc i64_max) (pos i64_max)

abbrev pub sums_fit : UsageRow → Bool
sums_fit row =
    is_i64 row.amounts.input_tokens
    && is_i64 row.amounts.cached_input_tokens
    && is_i64 row.amounts.output_tokens

unfoldable pub usage_groups : Store → Text → ℤ → Result (List UsageRow)
unfolding sort_by
usage_groups s window now_ms = do
  rows ← window_rows s window now_ms
  let groups = sort_by group_after (group_rows rows)
  guard (all sums_fit groups) sql
  ok groups

abbrev pub nothing : Amounts
nothing = record {
  input_tokens = pos 0;
  cached_input_tokens = pos 0;
  output_tokens = pos 0;
  estimated_cost = pos 0;
}

-- `+=`
unfoldable pub add_amounts : Amounts → Amounts → Amounts
add_amounts a b = record {
  input_tokens = add_i64 a.input_tokens b.input_tokens;
  cached_input_tokens = add_i64 a.cached_input_tokens b.cached_input_tokens;
  output_tokens = add_i64 a.output_tokens b.output_tokens;
  estimated_cost = a.estimated_cost +ℤ b.estimated_cost;
}

abbrev pub provider_share : UsageRow → ProviderUsageShare
provider_share row = record {
  provider_id = row.group.provider_id;
  provider_name = row.group.provider_name;
  amounts = row.amounts;
}

-- The share of the first model with the name, or a new one at the end.
unfoldable pub share_row : UsageRow → List ModelUsageShare → List ModelUsageShare
unfolding add_amounts
share_row row [] =
    record {
      published_model_name = row.group.published_model_name;
      amounts = row.amounts;
      providers = provider_share row ∷ [];
    }
    ∷ []
share_row row (m ∷ ms) =
    let rest = share_row row ms in
    if text_eq m.published_model_name row.group.published_model_name
    then record m {
      amounts = add_amounts m.amounts row.amounts;
      providers = m.providers ++ provider_share row ∷ [];
    }
      ∷ ms
    else m ∷ rest

-- The loop over the groups.
unfoldable pub share_rows :
    Amounts → List ModelUsageShare → List UsageRow → Amounts × List ModelUsageShare
unfolding add_amounts share_row
share_rows sum models [] = (sum, models)
share_rows sum models (row ∷ rows) =
    share_rows (add_amounts sum row.amounts) (share_row row models) rows

abbrev pub hit_rate : Amounts → ℤ × ℤ
hit_rate sum =
    if ltb_ℤ (pos 0) sum.input_tokens
    then (sum.cached_input_tokens, sum.input_tokens)
    else (pos 0, pos 1)

abbrev pub totals_of : Amounts × List ModelUsageShare → UsageTotals
totals_of (sum, models) = record { amounts = sum; cache_hit_rate = hit_rate sum; models = models }

unfoldable pub usage_totals : Store → Text → ℤ → Result UsageTotals
unfolding share_rows
usage_totals s window now_ms = do
  groups ← usage_groups s window now_ms
  ok (totals_of (share_rows nothing [] groups))
