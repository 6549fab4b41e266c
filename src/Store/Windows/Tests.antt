-- ===== src/Store/Windows/Tests.antt =====
-- Usage totals at concrete values: two calls in the window and one before it.
use local_api_relay.Common.{some, [], ◌∷◌, ◌≡◌, refl}
use local_api_relay.Common.Int.{ℤ, pos, ◌+ℤ◌, ◌-ℤ◌, sub_i64, add_i64, wrap_i64}
use local_api_relay.Common.Text.{codes, text_eq}
use local_api_relay.Store.{CallRow, Store, ok}
use local_api_relay.Store.Order.{sort_by, insert_by}
use local_api_relay.Store.Windows.{
  Amounts, UsageTotals, window_span_ms, call_usages, window_rows, merge, group_rows, same_group,
  usage_groups, add_amounts, share_row, share_rows, usage_totals,
}
use local_api_relay.Store.Windows.Entries.{Reports, usage_totals-IsUsage}
use local_api_relay.Samples.{serving, call, model_name}

abbrev row : ℤ → CallRow
row created_at_ms = record {
  call = record call { created_at_ms = created_at_ms };
  cost = some (pos 7);
}

abbrev busy : Store
busy = record serving {
  calls = row (pos 86_400_000) ∷ row (pos 86_000_000) ∷ row (pos 80_000_000) ∷ [];
}

abbrev both : Amounts
both = record {
  input_tokens = pos 20;
  cached_input_tokens = pos 8;
  output_tokens = pos 6;
  estimated_cost = pos 14;
}

abbrev report : UsageTotals
report = record {
  amounts = both;
  cache_hit_rate = (pos 8, pos 20);
  models =
      record {
        published_model_name = model_name;
        amounts = both;
        providers =
            record { provider_id = codes "p1"; provider_name = codes "p1"; amounts = both } ∷ [];
      }
      ∷ [];
}

counted : usage_totals busy (codes "1h") (pos 86_400_000) ≡ ok report
unfolding usage_totals usage_groups window_rows window_span_ms call_usages sub_i64 wrap_i64 ◌-ℤ◌
    ◌+ℤ◌ merge group_rows same_group text_eq sort_by insert_by add_amounts add_i64 share_row
    share_rows
counted = refl

usage_totals-IsUsage_example : Reports busy (codes "1h") (pos 86_400_000) report
usage_totals-IsUsage_example =
    usage_totals-IsUsage busy (codes "1h") (pos 86_400_000) report counted
