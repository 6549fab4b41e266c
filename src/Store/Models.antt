-- ===== src/Store/Models.antt =====
-- src/store.rs: the published models and their prices.
use local_api_relay.Common.{
  Bool, not, ◌&&◌, none, some, [], ◌∷◌, ◌++◌, leb, ◌==◌, if◌then◌else◌, is_some, update_where,
  count_where, find_where,
}
use local_api_relay.Common.Int.{ℤ}
use local_api_relay.Common.Text.{Text, text_eq}
use local_api_relay.Store.{PublishedModel, Store, Result, ok, ◌>>=◌, ◌>>◌, guard, bail, sql, Env}
use local_api_relay.Store.Decimal.{parse_non_negative_decimal}
use local_api_relay.Store.Routing.{model_of}
use local_api_relay.Store.Validation.{validate_published_model_name}
use local_api_relay.Store.Providers.{commit}

abbrev pub is_model : Text → PublishedModel → Bool
is_model id p = text_eq p.id id

abbrev pub has_name : Text → PublishedModel → Bool
has_name name p = text_eq p.name name

pub record Prices : Type 0 where
  pub input : ℤ
  pub output : ℤ
  pub cached : ℤ

unfoldable pub parse_prices : Text → Text → Text → Result Prices
unfolding parse_non_negative_decimal
parse_prices input output cached = do
  input_price ← parse_non_negative_decimal input "input price" "input_price_rmb"
  output_price ← parse_non_negative_decimal output "output price" "output_price_rmb"
  cached_price ← parse_non_negative_decimal cached "cached input price" "cached_input_price_rmb"
  ok (record { input = input_price; output = output_price; cached = cached_price })

-- The name is the id too. The column `deprecated_at` exists from schema 16 on.
unfoldable pub create_published_model : Env → Store → Text → Text → Text → Text → Result Store
unfolding validate_published_model_name parse_prices
create_published_model env s name input output cached = do
  model_name ← validate_published_model_name name
  prices ← parse_prices input output cached
  guard (not (is_some (find_where (has_name model_name) s.models)))
      (bail "a published model with this name already exists")
  guard (leb 16 s.schema && not (is_some (model_of model_name s))) sql
  commit env (record s {
    models =
        s.models
        ++ record {
          id = model_name;
          name = model_name;
          input_price = prices.input;
          output_price = prices.output;
          cached_price = prices.cached;
          deprecated_at = none;
        }
          ∷ [];
  })

-- `COALESCE(deprecated_at, ?1)`
abbrev pub deprecate : Env → PublishedModel → PublishedModel
deprecate env p = record p {
  deprecated_at = if is_some p.deprecated_at then p.deprecated_at else some env.epoch_seconds;
}

unfoldable pub deprecate_published_model : Env → Store → Text → Result Store
deprecate_published_model env s id = do
  guard (leb 16 s.schema) sql
  guard (count_where (is_model id) s.models == 1) (bail "published model does not exist")
  ok (record s { models = update_where (is_model id) (deprecate env) s.models })

abbrev pub price : Prices → PublishedModel → PublishedModel
price prices p = record p {
  input_price = prices.input;
  output_price = prices.output;
  cached_price = prices.cached;
}

unfoldable pub update_published_model_prices :
    Env → Store → Text → Text → Text → Text → Result Store
unfolding parse_prices
update_published_model_prices env s id input output cached = do
  prices ← parse_prices input output cached
  guard (count_where (is_model id) s.models == 1) (bail "published model does not exist")
  commit env (record s { models = update_where (is_model id) (price prices) s.models })
