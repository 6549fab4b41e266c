-- ===== src/Store/Integrity/History.antt =====
-- src/store.rs: every operation that changes the configuration or the health of the routes, as one
-- history of a database.
use local_api_relay.Common.{List, [], ◌∷◌, Option}
use local_api_relay.Common.Text.{Text}
use local_api_relay.Store.{Store, Result, ok, ◌>>=◌, Env}
use local_api_relay.Store.Ensures.{Ensures, failed, done}
use local_api_relay.Store.Health.Invariant.{HealthOp, step, after}
use local_api_relay.Store.Validation.{Url}
use local_api_relay.Store.Providers.{create_provider, update_provider}
use local_api_relay.Store.Models.{
  create_published_model, deprecate_published_model, update_published_model_prices,
}
use local_api_relay.Store.Routes.{create_model_route, update_model_route}
use local_api_relay.Store.Keys.{
  create_relay_access_key, update_relay_access_key, revoke_relay_access_key,
}
use local_api_relay.Store.Integrity.{IsWhole}
use local_api_relay.Store.Integrity.Config.{
  create_provider-IsWhole, update_provider-IsWhole, create_published_model-IsWhole,
  deprecate_published_model-IsWhole, update_published_model_prices-IsWhole,
}
use local_api_relay.Store.Integrity.Edits.{
  create_model_route-IsWhole, update_model_route-IsWhole, create_relay_access_key-IsWhole,
  update_relay_access_key-IsWhole, revoke_relay_access_key-IsWhole,
}
use local_api_relay.Store.Integrity.Health.{after-IsWhole, step-IsWhole}

-- A request of the administrator, with the ids that the random generator draws for it.
pub data ConfigOp : Type 0 where
  add_provider : Text → Text → Text → Text → ConfigOp
  edit_provider : Text → Text → Text → Text → ConfigOp
  add_model : Text → Text → Text → Text → ConfigOp
  deprecate_model : Text → ConfigOp
  price_model : Text → Text → Text → Text → ConfigOp
  add_route : Text → Text → Text → Text → Text → Text → ConfigOp
  edit_route : Text → Text → Text → Text → Text → Text → ConfigOp
  add_key : Text → Text → Text → List Text → ConfigOp
  edit_key : Text → Text → List Text → ConfigOp
  revoke_key : Text → ConfigOp

-- The state of an operation that has an answer too.
abbrev state {ℓ} : {A : Type ℓ} → Result (Store × A) → Result Store
state r = r >>= λ p. ok p.0

module _ (parse : Text → Option Url) (hash_token : Text → Text) where
  unfoldable pub apply : Env → Store → ConfigOp → Result Store
  apply env s (add_provider id name url key) = create_provider parse env s id name url key
  apply env s (edit_provider id name url key) = state (update_provider parse env s id name url key)
  apply env s (add_model name input output cached) =
      create_published_model env s name input output cached
  apply env s (deprecate_model id) = deprecate_published_model env s id
  apply env s (price_model id input output cached) =
      update_published_model_prices env s id input output cached
  apply env s (add_route id model provider name protocol multiplier) =
      state (create_model_route env s id model provider name protocol multiplier)
  apply env s (edit_route id model provider name protocol multiplier) =
      state (update_model_route env s id model provider name protocol multiplier)
  apply env s (add_key id secret label routes) =
      create_relay_access_key hash_token env s id secret label routes
  apply env s (edit_key id label routes) = update_relay_access_key env s id label routes
  apply env s (revoke_key id) = revoke_relay_access_key env s id

-- Any operation, under the clocks and faults that it meets.
pub data Op : Type 0 where
  config : ConfigOp → Op
  health : HealthOp → Op

module _ (parse : Text → Option Url) (hash_token : Text → Text) where
  unfoldable pub next : Env → Store → Op → Store
  unfolding apply
  next env s (config op) = after s (apply parse hash_token env s op)
  next env s (health op) = step env s op

  unfoldable pub run : Store → List (Env × Op) → Store
  unfolding next
  run s [] = s
  run s ((env, op) ∷ ops) = run (next env s op) ops

  state-IsWhole :
      {A : Type 0} (r : Result (Store × A))
      → Ensures (λ (p : Store × A). IsWhole p.0) r
      → Ensures IsWhole (state r)
  state-IsWhole r failed = failed
  state-IsWhole r (done w) = done w

  apply-IsWhole :
      (env : Env) (s : Store) (op : ConfigOp)
      → IsWhole s
      → Ensures IsWhole (apply parse hash_token env s op)
  unfolding apply
  apply-IsWhole env s (add_provider id name url key) w =
      create_provider-IsWhole env parse s id name url key w
  apply-IsWhole env s (edit_provider id name url key) w =
      state-IsWhole _ (update_provider-IsWhole env parse s id name url key w)
  apply-IsWhole env s (add_model name input output cached) w =
      create_published_model-IsWhole env s name w name input output cached
  apply-IsWhole env s (deprecate_model id) w = deprecate_published_model-IsWhole env s id w
  apply-IsWhole env s (price_model id input output cached) w =
      update_published_model_prices-IsWhole env s id w input output cached
  apply-IsWhole env s (add_route id model provider name protocol multiplier) w =
      state-IsWhole _
        (create_model_route-IsWhole env s id model provider name protocol multiplier w)
  apply-IsWhole env s (edit_route id model provider name protocol multiplier) w =
      state-IsWhole _
        (update_model_route-IsWhole env s id model provider name protocol multiplier w)
  apply-IsWhole env s (add_key id secret label routes) w =
      create_relay_access_key-IsWhole env s id w hash_token secret label routes
  apply-IsWhole env s (edit_key id label routes) w =
      update_relay_access_key-IsWhole env s id w label routes
  apply-IsWhole env s (revoke_key id) w = revoke_relay_access_key-IsWhole env s id w

  -- From a whole database, any history of configuration and health operations, under any clocks,
  -- faults, ids and secrets and whether or not each step succeeds, ends in a whole database: no two
  -- routes share an id or an identity (model, provider, upstream model and protocol), each route
  -- has exactly one row of health and its provider and model, each row of health belongs to a
  -- route, and each row of the eligibility table has its key and its route.
  pub run-IsWhole : (s : Store) (ops : List (Env × Op)) → IsWhole s → IsWhole (run s ops)
  unfolding run
  run-IsWhole s [] w = w
  run-IsWhole s ((env, config op) ∷ ops) w =
      run-IsWhole (after s (apply parse hash_token env s op)) ops
        (after-IsWhole s (apply parse hash_token env s op) w (apply-IsWhole env s op w))
  run-IsWhole s ((env, health op) ∷ ops) w =
      run-IsWhole (step env s op) ops (step-IsWhole env s op w)
