-- ===== src/Store/Probes.antt =====
-- src/store.rs: which routes a scheduler probes, and with which connection. Each table that a query
-- joins by its primary key is looked up by that key.
pub mod Due
use local_api_relay.Common.{
  ℕ, Bool, true, false, not, ◌&&◌, ◌||◌, Option, none, some, List, [], ◌∷◌, leb, if◌then◌else◌,
  find_where,
}
use local_api_relay.Common.Int.{ℤ, pos, ltb_ℤ, leb_ℤ}
use local_api_relay.Common.Text.{Text, text_eq}
use local_api_relay.Store.{
  StreamProtocol, Provider, ModelRoute, HealthRow, is_available, is_unavailable, Store, Result,
  ok_or, bail,
}
use local_api_relay.Store.Order.{sort_by, by_text, text_ltb}
use local_api_relay.Store.Health.{health_v14, health_of, reset_all_checking}
use local_api_relay.Store.Routing.{◌>>?◌, only_if, route_of, provider_of, cons_some}

pub record ProbeConfiguration : Type 0 where
  pub route_id : Text
  pub provider_id : Text
  pub base_url : Text
  pub api_key : Text
  pub upstream_model_name : Text
  pub protocol : StreamProtocol
  pub quarantine_epoch : ℕ

abbrev pub configuration : ModelRoute → Provider → ℕ → ProbeConfiguration
configuration r u epoch = record {
  route_id = r.id;
  provider_id = u.id;
  base_url = u.base_url;
  api_key = u.api_key;
  upstream_model_name = r.upstream_model_name;
  protocol = r.protocol;
  quarantine_epoch = epoch;
}

-- `probe_epoch_sql`: the column exists from schema 14 on.
unfoldable pub probe_epoch : Store → HealthRow → ℕ
probe_epoch s h = if health_v14 s then h.quarantine_epoch else 0

-- The rows that a join gives for the rows of its first table.
unfoldable pub collect {ℓ} :
    {A : Type ℓ} → (A → Option ProbeConfiguration) → List A → List ProbeConfiguration
collect f [] = []
collect f (x ∷ xs) = cons_some (f x) (collect f xs)

abbrev pub by_route_id : ProbeConfiguration → ProbeConfiguration → Bool
by_route_id = by_text (λ (p : ProbeConfiguration). p.route_id)

-- `startup_probe_configurations`: every route is put back to be checked first.
unfoldable pub startup_row : Store → ModelRoute → Option ProbeConfiguration
startup_row s r = provider_of r.provider_id s >>? λ u.
    health_of r.id s >>? λ h. some (configuration r u (probe_epoch s h))

unfoldable pub startup_probe_configurations : Store → Store × List ProbeConfiguration
unfolding reset_all_checking startup_row collect sort_by
startup_probe_configurations s =
    let s' = reset_all_checking s in (s', sort_by by_route_id (collect (startup_row s') s'.routes))

-- A row of the health table with its route and provider.
unfoldable pub probe_row : Store → HealthRow → Option ProbeConfiguration
probe_row s h = route_of h.route_id s >>? λ r.
    provider_of r.provider_id s >>? λ u. some (configuration r u (probe_epoch s h))

abbrev pub due_by : ℤ → Option ℤ → Bool
due_by now_ms none = false
due_by now_ms (some at) = leb_ℤ at now_ms

abbrev pub is_due : ℤ → HealthRow → Bool
is_due now_ms h = is_unavailable h.state && due_by now_ms h.next_probe_at_ms

abbrev pub scheduled : HealthRow → ℤ
scheduled h = elim h.next_probe_at_ms [ none ↦ pos 0 | some at ↦ at ]

-- `ORDER BY h.next_probe_at_ms ASC, r.id ASC`, before the join, which keeps the route's id.
unfoldable pub probed_after : HealthRow → HealthRow → Bool
probed_after a b =
    ltb_ℤ (scheduled b) (scheduled a)
    || (not (ltb_ℤ (scheduled a) (scheduled b)) && text_ltb b.route_id a.route_id)

unfoldable pub select_rows : (HealthRow → Bool) → List HealthRow → List HealthRow
select_rows p [] = []
select_rows p (h ∷ hs) = if p h then h ∷ select_rows p hs else select_rows p hs

unfoldable pub recovery_due_probes : Store → ℤ → List ProbeConfiguration
unfolding probe_row collect sort_by select_rows
recovery_due_probes s now_ms =
    collect (probe_row s) (sort_by probed_after (select_rows (is_due now_ms) s.health))

unfoldable pub available_route_probe_configurations : Store → List ProbeConfiguration
unfolding probe_row collect sort_by select_rows
available_route_probe_configurations s =
    sort_by by_route_id (collect (probe_row s) (select_rows (λ h. is_available h.state) s.health))

abbrev pub epoch_or_zero : Store → Option HealthRow → ℕ
epoch_or_zero s none = 0
epoch_or_zero s (some h) = probe_epoch s h

-- `model_route_probe`: a route without a health row has the epoch 0.
unfoldable pub model_route_probe : Store → Text → Result ProbeConfiguration
model_route_probe s id =
    ok_or
      (route_of id s >>? λ r. provider_of r.provider_id s >>? λ u.
        some (configuration r u (epoch_or_zero s (health_of r.id s))))
      (bail "model route does not exist")
