-- ===== src/Server/Probing/Verdict.antt =====
-- src/server.rs: what routing sees of a route after a probe.
use local_api_relay.Common.{
  ℕ, Bool, true, false, not, ◌&&◌, ◌||◌, Option, none, some, List, [], ◌∷◌, any, arith, ap, ◌∙◌,
  ◌≡◌, refl, inl, inr, Bool-cases, Option-cases, if◌then◌else◌, is_some,
}
use local_api_relay.Common.Text.{Text, codes, text_eq}
use local_api_relay.Store.{RouteHealth, available, unavailable, HealthRow, StreamProtocol, Env}
use local_api_relay.Store.Health.{health_of, health_v14, available_row}
use local_api_relay.Store.Health.Stale.{IsKeyed, fresh_success}
use local_api_relay.Store.Order.{by_text, any-sort_by}
use local_api_relay.Store.Probes.{ProbeConfiguration}
use local_api_relay.Store.Validation.{sort, dedup}
use local_api_relay.Server.{AppState}
use local_api_relay.Server.Storage.{record_probe_result}
use local_api_relay.Server.Storage.Overlay.{
  route_health_of, note-err, note-ok, probe_refused, failed_probe_excludes,
}
use local_api_relay.Server.Json.{Json, get, as_str, as_array}
use local_api_relay.Server.Protocol.{is_success_status, some_and, str_is, ◌>>=◌}
use local_api_relay.Server.Handlers.Models.Names.{any-dedup}
use local_api_relay.Server.Probing.{
  Reply, no_reply, replied, entry_ids, names_of, fetch_upstream_model_list, names_include,
  light_validation_passes, is_valid, native_probe, startup_result, recovery_result, startup_probe,
  recovery_probe,
}

-- A body that is a list of models, with success.
abbrev pub is_catalog : Reply → Bool
is_catalog no_reply = false
is_catalog (replied status body) =
    is_success_status status && some_and body (str_is "object" "list")

abbrev pub data_of : Json → List Json
data_of body = elim (get (codes "data") body >>= as_array) [ none ↦ [] | some es ↦ es ]

abbrev pub entry_is : Text → Json → Bool
entry_is model e = some_and (get (codes "id") e >>= as_str) (text_eq model)

-- An entry of the catalog has the model's name.
abbrev pub catalog_has : Text → Reply → Bool
catalog_has model no_reply = false
catalog_has model (replied status body) =
    is_catalog (replied status body) && some_and body (λ b. any (entry_is model) (data_of b))

-- The native probe brought back a complete response, with success.
abbrev pub confirms : StreamProtocol → Reply → Bool
confirms protocol no_reply = false
confirms protocol (replied status body) =
    is_success_status status && some_and body (is_valid protocol)

abbrev pub health_from : Bool → RouteHealth
health_from succeeded = if succeeded then available else unavailable

any-entry_ids :
    (model : Text) (es : List Json) → any (text_eq model) (entry_ids es) ≡ any (entry_is model) es
any-entry_ids model [] = refl
any-entry_ids model (e ∷ es) = ground (arith, any-entry_ids model es)

names-include :
    (model : Text) (es : List Json)
    → names_include model (dedup (sort (entry_ids es))) ≡ any (entry_is model) es
names-include model es =
    any-dedup model (sort (entry_ids es))
    ∙ any-sort_by (by_text (λ (x : Text). x)) (text_eq model) (entry_ids es)
    ∙ any-entry_ids model es

listed_body :
    (model : Text) (body : Json)
    → some_and (names_of body) (names_include model)
      ≡ (str_is "object" "list" body && any (entry_is model) (data_of body))
listed_body model body = elim (Option-cases (get (codes "data") body >>= as_array)) [
  | inl absent ↦ rw absent (ground arith)
  | inr (es, given) ↦ rw given (ground (arith, names-include model es))
]

light_lem :
    (model : Text) (catalog : Reply)
    → light_validation_passes (fetch_upstream_model_list catalog) model ≡ catalog_has model catalog
unfolding light_validation_passes fetch_upstream_model_list
light_lem model no_reply = refl
light_lem model (replied status none) = ground arith
light_lem model (replied status (some body)) = ground (arith, listed_body model body)

native_lem :
    (protocol : StreamProtocol) (native : Reply)
    → (native_probe protocol native).0 ≡ confirms protocol native
unfolding native_probe
native_lem protocol no_reply = refl
native_lem protocol (replied status body) = ground arith

startup_lem :
    (probe : ProbeConfiguration) (catalog native : Reply)
    → (startup_result probe (fetch_upstream_model_list catalog) native).0
      ≡ (catalog_has probe.upstream_model_name catalog || confirms probe.protocol native)
unfolding startup_result
startup_lem probe catalog native =
    ground (arith, light_lem probe.upstream_model_name catalog, native_lem probe.protocol native)

fetched : (catalog : Reply) → is_some (fetch_upstream_model_list catalog) ≡ is_catalog catalog
unfolding fetch_upstream_model_list
fetched no_reply = refl
fetched (replied status none) = ground arith
fetched (replied status (some body)) = elim (Option-cases (get (codes "data") body >>= as_array)) [
  | inl absent ↦ rw absent (ground arith)
  | inr (es, given) ↦ rw given (ground arith)
]

recovery_lem :
    (probe : ProbeConfiguration) (catalog native : Reply)
    → (recovery_result probe (fetch_upstream_model_list catalog) native).0 ≡ (
        (not (is_catalog catalog) || catalog_has probe.upstream_model_name catalog)
        && confirms probe.protocol native)
unfolding recovery_result light_validation_passes
recovery_lem probe catalog native =
    let listed = light_lem probe.upstream_model_name catalog in
    let answered = fetched catalog in
    elim (Option-cases (fetch_upstream_model_list catalog)) [
      | inl e ↦ rw e (ground (arith, native_lem probe.protocol native))
      | inr (names, e) ↦ rw e (ground (arith, native_lem probe.protocol native))
    ]

module _ (env : Env) (app : AppState) (id : Text) (http : Option ℕ) (h : HealthRow)
    (current : health_v14 app.store ≡ true) (found : health_of id app.store ≡ some h)
    (keyed : IsKeyed id app.store) where
  probe_decides :
      (succeeded : Bool)
      → route_health_of id (record_probe_result env app id h.quarantine_epoch succeeded http)
        ≡ some (health_from succeeded)
  unfolding record_probe_result
  probe_decides false = failed_probe_excludes env app id http h current found keyed
  probe_decides true = elim (Bool-cases env.fail_operational_write) [
    | inl broken ↦
        rw (probe_refused env app.store id http broken h.quarantine_epoch true)
          (note-err env app _ _ found)
    | inr works ↦
        let (s', done, found') =
          fresh_success env app.store id h.quarantine_epoch http current works keyed found refl in
        rw done (unfold available_row in note-ok env app _ s' found')
  ]

module _ (env : Env) (app : AppState) (probe : ProbeConfiguration) (h : HealthRow)
    (current : health_v14 app.store ≡ true) (found : health_of probe.route_id app.store ≡ some h)
    (keyed : IsKeyed probe.route_id app.store)
    (epoch : probe.quarantine_epoch ≡ h.quarantine_epoch) where
  decided :
      (result : Bool × Option ℕ) (verdict : Bool)
      → result.0 ≡ verdict
      → route_health_of probe.route_id
          (record_probe_result env app probe.route_id probe.quarantine_epoch result.0 result.1)
        ≡ some (health_from verdict)
  decided (succeeded, http) verdict e =
      ap
        (λ n.
          route_health_of probe.route_id
            (record_probe_result env app probe.route_id n succeeded http))
        epoch
      ∙ probe_decides env app probe.route_id http h current found keyed succeeded
      ∙ ap (λ b. some (health_from b)) e

  -- What a probe decides is what routing sees. With schema 14 or later and the primary key unique,
  -- after a probe under the current epoch of a route, whether or not the result could be written,
  -- routing sees it as available, after a probe of the start, just when the catalog of its provider
  -- has the model or the native probe brought back a complete response; after a recovery probe,
  -- just when it did so and the catalog has the model or could not be read. Else routing sees it as
  -- unavailable.
  pub probes_correct :
      (catalog native : Reply)
      → (route_health_of probe.route_id (startup_probe env app probe catalog native)
          ≡ some (
              health_from
                (catalog_has probe.upstream_model_name catalog || confirms probe.protocol native)))
        × (route_health_of probe.route_id (recovery_probe env app probe catalog native)
            ≡ some (
                health_from (
                  (not (is_catalog catalog) || catalog_has probe.upstream_model_name catalog)
                  && confirms probe.protocol native)))
  unfolding startup_probe recovery_probe
  probes_correct catalog native = (
    decided (startup_result probe (fetch_upstream_model_list catalog) native) _
        (startup_lem probe catalog native),
    decided (recovery_result probe (fetch_upstream_model_list catalog) native) _
        (recovery_lem probe catalog native),
  )
