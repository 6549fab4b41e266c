-- ===== src/Server/Probing/Tests.antt =====
-- A probe at concrete values.
use local_api_relay.Common.{not, ◌&&◌, ◌||◌, some, ◌≡◌, refl, arith, find_where, count_where}
use local_api_relay.Common.Text.{codes, text_eq}
use local_api_relay.Store.{chat_completions, available}
use local_api_relay.Store.Health.{health_of}
use local_api_relay.Store.Health.Stale.{IsKeyed}
use local_api_relay.Store.Probes.{ProbeConfiguration}
use local_api_relay.Server.Json.{string, object, entry, end}
use local_api_relay.Server.Storage.Overlay.{route_health_of}
use local_api_relay.Server.Probing.{Reply, no_reply, replied, startup_probe, recovery_probe}
use local_api_relay.Server.Probing.Verdict.{
  catalog_has, is_catalog, confirms, health_from, probes_correct,
}
use local_api_relay.Samples.{broken, app, first_id, health_row}

keyed : IsKeyed first_id app.store
unfolding count_where text_eq
keyed = omega arith

found : health_of first_id app.store ≡ some (health_row first_id available 0)
unfolding health_of find_where text_eq
found = refl

-- The catalog does not list the model, and the writes fail.
abbrev probe : ProbeConfiguration
probe = record {
  route_id = first_id;
  provider_id = codes "p1";
  base_url = codes "https://u";
  api_key = codes "k";
  upstream_model_name = codes "up";
  protocol = chat_completions;
  quarantine_epoch = 3;
}

abbrev catalog : Reply
catalog = replied 200 (some (object (entry (codes "object") (string (codes "list")) end)))

probes_correct_example :
    (route_health_of first_id (startup_probe broken app probe catalog no_reply)
      ≡ some (health_from (catalog_has (codes "up") catalog || confirms chat_completions no_reply)))
    × (route_health_of first_id (recovery_probe broken app probe catalog no_reply)
        ≡ some (
            health_from (
              (not (is_catalog catalog) || catalog_has (codes "up") catalog)
              && confirms chat_completions no_reply)))
probes_correct_example =
    probes_correct broken app probe (health_row first_id available 0) refl found keyed refl catalog
      no_reply
