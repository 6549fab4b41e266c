-- ===== src/Store/Integrity/Scopes.antt =====
-- src/store.rs: the operations on the other tables of the configuration keep what refers to them.
use local_api_relay.Common.{
  Bool, true, List, [], ◌∷◌, ◌++◌, All, all, is_some, arith, ◌≡◌, ◌∙◌, find_where, count_where,
  delete_where, find_where-append, All_imp,
}
use local_api_relay.Common.Text.{Text, text_eq, text_eq_refl}
use local_api_relay.Store.{
  RecoverySettings, Provider, PublishedModel, AccessKey, HealthRow, Eligibility, Event, Store,
}
use local_api_relay.Store.Health.{is_route}
use local_api_relay.Store.Routing.{route_of}
use local_api_relay.Store.Keys.{is_key, scope}
use local_api_relay.Store.Integrity.{HasScope, IsWhole}

-- What a lookup finds before, it finds after.
abbrev Keeps : {A : Type 0} → (Text → A → Bool) → List A → List A → Type 0
Keeps p xs ys =
    (id : Text) → is_some (find_where (p id) xs) ≡ true → is_some (find_where (p id) ys) ≡ true

-- No row that is referred to goes, and the health rows keep their keys.
pub kept-IsWhole :
    (s : Store) (settings : RecoverySettings) (providers : List Provider)
    (models : List PublishedModel) (keys : List AccessKey) (health : List HealthRow)
    (events : List Event)
    → Keeps (λ id (u : Provider). text_eq u.id id) s.providers providers
    → Keeps (λ id (p : PublishedModel). text_eq p.id id) s.models models
    → Keeps is_key s.keys keys
    → ((id : Text) → count_where (is_route id) health ≡ count_where (is_route id) s.health)
    → IsWhole s
    → IsWhole (record s {
      settings = settings;
      providers = providers;
      models = models;
      keys = keys;
      health = health;
      events = events;
    })
kept-IsWhole s settings providers models keys health events keep_u keep_p keep_k same whole =
    record {
      one_id = whole.one_id;
      one_identity = whole.one_identity;
      one_health = λ id. same id ∙ whole.one_health id;
      ends =
          All_imp (λ r h. (keep_u r.provider_id h.0, keep_p r.published_model_id h.1)) s.routes
            whole.ends;
      scopes = All_imp (λ e h. (keep_k e.key_id h.0, h.1)) s.eligibility whole.scopes;
    }

-- The rows of the eligibility table are replaced by others that refer to what is there.
pub scoped-IsWhole :
    (s : Store) (keys : List AccessKey) (eligibility : List Eligibility)
    → All (HasScope (record s { keys = keys; eligibility = eligibility })) eligibility
    → IsWhole s
    → IsWhole (record s { keys = keys; eligibility = eligibility })
scoped-IsWhole s keys eligibility scopes whole = record {
  one_id = whole.one_id;
  one_identity = whole.one_identity;
  one_health = whole.one_health;
  ends = whole.ends;
  scopes = scopes;
}

pub scope-HasScope :
    (s : Store) (id : Text) (route_ids : List Text)
    → is_some (find_where (is_key id) s.keys) ≡ true
    → all (λ id. is_some (route_of id s)) route_ids ≡ true
    → All (HasScope s) (scope id route_ids)
scope-HasScope s id [] key routes = tt
scope-HasScope s id (r ∷ route_ids) key routes =
    ((key, ground arith), scope-HasScope s id route_ids key (ground arith))

pub delete_where-All {ℓ κ} :
    {A : Type ℓ} (P : A → Type κ) (p : A → Bool) (xs : List A)
    → All P xs
    → All P (delete_where p xs)
unfolding delete_where
delete_where-All P p [] h = tt
delete_where-All P p (x ∷ xs) (hx, h) = ground (arith, delete_where-All P p xs h)

-- The key that was added is found.
pub key_added :
    (keys : List AccessKey) (k : AccessKey)
    → is_some (find_where (is_key k.id) (keys ++ k ∷ [])) ≡ true
unfolding find_where
key_added keys k = ground (arith, find_where-append (is_key k.id) keys (k ∷ []), text_eq_refl k.id)
