-- ===== src/Store/Probes/Due.antt =====
-- src/store.rs, `recovery_due_probes` and `record_probe_result`: a route that is out comes back.
use local_api_relay.Common.{
  ℕ, ◌≤◌, Bool, true, false, ◌&&◌, Option, none, some, List, [], ◌∷◌, is_some, arith, ◌≡◌, refl,
  subst, ◌∙◌, ◌==◌, count_where, find_where_sound, find_where_unique, find_where-All,
  count_where_pos, count_where-le, count_where-none, Bool-cases, Option-cases, inl, inr,
  if◌then◌else◌,
}
use local_api_relay.Common.Int.{ℤ, leb_ℤ}
use local_api_relay.Common.Text.{Text, text_eq, text_eq_refl, text_eq_iff}
use local_api_relay.Store.{
  StreamProtocol, protocol_eq, unavailable, is_unavailable, Provider, ModelRoute, HealthRow, Store,
  ok, Env, chat_completions, responses,
}
use local_api_relay.Store.Order.{sort_by, count_where-sort_by}
use local_api_relay.Store.Health.{
  is_route, health_v14, health_of, available_row, record_probe_result,
}
use local_api_relay.Store.Health.Invariant.{IsSound, AllSound}
use local_api_relay.Store.Health.Stale.{fresh_success}
use local_api_relay.Store.Routing.{route_of, provider_of}
use local_api_relay.Store.Routes.{has_id}
use local_api_relay.Store.Integrity.{HasEnds, IsWhole}
use local_api_relay.Store.Probes.{
  ProbeConfiguration, configuration, probe_epoch, collect, probe_row, is_due, probed_after,
  select_rows, recovery_due_probes,
}

-- Whether a list holds a configuration, field by field.
abbrev pub asks : ProbeConfiguration → ProbeConfiguration → Bool
asks a b =
    text_eq a.route_id b.route_id
    && text_eq a.provider_id b.provider_id
    && text_eq a.base_url b.base_url
    && text_eq a.api_key b.api_key
    && text_eq a.upstream_model_name b.upstream_model_name
    && protocol_eq a.protocol b.protocol
    && a.quarantine_epoch == b.quarantine_epoch

-- The schedule, route and provider of a row; that its probe, and no other of the route, is listed
-- exactly once it is due; and what a good result of it makes of the row.
abbrev pub ComesBack : Store → Text → HealthRow → ℤ → Env → Option ℕ → Type 0
ComesBack s id h now env http =
    (at : ℤ) × (r : ModelRoute) × (u : Provider) × ((h.next_probe_at_ms ≡ some at)
      × (route_of id s ≡ some r)
      × (provider_of r.provider_id s ≡ some u))
    × ((count_where (λ c. text_eq c.route_id id) (recovery_due_probes s now)
          ≡ (if leb_ℤ at now then 1 else 0))
        × (count_where (λ c. asks c (configuration r u h.quarantine_epoch))
              (recovery_due_probes s now)
            ≡ (if leb_ℤ at now then 1 else 0)))
    × ((s' : Store) × (record_probe_result env s id h.quarantine_epoch true http ≡ ok s')
        × (health_of id s' ≡ some (available_row true env http h)))

abbrev fits : (ProbeConfiguration → Bool) → Option ProbeConfiguration → Bool
fits p none = false
fits p (some c) = p c

count-collect :
    {A : Type 0} (p : ProbeConfiguration → Bool) (f : A → Option ProbeConfiguration) (xs : List A)
    → count_where p (collect f xs) ≡ count_where (λ x. fits p (f x)) xs
unfolding count_where collect
count-collect p f [] = refl
count-collect p f (x ∷ xs) = ground (arith, count-collect p f xs)

count-select :
    (q p : HealthRow → Bool) (xs : List HealthRow)
    → count_where q (select_rows p xs) ≡ count_where (λ h. p h && q h) xs
unfolding count_where select_rows
count-select q p [] = refl
count-select q p (h ∷ xs) = ground (arith, count-select q p xs)

count-due :
    (p : ProbeConfiguration → Bool) (s : Store) (now : ℤ)
    → count_where p (recovery_due_probes s now)
      ≡ count_where (λ h. is_due now h && fits p (probe_row s h)) s.health
unfolding recovery_due_probes
count-due p s now =
    count-collect p (probe_row s) (sort_by probed_after (select_rows (is_due now) s.health))
    ∙ count_where-sort_by probed_after (λ h. fits p (probe_row s h))
        (select_rows (is_due now) s.health)
    ∙ count-select (λ h. fits p (probe_row s h)) (is_due now) s.health

-- The row that a probe comes from is that of its route.
probe_of_route :
    (s : Store) (h : HealthRow) (id : Text)
    → fits (λ c. text_eq c.route_id id) (probe_row s h) ≡ true
    → is_route id h ≡ true
unfolding probe_row
probe_of_route s h id e = elim (Option-cases (route_of h.route_id s)) [
  | inl absent ↦ absurd (cc (rw absent at e))
  | inr (r, found) ↦
      let same : r.id ≡ h.route_id =
        (text_eq_iff r.id h.route_id).0
          (find_where_sound (λ (r : ModelRoute). text_eq r.id h.route_id) s.routes r found) in
      elim (Option-cases (provider_of r.provider_id s)) [
        | inl absent ↦ absurd (cc (rw absent at (rw found at e)))
        | inr (u, there) ↦ rw (← same) (rw there at (rw found at e))
      ]
]

asks_route :
    (o : Option ProbeConfiguration) (wanted : ProbeConfiguration)
    → fits (λ c. asks c wanted) o ≡ true
    → fits (λ c. text_eq c.route_id wanted.route_id) o ≡ true
asks_route none wanted e = e
asks_route (some c) wanted e = ground arith

protocol_eq_refl : (p : StreamProtocol) → protocol_eq p p ≡ true
protocol_eq_refl chat_completions = refl
protocol_eq_refl responses = refl

asks_refl : (c : ProbeConfiguration) → asks c c ≡ true
asks_refl c = ground (
  arith,
  text_eq_refl c.route_id,
  text_eq_refl c.provider_id,
  text_eq_refl c.base_url,
  text_eq_refl c.api_key,
  text_eq_refl c.upstream_model_name,
  protocol_eq_refl c.protocol,
)

module _ (s : Store) (id : Text) {h : HealthRow} (whole : IsWhole s) (current : health_v14 s ≡ true)
    (found : health_of id s ≡ some h) where
  own_id : h.route_id ≡ id
  unfolding health_of
  own_id = (text_eq_iff h.route_id id).0 (find_where_sound (is_route id) s.health h found)

  one_row : count_where (is_route id) s.health ≤ 1
  one_row = omega (arith, whole.one_health id, whole.one_id id)

  -- The route and the provider of the row.
  ends :
      (r : ModelRoute) × (u : Provider) × (route_of id s ≡ some r)
      × (provider_of r.provider_id s ≡ some u)
  unfolding health_of
  ends = elim (Option-cases (route_of id s)) [
    | inl absent ↦ absurd (
        omega (
          arith,
          whole.one_health id,
          count_where-none (has_id id) s.routes absent,
          count_where_pos (is_route id) (is_route id) s.health h found
              (find_where_sound (is_route id) s.health h found),
        ))
    | inr (r, e) ↦
        let there = find_where-All (HasEnds s) (has_id id) s.routes r whole.ends e in
        elim (Option-cases (provider_of r.provider_id s)) [
          | inl absent ↦ absurd (cc (rw absent at there.0))
          | inr (u, e') ↦ (r, u, e, e')
        ]
  ]

  module _ (r : ModelRoute) (u : Provider) (e : route_of id s ≡ some r)
      (e' : provider_of r.provider_id s ≡ some u) where
    own_route : r.id ≡ id
    own_route = (text_eq_iff r.id id).0 (find_where_sound (has_id id) s.routes r e)

    own_probe : probe_row s h ≡ some (configuration r u h.quarantine_epoch)
    unfolding probe_row probe_epoch
    own_probe = rw own_id (rw e (rw e' (rw current)))

    -- A probe is listed as often as the row is due, once, and no other of the route is.
    listed :
        (now : ℤ) (p : ProbeConfiguration → Bool)
        → ((o : Option ProbeConfiguration)
            → fits p o ≡ true
            → fits (λ c. text_eq c.route_id id) o ≡ true)
        → p (configuration r u h.quarantine_epoch) ≡ true
        → count_where p (recovery_due_probes s now) ≡ (if is_due now h then 1 else 0)
    unfolding health_of
    listed now p narrow own =
        let q = λ (x : HealthRow). is_due now x && fits p (probe_row s x) in
        let sub = λ (x : HealthRow) (hit : q x ≡ true).
          let row : is_route id x ≡ true =
            ground (arith, probe_of_route s x id, narrow (probe_row s x)) in
          row in
        let few : count_where q s.health ≤ count_where (is_route id) s.health =
          count_where-le q (is_route id) sub s.health in
        elim (Bool-cases (is_due now h)) [
          | inl due ↦ rw (count-due p s now) (
              rw due (
                omega (
                  arith,
                  few,
                  one_row,
                  count_where_pos q (is_route id) s.health h found (rw own_probe (rw due own)),
                )))
          | inr early ↦ rw (count-due p s now) (
              rw early (
                count_where-none q s.health
                  (find_where_unique q (is_route id) sub s.health h found (rw early) one_row)))
        ]

  -- The schedule of the row, when it is out.
  module _ (sound : AllSound s) (out : h.state ≡ unavailable) where
    schedule : (at : ℤ) × (h.next_probe_at_ms ≡ some at)
    unfolding health_of
    schedule =
        let row = find_where-All IsSound (is_route id) s.health h sound found in
        elim (Option-cases h.next_probe_at_ms) [
          | inl absent ↦
              let is_out : is_unavailable h.state ≡ true = rw out in
              let unset : is_some h.next_probe_at_ms ≡ false = rw absent in
              absurd (cc (row.scheduled, is_out, unset))
          | inr next ↦ next
        ]

    -- A route that is out comes back. In a whole database with sound rows and schema 14 or later,
    -- an unavailable route has a time for its next probe, a route and a provider. At any time the
    -- scheduler lists exactly one probe of the route, with its epoch and the connection that its
    -- provider has then, if that time has come, and none before; and with working writes a good
    -- result of that probe succeeds and makes the route available.
    pub out_recovers :
        (now : ℤ) (env : Env) (http : Option ℕ)
        → env.fail_operational_write ≡ false
        → ComesBack s id h now env http
    out_recovers now env http writable =
        let (at, next) = schedule in
        let (r, u, e, e') = ends in
        let due : is_due now h ≡ leb_ℤ at now = rw (out, next) in
        let own = own_route r u e e' in
        let own_probe = configuration r u h.quarantine_epoch in
        let any_of_route =
          listed r u e e' now (λ c. text_eq c.route_id id) (λ o hit. hit)
            (rw own (text_eq_refl id)) in
        let this_one =
          listed r u e e' now (λ c. asks c own_probe)
            (λ o hit.
              subst (λ x. fits (λ c. text_eq c.route_id x) o ≡ true) own
                (asks_route o own_probe hit))
            (asks_refl own_probe) in
        (
          at,
          r,
          u,
          (next, e, e'),
          (rw (← due) any_of_route, rw (← due) this_one),
          fresh_success env s id h.quarantine_epoch http current writable one_row found refl,
        )
