-- ===== src/Store/Health/Quarantine.antt =====
-- src/store.rs, `quarantine_route`: what one failure does to the row of its route and to the others,
-- and how many failures in a row take a route out.
use local_api_relay.Common.{
  ℕ, suc, String, true, false, not, ◌||◌, Option, some, List, arith, ◌≡◌, refl, ap, ◌∙◌,
  if◌then◌else◌, update_where, find_where-update, count_where, count_where-update,
  find_where-update_ne, find_where_sound, Bool-cases, inl, inr,
}
use local_api_relay.Common.Int.{pos, ltb_ℤ}
use local_api_relay.Common.Text.{Text, text_eq, text_eq_trans_ne}
use local_api_relay.Store.{is_available, RecoverySettings, HealthRow, Store, ok, Env}
use local_api_relay.Store.Settings.{recovery_settings}
use local_api_relay.Store.Health.{
  is_route, health_v14, health_of, quarantined_row, count_failure, take_out, quarantine_v14,
  quarantine_route,
}

-- What the rows of a store show of one route and of the others after a write to it.
pub record Wrote (id : Text) (row : HealthRow) (s s' : Store) : Type 0 where
  pub written : health_of id s' ≡ some row
  pub rows : count_where (is_route id) s'.health ≡ count_where (is_route id) s.health
  pub schema : s'.schema ≡ s.schema
  pub settings : s'.settings ≡ s.settings
  pub others : (j : Text) → text_eq id j ≡ false → health_of j s' ≡ health_of j s

unfoldable pub counted_row : Option ℕ → HealthRow → HealthRow
counted_row http h = record h {
  consecutive_failures = suc h.consecutive_failures;
  last_http_status = http;
}

module _ (id : Text) (f : HealthRow → HealthRow)
    (same : (h : HealthRow) → (f h).route_id ≡ h.route_id) where
  pub find-update_self :
      (s s' : Store) {h : HealthRow}
      → health_of id s ≡ some h
      → s'.health ≡ update_where (is_route id) f s.health
      → health_of id s' ≡ some (f h)
  unfolding health_of
  find-update_self s s' {h} e w = rw w (
      rw
        (
          find_where-update (is_route id) (is_route id) f
              (λ x _. ap (λ (t : Text). text_eq t id) (same x)) s.health,
          e,
        )
        (rw (find_where_sound (is_route id) s.health h e)))

  pub count-update_self :
      (xs : List HealthRow)
      → count_where (is_route id) (update_where (is_route id) f xs) ≡ count_where (is_route id) xs
  count-update_self =
      count_where-update (is_route id) (is_route id) f
        (λ x _. ap (λ (t : Text). text_eq t id) (same x))

  pub find-update_other :
      (s s' : Store) (j : Text)
      → text_eq id j ≡ false
      → s'.health ≡ update_where (is_route id) f s.health
      → health_of j s' ≡ health_of j s
  unfolding health_of
  find-update_other s s' j n w = rw w (
      find_where-update_ne (is_route j) (is_route id) f
        (λ x e. text_eq_trans_ne x.route_id id j e n)
        (λ x e. rw (same x) (text_eq_trans_ne x.route_id id j e n)) s.health)

-- The row that one failure leaves: counted, and taken out if that reaches the threshold.
unfoldable pub failure_row : Env → RecoverySettings → String → Option ℕ → HealthRow → HealthRow
failure_row env r category http h =
    if ltb_ℤ (pos (suc h.consecutive_failures)) r.quarantine_threshold || not (is_available h.state)
    then counted_row http h
    else quarantined_row true env r category http (counted_row http h)

pub Wrote-refl : {id : Text} {h : HealthRow} {s : Store} → health_of id s ≡ some h → Wrote id h s s
Wrote-refl f = record {
  written = f;
  rows = refl;
  schema = refl;
  settings = refl;
  others = λ j n. refl;
}

pub Wrote-trans :
    {id : Text} {g h : HealthRow} {s t u : Store} → Wrote id g s t → Wrote id h t u → Wrote id h s u
Wrote-trans a b = record {
  written = b.written;
  rows = b.rows ∙ a.rows;
  schema = b.schema ∙ a.schema;
  settings = b.settings ∙ a.settings;
  others = λ j n. b.others j n ∙ a.others j n;
}

count_failure-Wrote :
    (s : Store) (id : Text) (http : Option ℕ) {h : HealthRow}
    → health_of id s ≡ some h
    → Wrote id (counted_row http h) s (count_failure s id http)
unfolding count_failure counted_row
count_failure-Wrote s id http e = record {
  written = find-update_self id _ (λ h. refl) s _ e refl;
  rows = count-update_self id _ (λ h. refl) s.health;
  schema = refl;
  settings = refl;
  others = λ j n. find-update_other id _ (λ h. refl) s _ j n refl;
}

pub recovery_settings-same :
    (env : Env) (s s' : Store)
    → s'.schema ≡ s.schema
    → s'.settings ≡ s.settings
    → recovery_settings env s' ≡ recovery_settings env s
unfolding recovery_settings
recovery_settings-same env s s' e f = rw (e, f)

take_out-Wrote :
    (env : Env) (s : Store) (id : Text) (category : String) (http : Option ℕ) {h : HealthRow}
    → health_of id s ≡ some h
    → Wrote id
        (quarantined_row true env (recovery_settings env s) category http h)
        s
        (take_out env s id category http)
unfolding take_out quarantined_row
take_out-Wrote env s id category http e = record {
  written = find-update_self id _ (λ h. refl) s _ e refl;
  rows = count-update_self id _ (λ h. refl) s.health;
  schema = refl;
  settings = refl;
  others = λ j n. find-update_other id _ (λ h. refl) s _ j n refl;
}

module _ (env : Env) (s : Store) (id : Text) (category : String) (http : Option ℕ) {h : HealthRow}
    (current : health_v14 s ≡ true) (writable : env.fail_operational_write ≡ false)
    (found : health_of id s ≡ some h) where
  -- A failure is recorded on the row of its route as `failure_row` says, and no other row changes.
  pub quarantine_route-Wrote :
      (s' : Store) × (quarantine_route env s id category http ≡ ok s')
      × Wrote id (failure_row env (recovery_settings env s) category http h) s s'
  unfolding quarantine_route quarantine_v14 failure_row counted_row
  quarantine_route-Wrote =
      let r = recovery_settings env s in
      let c = count_failure s id http in
      let counted = count_failure-Wrote s id http found in
      let out = take_out-Wrote env c id category http counted.written in
      let same = recovery_settings-same env s c counted.schema counted.settings in
      elim (Bool-cases (
        ltb_ℤ (pos (suc h.consecutive_failures)) r.quarantine_threshold
        || not (is_available h.state))) [
          | inl below ↦ (c, ground (arith, counted.written), rw below counted)
          | inr reached ↦ (
            take_out env c id category http,
            ground (arith, counted.written),
            rw reached (Wrote-trans counted (rw same at out)),
          )
        ]
