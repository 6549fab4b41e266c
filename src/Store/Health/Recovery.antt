-- ===== src/Store/Health/Recovery.antt =====
-- src/store.rs, `record_probe_result`: the recovery schedule of a route that stays out.
use local_api_relay.Common.{
  ℕ, suc, ◌+◌, ◌*◌, ◌^◌, min, true, false, Option, some, List, [], ◌∷◌, arith, ◌≡◌, refl, ◌∙◌,
  subst, length, All,
}
use local_api_relay.Common.Int.{pos, pos_part, add_i64}
use local_api_relay.Common.Text.{Text}
use local_api_relay.Store.{unavailable, HealthRow, Store, Result, ok, ◌>>=◌, Env}
use local_api_relay.Store.Settings.{exponent, interval_for, recovery_settings}
use local_api_relay.Store.Settings.Backoff.{IsValid, interval_for-eq}
use local_api_relay.Store.Health.{
  health_v14, health_of, failed_row, next_failed_count, record_probe_result,
}
use local_api_relay.Store.Health.Stale.{IsKeyed, fresh_failure}

-- Failed probes of one route, each under the same epoch, at the times of `envs`.
unfoldable pub fail_probes : List Env → Store → Text → ℕ → Option ℕ → Result Store
fail_probes [] s id epoch http = ok s
fail_probes (env ∷ envs) s id epoch http = do
  s' ← record_probe_result env s id epoch false http
  fail_probes envs s' id epoch http

abbrev pub IsWritable : Env → Type 0
IsWritable env = env.fail_operational_write ≡ false

-- A route that is out, after `k` failed recovery probes; `env` is the call that set its schedule.
record Out (id : Text) (epoch k : ℕ) (s : Store) : Type 0 where
  row : HealthRow
  found : health_of id s ≡ some row
  state : row.state ≡ unavailable
  failures : row.failed_probe_count ≡ k
  same_epoch : row.quarantine_epoch ≡ epoch
  keyed : IsKeyed id s
  current : health_v14 s ≡ true

module _ (id : Text) (epoch : ℕ) (http : Option ℕ) where
  fail_once :
      (env : Env) (s : Store) (k : ℕ)
      → IsWritable env
      → Out id epoch k s
      → (s' : Store) × (record_probe_result env s id epoch false http ≡ ok s')
        × ((out : Out id epoch (suc k) s') × (out.row.next_probe_at_ms
              ≡ some
                  (add_i64 env.recovery_now_ms (interval_for (recovery_settings env s) (suc k)))))
        × (s'.schema ≡ s.schema)
        × (s'.settings ≡ s.settings)
  unfolding failed_row
  fail_once env s k w o =
      let (s', done, found, schema, settings, rows) =
        fresh_failure env s id epoch http o.current w o.keyed o.found o.same_epoch in
      let counted : next_failed_count o.row.state o.row.failed_probe_count ≡ suc k =
        rw (o.state, o.failures) in
      let found' = rw counted at found in
      (
        s',
        done,
        (
          record {
            row = _;
            found = found';
            state = refl;
            failures = refl;
            same_epoch = o.same_epoch;
            keyed = rw rows o.keyed;
            current = rw schema o.current;
          },
          refl,
        ),
        schema,
        settings,
      )

  fail_probes-Out :
      (envs : List Env) (s : Store) (k : ℕ)
      → All IsWritable envs
      → Out id epoch k s
      → (s' : Store) × (fail_probes envs s id epoch http ≡ ok s')
        × Out id epoch (k + length envs) s'
        × (s'.schema ≡ s.schema)
        × (s'.settings ≡ s.settings)
  unfolding fail_probes
  fail_probes-Out [] s k w o = (s, refl, subst (λ x. Out id epoch x s) (omega arith) o, refl, refl)
  fail_probes-Out (env ∷ envs) s k (w, ws) o =
      let (s₁, done, (o₁, _), sc, st) = fail_once env s k w o in
      let (s₂, rest, o₂, sc', st') = fail_probes-Out envs s₁ (suc k) ws o₁ in
      (
        s₂,
        rw (done, fail_probes) rest,
        subst (λ x. Out id epoch x s₂) (omega arith) o₂,
        sc' ∙ sc,
        st' ∙ st,
      )

interval_for-env :
    (env : Env) (s s' : Store) (k : ℕ)
    → IsValid s.settings
    → s'.settings ≡ s.settings
    → interval_for (recovery_settings env s') k
      ≡ pos (pos_part s.settings.base_interval_ms * 2 ^ min k (pos_part s.settings.doubling_limit))
unfolding recovery_settings interval_for exponent
interval_for-env env s s' k v e = rw e (interval_for-eq s.settings k v)

-- The back-off of a route that stays out. Start from an unavailable route with a unique key, any
-- count of failed recovery probes, valid settings, schema 14 or later and working writes. After any
-- number of further failed probes under its epoch, the next failed probe succeeds as a write, and
-- leaves the route out with one failure more than the probes so far, its next probe due base * 2 ^
-- min(failures, limit) ms after that probe, in `i64` arithmetic.
pub fail_probes_backoff :
    (envs : List Env) (last : Env) (s : Store) (id : Text) (http : Option ℕ) (h : HealthRow)
    → All IsWritable envs
    → IsWritable last
    → IsValid s.settings
    → health_v14 s ≡ true
    → IsKeyed id s
    → health_of id s ≡ some h
    → h.state ≡ unavailable
    → let n = suc (h.failed_probe_count + length envs) in
      (t : Store) × (s' : Store) × (row : HealthRow) × (fail_probes envs s id h.quarantine_epoch
          http
        ≡ ok t)
      × (record_probe_result last t id h.quarantine_epoch false http ≡ ok s')
      × (health_of id s' ≡ some row)
      × (row.state ≡ unavailable)
      × (row.failed_probe_count ≡ n)
      × (row.next_probe_at_ms
          ≡ some (
              add_i64 last.recovery_now_ms (
                pos (
                  pos_part s.settings.base_interval_ms
                  * 2 ^ min n (pos_part s.settings.doubling_limit)))))
fail_probes_backoff envs last s id http h ws w valid v keyed f st =
    let start : Out id h.quarantine_epoch h.failed_probe_count s = record {
      row = h;
      found = f;
      state = st;
      failures = refl;
      same_epoch = refl;
      keyed = keyed;
      current = v;
    } in
    let (t, done, o, _, same) = fail_probes-Out id h.quarantine_epoch http envs s _ ws start in
    let (s', done', (o', due), _, _) = fail_once id h.quarantine_epoch http last t _ w o in
    (
      t,
      s',
      o'.row,
      done,
      done',
      o'.found,
      o'.state,
      o'.failures,
      rw due (rw (interval_for-env last s t _ valid same)),
    )
