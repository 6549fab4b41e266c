-- ===== src/Store/Health/Threshold.antt =====
-- src/store.rs, `quarantine_route`: how many failures in a row take a route out.
use local_api_relay.Common.{
  ℕ, suc, zero, ◌==◌, if◌then◌else◌, ◌+◌, ◌<◌, String, true, false, Option, some, arith, ◌≡◌, refl,
}
use local_api_relay.Common.Int.{pos, add_i64}
use local_api_relay.Common.Text.{Text}
use local_api_relay.Store.{
  available, unavailable, RecoverySettings, HealthRow, Store, Result, ok, ◌>>=◌, Env,
}
use local_api_relay.Store.Settings.{interval_for, recovery_settings}
use local_api_relay.Store.Health.{health_v14, health_of, quarantined_row, quarantine_route}
use local_api_relay.Store.Health.Quarantine.{
  Wrote, Wrote-trans, Wrote-refl, counted_row, failure_row, quarantine_route-Wrote,
  recovery_settings-same,
}

-- `n` failures of the same route in a row, with nothing between them.
unfoldable pub fail_times : ℕ → Env → Store → Text → String → Option ℕ → Result Store
fail_times zero env s id category http = ok s
fail_times (suc n) env s id category http = do
  s' ← quarantine_route env s id category http
  fail_times n env s' id category http

-- A route that is still served, `n` failures with the same HTTP status after `h`.
pub record Counted (n : ℕ) (http : Option ℕ) (h row : HealthRow) : Type 0 where
  pub state : row.state ≡ available
  pub failures : row.consecutive_failures ≡ h.consecutive_failures + n
  pub epoch : row.quarantine_epoch ≡ h.quarantine_epoch
  pub schedule : row.next_probe_at_ms ≡ h.next_probe_at_ms
  pub status : row.last_http_status ≡ (if n == 0 then h.last_http_status else http)
  pub kept : row ≡ record h {
    consecutive_failures = row.consecutive_failures;
    last_http_status = row.last_http_status;
  }

-- A route that has just been taken out.
pub record TakenOut (env : Env) (r : RecoverySettings) (h row : HealthRow) : Type 0 where
  pub state : row.state ≡ unavailable
  pub failures : row.consecutive_failures ≡ 0
  pub probes : row.failed_probe_count ≡ 0
  pub epoch : row.quarantine_epoch ≡ suc h.quarantine_epoch
  pub schedule : row.next_probe_at_ms ≡ some (add_i64 env.recovery_now_ms (interval_for r 0))

Counted-zero : (http : Option ℕ) (h : HealthRow) → h.state ≡ available → Counted zero http h h
Counted-zero http h st = record {
  state = st;
  failures = omega arith;
  epoch = refl;
  schedule = refl;
  status = refl;
  kept = refl;
}

Counted-suc :
    (n : ℕ) (http : Option ℕ) (h row : HealthRow)
    → Counted n http (counted_row http h) row
    → Counted (suc n) http h row
unfolding counted_row
Counted-suc n http h row c = record {
  state = c.state;
  failures = omega (arith, c.failures);
  epoch = c.epoch;
  schedule = c.schedule;
  status = ground (arith, c.status);
  kept = c.kept;
}

module _ (env : Env) (id : Text) (category : String) (http : Option ℕ) (t : ℕ)
    (writable : env.fail_operational_write ≡ false) where
  failure_row_below :
      (r : RecoverySettings) (h : HealthRow)
      → h.state ≡ available
      → r.quarantine_threshold ≡ pos t
      → suc h.consecutive_failures < t
      → failure_row env r category http h ≡ counted_row http h
  unfolding failure_row
  failure_row_below r h st e lt = rw (st, e) (ground arith)

  failure_row_reached :
      (r : RecoverySettings) (h : HealthRow)
      → h.state ≡ available
      → r.quarantine_threshold ≡ pos t
      → suc h.consecutive_failures ≡ t
      → TakenOut env r h (failure_row env r category http h)
  unfolding failure_row quarantined_row counted_row
  failure_row_reached r h st e lt = ground arith

  -- With schema 14 or later and working writes, failures in a row that leave the counter of an
  -- available route below the threshold keep it available. Of its row only the counter, which goes
  -- up by one each time, and the last HTTP status, which becomes that of the failures, change; no
  -- other route's health does.
  pub fail_times-Counted :
      (n : ℕ) (s : Store) (h : HealthRow)
      → health_v14 s ≡ true
      → health_of id s ≡ some h
      → h.state ≡ available
      → (recovery_settings env s).quarantine_threshold ≡ pos t
      → h.consecutive_failures + n < t
      → (s' : Store) × (row : HealthRow) × (fail_times n env s id category http ≡ ok s')
        × Wrote id row s s'
        × Counted n http h row
  unfolding fail_times counted_row
  fail_times-Counted zero s h v f st e lt = (s, h, refl, Wrote-refl f, Counted-zero http h st)
  fail_times-Counted (suc n) s h v f st e lt =
      let (s₁, done, w) = quarantine_route-Wrote env s id category http v writable f in
      let w₁ = rw (failure_row_below (recovery_settings env s) h st e (omega arith)) at w in
      let (s₂, row, rest, w₂, c) =
        fail_times-Counted n s₁ (counted_row http h) (rw w.schema v) w₁.written st
          (rw (recovery_settings-same env s s₁ w.schema w.settings) e) (omega arith) in
      (s₂, row, rw (done, fail_times) rest, Wrote-trans w₁ w₂, Counted-suc n http h row c)

  TakenOut-counted :
      (r : RecoverySettings) (h row : HealthRow)
      → TakenOut env r (counted_row http h) row
      → TakenOut env r h row
  unfolding counted_row
  TakenOut-counted r h row o = record {
    state = o.state;
    failures = o.failures;
    probes = o.probes;
    epoch = o.epoch;
    schedule = o.schedule;
  }

  -- With schema 14 or later and working writes, an available route whose counter is below the
  -- threshold is taken out by exactly the failure that brings the counter to it: the route is then
  -- unavailable under the next quarantine epoch, its counters are 0 and its first recovery probe is
  -- due one base interval from now. Nothing else of the health table changes.
  pub fail_times-TakenOut :
      (n : ℕ) (s : Store) (h : HealthRow)
      → health_v14 s ≡ true
      → health_of id s ≡ some h
      → h.state ≡ available
      → (recovery_settings env s).quarantine_threshold ≡ pos t
      → h.consecutive_failures + suc n ≡ t
      → (s' : Store) × (row : HealthRow) × (fail_times (suc n) env s id category http ≡ ok s')
        × Wrote id row s s'
        × TakenOut env (recovery_settings env s) h row
  unfolding fail_times
  fail_times-TakenOut zero s h v f st e lt =
      let (s₁, done, w) = quarantine_route-Wrote env s id category http v writable f in
      (
        s₁,
        _,
        rw (done, fail_times),
        w,
        failure_row_reached (recovery_settings env s) h st e (omega arith),
      )
  fail_times-TakenOut (suc n) s h v f st e lt =
      let (s₁, done, w) = quarantine_route-Wrote env s id category http v writable f in
      let w₁ = rw (failure_row_below (recovery_settings env s) h st e (omega arith)) at w in
      let same = recovery_settings-same env s s₁ w.schema w.settings in
      let (s₂, row, rest, w₂, o) =
        fail_times-TakenOut n s₁ (counted_row http h) (rw w.schema v) w₁.written
          (unfold counted_row in st) (rw same e) (unfold counted_row in omega arith) in
      (
        s₂,
        row,
        rw (done, fail_times) rest,
        Wrote-trans w₁ w₂,
        TakenOut-counted (recovery_settings env s) h row (rw same at o),
      )
