-- ===== src/Tests/Poll.antt =====
-- The workers, on a device that is up, fails twice and recovers.
use night_watcher.Base.{
  ℕ, ◌≡◌, refl, arith, false, none, List, [], ◌∷◌, codes, map, All, ok, err, runtime_error,
}
use night_watcher.Base.Int.{pos}
use night_watcher.Db.{SensorRow}
use night_watcher.Poll.{Policy, Cycle, initial, run}
use night_watcher.Poll.Backoff.{doubling, run-waits-doubling}
use night_watcher.Poll.Events.{
  Alternates, EventsStored, changes, readings_stored, polled_until_stop, readings-run,
}
use night_watcher.Poll.Workers.{interval_of, sqm_worker}
use night_watcher.Poll.Workers.Waits.{WaitsWithin, sqm_worker-WaitsWithin, sqm_worker-Alternates}
use night_watcher.Sqm.Protocol.{Reading}

abbrev policy_sample : Policy
policy_sample = record {
  source = codes "sqm";
  error_event = codes "read_error";
  connect_detail = codes "10.0.0.5:10001";
  device_id = codes "DSN003";
  first_backoff = 2;
  max_backoff = 60;
}

abbrev good : {A : Type 0} → A → Cycle A
good a = record {
  poll = ok a;
  warning_insert = none;
  reading_insert = none;
  connect_insert = none;
  stop_requested = false;
}

abbrev bad : {A : Type 0} → Cycle A
bad = record {
  poll = err (runtime_error (codes "read timeout"));
  warning_insert = none;
  reading_insert = none;
  connect_insert = none;
  stop_requested = false;
}

abbrev cycles_sample : {A : Type 0} → A → List (Cycle A)
cycles_sample a = good a ∷ bad ∷ bad ∷ good a ∷ []

abbrev counted : List (Cycle ℕ)
counted = cycles_sample 7

abbrev failures : List (Cycle ℕ)
failures = bad ∷ bad ∷ bad ∷ []

stored_events : {A : Type 0} (a : A) → All EventsStored (cycles_sample a)
stored_events a = ((refl, refl), ((refl, refl), ((refl, refl), ((refl, refl), tt))))

abbrev sensor_sample : SensorRow ℕ
sensor_sample = record {
  id = codes "DSN003";
  name = codes "Roof";
  site = [];
  serial_number = [];
  model = [];
  protocol_ver = none;
  feature_ver = none;
  latitude = none;
  longitude = none;
  elevation_m = none;
  timezone = codes "UTC";
  transport = codes "tcp";
  address = codes "10.0.0.5:10001";
  poll_interval_s = pos 300;
  status = codes "active";
  installed_at = [];
  notes = [];
  created_at = [];
}

abbrev reading_sample : Reading ℕ
reading_sample = record {
  mag_arcsec2 = 19;
  freq_hz = pos 2;
  period_counts = pos 277871;
  period_s = 1;
  temp_c = 39;
  serial = [];
  raw = [];
}

run-waits-doubling_example :
    map (λ o. o.wait_s) (run policy_sample 300 (initial policy_sample) failures)
    ≡ doubling policy_sample 300 0 3
run-waits-doubling_example =
    run-waits-doubling policy_sample 300 failures (omega arith)
      (((_, refl), refl), (((_, refl), refl), (((_, refl), refl), tt)))

readings-run_example :
    readings_stored (run policy_sample 300 (initial policy_sample) counted)
    ≡ polled_until_stop counted
readings-run_example = readings-run policy_sample 300 (initial policy_sample) counted

sqm_worker-WaitsWithin_example :
    WaitsWithin
      (interval_of (pos 300))
      (sqm_worker (λ d. false) sensor_sample none (cycles_sample reading_sample))
sqm_worker-WaitsWithin_example =
    sqm_worker-WaitsWithin (λ d. false) sensor_sample none (cycles_sample reading_sample)

sqm_worker-Alternates_example :
    Alternates none
      (changes (sqm_worker (λ d. false) sensor_sample none (cycles_sample reading_sample)))
sqm_worker-Alternates_example =
    sqm_worker-Alternates (λ d. false) sensor_sample (cycles_sample reading_sample)
      (stored_events reading_sample)
