-- ===== src/Poll/Workers.antt =====
-- The SQM worker and the weather worker: how they start, and their constants.
pub mod Waits
use Prim.Native.Nat.{ℕ}
use night_watcher.Base.{
  ◌≡◌, ◌≤◌, refl, map, All, arith, ◌>>=◌, Bool, true, false, not, ◌&&◌, ◌||◌, Option, none, some,
  List, [], ◌∷◌, ◌++◌, if◌then◌else◌, is_empty, Bytes, codes, bytes_eq, Exception, what, Result, ok,
  err,
}
use night_watcher.Base.Int.{ℤ, pos, negsuc, ltb_ℤ, pos_part}
use night_watcher.Db.{SensorRow, WeatherStationRow, WeatherReadingRow, Event}
use night_watcher.Poll.{Policy, Stored, event, reading, Cycle, Outcome, initial, run}
use night_watcher.Poll.Backoff.{IsValid, run-waits-bounded}
use night_watcher.Poll.Events.{Alternates, EventsStored, changes, run-initial-Alternates}
use night_watcher.Sqm.Protocol.{Reading}

-- `poll_interval_s > 0 ? poll_interval_s : 300`.
unfoldable pub interval_of : ℤ → ℕ
interval_of poll_interval_s =
    if ltb_ℤ (pos 0) poll_interval_s then pos_part poll_interval_s else 300

-- A polled SQM reading is stored with its quality.
pub record Polled (D : Type 0) : Type 0 where
  pub sensor_id : Bytes
  pub row : Reading D
  pub quality : Bytes

-- What a weather worker leaves: the event of a bad configuration, or the outcomes of its cycles.
pub data WeatherRun (D : Type 0) : Type 0 where
  not_started : List Event → WeatherRun D
  started : List (Outcome (WeatherReadingRow D)) → WeatherRun D

module _ {D : Type 0} where
  unfoldable pub sqm_policy : SensorRow D → Policy
  sqm_policy s = record {
    source = codes "sqm";
    error_event = codes "read_error";
    connect_detail = s.address;
    device_id = s.id;
    first_backoff = 2;
    max_backoff = 60;
  }

module _ {D : Type 0} (not_positive : D → Bool) where
  unfoldable pub quality_of : Reading D → Bytes
  quality_of r = if not_positive r.mag_arcsec2 then codes "saturated" else codes "ok"

  -- The reading that a poll gives, as the row that is inserted.
  unfoldable pub sqm_cycle : SensorRow D → Cycle (Reading D) → Cycle (Polled D)
  unfolding quality_of
  sqm_cycle s c = record {
    poll = c.poll >>= λ r. ok (record { sensor_id = s.id; row = r; quality = quality_of r });
    warning_insert = c.warning_insert;
    reading_insert = c.reading_insert;
    connect_insert = c.connect_insert;
    stop_requested = c.stop_requested;
  }

  -- Scheduler::worker; `connecting` is the answer to opening the database.
  unfoldable pub sqm_worker :
      SensorRow D → Option Exception → List (Cycle (Reading D)) → List (Outcome (Polled D))
  unfolding sqm_cycle
  sqm_worker s (some e) cycles = []
  sqm_worker s none cycles =
      run (sqm_policy s) (interval_of s.poll_interval_s) (initial (sqm_policy s))
        (map (sqm_cycle s) cycles)

module _ {D : Type 0} where
  -- Scheduler::start: the sensors that get a worker.
  unfoldable pub sqm_start : List (SensorRow D) → List (SensorRow D)
  sqm_start [] = []
  sqm_start (s ∷ sensors) =
      let rest = sqm_start sensors in
      if not (bytes_eq s.transport (codes "tcp")) && not (bytes_eq s.transport (codes "serial"))
      then rest
      else s ∷ rest

  unfoldable pub weather_policy : WeatherStationRow D → Policy
  weather_policy s = record {
    source = codes "weather";
    error_event = codes "fetch_error";
    connect_detail = s.provider;
    device_id = s.id;
    first_backoff = 5;
    max_backoff = 300;
  }

  unfoldable pub weather_cycle :
      WeatherStationRow D → Cycle (WeatherReadingRow D) → Cycle (WeatherReadingRow D)
  weather_cycle s c = record {
    poll = c.poll >>= λ r. ok (record r { station_id = s.id });
    warning_insert = c.warning_insert;
    reading_insert = c.reading_insert;
    connect_insert = c.connect_insert;
    stop_requested = c.stop_requested;
  }

  config_error : WeatherStationRow D → Bytes → Event
  config_error s text = record {
    source = codes "weather";
    level = codes "error";
    event = codes "config_error";
    detail = text;
    device_id = s.id;
  }

  -- WeatherScheduler::worker; `provider` is what make_provider comes to, `event_insert` the answer
  -- to inserting the event about it.
  unfoldable pub weather_worker :
      WeatherStationRow D
      → Option Exception
      → Option Exception
      → Option Exception
      → List (Cycle (WeatherReadingRow D))
      → WeatherRun D
  unfolding config_error weather_cycle
  weather_worker s (some e) provider event_insert cycles = not_started []
  weather_worker s none (some e) none cycles = not_started (config_error s (what e) ∷ [])
  weather_worker s none (some e) (some f) cycles = not_started []
  weather_worker s none none event_insert cycles = started (
      run (weather_policy s) (interval_of s.poll_interval_s) (initial (weather_policy s))
        (map (weather_cycle s) cycles))

  -- WeatherScheduler::start.
  unfoldable pub weather_start : List (WeatherStationRow D) → List (WeatherStationRow D)
  weather_start [] = []
  weather_start (s ∷ stations) =
      let rest = weather_start stations in if is_empty s.provider then rest else s ∷ rest
