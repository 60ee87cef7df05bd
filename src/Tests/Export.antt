-- ===== src/Tests/Export.antt =====
-- An export run, and when exports are due, under a calendar of months of 31 days.
use night_watcher.Base.{
  ℕ, ◌≡◌, refl, arith, true, none, some, List, [], ◌∷◌, Bytes, codes, length, ok, bytes_eq, false,
  map,
}
use night_watcher.Base.Int.{ℤ, pos, ◌+ℤ◌, ◌*ℤ◌, ◌<ℤ◌, time_laws}
use night_watcher.Db.{SensorRow, ReadingRow, ExportTargetRow}
use night_watcher.Export.Runner.Fresh.{fresh_of-newest}
use night_watcher.Export.Runner.Watermark.{Marked, run_export-Marked}
use night_watcher.Export.Runner.{newer_than, fresh_of, newest_from, run_export}
use night_watcher.Export.Run.{ExportContext, Environment, Exporter, incremental, bytes_lt}
use night_watcher.Export.Schedule.Due.{wait_of-due, occurrence, IsItsDay}
use night_watcher.Export.Schedule.{wait_of}
use night_watcher.Export.Webhook.Sent.{Sends, webhook_run-Sends}
use night_watcher.Export.Webhook.{
  WebhookConfig, answered, point, split_url, cut_scheme, split_at_slash, webhook_run,
}
use night_watcher.Text.{cut}
use night_watcher.Export.TimeUtil.Offset.{FixedOffset, IsNow, IsClock}
use night_watcher.Export.TimeUtil.{Tm, zero_tm, Libc, local_tm, tz_mktime}

abbrev month_start_of : ℤ → ℤ → ℤ
month_start_of y m = 32140800 *ℤ y +ℤ 2678400 *ℤ m

abbrev count : Tm → ℤ
count tm =
    month_start_of tm.tm_year tm.tm_mon
    +ℤ 86400 *ℤ tm.tm_mday
    +ℤ 3600 *ℤ tm.tm_hour
    +ℤ 60 *ℤ tm.tm_min
    +ℤ tm.tm_sec

abbrev pub libc : Libc
libc = record {
  timegm = count;
  gmtime = λ t. zero_tm;
  mktime = λ tz tm. count tm;
  localtime = λ tz t. zero_tm;
}

offset : FixedOffset libc []
unfolding tz_mktime
offset = record {
  month_start = month_start_of;
  counts = λ tm. refl;
  month_min = λ y m. omega time_laws;
}

at_zero : IsNow libc [] (pos 0) (local_tm libc (pos 0) [])
unfolding local_tm tz_mktime ◌+ℤ◌ ◌*ℤ◌
at_zero = record {
  back = refl;
  sec_low = omega arith;
  sec_high = omega arith;
  min_low = omega arith;
  min_high = omega arith;
  hour_low = omega arith;
  hour_high = omega arith;
  wday_low = omega arith;
  wday_high = omega arith;
}

half_past_six : IsClock (pos 6) (pos 30)
half_past_six = record {
  hour_low = omega arith;
  hour_high = omega arith;
  minute_low = omega arith;
  minute_high = omega arith;
}

abbrev target_sample : ExportTargetRow
target_sample = record {
  id = codes "dsn-upload";
  sensor_id = codes "DSN003";
  name = [];
  target = codes "webhook";
  config = [];
  schedule = codes "nightly";
  schedule_time = codes "06:30";
  interval_s = none;
  schedule_day = none;
  last_export_ts = codes "2026-07-18 00:00:00";
  status = codes "active";
  notes = [];
  created_at = [];
}

wait_of-due_example :
    (days : ℤ) × (pos 0 +ℤ wait_of libc target_sample [] (pos 0)
      ≡ occurrence libc [] offset (pos 0) at_zero target_sample days)
    × (pos 0 <ℤ occurrence libc [] offset (pos 0) at_zero target_sample days)
    × IsItsDay libc [] offset
        (pos 0)
        at_zero
        target_sample
        days
        (occurrence libc [] offset (pos 0) at_zero target_sample days)
unfolding bytes_eq
wait_of-due_example = wait_of-due libc [] offset (pos 0) at_zero target_sample refl refl

abbrev pub sensor_sample : SensorRow ℕ
sensor_sample = record {
  id = codes "DSN003";
  name = codes "Roof";
  site = [];
  serial_number = [];
  model = [];
  protocol_ver = none;
  feature_ver = none;
  latitude = none;
  longitude = none;
  elevation_m = none;
  timezone = codes "UTC";
  transport = codes "tcp";
  address = codes "10.0.0.5:10001";
  poll_interval_s = pos 300;
  status = codes "active";
  installed_at = [];
  notes = [];
  created_at = [];
}

abbrev reading_at : Bytes → ReadingRow ℕ
reading_at ts = record {
  id = pos 1;
  sensor_id = codes "DSN003";
  ts_utc = ts;
  mag_arcsec2 = 19;
  freq_hz = pos 2;
  period_counts = pos 277871;
  period_s = 1;
  temp_c = 39;
  quality = codes "ok";
  source = codes "sqm";
  raw_line = [];
}

abbrev rows_sample : List (ReadingRow ℕ)
rows_sample =
    reading_at (codes "2026-07-18 00:05:00") ∷ reading_at (codes "2026-07-18 00:00:00") ∷ []

abbrev exporter_sample : Exporter ℕ
exporter_sample = record {
  windowing = incremental;
  export_run =
      λ ctx. ok (record { file_name = []; remote_id = []; row_count = length ctx.readings });
}

abbrev environment : Environment ℕ
environment = record {
  libc = libc;
  now = pos 600;
  find_sensor = λ id. ok (some sensor_sample);
  readings_between = λ id from to cap. ok rows_sample;
  weather_stations = ok [];
  active_weather_stations = ok [];
  weather_readings_between = λ id from to cap. ok [];
  insert_export_log = λ row. none;
  set_export_watermark = λ id ts. none;
  config_timezone = λ config. none;
  make_exporter = λ target config. ok exporter_sample;
}

run_export-Marked_example :
    Marked environment target_sample [] (run_export environment target_sample [])
run_export-Marked_example = run_export-Marked environment target_sample []

abbrev watermark_sample : Bytes
watermark_sample = codes "2026-07-18 00:00:00"

fresh_of-newest_example :
    (bytes_lt watermark_sample (newest_from [] (fresh_of watermark_sample rows_sample)) ≡ true)
    × (fresh_of (newest_from [] (fresh_of watermark_sample rows_sample)) rows_sample ≡ [])
unfolding fresh_of newer_than bytes_lt
fresh_of-newest_example = fresh_of-newest watermark_sample rows_sample (λ h. cc) (λ h. cc)

abbrev webhook_sample : WebhookConfig
webhook_sample = record {
  url = codes "https://example.org:8443/ingest?v=1";
  token = codes "t";
  site_id = none;
  insecure = false;
  batch = pos 1;
}

abbrev pub context_sample : ExportContext ℕ
context_sample = record {
  sensor = sensor_sample;
  readings = rows_sample;
  weather = [];
  from_ts = [];
  to_ts = [];
}

split_url-sample :
    split_url (codes "https://example.org:8443/ingest?v=1")
    ≡ (codes "https://example.org:8443", codes "/ingest?v=1")
unfolding split_url cut_scheme split_at_slash cut
split_url-sample = refl

webhook_run-Sends_example :
    Sends
      (map point rows_sample)
      2
      (webhook_run webhook_sample context_sample (answered 200 [] ∷ answered 500 [] ∷ []))
webhook_run-Sends_example =
    webhook_run-Sends webhook_sample context_sample (answered 200 [] ∷ answered 500 [] ∷ [])
