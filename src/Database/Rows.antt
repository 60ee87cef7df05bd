-- ===== src/Database/Rows.antt =====
-- src/db/database.cpp: the `..._from_row` functions, with the column lists that the SELECT
-- statements name. `atof` is the library's; `zero` is the literal 0.0.
use Prim.Native.String.{String}
use night_watcher.Base.{ℕ, Bool, true, false, Bytes}
use night_watcher.Base.Int.{ℤ, pos}
use night_watcher.Db.{SensorRow, WeatherStationRow, WeatherReadingRow, ReadingRow, ExportTargetRow}
use night_watcher.Text.{atoi}
use night_watcher.Database.{Row, text_at, read_at, read_or, atoll}
use night_watcher.Database.RowTypes.{
  EventRow, ConfigLogRow, ExportLog, UserRow, SessionInfo, ExtensionRow,
}

abbrev pub k_sensor_cols : String
k_sensor_cols =
    "id, name, site, serial_number, model, protocol_ver, feature_ver, latitude, longitude, elevation_m, timezone, transport, address, poll_interval_s, status, installed_at, notes, created_at"

abbrev pub k_weather_cols : String
k_weather_cols =
    "id, name, site, model, provider, config, transport, address, latitude, longitude, elevation_m, timezone, poll_interval_s, status, installed_at, notes, created_at"

abbrev pub k_wx_reading_cols : String
k_wx_reading_cols =
    "id, station_id, ts_utc, temp_c, humidity_pct, dew_point_c, pressure_hpa, pressure_abs_hpa, wind_speed_ms, wind_gust_ms, wind_dir_deg, rain_rate_mmh, rain_daily_mm, uv_index, solar_wm2, cloud_cover_pct, source, raw"

abbrev pub k_export_cols : String
k_export_cols =
    "id, sensor_id, name, target, config, schedule, schedule_time, interval_s, last_export_ts, status, notes, created_at, schedule_day"

abbrev pub k_event_cols : String
k_event_cols = "id, ts_utc, device_id, source, level, event, detail"

abbrev pub k_reading_cols : String
k_reading_cols =
    "id, sensor_id, ts_utc, mag_arcsec2, freq_hz, period_counts, period_s, temp_c, quality, source, raw_line"

abbrev pub k_config_log_cols : String
k_config_log_cols =
    "id, ts_utc, event_type, light_cal_offset, dark_cal_period_s, temp_light_c, sensor_offset, temp_dark_c, interval_s, threshold, raw, changed_by, note"

abbrev pub k_export_log_cols : String
k_export_log_cols =
    "id, target_id, ts_utc, from_ts, to_ts, row_count, file_name, remote_id, status, detail"

abbrev pub k_user_cols : String
k_user_cols = "id, username, password_hash, role, must_change_password, created_at"

abbrev pub k_ext_cols : String
k_ext_cols =
    "name, label, version, data_table, host, pid, status, last_heartbeat, started_at, TIMESTAMPDIFF(SECOND, last_heartbeat, UTC_TIMESTAMP())"

module _ {D : Type 0} (atof : Bytes → D) where
  unfoldable pub sensor_from_row : Row → SensorRow D
  unfolding text_at read_at read_or
  sensor_from_row row = record {
    id = text_at row 0;
    name = text_at row 1;
    site = text_at row 2;
    serial_number = text_at row 3;
    model = text_at row 4;
    protocol_ver = read_at atoi row 5;
    feature_ver = read_at atoi row 6;
    latitude = read_at atof row 7;
    longitude = read_at atof row 8;
    elevation_m = read_at atof row 9;
    timezone = text_at row 10;
    transport = text_at row 11;
    address = text_at row 12;
    poll_interval_s = read_or (pos 300) atoi row 13;
    status = text_at row 14;
    installed_at = text_at row 15;
    notes = text_at row 16;
    created_at = text_at row 17;
  }

  unfoldable pub weather_from_row : Row → WeatherStationRow D
  unfolding text_at read_at read_or
  weather_from_row row = record {
    id = text_at row 0;
    name = text_at row 1;
    site = text_at row 2;
    model = text_at row 3;
    provider = text_at row 4;
    config = text_at row 5;
    transport = text_at row 6;
    address = text_at row 7;
    latitude = read_at atof row 8;
    longitude = read_at atof row 9;
    elevation_m = read_at atof row 10;
    timezone = text_at row 11;
    poll_interval_s = read_or (pos 300) atoi row 12;
    status = text_at row 13;
    installed_at = text_at row 14;
    notes = text_at row 15;
    created_at = text_at row 16;
  }

  unfoldable pub wxreading_from_row : Row → WeatherReadingRow D
  unfolding text_at read_at read_or
  wxreading_from_row row = record {
    id = read_or (pos 0) atoll row 0;
    station_id = text_at row 1;
    ts_utc = text_at row 2;
    temp_c = read_at atof row 3;
    humidity_pct = read_at atof row 4;
    dew_point_c = read_at atof row 5;
    pressure_hpa = read_at atof row 6;
    pressure_abs_hpa = read_at atof row 7;
    wind_speed_ms = read_at atof row 8;
    wind_gust_ms = read_at atof row 9;
    wind_dir_deg = read_at atoi row 10;
    rain_rate_mmh = read_at atof row 11;
    rain_daily_mm = read_at atof row 12;
    uv_index = read_at atof row 13;
    solar_wm2 = read_at atof row 14;
    cloud_cover_pct = read_at atof row 15;
    source = text_at row 16;
    raw = text_at row 17;
  }

  unfoldable pub reading_from_row : D → Row → ReadingRow D
  unfolding text_at read_or
  reading_from_row zero row = record {
    id = read_or (pos 0) atoll row 0;
    sensor_id = text_at row 1;
    ts_utc = text_at row 2;
    mag_arcsec2 = read_or zero atof row 3;
    freq_hz = read_or (pos 0) atoll row 4;
    period_counts = read_or (pos 0) atoll row 5;
    period_s = read_or zero atof row 6;
    temp_c = read_or zero atof row 7;
    quality = text_at row 8;
    source = text_at row 9;
    raw_line = text_at row 10;
  }

  unfoldable pub config_log_from_row : Row → ConfigLogRow D
  unfolding text_at read_at read_or
  config_log_from_row row = record {
    id = read_or (pos 0) atoll row 0;
    ts_utc = text_at row 1;
    event_type = text_at row 2;
    light_cal_offset = read_at atof row 3;
    dark_cal_period_s = read_at atof row 4;
    temp_light_c = read_at atof row 5;
    sensor_offset = read_at atof row 6;
    temp_dark_c = read_at atof row 7;
    interval_s = read_at atoi row 8;
    threshold = read_at atof row 9;
    raw = text_at row 10;
    changed_by = text_at row 11;
    note = text_at row 12;
  }

unfoldable pub export_from_row : Row → ExportTargetRow
unfolding text_at read_at
export_from_row row = record {
  id = text_at row 0;
  sensor_id = text_at row 1;
  name = text_at row 2;
  target = text_at row 3;
  config = text_at row 4;
  schedule = text_at row 5;
  schedule_time = text_at row 6;
  interval_s = read_at atoi row 7;
  last_export_ts = text_at row 8;
  status = text_at row 9;
  notes = text_at row 10;
  created_at = text_at row 11;
  schedule_day = read_at atoi row 12;
}

unfoldable pub exportlog_from_row : Row → ExportLog
unfolding text_at read_or
exportlog_from_row row = record {
  id = read_or (pos 0) atoll row 0;
  target_id = text_at row 1;
  ts_utc = text_at row 2;
  from_ts = text_at row 3;
  to_ts = text_at row 4;
  row_count = read_or (pos 0) atoll row 5;
  file_name = text_at row 6;
  remote_id = text_at row 7;
  status = text_at row 8;
  detail = text_at row 9;
}

unfoldable pub event_from_row : Row → EventRow
unfolding text_at read_or
event_from_row row = record {
  id = read_or (pos 0) atoll row 0;
  ts_utc = text_at row 1;
  device_id = text_at row 2;
  source = text_at row 3;
  level = text_at row 4;
  event = text_at row 5;
  detail = text_at row 6;
}

-- `std::atoi(v) != 0`.
unfoldable pub nonzero : ℤ → Bool
nonzero (pos ℕ.zero) = false
nonzero _ = true

unfoldable pub user_from_row : Row → UserRow
unfolding text_at read_or nonzero
user_from_row row = record {
  id = read_or (pos 0) atoll row 0;
  username = text_at row 1;
  password_hash = text_at row 2;
  role = text_at row 3;
  must_change_password = read_or false (λ v. nonzero (atoi v)) row 4;
  created_at = text_at row 5;
}

unfoldable pub session_from_row : Row → SessionInfo
unfolding text_at read_or
session_from_row row = record {
  user_id = read_or (pos 0) atoll row 0;
  username = text_at row 1;
  role = text_at row 2;
}

unfoldable pub extension_from_row : Row → ExtensionRow
unfolding text_at read_at read_or
extension_from_row row = record {
  name = text_at row 0;
  label = text_at row 1;
  version = text_at row 2;
  data_table = text_at row 3;
  host = text_at row 4;
  pid = read_at atoi row 5;
  status = text_at row 6;
  last_heartbeat = text_at row 7;
  started_at = text_at row 8;
  heartbeat_age_s = read_or (pos 0) atoll row 9;
}
