-- ===== src/Database/ColumnOrder.antt =====
-- The indexes of the `..._from_row` functions against the column lists that their SELECTs name.
use Prim.Native.String.{String}
use night_watcher.Base.{false, Option, none, some, List, [], ◌≡◌, refl, Bytes, codes, map}
use night_watcher.Base.Int.{pos}
use night_watcher.Text.{split, trim, atoi, drop_while, drop_end_while, is_space}
use night_watcher.Database.{Row, until_nul, atoll, text_at, read_at, read_or}
use night_watcher.Db.{SensorRow, WeatherStationRow, WeatherReadingRow, ReadingRow, ExportTargetRow}
use night_watcher.Database.Rows
use night_watcher.Database.RowTypes.{ConfigLogRow, ExportLog, EventRow, UserRow}

-- The columns that a list names.
unfoldable pub named_columns : String → List Bytes
unfolding split trim drop_while drop_end_while is_space
named_columns cols = map trim (split b',' (codes cols))

unfoldable pub text_of : Option Bytes → Bytes
unfolding until_nul
text_of none = []
text_of (some s) = until_nul s

unfoldable pub read_of : {A : Type 0} → (Bytes → A) → Option Bytes → Option A
unfolding until_nul
read_of read none = none
read_of read (some s) = some (read (until_nul s))

unfoldable pub value_of : {A : Type 0} → A → (Bytes → A) → Option Bytes → A
unfolding until_nul
value_of d read none = d
value_of d read (some s) = read (until_nul s)

-- A row of the columns of a list, for what each column holds.
abbrev pub row_of : (Bytes → Option Bytes) → String → Row
row_of holds cols = map holds (named_columns cols)

module _ {D : Type 0} (holds : Bytes → Option Bytes) (atof : Bytes → D) (zero : D) where
  unfoldable pub sensor_named : SensorRow D
  unfolding text_of read_of value_of
  sensor_named = record {
    id = text_of (holds (codes "id"));
    name = text_of (holds (codes "name"));
    site = text_of (holds (codes "site"));
    serial_number = text_of (holds (codes "serial_number"));
    model = text_of (holds (codes "model"));
    protocol_ver = read_of atoi (holds (codes "protocol_ver"));
    feature_ver = read_of atoi (holds (codes "feature_ver"));
    latitude = read_of atof (holds (codes "latitude"));
    longitude = read_of atof (holds (codes "longitude"));
    elevation_m = read_of atof (holds (codes "elevation_m"));
    timezone = text_of (holds (codes "timezone"));
    transport = text_of (holds (codes "transport"));
    address = text_of (holds (codes "address"));
    poll_interval_s = value_of (pos 300) atoi (holds (codes "poll_interval_s"));
    status = text_of (holds (codes "status"));
    installed_at = text_of (holds (codes "installed_at"));
    notes = text_of (holds (codes "notes"));
    created_at = text_of (holds (codes "created_at"));
  }

  unfoldable pub station_named : WeatherStationRow D
  unfolding text_of read_of value_of
  station_named = record {
    id = text_of (holds (codes "id"));
    name = text_of (holds (codes "name"));
    site = text_of (holds (codes "site"));
    model = text_of (holds (codes "model"));
    provider = text_of (holds (codes "provider"));
    config = text_of (holds (codes "config"));
    transport = text_of (holds (codes "transport"));
    address = text_of (holds (codes "address"));
    latitude = read_of atof (holds (codes "latitude"));
    longitude = read_of atof (holds (codes "longitude"));
    elevation_m = read_of atof (holds (codes "elevation_m"));
    timezone = text_of (holds (codes "timezone"));
    poll_interval_s = value_of (pos 300) atoi (holds (codes "poll_interval_s"));
    status = text_of (holds (codes "status"));
    installed_at = text_of (holds (codes "installed_at"));
    notes = text_of (holds (codes "notes"));
    created_at = text_of (holds (codes "created_at"));
  }

  unfoldable pub observation_named : WeatherReadingRow D
  unfolding text_of read_of value_of
  observation_named = record {
    id = value_of (pos 0) atoll (holds (codes "id"));
    station_id = text_of (holds (codes "station_id"));
    ts_utc = text_of (holds (codes "ts_utc"));
    temp_c = read_of atof (holds (codes "temp_c"));
    humidity_pct = read_of atof (holds (codes "humidity_pct"));
    dew_point_c = read_of atof (holds (codes "dew_point_c"));
    pressure_hpa = read_of atof (holds (codes "pressure_hpa"));
    pressure_abs_hpa = read_of atof (holds (codes "pressure_abs_hpa"));
    wind_speed_ms = read_of atof (holds (codes "wind_speed_ms"));
    wind_gust_ms = read_of atof (holds (codes "wind_gust_ms"));
    wind_dir_deg = read_of atoi (holds (codes "wind_dir_deg"));
    rain_rate_mmh = read_of atof (holds (codes "rain_rate_mmh"));
    rain_daily_mm = read_of atof (holds (codes "rain_daily_mm"));
    uv_index = read_of atof (holds (codes "uv_index"));
    solar_wm2 = read_of atof (holds (codes "solar_wm2"));
    cloud_cover_pct = read_of atof (holds (codes "cloud_cover_pct"));
    source = text_of (holds (codes "source"));
    raw = text_of (holds (codes "raw"));
  }

  unfoldable pub reading_named : ReadingRow D
  unfolding text_of read_of value_of
  reading_named = record {
    id = value_of (pos 0) atoll (holds (codes "id"));
    sensor_id = text_of (holds (codes "sensor_id"));
    ts_utc = text_of (holds (codes "ts_utc"));
    mag_arcsec2 = value_of zero atof (holds (codes "mag_arcsec2"));
    freq_hz = value_of (pos 0) atoll (holds (codes "freq_hz"));
    period_counts = value_of (pos 0) atoll (holds (codes "period_counts"));
    period_s = value_of zero atof (holds (codes "period_s"));
    temp_c = value_of zero atof (holds (codes "temp_c"));
    quality = text_of (holds (codes "quality"));
    source = text_of (holds (codes "source"));
    raw_line = text_of (holds (codes "raw_line"));
  }

  unfoldable pub config_change_named : ConfigLogRow D
  unfolding text_of read_of value_of
  config_change_named = record {
    id = value_of (pos 0) atoll (holds (codes "id"));
    ts_utc = text_of (holds (codes "ts_utc"));
    event_type = text_of (holds (codes "event_type"));
    light_cal_offset = read_of atof (holds (codes "light_cal_offset"));
    dark_cal_period_s = read_of atof (holds (codes "dark_cal_period_s"));
    temp_light_c = read_of atof (holds (codes "temp_light_c"));
    sensor_offset = read_of atof (holds (codes "sensor_offset"));
    temp_dark_c = read_of atof (holds (codes "temp_dark_c"));
    interval_s = read_of atoi (holds (codes "interval_s"));
    threshold = read_of atof (holds (codes "threshold"));
    raw = text_of (holds (codes "raw"));
    changed_by = text_of (holds (codes "changed_by"));
    note = text_of (holds (codes "note"));
  }

  unfoldable pub target_named : ExportTargetRow
  unfolding text_of read_of value_of
  target_named = record {
    id = text_of (holds (codes "id"));
    sensor_id = text_of (holds (codes "sensor_id"));
    name = text_of (holds (codes "name"));
    target = text_of (holds (codes "target"));
    config = text_of (holds (codes "config"));
    schedule = text_of (holds (codes "schedule"));
    schedule_time = text_of (holds (codes "schedule_time"));
    interval_s = read_of atoi (holds (codes "interval_s"));
    last_export_ts = text_of (holds (codes "last_export_ts"));
    status = text_of (holds (codes "status"));
    notes = text_of (holds (codes "notes"));
    created_at = text_of (holds (codes "created_at"));
    schedule_day = read_of atoi (holds (codes "schedule_day"));
  }

  unfoldable pub export_named : ExportLog
  unfolding text_of read_of value_of
  export_named = record {
    id = value_of (pos 0) atoll (holds (codes "id"));
    target_id = text_of (holds (codes "target_id"));
    ts_utc = text_of (holds (codes "ts_utc"));
    from_ts = text_of (holds (codes "from_ts"));
    to_ts = text_of (holds (codes "to_ts"));
    row_count = value_of (pos 0) atoll (holds (codes "row_count"));
    file_name = text_of (holds (codes "file_name"));
    remote_id = text_of (holds (codes "remote_id"));
    status = text_of (holds (codes "status"));
    detail = text_of (holds (codes "detail"));
  }

  unfoldable pub event_named : EventRow
  unfolding text_of read_of value_of
  event_named = record {
    id = value_of (pos 0) atoll (holds (codes "id"));
    ts_utc = text_of (holds (codes "ts_utc"));
    device_id = text_of (holds (codes "device_id"));
    source = text_of (holds (codes "source"));
    level = text_of (holds (codes "level"));
    event = text_of (holds (codes "event"));
    detail = text_of (holds (codes "detail"));
  }

  unfoldable pub user_named : UserRow
  unfolding text_of read_of value_of
  user_named = record {
    id = value_of (pos 0) atoll (holds (codes "id"));
    username = text_of (holds (codes "username"));
    password_hash = text_of (holds (codes "password_hash"));
    role = text_of (holds (codes "role"));
    must_change_password =
        value_of false (λ v. Rows.nonzero (atoi v)) (holds (codes "must_change_password"));
    created_at = text_of (holds (codes "created_at"));
  }

-- Each `..._from_row` reads the member of a row from the column of that name: the indexes in the code
-- are the places of the columns in the list that the SELECT statement names, for the nine lists.
pub from_row-columns :
    {D : Type 0} (holds : Bytes → Option Bytes) (atof : Bytes → D) (zero : D)
    → (Rows.sensor_from_row atof (row_of holds Rows.k_sensor_cols) ≡ sensor_named holds atof zero)
      × (Rows.weather_from_row atof (row_of holds Rows.k_weather_cols)
          ≡ station_named holds atof zero)
      × (Rows.wxreading_from_row atof (row_of holds Rows.k_wx_reading_cols)
          ≡ observation_named holds atof zero)
      × (Rows.reading_from_row atof zero (row_of holds Rows.k_reading_cols)
          ≡ reading_named holds atof zero)
      × (Rows.config_log_from_row atof (row_of holds Rows.k_config_log_cols)
          ≡ config_change_named holds atof zero)
      × (Rows.export_from_row (row_of holds Rows.k_export_cols) ≡ target_named holds atof zero)
      × (Rows.exportlog_from_row (row_of holds Rows.k_export_log_cols)
          ≡ export_named holds atof zero)
      × (Rows.event_from_row (row_of holds Rows.k_event_cols) ≡ event_named holds atof zero)
      × (Rows.user_from_row (row_of holds Rows.k_user_cols) ≡ user_named holds atof zero)
unfolding Rows.sensor_from_row Rows.weather_from_row Rows.wxreading_from_row Rows.reading_from_row
    Rows.config_log_from_row Rows.export_from_row Rows.exportlog_from_row Rows.event_from_row
    Rows.user_from_row sensor_named station_named observation_named reading_named
    config_change_named target_named export_named event_named user_named named_columns text_of
    read_of value_of text_at read_at read_or split trim drop_while drop_end_while is_space
from_row-columns holds atof zero = (refl, refl, refl, refl, refl, refl, refl, refl, refl)
