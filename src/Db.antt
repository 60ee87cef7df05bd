-- ===== src/Db.antt =====
-- src/db/database.hpp: the rows that the daemon reads and writes. A text column is its bytes, an
-- `int` or `long long` column an integer, a `double` column a value of the parameter `D`.
use night_watcher.Base.{ℕ, Option, Bytes}
use night_watcher.Base.Int.{ℤ}

pub record SensorRow (D : Type 0) : Type 0 where
  pub id : Bytes
  pub name : Bytes
  pub site : Bytes
  pub serial_number : Bytes
  pub model : Bytes
  pub protocol_ver : Option ℤ
  pub feature_ver : Option ℤ
  pub latitude : Option D
  pub longitude : Option D
  pub elevation_m : Option D
  pub timezone : Bytes
  pub transport : Bytes
  pub address : Bytes
  pub poll_interval_s : ℤ
  pub status : Bytes
  pub installed_at : Bytes
  pub notes : Bytes
  pub created_at : Bytes

pub record WeatherStationRow (D : Type 0) : Type 0 where
  pub id : Bytes
  pub name : Bytes
  pub site : Bytes
  pub model : Bytes
  pub provider : Bytes
  pub config : Bytes
  pub transport : Bytes
  pub address : Bytes
  pub latitude : Option D
  pub longitude : Option D
  pub elevation_m : Option D
  pub timezone : Bytes
  pub poll_interval_s : ℤ
  pub status : Bytes
  pub installed_at : Bytes
  pub notes : Bytes
  pub created_at : Bytes

pub record WeatherReadingRow (D : Type 0) : Type 0 where
  pub id : ℤ
  pub station_id : Bytes
  pub ts_utc : Bytes
  pub temp_c : Option D
  pub humidity_pct : Option D
  pub dew_point_c : Option D
  pub pressure_hpa : Option D
  pub pressure_abs_hpa : Option D
  pub wind_speed_ms : Option D
  pub wind_gust_ms : Option D
  pub wind_dir_deg : Option ℤ
  pub rain_rate_mmh : Option D
  pub rain_daily_mm : Option D
  pub uv_index : Option D
  pub solar_wm2 : Option D
  pub cloud_cover_pct : Option D
  pub source : Bytes
  pub raw : Bytes

pub record ExportTargetRow : Type 0 where
  pub id : Bytes
  pub sensor_id : Bytes
  pub name : Bytes
  pub target : Bytes
  pub config : Bytes
  pub schedule : Bytes
  pub schedule_time : Bytes
  pub interval_s : Option ℤ
  pub schedule_day : Option ℤ
  pub last_export_ts : Bytes
  pub status : Bytes
  pub notes : Bytes
  pub created_at : Bytes

pub record ExportLogRow : Type 0 where
  pub id : ℤ
  pub target_id : Bytes
  pub ts_utc : Bytes
  pub from_ts : Bytes
  pub to_ts : Bytes
  pub row_count : ℕ
  pub file_name : Bytes
  pub remote_id : Bytes
  pub status : Bytes
  pub detail : Bytes

pub record ReadingRow (D : Type 0) : Type 0 where
  pub id : ℤ
  pub sensor_id : Bytes
  pub ts_utc : Bytes
  pub mag_arcsec2 : D
  pub freq_hz : ℤ
  pub period_counts : ℤ
  pub period_s : D
  pub temp_c : D
  pub quality : Bytes
  pub source : Bytes
  pub raw_line : Bytes

-- The columns of `events` that insert_event writes; the database sets id and ts_utc.
pub record Event : Type 0 where
  pub source : Bytes
  pub level : Bytes
  pub event : Bytes
  pub detail : Bytes
  pub device_id : Bytes
