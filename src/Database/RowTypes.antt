-- ===== src/Database/RowTypes.antt =====
-- src/db/database.hpp: the rows that only the database and the API know.
use night_watcher.Base.{Bool, Option, Bytes}
use night_watcher.Base.Int.{ℤ}

pub record EventRow : Type 0 where
  pub id : ℤ
  pub ts_utc : Bytes
  pub device_id : Bytes
  pub source : Bytes
  pub level : Bytes
  pub event : Bytes
  pub detail : Bytes

pub record ConfigLogRow (D : Type 0) : Type 0 where
  pub id : ℤ
  pub ts_utc : Bytes
  pub event_type : Bytes
  pub light_cal_offset : Option D
  pub dark_cal_period_s : Option D
  pub temp_light_c : Option D
  pub sensor_offset : Option D
  pub temp_dark_c : Option D
  pub interval_s : Option ℤ
  pub threshold : Option D
  pub raw : Bytes
  pub changed_by : Bytes
  pub note : Bytes

-- The row as the table holds it: `row_count` is a `long long` here.
pub record ExportLog : Type 0 where
  pub id : ℤ
  pub target_id : Bytes
  pub ts_utc : Bytes
  pub from_ts : Bytes
  pub to_ts : Bytes
  pub row_count : ℤ
  pub file_name : Bytes
  pub remote_id : Bytes
  pub status : Bytes
  pub detail : Bytes

pub record UserRow : Type 0 where
  pub id : ℤ
  pub username : Bytes
  pub password_hash : Bytes
  pub role : Bytes
  pub must_change_password : Bool
  pub created_at : Bytes

pub record SessionInfo : Type 0 where
  pub user_id : ℤ
  pub username : Bytes
  pub role : Bytes

pub record ExtensionRow : Type 0 where
  pub name : Bytes
  pub label : Bytes
  pub version : Bytes
  pub data_table : Bytes
  pub host : Bytes
  pub pid : Option ℤ
  pub status : Bytes
  pub last_heartbeat : Bytes
  pub started_at : Bytes
  pub heartbeat_age_s : ℤ
