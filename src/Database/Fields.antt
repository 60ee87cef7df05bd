-- ===== src/Database/Fields.antt =====
-- src/db/database.hpp and database.cpp: the editable members of a sensor, a weather station and an
-- export target, and the columns that the upsert and update methods write them to, in their
-- order. `to_string` is std::to_string of a `double`.
use night_watcher.Base.{Option, List, Bytes, [], ◌∷◌}
use night_watcher.Base.Int.{ℤ}
use night_watcher.Database.Columns.{Setting, text_setting, int_setting, double_setting}

pub record SensorFields (D : Type 0) : Type 0 where
  pub name : Option Bytes
  pub site : Option Bytes
  pub serial_number : Option Bytes
  pub model : Option Bytes
  pub protocol_ver : Option ℤ
  pub feature_ver : Option ℤ
  pub latitude : Option D
  pub longitude : Option D
  pub elevation_m : Option D
  pub timezone : Option Bytes
  pub transport : Option Bytes
  pub address : Option Bytes
  pub poll_interval_s : Option ℤ
  pub status : Option Bytes
  pub installed_at : Option Bytes
  pub notes : Option Bytes

pub record WeatherStationFields (D : Type 0) : Type 0 where
  pub name : Option Bytes
  pub site : Option Bytes
  pub model : Option Bytes
  pub provider : Option Bytes
  pub config : Option Bytes
  pub transport : Option Bytes
  pub address : Option Bytes
  pub latitude : Option D
  pub longitude : Option D
  pub elevation_m : Option D
  pub timezone : Option Bytes
  pub poll_interval_s : Option ℤ
  pub status : Option Bytes
  pub installed_at : Option Bytes
  pub notes : Option Bytes

pub record ExportTargetFields : Type 0 where
  pub sensor_id : Option Bytes
  pub name : Option Bytes
  pub target : Option Bytes
  pub config : Option Bytes
  pub schedule : Option Bytes
  pub schedule_time : Option Bytes
  pub interval_s : Option ℤ
  pub schedule_day : Option ℤ
  pub status : Option Bytes
  pub notes : Option Bytes

module _ {D : Type 0} (to_string : D → Bytes) where
  unfoldable pub sensor_settings : SensorFields D → List Setting
  unfolding text_setting int_setting double_setting
  sensor_settings f =
      text_setting "name" f.name
      ∷ text_setting "site" f.site
      ∷ text_setting "serial_number" f.serial_number
      ∷ text_setting "model" f.model
      ∷ int_setting "protocol_ver" f.protocol_ver
      ∷ int_setting "feature_ver" f.feature_ver
      ∷ double_setting to_string "latitude" f.latitude
      ∷ double_setting to_string "longitude" f.longitude
      ∷ double_setting to_string "elevation_m" f.elevation_m
      ∷ text_setting "timezone" f.timezone
      ∷ text_setting "transport" f.transport
      ∷ text_setting "address" f.address
      ∷ int_setting "poll_interval_s" f.poll_interval_s
      ∷ text_setting "status" f.status
      ∷ text_setting "installed_at" f.installed_at
      ∷ text_setting "notes" f.notes
      ∷ []

  unfoldable pub weather_settings : WeatherStationFields D → List Setting
  unfolding text_setting int_setting double_setting
  weather_settings f =
      text_setting "name" f.name
      ∷ text_setting "site" f.site
      ∷ text_setting "model" f.model
      ∷ text_setting "provider" f.provider
      ∷ text_setting "config" f.config
      ∷ text_setting "transport" f.transport
      ∷ text_setting "address" f.address
      ∷ double_setting to_string "latitude" f.latitude
      ∷ double_setting to_string "longitude" f.longitude
      ∷ double_setting to_string "elevation_m" f.elevation_m
      ∷ text_setting "timezone" f.timezone
      ∷ int_setting "poll_interval_s" f.poll_interval_s
      ∷ text_setting "status" f.status
      ∷ text_setting "installed_at" f.installed_at
      ∷ text_setting "notes" f.notes
      ∷ []

unfoldable pub export_settings : ExportTargetFields → List Setting
unfolding text_setting int_setting
export_settings f =
    text_setting "sensor_id" f.sensor_id
    ∷ text_setting "name" f.name
    ∷ text_setting "target" f.target
    ∷ text_setting "config" f.config
    ∷ text_setting "schedule" f.schedule
    ∷ text_setting "schedule_time" f.schedule_time
    ∷ int_setting "interval_s" f.interval_s
    ∷ int_setting "schedule_day" f.schedule_day
    ∷ text_setting "status" f.status
    ∷ text_setting "notes" f.notes
    ∷ []
