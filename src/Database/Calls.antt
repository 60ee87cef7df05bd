-- ===== src/Database/Calls.antt =====
-- src/db/database.hpp: the methods of `Database` as one type, each with its arguments, and what a
-- call does. dump_sql, restore_sql and run_schema_script are not among them: their statements are
-- texts from the database itself or from a file that the operator trusts.
use night_watcher.Base.{Bytes, Bool}
use night_watcher.Base.Int.{ℤ}
use night_watcher.Db.{WeatherReadingRow}
use night_watcher.Sqm.Protocol.{Reading, Calibration}
use night_watcher.Database.{Statement, Answer, Db, ret, throw, query, ◌>>=◌, ◌>>◌}
use night_watcher.Database.Fields.{SensorFields, WeatherStationFields, ExportTargetFields}
use night_watcher.Database.RowTypes.{ExportLog}
use night_watcher.Database.Tables
use night_watcher.Database.Records
use night_watcher.Database.Readings
use night_watcher.Database.Accounts
use night_watcher.Database.Schema

pub data Call (D : Type 0) : Type 0 where
  upsert_sensor update_sensor : Bytes → SensorFields D → Call D
  upsert_weather_station update_weather_station : Bytes → WeatherStationFields D → Call D
  upsert_export_target update_export_target : Bytes → ExportTargetFields → Call D
  find_sensor find_weather_station find_export_target : Bytes → Call D
  remove_sensor remove_weather_station remove_export_target : Bytes → Call D
  sensors weather_stations export_targets : Call D
  active_sensors active_weather_stations active_export_targets : Call D
  set_export_watermark : (id last_export_ts : Bytes) → Call D
  insert_event : (source level event detail device_id : Bytes) → Call D
  recent_events : (limit : ℤ) → Call D
  insert_reading : (sensor_id : Bytes) (r : Reading D) (ts_utc source quality : Bytes) → Call D
  insert_calibration :
      (sensor_id : Bytes) (c : Calibration D) (ts_utc event_type changed_by note : Bytes) → Call D
  readings_between weather_readings_between : (id from to_ : Bytes) (limit : ℤ) → Call D
  config_log export_log : (id : Bytes) (limit : ℤ) → Call D
  insert_weather_reading : WeatherReadingRow D → Call D
  insert_export_log : ExportLog → Call D
  delete_readings_before : (sensor_id ts_utc : Bytes) → Call D
  get_setting delete_setting : (name : Bytes) → Call D
  set_setting : (name value : Bytes) → Call D
  schema_status count_users users delete_expired_sessions extensions : Call D
  create_user : (username password_hash role : Bytes) → Bool → Call D
  find_user delete_user : (username : Bytes) → Call D
  set_user_password : (username password_hash : Bytes) → Bool → Call D
  create_session : (token : Bytes) (user_id ttl_seconds : ℤ) → Call D
  validate_session delete_session : (token : Bytes) → Call D
  find_extension : (name : Bytes) → Call D
  query_recent : (table : Bytes) (limit : ℤ) → Call D

-- What the conversions of a `double` are: the library's `atof`, std::to_string, `<<`, and 0.0.
pub record Doubles (D : Type 0) : Type 0 where
  pub atof : Bytes → D
  pub to_string : D → Bytes
  pub put : D → Bytes
  pub zero : D

-- A call, its result left aside.
module _ {D : Type 0} (doubles : Doubles D) where
  unfoldable pub perform : Call D → Db Unit
  unfolding ◌>>=◌ ◌>>◌ Tables.upsert_sensor Tables.update_sensor Tables.upsert_weather_station
      Tables.update_weather_station Tables.upsert_export_target Tables.update_export_target
      Tables.find_sensor Tables.find_weather_station Tables.find_export_target Tables.remove_sensor
      Tables.remove_weather_station Tables.remove_export_target Tables.sensors
      Tables.weather_stations Tables.export_targets Tables.active_sensors
      Tables.active_weather_stations Tables.active_export_targets Tables.set_export_watermark
      Records.insert_event Records.recent_events Readings.insert_reading Readings.insert_calibration
      Readings.readings_between Readings.weather_readings_between Readings.config_log
      Records.export_log Readings.insert_weather_reading Records.insert_export_log
      Records.delete_readings_before Accounts.get_setting Accounts.delete_setting
      Accounts.set_setting Schema.schema_status Accounts.count_users Accounts.users
      Accounts.delete_expired_sessions Accounts.extensions Accounts.create_user Accounts.find_user
      Accounts.delete_user Accounts.set_user_password Accounts.create_session
      Accounts.validate_session Accounts.delete_session Accounts.find_extension
      Accounts.query_recent
  perform (upsert_sensor id f) = Tables.upsert_sensor doubles.to_string id f >> ret tt
  perform (update_sensor id f) = Tables.update_sensor doubles.atof doubles.to_string id f >> ret tt
  perform (upsert_weather_station id f) =
      Tables.upsert_weather_station doubles.to_string id f >> ret tt
  perform (update_weather_station id f) =
      Tables.update_weather_station doubles.atof doubles.to_string id f >> ret tt
  perform (upsert_export_target id f) = Tables.upsert_export_target id f >> ret tt
  perform (update_export_target id f) = Tables.update_export_target id f >> ret tt
  perform (find_sensor id) = Tables.find_sensor doubles.atof id >> ret tt
  perform (find_weather_station id) = Tables.find_weather_station doubles.atof id >> ret tt
  perform (find_export_target id) = Tables.find_export_target id >> ret tt
  perform (remove_sensor id) = Tables.remove_sensor id >> ret tt
  perform (remove_weather_station id) = Tables.remove_weather_station id >> ret tt
  perform (remove_export_target id) = Tables.remove_export_target id >> ret tt
  perform sensors = Tables.sensors doubles.atof >> ret tt
  perform weather_stations = Tables.weather_stations doubles.atof >> ret tt
  perform export_targets = Tables.export_targets >> ret tt
  perform active_sensors = Tables.active_sensors doubles.atof >> ret tt
  perform active_weather_stations = Tables.active_weather_stations doubles.atof >> ret tt
  perform active_export_targets = Tables.active_export_targets >> ret tt
  perform (set_export_watermark id last_export_ts) =
      Tables.set_export_watermark id last_export_ts >> ret tt
  perform (insert_event source level event detail device_id) =
      Records.insert_event source level event detail device_id >> ret tt
  perform (recent_events limit) = Records.recent_events limit >> ret tt
  perform (insert_reading sensor_id r ts_utc source quality) =
      Readings.insert_reading doubles.put sensor_id r ts_utc source quality >> ret tt
  perform (insert_calibration sensor_id c ts_utc event_type changed_by note) =
      Readings.insert_calibration doubles.put sensor_id c ts_utc event_type changed_by note
      >> ret tt
  perform (readings_between id from to_ limit) =
      Readings.readings_between doubles.atof doubles.zero id from to_ limit >> ret tt
  perform (weather_readings_between id from to_ limit) =
      Readings.weather_readings_between doubles.atof id from to_ limit >> ret tt
  perform (config_log id limit) = Readings.config_log doubles.atof id limit >> ret tt
  perform (export_log id limit) = Records.export_log id limit >> ret tt
  perform (insert_weather_reading r) = Readings.insert_weather_reading doubles.to_string r >> ret tt
  perform (insert_export_log r) = Records.insert_export_log r >> ret tt
  perform (delete_readings_before sensor_id ts_utc) =
      Records.delete_readings_before sensor_id ts_utc >> ret tt
  perform (get_setting name) = Accounts.get_setting name >> ret tt
  perform (delete_setting name) = Accounts.delete_setting name >> ret tt
  perform (set_setting name value) = Accounts.set_setting name value >> ret tt
  perform schema_status = Schema.schema_status >> ret tt
  perform count_users = Accounts.count_users >> ret tt
  perform users = Accounts.users >> ret tt
  perform delete_expired_sessions = Accounts.delete_expired_sessions >> ret tt
  perform extensions = Accounts.extensions >> ret tt
  perform (create_user username password_hash role must_change_password) =
      Accounts.create_user username password_hash role must_change_password >> ret tt
  perform (find_user username) = Accounts.find_user username >> ret tt
  perform (delete_user username) = Accounts.delete_user username >> ret tt
  perform (set_user_password username password_hash must_change_password) =
      Accounts.set_user_password username password_hash must_change_password >> ret tt
  perform (create_session token user_id ttl_seconds) =
      Accounts.create_session token user_id ttl_seconds >> ret tt
  perform (validate_session token) = Accounts.validate_session token >> ret tt
  perform (delete_session token) = Accounts.delete_session token >> ret tt
  perform (find_extension name) = Accounts.find_extension name >> ret tt
  perform (query_recent table limit) = Accounts.query_recent table limit >> ret tt

-- `P` for every statement that a program can execute, whatever the server answers.
abbrev pub Every {ℓ} : {A : Type 0} → (Statement → Type ℓ) → Db A → Type ℓ
Every P (ret a) = Unit
Every P (throw e) = Unit
Every P (query q k) = P q × ((a : Answer) → Every P (k a))
