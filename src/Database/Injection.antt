-- ===== src/Database/Injection.antt =====
-- Every statement of every call of the database is read by the server as the code means it.
use night_watcher.Base.{true, ◌≡◌, refl, Bytes}
use night_watcher.Database.{throw, query, Statement, Db, ret, ◌>>=◌, ◌>>◌, sql, text, until_nul}
use night_watcher.Database.Fields.{sensor_settings, weather_settings, export_settings}
use night_watcher.Database.Tables
use night_watcher.Database.Records
use night_watcher.Database.Readings
use night_watcher.Database.Accounts
use night_watcher.Database.Schema
use night_watcher.Database.Calls.{Call, Doubles, perform, Every}
use night_watcher.Database.Lexer.{sound, tame, is_tame, is_quote, starts_code, tokens, meant}
use night_watcher.Database.Rows.{
  sensor_from_row, weather_from_row, export_from_row, k_sensor_cols, k_weather_cols, k_export_cols,
  k_reading_cols, k_wx_reading_cols,
}
use night_watcher.Database.Safety.{Escapes, tokens-sound}
use night_watcher.Database.Fits.{Safe, ret-Safe, bind-Safe, selected-Safe}
use night_watcher.Database.Issued.{
  remove-Safe, insert_event-Safe, recent_events-Safe, between-sound, limit-sound, export_log-Safe,
  insert_export_log-Safe, delete_readings-Safe, watermark-Safe, get_setting-Safe, set_setting-Safe,
  delete_setting-Safe, create_user-Safe, find_user-Safe, change_found-Safe, delete_user-Safe,
  create_session-Safe, validate_session-Safe, delete_session-Safe, expired-Safe, count_users-Safe,
  users-Safe, extensions-Safe, find_extension-Safe, query_recent-Safe, schema_status-Safe,
}
use night_watcher.Database.Queries.{
  upsert-Safe, find-Safe, update_found-Safe, all_of-Safe, active_of-Safe,
  sensor_settings-AreSettings, weather_settings-AreSettings, export_settings-AreSettings, IsTame,
}
use night_watcher.Database.Inserts.{
  insert_reading-Safe, insert_calibration-Safe, insert_weather_reading-Safe,
}

-- The names that no text of the program fixes: the table of query_recent, which its caller checks.
abbrev pub IsNamed : {D : Type 0} → Call D → Type 0
IsNamed (Call.query_recent table limit) = tame table ≡ true
IsNamed _ = Unit

pub record TameDoubles (D : Type 0) (doubles : Doubles D) : Type 0 where
  pub to_string_tame : IsTame doubles.to_string
  pub put_tame : IsTame doubles.put

done : {A : Type 0} (m : Db A) → Safe m → Safe (m >>= λ _. ret tt)
done m h = bind-Safe m (λ _. ret tt) h (λ _. ret-Safe tt)

module _ {D : Type 0} (doubles : Doubles D) (numbers : TameDoubles D doubles) where
  pub perform-Safe : (c : Call D) → IsNamed c → Safe (perform doubles c)
  unfolding perform ◌>>◌ tame is_tame is_quote sound starts_code sql Tables.upsert_sensor
      Tables.update_sensor Tables.find_sensor Tables.upsert_weather_station
      Tables.update_weather_station Tables.find_weather_station Tables.upsert_export_target
      Tables.update_export_target Tables.find_export_target Tables.remove_sensor
      Tables.remove_weather_station Tables.remove_export_target Tables.sensors
      Tables.weather_stations Tables.export_targets Tables.active_sensors
      Tables.active_weather_stations Tables.active_export_targets Readings.readings_between
      Readings.weather_readings_between Readings.config_log Accounts.set_user_password
  perform-Safe (Call.upsert_sensor id f) h = done (Tables.upsert_sensor doubles.to_string id f) (
      upsert-Safe "sensors" id _ refl
        (sensor_settings-AreSettings doubles.to_string numbers.to_string_tame f))
  perform-Safe (Call.update_sensor id f) h =
      done (Tables.update_sensor doubles.atof doubles.to_string id f) (
        bind-Safe (Tables.find_sensor doubles.atof id) _
          (find-Safe (sensor_from_row doubles.atof) k_sensor_cols "sensors" id refl refl)
          (λ row.
            update_found-Safe "sensors" id (sensor_settings doubles.to_string f) row refl
              (sensor_settings-AreSettings doubles.to_string numbers.to_string_tame f)))
  perform-Safe (Call.upsert_weather_station id f) h =
      done (Tables.upsert_weather_station doubles.to_string id f) (
        upsert-Safe "weather_stations" id _ refl
          (weather_settings-AreSettings doubles.to_string numbers.to_string_tame f))
  perform-Safe (Call.update_weather_station id f) h =
      done (Tables.update_weather_station doubles.atof doubles.to_string id f) (
        bind-Safe (Tables.find_weather_station doubles.atof id) _
          (find-Safe (weather_from_row doubles.atof) k_weather_cols "weather_stations" id refl refl)
          (λ row.
            update_found-Safe "weather_stations" id (weather_settings doubles.to_string f) row refl
              (weather_settings-AreSettings doubles.to_string numbers.to_string_tame f)))
  perform-Safe (Call.upsert_export_target id f) h =
      done (Tables.upsert_export_target id f)
        (upsert-Safe "export_targets" id _ refl (export_settings-AreSettings f))
  perform-Safe (Call.update_export_target id f) h = done (Tables.update_export_target id f) (
      bind-Safe (Tables.find_export_target id) _
        (find-Safe export_from_row k_export_cols "export_targets" id refl refl)
        (λ row.
          update_found-Safe "export_targets" id (export_settings f) row refl
            (export_settings-AreSettings f)))
  perform-Safe (Call.find_sensor id) h =
      done (Tables.find_sensor doubles.atof id)
        (find-Safe (sensor_from_row doubles.atof) k_sensor_cols "sensors" id refl refl)
  perform-Safe (Call.find_weather_station id) h =
      done (Tables.find_weather_station doubles.atof id)
        (find-Safe (weather_from_row doubles.atof) k_weather_cols "weather_stations" id refl refl)
  perform-Safe (Call.find_export_target id) h =
      done (Tables.find_export_target id)
        (find-Safe export_from_row k_export_cols "export_targets" id refl refl)
  perform-Safe (Call.remove_sensor id) h =
      done (Tables.remove_sensor id) (remove-Safe "sensors" id refl)
  perform-Safe (Call.remove_weather_station id) h =
      done (Tables.remove_weather_station id) (remove-Safe "weather_stations" id refl)
  perform-Safe (Call.remove_export_target id) h =
      done (Tables.remove_export_target id) (remove-Safe "export_targets" id refl)
  perform-Safe Call.sensors h =
      done (Tables.sensors doubles.atof)
        (all_of-Safe (sensor_from_row doubles.atof) k_sensor_cols "sensors" refl refl)
  perform-Safe Call.weather_stations h =
      done (Tables.weather_stations doubles.atof)
        (all_of-Safe (weather_from_row doubles.atof) k_weather_cols "weather_stations" refl refl)
  perform-Safe Call.export_targets h =
      done (Tables.export_targets)
        (all_of-Safe export_from_row k_export_cols "export_targets" refl refl)
  perform-Safe Call.active_sensors h =
      done (Tables.active_sensors doubles.atof)
        (active_of-Safe (sensor_from_row doubles.atof) k_sensor_cols "sensors" refl refl)
  perform-Safe Call.active_weather_stations h =
      done (Tables.active_weather_stations doubles.atof)
        (active_of-Safe (weather_from_row doubles.atof) k_weather_cols "weather_stations" refl refl)
  perform-Safe Call.active_export_targets h =
      done (Tables.active_export_targets)
        (active_of-Safe export_from_row k_export_cols "export_targets" refl refl)
  perform-Safe (Call.set_export_watermark id last_export_ts) h =
      done (Tables.set_export_watermark id last_export_ts) (watermark-Safe id last_export_ts)
  perform-Safe (Call.insert_event source level event detail device_id) h =
      done (Records.insert_event source level event detail device_id)
        (insert_event-Safe source level event detail device_id)
  perform-Safe (Call.recent_events limit) h =
      done (Records.recent_events limit) (recent_events-Safe limit)
  perform-Safe (Call.insert_reading sensor_id r ts_utc source quality) h =
      done (Readings.insert_reading doubles.put sensor_id r ts_utc source quality)
        (insert_reading-Safe doubles.put numbers.put_tame sensor_id r ts_utc source quality)
  perform-Safe (Call.insert_calibration sensor_id c ts_utc event_type changed_by note) h =
      done (Readings.insert_calibration doubles.put sensor_id c ts_utc event_type changed_by note) (
        insert_calibration-Safe doubles.put numbers.put_tame sensor_id c ts_utc event_type
          changed_by note)
  perform-Safe (Call.readings_between id from to_ limit) h =
      done (Readings.readings_between doubles.atof doubles.zero id from to_ limit) (
        selected-Safe _ _ (
          between-sound k_reading_cols " FROM readings WHERE sensor_id=" id from to_ limit refl
            refl))
  perform-Safe (Call.weather_readings_between id from to_ limit) h =
      done (Readings.weather_readings_between doubles.atof id from to_ limit) (
        selected-Safe _ _ (
          between-sound k_wx_reading_cols " FROM weather_readings WHERE station_id=" id from to_
            limit refl refl))
  perform-Safe (Call.config_log id limit) h =
      done (Readings.config_log doubles.atof id limit) (selected-Safe _ _ (limit-sound limit))
  perform-Safe (Call.export_log id limit) h =
      done (Records.export_log id limit) (export_log-Safe id limit)
  perform-Safe (Call.insert_weather_reading r) h =
      done (Readings.insert_weather_reading doubles.to_string r)
        (insert_weather_reading-Safe doubles.to_string numbers.to_string_tame r)
  perform-Safe (Call.insert_export_log r) h =
      done (Records.insert_export_log r) (insert_export_log-Safe r)
  perform-Safe (Call.delete_readings_before sensor_id ts_utc) h =
      done (Records.delete_readings_before sensor_id ts_utc) (delete_readings-Safe sensor_id ts_utc)
  perform-Safe (Call.get_setting name) h = done (Accounts.get_setting name) (get_setting-Safe name)
  perform-Safe (Call.delete_setting name) h =
      done (Accounts.delete_setting name) (delete_setting-Safe name)
  perform-Safe (Call.set_setting name value) h =
      done (Accounts.set_setting name value) (set_setting-Safe name value)
  perform-Safe Call.schema_status h = done (Schema.schema_status) (schema_status-Safe)
  perform-Safe Call.count_users h = done (Accounts.count_users) (count_users-Safe)
  perform-Safe Call.users h = done (Accounts.users) (users-Safe)
  perform-Safe Call.delete_expired_sessions h =
      done (Accounts.delete_expired_sessions) (expired-Safe)
  perform-Safe Call.extensions h = done (Accounts.extensions) (extensions-Safe)
  perform-Safe (Call.create_user username password_hash role must_change_password) h =
      done (Accounts.create_user username password_hash role must_change_password)
        (create_user-Safe username password_hash role must_change_password)
  perform-Safe (Call.find_user username) h =
      done (Accounts.find_user username) (find_user-Safe username)
  perform-Safe (Call.delete_user username) h =
      done (Accounts.delete_user username) (delete_user-Safe username)
  perform-Safe (Call.set_user_password username password_hash must_change_password) h =
      done (Accounts.set_user_password username password_hash must_change_password) (
        bind-Safe (Accounts.find_user username) _ (find_user-Safe username)
          (λ row. change_found-Safe username password_hash must_change_password row))
  perform-Safe (Call.create_session token user_id ttl_seconds) h =
      done (Accounts.create_session token user_id ttl_seconds)
        (create_session-Safe token user_id ttl_seconds)
  perform-Safe (Call.validate_session token) h =
      done (Accounts.validate_session token) (validate_session-Safe token)
  perform-Safe (Call.delete_session token) h =
      done (Accounts.delete_session token) (delete_session-Safe token)
  perform-Safe (Call.find_extension name) h =
      done (Accounts.find_extension name) (find_extension-Safe name)
  perform-Safe (Call.query_recent table limit) h =
      done (Accounts.query_recent table limit) (query_recent-Safe table limit h)

module _ {A : Type 0} (P Q : Statement → Type 0) (step : (q : Statement) → P q → Q q) where
  pub Every-map : (m : Db A) → Every P m → Every Q m
  Every-map (ret a) h = tt
  Every-map (throw e) h = tt
  Every-map (query q k) h = (step q h.0, λ a. Every-map (k a) (h.1 a))

-- Whatever texts a call is given and whatever the server answers, the server reads each statement
-- of the call as the code means it: its code byte by byte, and each text between quotes as given,
-- so no byte of a text is read as code. This holds if the escaped text reads back as the text and
-- holds no zero byte, if printed numbers hold no quote, backslash or zero byte, and if the table
-- given to query_recent holds none either.
pub perform-Meant :
    {D : Type 0} (doubles : Doubles D) (esc : Bytes → Bytes) (c : Call D)
    → TameDoubles D doubles
    → Escapes esc
    → IsNamed c
    → Every (λ q. tokens (until_nul (text esc q)) ≡ meant q) (perform doubles c)
unfolding Safe
perform-Meant doubles esc c numbers escapes table_tame =
    Every-map (λ q. sound q ≡ true) (λ q. tokens (until_nul (text esc q)) ≡ meant q)
      (tokens-sound esc escapes) (perform doubles c) (perform-Safe doubles numbers c table_tame)
