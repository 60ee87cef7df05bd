-- ===== src/Database/Tables.antt =====
-- src/db/database.cpp: the methods on `sensors`, `weather_stations` and `export_targets`. `atof`
-- and `to_string` (of a `double`) are the library's.
use Prim.Native.String.{String}
use night_watcher.Base.{Option, Bool, List, Bytes, [], ◌∷◌, codes}
use night_watcher.Db.{SensorRow, WeatherStationRow, ExportTargetRow}
use night_watcher.Database.{
  Row, Statement, Db, ret, ◌>>=◌, ◌>>◌, exec, select, all_rows, sql, quoted, fixed,
}
use night_watcher.Database.Columns.{upsert, update_found, find, remove}
use night_watcher.Database.Fields.{
  SensorFields, WeatherStationFields, ExportTargetFields, sensor_settings, weather_settings,
  export_settings,
}
use night_watcher.Database.Rows.{
  k_sensor_cols, k_weather_cols, k_export_cols, sensor_from_row, weather_from_row, export_from_row,
}

-- sensors() and the like.
unfoldable pub all_statement : String → String → Statement
unfolding sql
all_statement cols table =
    sql "SELECT " ∷ sql cols ∷ sql " FROM " ∷ sql table ∷ sql " ORDER BY id" ∷ []

unfoldable pub all_of : {A : Type 0} → (Row → A) → String → String → Db (List A)
unfolding all_statement select all_rows ◌>>=◌
all_of from_row cols table = do res ← select (all_statement cols table); ret (all_rows from_row res)

-- active_sensors() and the like.
unfoldable pub active_statement : String → String → Statement
unfolding sql
active_statement cols table =
    sql "SELECT "
    ∷ sql cols
    ∷ sql " FROM "
    ∷ sql table
    ∷ sql " WHERE status="
    ∷ fixed (codes "active")
    ∷ sql " ORDER BY id"
    ∷ []

unfoldable pub active_of : {A : Type 0} → (Row → A) → String → String → Db (List A)
unfolding active_statement select all_rows ◌>>=◌
active_of from_row cols table = do
  res ← select (active_statement cols table)
  ret (all_rows from_row res)

module _ {D : Type 0} (to_string : D → Bytes) where
  unfoldable pub upsert_sensor : Bytes → SensorFields D → Db Unit
  unfolding upsert
  upsert_sensor id f = upsert "sensors" id (sensor_settings to_string f)

  unfoldable pub upsert_weather_station : Bytes → WeatherStationFields D → Db Unit
  unfolding upsert
  upsert_weather_station id f = upsert "weather_stations" id (weather_settings to_string f)

module _ {D : Type 0} (atof : Bytes → D) where
  unfoldable pub find_sensor : Bytes → Db (Option (SensorRow D))
  unfolding find
  find_sensor id = find (sensor_from_row atof) k_sensor_cols "sensors" id

  unfoldable pub sensors : Db (List (SensorRow D))
  unfolding all_of
  sensors = all_of (sensor_from_row atof) k_sensor_cols "sensors"

  unfoldable pub active_sensors : Db (List (SensorRow D))
  unfolding active_of
  active_sensors = active_of (sensor_from_row atof) k_sensor_cols "sensors"

  unfoldable pub find_weather_station : Bytes → Db (Option (WeatherStationRow D))
  unfolding find
  find_weather_station id = find (weather_from_row atof) k_weather_cols "weather_stations" id

  unfoldable pub weather_stations : Db (List (WeatherStationRow D))
  unfolding all_of
  weather_stations = all_of (weather_from_row atof) k_weather_cols "weather_stations"

  unfoldable pub active_weather_stations : Db (List (WeatherStationRow D))
  unfolding active_of
  active_weather_stations = active_of (weather_from_row atof) k_weather_cols "weather_stations"

module _ {D : Type 0} (atof : Bytes → D) (to_string : D → Bytes) where
  unfoldable pub update_sensor : Bytes → SensorFields D → Db Bool
  unfolding find_sensor update_found ◌>>=◌
  update_sensor id f = do
    row ← find_sensor atof id
    update_found "sensors" id (sensor_settings to_string f) row

  unfoldable pub update_weather_station : Bytes → WeatherStationFields D → Db Bool
  unfolding find_weather_station update_found ◌>>=◌
  update_weather_station id f = do
    row ← find_weather_station atof id
    update_found "weather_stations" id (weather_settings to_string f) row

unfoldable pub remove_sensor : Bytes → Db Unit
unfolding remove
remove_sensor id = remove "sensors" id

unfoldable pub remove_weather_station : Bytes → Db Unit
unfolding remove
remove_weather_station id = remove "weather_stations" id

unfoldable pub upsert_export_target : Bytes → ExportTargetFields → Db Unit
unfolding upsert
upsert_export_target id f = upsert "export_targets" id (export_settings f)

unfoldable pub find_export_target : Bytes → Db (Option ExportTargetRow)
unfolding find
find_export_target id = find export_from_row k_export_cols "export_targets" id

unfoldable pub update_export_target : Bytes → ExportTargetFields → Db Bool
unfolding find_export_target update_found ◌>>=◌
update_export_target id f = do
  row ← find_export_target id
  update_found "export_targets" id (export_settings f) row

unfoldable pub remove_export_target : Bytes → Db Unit
unfolding remove
remove_export_target id = remove "export_targets" id

unfoldable pub export_targets : Db (List ExportTargetRow)
unfolding all_of
export_targets = all_of export_from_row k_export_cols "export_targets"

unfoldable pub active_export_targets : Db (List ExportTargetRow)
unfolding active_of
active_export_targets = active_of export_from_row k_export_cols "export_targets"

unfoldable pub set_export_watermark : Bytes → Bytes → Db Unit
unfolding sql exec ◌>>=◌ ◌>>◌
set_export_watermark id last_export_ts = do
  exec (
      sql "UPDATE export_targets SET last_export_ts="
      ∷ quoted last_export_ts
      ∷ sql " WHERE id="
      ∷ quoted id
      ∷ [])
  ret tt
