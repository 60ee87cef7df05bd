-- ===== src/Database/Readings.antt =====
-- src/db/database.cpp: the methods on `readings`, `config_log` and `weather_readings`. `put` is `<<` of a
-- `double`, `to_string` is std::to_string of one.
use Prim.Native.String.{String}
use night_watcher.Base.{
  Option, none, some, List, Bytes, [], ◌∷◌, ◌++◌, codes, if◌then◌else◌, is_empty, bytes_eq, ℕ, map,
}
use night_watcher.Base.Int.{ℤ}
use night_watcher.Db.{WeatherReadingRow, ReadingRow}
use night_watcher.Sqm.Protocol.{Reading, Calibration}
use night_watcher.Database.{
  Piece, code, Statement, Db, ret, ◌>>=◌, ◌>>◌, exec, select, all_rows, sql, quoted, fixed, or_null,
  or_now, int_text, at_least_one, insert_id,
}
use night_watcher.Database.Columns.{separated, one}
use night_watcher.Database.Rows.{
  k_reading_cols, k_config_log_cols, k_wx_reading_cols, reading_from_row, config_log_from_row,
  wxreading_from_row,
}
use night_watcher.Database.RowTypes.{ConfigLogRow}

-- `if (!from.empty()) q << " AND ts_utc >= '" << esc(from) << "'"`, and the like for `to`.
unfoldable pub bound : String → Bytes → Statement
unfolding sql
bound test ts = if is_empty ts then [] else sql test ∷ quoted ts ∷ []

unfoldable pub between_statement : String → String → Bytes → Bytes → Bytes → ℤ → Statement
unfolding sql bound at_least_one int_text
between_statement cols source id from to_ limit =
    sql "SELECT "
    ∷ sql cols
    ∷ sql source
    ∷ quoted id
    ∷ (bound " AND ts_utc >= " from
        ++ (bound " AND ts_utc <= " to_
            ++ (sql " ORDER BY ts_utc DESC, id DESC LIMIT "
                ∷ code (int_text (at_least_one limit))
                ∷ [])))

-- `sql_opt` of a `double` and of an `int`.
unfoldable pub sql_opt : {A : Type 0} → (A → Bytes) → Option A → Piece
unfolding sql
sql_opt show none = sql "NULL"
sql_opt show (some v) = code (show v)

-- `s.empty() ? d : s`.
unfoldable pub or_default : String → Bytes → Bytes
or_default d s = if is_empty s then codes d else s

module _ {D : Type 0} (put : D → Bytes) where
  unfoldable pub insert_reading : Bytes → Reading D → Bytes → Bytes → Bytes → Db ℕ
  unfolding sql or_now exec int_text insert_id ◌>>=◌
  insert_reading sensor_id r ts_utc source quality = do
    a ← exec (
        sql
          "INSERT IGNORE INTO readings (sensor_id, ts_utc, mag_arcsec2, freq_hz, period_counts, period_s, temp_c, quality, source, raw_line) VALUES ("
        ∷ quoted sensor_id
        ∷ sql ", "
        ∷ or_now ts_utc
        ∷ sql ", "
        ∷ code (put r.mag_arcsec2)
        ∷ sql ", "
        ∷ code (int_text r.freq_hz)
        ∷ sql ", "
        ∷ code (int_text r.period_counts)
        ∷ sql ", "
        ∷ code (put r.period_s)
        ∷ sql ", "
        ∷ code (put r.temp_c)
        ∷ sql ", "
        ∷ quoted quality
        ∷ sql ", "
        ∷ quoted source
        ∷ sql ", "
        ∷ quoted r.raw
        ∷ sql ")"
        ∷ [])
    ret (insert_id a)

  unfoldable pub insert_calibration :
      Bytes → Calibration D → Bytes → Bytes → Bytes → Bytes → Db Unit
  unfolding sql or_now or_null exec ◌>>=◌ ◌>>◌
  insert_calibration sensor_id c ts_utc event_type changed_by note = do
    exec (
        sql
          "INSERT INTO config_log (sensor_id, ts_utc, event_type, light_cal_offset, dark_cal_period_s, temp_light_c, sensor_offset, temp_dark_c, raw, changed_by, note) VALUES ("
        ∷ quoted sensor_id
        ∷ sql ", "
        ∷ or_now ts_utc
        ∷ sql ", "
        ∷ fixed (
            if bytes_eq event_type (codes "config_change")
            then codes "config_change"
            else codes "calibration")
        ∷ sql ", "
        ∷ code (put c.light_cal_offset)
        ∷ sql ", "
        ∷ code (put c.dark_cal_period_s)
        ∷ sql ", "
        ∷ code (put c.temp_light_c)
        ∷ sql ", "
        ∷ code (put c.sensor_offset)
        ∷ sql ", "
        ∷ code (put c.temp_dark_c)
        ∷ sql ", "
        ∷ quoted c.raw
        ∷ sql ", "
        ∷ or_null changed_by
        ∷ sql ", "
        ∷ or_null note
        ∷ sql ")"
        ∷ [])
    ret tt

module _ {D : Type 0} (to_string : D → Bytes) where
  unfoldable pub weather_values : WeatherReadingRow D → List Piece
  unfolding sql_opt or_now or_null or_default int_text
  weather_values r =
      quoted r.station_id
      ∷ or_now r.ts_utc
      ∷ sql_opt to_string r.temp_c
      ∷ sql_opt to_string r.humidity_pct
      ∷ sql_opt to_string r.dew_point_c
      ∷ sql_opt to_string r.pressure_hpa
      ∷ sql_opt to_string r.pressure_abs_hpa
      ∷ sql_opt to_string r.wind_speed_ms
      ∷ sql_opt to_string r.wind_gust_ms
      ∷ sql_opt int_text r.wind_dir_deg
      ∷ sql_opt to_string r.rain_rate_mmh
      ∷ sql_opt to_string r.rain_daily_mm
      ∷ sql_opt to_string r.uv_index
      ∷ sql_opt to_string r.solar_wm2
      ∷ sql_opt to_string r.cloud_cover_pct
      ∷ quoted (or_default "poll" r.source)
      ∷ or_null r.raw
      ∷ []

  unfoldable pub insert_weather_reading : WeatherReadingRow D → Db ℕ
  unfolding sql weather_values separated exec insert_id ◌>>=◌
  insert_weather_reading r = do
    a ← exec (
        sql
          "INSERT IGNORE INTO weather_readings (station_id, ts_utc, temp_c, humidity_pct, dew_point_c, pressure_hpa, pressure_abs_hpa, wind_speed_ms, wind_gust_ms, wind_dir_deg, rain_rate_mmh, rain_daily_mm, uv_index, solar_wm2, cloud_cover_pct, source, raw) VALUES ("
        ∷ (separated ", " (map one (weather_values r)) ++ sql ")" ∷ []))
    ret (insert_id a)

module _ {D : Type 0} (atof : Bytes → D) where
  unfoldable pub readings_between : D → Bytes → Bytes → Bytes → ℤ → Db (List (ReadingRow D))
  unfolding between_statement select all_rows ◌>>=◌
  readings_between zero sensor_id from to_ limit = do
    res ← select (
        between_statement k_reading_cols " FROM readings WHERE sensor_id=" sensor_id from to_ limit)
    ret (all_rows (reading_from_row atof zero) res)

  unfoldable pub readings : D → Bytes → ℤ → Db (List (ReadingRow D))
  unfolding readings_between
  readings zero sensor_id limit = readings_between zero sensor_id [] [] limit

  unfoldable pub config_log : Bytes → ℤ → Db (List (ConfigLogRow D))
  unfolding sql select at_least_one int_text all_rows ◌>>=◌
  config_log sensor_id limit = do
    res ← select (
        sql "SELECT "
        ∷ sql k_config_log_cols
        ∷ sql " FROM config_log WHERE sensor_id="
        ∷ quoted sensor_id
        ∷ sql " ORDER BY id DESC LIMIT "
        ∷ code (int_text (at_least_one limit))
        ∷ [])
    ret (all_rows (config_log_from_row atof) res)

  unfoldable pub weather_readings_between :
      Bytes → Bytes → Bytes → ℤ → Db (List (WeatherReadingRow D))
  unfolding between_statement select all_rows ◌>>=◌
  weather_readings_between station_id from to_ limit = do
    res ← select (
        between_statement k_wx_reading_cols " FROM weather_readings WHERE station_id=" station_id
          from to_ limit)
    ret (all_rows (wxreading_from_row atof) res)

  unfoldable pub weather_readings : Bytes → ℤ → Db (List (WeatherReadingRow D))
  unfolding weather_readings_between
  weather_readings station_id limit = weather_readings_between station_id [] [] limit
