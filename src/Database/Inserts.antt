-- ===== src/Database/Inserts.antt =====
-- The statements that insert readings and calibrations are sound.
use night_watcher.Base.{
  ◌&◌, true, Option, none, some, [], ◌∷◌, ◌≡◌, refl, Bytes, codes, map, All, arith,
}
use night_watcher.Db.{WeatherReadingRow}
use night_watcher.Sqm.Protocol.{Reading, Calibration}
use night_watcher.Database.{◌>>◌, int_text, sql, or_null, or_now, insert_id}
use night_watcher.Database.Columns.{one}
use night_watcher.Database.Readings
use night_watcher.Database.Lexer.{sound, tame, is_tame, is_quote, starts_code}
use night_watcher.Database.Fits.{
  Safe, FitsPiece, tame-int_text, code-Fits, quoted-Fits, or_null-Fits, or_now-Fits, only-Safe,
}
use night_watcher.Database.Composed.{separated-Fits, map-one-Fits, comma-Separates}
use night_watcher.Database.Queries.{IsTame}

fits_or_null : tame (codes "NULL") ≡ true
unfolding tame is_tame is_quote
fits_or_null = refl

sql_opt-Fits :
    {A : Type 0} (show : A → Bytes) (v : Option A)
    → IsTame show
    → FitsPiece (Readings.sql_opt show v)
unfolding Readings.sql_opt sql
sql_opt-Fits show none h = code-Fits (codes "NULL") fits_or_null
sql_opt-Fits show (some v) h = code-Fits (show v) (h v)

module _ {D : Type 0} (put : D → Bytes) (put_tame : IsTame put) where
  pub insert_reading-Safe :
      (id : Bytes) (r : Reading D) (ts source quality : Bytes)
      → Safe (Readings.insert_reading put id r ts source quality)
  unfolding Readings.insert_reading or_now tame is_tame is_quote sound starts_code sql
  insert_reading-Safe id r ts source quality = only-Safe _ insert_id (
      ground (
        arith,
        put_tame r.mag_arcsec2,
        put_tame r.period_s,
        put_tame r.temp_c,
        tame-int_text r.freq_hz,
        tame-int_text r.period_counts,
      ))

  pub insert_calibration-Safe :
      (id : Bytes) (c : Calibration D) (ts event_type changed_by note : Bytes)
      → Safe (Readings.insert_calibration put id c ts event_type changed_by note)
  unfolding Readings.insert_calibration or_now or_null tame is_tame is_quote sound starts_code sql
      ◌>>◌
  insert_calibration-Safe id c ts event_type changed_by note =
      only-Safe _ (λ _. tt)
        (ground (
          arith,
          put_tame c.light_cal_offset,
          put_tame c.dark_cal_period_s,
          put_tame c.temp_light_c,
          put_tame c.sensor_offset,
          put_tame c.temp_dark_c,
        ))

module _ {D : Type 0} (show : D → Bytes) (show_tame : IsTame show) where
  weather_values-Fits : (r : WeatherReadingRow D) → All FitsPiece (Readings.weather_values show r)
  unfolding Readings.weather_values
  weather_values-Fits r =
      quoted-Fits r.station_id
      & or_now-Fits r.ts_utc
      & sql_opt-Fits show r.temp_c show_tame
      & sql_opt-Fits show r.humidity_pct show_tame
      & sql_opt-Fits show r.dew_point_c show_tame
      & sql_opt-Fits show r.pressure_hpa show_tame
      & sql_opt-Fits show r.pressure_abs_hpa show_tame
      & sql_opt-Fits show r.wind_speed_ms show_tame
      & sql_opt-Fits show r.wind_gust_ms show_tame
      & sql_opt-Fits int_text r.wind_dir_deg tame-int_text
      & sql_opt-Fits show r.rain_rate_mmh show_tame
      & sql_opt-Fits show r.rain_daily_mm show_tame
      & sql_opt-Fits show r.uv_index show_tame
      & sql_opt-Fits show r.solar_wm2 show_tame
      & sql_opt-Fits show r.cloud_cover_pct show_tame
      & quoted-Fits _
      & or_null-Fits r.raw
      & tt

  pub insert_weather_reading-Safe :
      (r : WeatherReadingRow D) → Safe (Readings.insert_weather_reading show r)
  unfolding Readings.insert_weather_reading tame is_tame is_quote sound starts_code sql
  insert_weather_reading-Safe r = only-Safe _ insert_id (
      separated-Fits ", " (map one (Readings.weather_values show r)) comma-Separates
        (map-one-Fits (Readings.weather_values show r) (weather_values-Fits r)) (sql ")" ∷ []) refl
        refl)
