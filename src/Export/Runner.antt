-- ===== src/Export/Runner.antt =====
-- src/export/export_runner.cpp: one export run for a target.
-- The database's queries and the exporter are parameters (`Environment`); an insert or update
-- answers `none`, or the exception that it throws. A run is a state passing computation over the
-- rows that it has written so far.
pub mod Marks
pub mod Fresh
pub mod Watermark
use night_watcher.Base.{
  ℕ, zero, suc, ◌+◌, ◌<◌, Bool, true, false, not, ◌&&◌, ◌||◌, Option, none, some, List, [], ◌∷◌,
  ◌++◌, map, reverse, if◌then◌else◌, ◌==◌, ltb, is_empty, Bytes, codes, bytes_eq, length, Exception,
  what, runtime_error, Result, ok, err,
}
use night_watcher.Base.Int.{ℤ, pos}
use night_watcher.Db.{
  SensorRow, ReadingRow, WeatherStationRow, WeatherReadingRow, ExportTargetRow, ExportLogRow,
}
use night_watcher.Export.TimeUtil.{Libc, local_ym, local_month_bounds_utc, fmt_sql_utc}
use night_watcher.Export.Run.{
  k_max_rows, bytes_lt, ExportContext, ExportResult, Windowing, monthly, incremental, Exporter,
  ExportRunResult, empty_summary, Environment, Written, logged, watermark, Run, after, ◌>>=◌, pure,
  throw, query, statement, with_result, with_error, new_log, add_file,
}

module _ {D : Type 0} where
  -- The readings that the erase leaves: none is left out without a watermark.
  unfoldable pub newer_than : Bytes → List (ReadingRow D) → List (ReadingRow D)
  newer_than wm [] = []
  newer_than wm (r ∷ rows) =
      let rest = newer_than wm rows in if bytes_lt wm r.ts_utc then r ∷ rest else rest

  unfoldable pub fresh_of : Bytes → List (ReadingRow D) → List (ReadingRow D)
  unfolding newer_than
  fresh_of wm rows = if is_empty wm then rows else newer_than wm rows

  unfoldable pub newest_from : Bytes → List (ReadingRow D) → Bytes
  newest_from newest [] = newest
  newest_from newest (r ∷ rows) =
      newest_from (if bytes_lt newest r.ts_utc then r.ts_utc else newest) rows

  -- The first station at the site.
  unfoldable pub station_at : Bytes → List (WeatherStationRow D) → Bytes
  station_at site [] = []
  station_at site (w ∷ stations) =
      let rest = station_at site stations in if bytes_eq w.site site then w.id else rest

  unfoldable pub sole : List (WeatherStationRow D) → Bytes
  sole (w ∷ []) = w.id
  sole _ = []

  -- Queries list the newest first; an exporter takes the oldest first.
  abbrev pub context :
      SensorRow D
      → List (ReadingRow D)
      → List (WeatherReadingRow D)
      → Bytes
      → Bytes
      → ExportContext D
  context sensor rows weather from_ts to_ts = record {
    sensor = sensor;
    readings = reverse rows;
    weather = weather;
    from_ts = from_ts;
    to_ts = to_ts;
  }

-- std::set::insert, on a sorted list without duplicates.
unfoldable pub set_insert : Bytes → List Bytes → List Bytes
unfolding bytes_lt
set_insert k [] = k ∷ []
set_insert k (j ∷ keys) =
    let rest = set_insert k keys in
    if bytes_lt k j then k ∷ j ∷ keys else if bytes_lt j k then j ∷ rest else j ∷ keys

module _ {D : Type 0} (env : Environment D) where
  -- The catch block: an error row if it can be written, and the exception again.
  unfoldable pub on_failure : ExportLogRow → Exception → Run ExportResult
  on_failure log e w = elim (env.insert_export_log (with_error log e)) [
    | none ↦ (err e, w ++ logged (with_error log e) ∷ [])
    | some f ↦ (err e, w)
  ]

  log_success : ExportLogRow → ExportResult → Run ExportResult
  unfolding on_failure
  log_success log res w = elim (env.insert_export_log (with_result log res)) [
    | none ↦ (ok res, w ++ logged (with_result log res) ∷ [])
    | some e ↦ on_failure (with_result log res) e w
  ]

  -- The try block around one call of the exporter.
  unfoldable pub push : Exporter D → ExportLogRow → ExportContext D → Run ExportResult
  unfolding log_success on_failure
  push exporter log ctx w = elim (exporter.export_run ctx) [
    | ok res ↦ log_success log res w
    | err e ↦ on_failure log e w
  ]

  co_located : SensorRow D → Run Bytes
  co_located sensor =
      if is_empty sensor.site
      then pure []
      else (do stations ← query env.weather_stations; pure (station_at sensor.site stations))

  sole_active : Bytes → Run Bytes
  sole_active station_id =
      if is_empty station_id
      then (do active ← query env.active_weather_stations; pure (sole active))
      else pure station_id

  ambient_of : Bytes → Bytes → Bytes → Run (List (WeatherReadingRow D))
  ambient_of from_ts to_ts station_id =
      if is_empty station_id
      then pure []
      else query (env.weather_readings_between station_id from_ts to_ts k_max_rows)

  unfoldable pub collect_ambient : SensorRow D → Bytes → Bytes → Run (List (WeatherReadingRow D))
  unfolding co_located sole_active ambient_of station_at sole
  collect_ambient sensor from_ts to_ts = do
    at_site ← co_located sensor
    station_id ← sole_active at_site
    ambient_of from_ts to_ts station_id

  unfoldable pub push_incremental :
      ExportTargetRow → SensorRow D → Exporter D → Bytes → List (ReadingRow D) → Run ExportRunResult
  unfolding push collect_ambient
  push_incremental t sensor exporter now fresh = do
    weather ← collect_ambient sensor t.last_export_ts now
    res ←
        push exporter (new_log t.id t.last_export_ts now)
          (context sensor fresh weather t.last_export_ts now)
    pure (add_file empty_summary res)

  -- `months` of the local year-months, and the first fresh reading of one.
  unfoldable pub months_of : Bytes → List (ReadingRow D) → List Bytes → List Bytes
  unfolding set_insert
  months_of tz [] months = months
  months_of tz (r ∷ fresh) months =
      months_of tz fresh (set_insert (local_ym env.libc r.ts_utc tz) months)

  unfoldable pub month_ref : Bytes → Bytes → List (ReadingRow D) → Bytes
  month_ref tz ym [] = []
  month_ref tz ym (r ∷ fresh) =
      let rest = month_ref tz ym fresh in
      if bytes_eq (local_ym env.libc r.ts_utc tz) ym then r.ts_utc else rest

  push_month : ExportTargetRow → SensorRow D → Exporter D → Bytes × Bytes → Run ExportResult
  unfolding push
  push_month t sensor exporter (from_utc, to_utc) = do
    rows ← query (env.readings_between t.sensor_id from_utc to_utc k_max_rows)
    push exporter (new_log t.id from_utc to_utc) (context sensor rows [] from_utc to_utc)

  unfoldable pub push_months :
      ExportTargetRow
      → SensorRow D
      → Exporter D
      → Bytes
      → List (ReadingRow D)
      → List Bytes
      → ExportRunResult
      → Run ExportRunResult
  unfolding push_month month_ref
  push_months t sensor exporter tz fresh [] summary = pure summary
  push_months t sensor exporter tz fresh (ym ∷ months) summary = do
    let bounds = local_month_bounds_utc env.libc (month_ref tz ym fresh) tz
    res ← push_month t sensor exporter bounds
    push_months t sensor exporter tz fresh months (add_file summary res)

  push_fresh :
      ExportTargetRow
      → SensorRow D
      → Exporter D
      → Bytes
      → Bytes
      → List (ReadingRow D)
      → Windowing
      → Run ExportRunResult
  unfolding push_incremental push_months months_of
  push_fresh t sensor exporter tz now fresh incremental =
      push_incremental t sensor exporter now fresh
  push_fresh t sensor exporter tz now fresh monthly =
      push_months t sensor exporter tz fresh (months_of tz fresh []) empty_summary

  finish : ExportTargetRow → Bytes → ExportRunResult → Run ExportRunResult
  finish t newest summary = do
    _ ← statement (env.set_export_watermark t.id newest) (watermark t.id newest)
    pure (record summary { last_ts = newest })

  push_all :
      ExportTargetRow
      → SensorRow D
      → Bytes
      → Bytes
      → List (ReadingRow D)
      → Exporter D
      → Run ExportRunResult
  unfolding push_fresh newest_from finish
  push_all t sensor tz now fresh exporter = do
    summary ← push_fresh t sensor exporter tz now fresh exporter.windowing
    finish t (newest_from [] fresh) summary

  -- Behind the query for fresh readings.
  unfoldable pub export_fresh :
      ExportTargetRow → SensorRow D → Bytes → Bytes → List (ReadingRow D) → Run ExportRunResult
  unfolding push_all
  export_fresh t sensor tz now [] = pure empty_summary
  export_fresh t sensor tz now (r ∷ more) = do
    exporter ← query (env.make_exporter t.target t.config)
    push_all t sensor tz now (r ∷ more) exporter

  unfoldable pub zone_of : ExportTargetRow → SensorRow D → Bytes
  zone_of t sensor =
      if is_empty t.config
      then sensor.timezone
      else elim (env.config_timezone t.config) [ none ↦ sensor.timezone | some tz ↦ tz ]

  with_sensor : ExportTargetRow → Option (SensorRow D) → Run ExportRunResult
  unfolding export_fresh fresh_of zone_of
  with_sensor t none = throw (
      runtime_error
        (codes "export target " ++ t.id ++ codes ": no such sensor '" ++ t.sensor_id ++ codes "'"))
  with_sensor t (some sensor) = do
    let now = fmt_sql_utc env.libc env.now
    rows ← query (env.readings_between t.sensor_id t.last_export_ts now k_max_rows)
    export_fresh t sensor (zone_of t sensor) now (fresh_of t.last_export_ts rows)

  unfoldable pub run_export : ExportTargetRow → Run ExportRunResult
  unfolding with_sensor
  run_export t = do sensor ← query (env.find_sensor t.sensor_id); with_sensor t sensor
