-- ===== src/Export/Runner/Watermark.antt =====
-- When a run moves the target's watermark.
use night_watcher.Base.{
  ◌≡◌, refl, ap, ◌∙◌, ◌⊎◌, inl, inr, Option, none, some, List, [], ◌∷◌, ◌++◌, Bytes, Exception,
  Result, ok, err, arith, Option-cases, Result-cases,
}
use night_watcher.Db.{SensorRow, ReadingRow, WeatherReadingRow, ExportTargetRow, ExportLogRow}
use night_watcher.Export.TimeUtil.{local_month_bounds_utc, fmt_sql_utc}
use night_watcher.Export.Runner.{
  push, on_failure, log_success, collect_ambient, co_located, sole_active, ambient_of,
  push_incremental, push_month, push_months, push_fresh, export_fresh, run_export, with_sensor,
  finish, push_all, context, month_ref, months_of, newest_from, fresh_of, zone_of,
}
use night_watcher.Export.Run.{
  Environment, Exporter, ExportContext, ExportResult, ExportRunResult, Written, Run, query, ◌>>=◌,
  Windowing, monthly, incremental, empty_summary, after, new_log, k_max_rows, with_error,
  with_result, add_file,
}
use night_watcher.Export.Runner.Marks.{
  marks, marks-logged, marks-watermark, Keeps, Keeps->>=, Keeps-query,
}

module _ {D : Type 0} (env : Environment D) where
  on_failure-Keeps : (log : ExportLogRow) (e : Exception) → Keeps (on_failure env log e)
  unfolding on_failure
  on_failure-Keeps log e w = ground (arith, marks-logged w (with_error log e))

  log_success-Keeps : (log : ExportLogRow) (res : ExportResult) → Keeps (log_success env log res)
  unfolding log_success
  log_success-Keeps log res w = elim (Option-cases (env.insert_export_log (with_result log res))) [
    | inl e ↦ rw (e, log_success) (marks-logged w (with_result log res))
    | inr (e, h) ↦ rw (h, log_success) (on_failure-Keeps (with_result log res) e w)
  ]

  push-Keeps :
      (exporter : Exporter D) (log : ExportLogRow) (ctx : ExportContext D)
      → Keeps (push env exporter log ctx)
  unfolding push
  push-Keeps exporter log ctx w = elim (Result-cases (exporter.export_run ctx)) [
    | inl (res, h) ↦ rw (h, push) (log_success-Keeps log res w)
    | inr (e, h) ↦ rw (h, push) (on_failure-Keeps log e w)
  ]

  collect_ambient-Keeps :
      (sensor : SensorRow D) (from_ts to_ts : Bytes)
      → Keeps (collect_ambient env sensor from_ts to_ts)
  unfolding collect_ambient
  collect_ambient-Keeps sensor from_ts to_ts =
      Keeps->>= (co_located env sensor) _ at_site
        λ id. Keeps->>= (sole_active env id) _ (active id) λ station. readings station
    where
      at_site : Keeps (co_located env sensor)
      at_site w = ground arith

      active : (id : Bytes) → Keeps (sole_active env id)
      active id w = ground arith

      readings : (station : Bytes) → Keeps (ambient_of env from_ts to_ts station)
      readings station w = ground arith

  push_incremental-Keeps :
      (t : ExportTargetRow) (sensor : SensorRow D) (exporter : Exporter D) (now : Bytes)
      (fresh : List (ReadingRow D))
      → Keeps (push_incremental env t sensor exporter now fresh)
  unfolding push_incremental
  push_incremental-Keeps t sensor exporter now fresh =
      Keeps->>= (collect_ambient env sensor t.last_export_ts now) _
        (collect_ambient-Keeps sensor t.last_export_ts now)
        λ weather.
          Keeps->>= (push env exporter (log) (ctx weather)) _
            (push-Keeps exporter log (ctx weather)) λ res w. refl
    where
      log : ExportLogRow
      log = new_log t.id t.last_export_ts now

      ctx : List (WeatherReadingRow D) → ExportContext D
      ctx weather = context sensor fresh weather t.last_export_ts now

  push_month-Keeps :
      (t : ExportTargetRow) (sensor : SensorRow D) (exporter : Exporter D) (bounds : Bytes × Bytes)
      → Keeps (push_month env t sensor exporter bounds)
  unfolding push_month
  push_month-Keeps t sensor exporter (from_utc, to_utc) =
      Keeps->>= (query rows) (λ r. push env exporter log (ctx r)) (Keeps-query rows)
        λ r. push-Keeps exporter log (ctx r)
    where
      rows : Result (List (ReadingRow D))
      rows = env.readings_between t.sensor_id from_utc to_utc k_max_rows

      log : ExportLogRow
      log = new_log t.id from_utc to_utc

      ctx : List (ReadingRow D) → ExportContext D
      ctx r = context sensor r [] from_utc to_utc

  push_months-Keeps :
      (t : ExportTargetRow) (sensor : SensorRow D) (exporter : Exporter D) (tz : Bytes)
      (fresh : List (ReadingRow D)) (months : List Bytes) (summary : ExportRunResult)
      → Keeps (push_months env t sensor exporter tz fresh months summary)
  unfolding push_months
  push_months-Keeps t sensor exporter tz fresh [] summary = λ w. refl
  push_months-Keeps t sensor exporter tz fresh (ym ∷ months) summary =
      Keeps->>= (push_month env t sensor exporter bounds)
        (λ res. push_months env t sensor exporter tz fresh months (add_file summary res))
        (push_month-Keeps t sensor exporter bounds)
        λ res. push_months-Keeps t sensor exporter tz fresh months (add_file summary res)
    where
      bounds : Bytes × Bytes
      bounds = local_month_bounds_utc env.libc (month_ref env tz ym fresh) tz

  push_fresh-Keeps :
      (t : ExportTargetRow) (sensor : SensorRow D) (exporter : Exporter D) (tz now : Bytes)
      (fresh : List (ReadingRow D)) (windowing : Windowing)
      → Keeps (push_fresh env t sensor exporter tz now fresh windowing)
  unfolding push_fresh
  push_fresh-Keeps t sensor exporter tz now fresh incremental =
      push_incremental-Keeps t sensor exporter now fresh
  push_fresh-Keeps t sensor exporter tz now fresh monthly =
      push_months-Keeps t sensor exporter tz fresh (months_of env tz fresh []) empty_summary

  -- What a run leaves: behind an exception the watermark is where it was; with nothing fresh nothing
  -- is written; else the one watermark written is that of the summary.
  abbrev pub Marked :
      ExportTargetRow → List Written → Result ExportRunResult × List Written → Type 0
  Marked t w (err e, w') = marks w' ≡ marks w
  Marked t w (ok s, w') =
      ((s ≡ empty_summary) × (w' ≡ w)) ⊎ (marks w' ≡ marks w ++ (t.id, s.last_ts) ∷ [])

  Marked->>= :
      {A : Type 0} (t : ExportTargetRow) (w : List Written) (m : Run A)
      (f : A → Run ExportRunResult)
      → Keeps m
      → ((a : A) (v : List Written) → marks v ≡ marks w → Marked t w (f a v))
      → (v : List Written) → marks v ≡ marks w
      → Marked t w ((m >>= f) v)
  Marked->>= {A} t w m f km kf v e = by_result (m v).0
    where
      by_result : (r : Result A) → Marked t w (after f r (m v).1)
      by_result (ok a) = kf a (m v).1 (km v ∙ e)
      by_result (err x) = km v ∙ e

  finish-Marked :
      (t : ExportTargetRow) (w : List Written) (newest : Bytes) (s : ExportRunResult)
      (v : List Written)
      → marks v ≡ marks w
      → Marked t w (finish env t newest s v)
  unfolding finish
  finish-Marked t w newest s v e = elim (Option-cases (env.set_export_watermark t.id newest)) [
    | inl h ↦
        rw (h, finish) (inr (marks-watermark v t.id newest ∙ ap (λ m. m ++ (t.id, newest) ∷ []) e))
    | inr (x, h) ↦ rw (h, finish) e
  ]

  export_fresh-Marked :
      (t : ExportTargetRow) (sensor : SensorRow D) (tz now : Bytes) (fresh : List (ReadingRow D))
      (w : List Written)
      → Marked t w (export_fresh env t sensor tz now fresh w)
  unfolding export_fresh
  export_fresh-Marked t sensor tz now [] w = inl (refl, refl)
  export_fresh-Marked t sensor tz now (r ∷ more) w =
      Marked->>= t w (query (env.make_exporter t.target t.config))
        (push_all env t sensor tz now (r ∷ more))
        (Keeps-query (env.make_exporter t.target t.config))
        (λ exporter.
          Marked->>= t w (push_fresh env t sensor exporter tz now (r ∷ more) exporter.windowing)
            (finish env t (newest_from [] (r ∷ more)))
            (push_fresh-Keeps t sensor exporter tz now (r ∷ more) exporter.windowing)
            (λ s v e. finish-Marked t w (newest_from [] (r ∷ more)) s v e))
        w refl

  with_sensor-Marked :
      (t : ExportTargetRow) (found : Option (SensorRow D)) (w : List Written)
      → Marked t w (with_sensor env t found w)
  unfolding with_sensor
  with_sensor-Marked t none w = refl
  with_sensor-Marked t (some sensor) w =
      by_rows (
        env.readings_between t.sensor_id t.last_export_ts (fmt_sql_utc env.libc env.now) k_max_rows)
    where
      continue : List (ReadingRow D) → Run ExportRunResult
      continue rows =
          export_fresh env t sensor (zone_of env t sensor) (fmt_sql_utc env.libc env.now)
            (fresh_of t.last_export_ts rows)

      by_rows : (r : Result (List (ReadingRow D))) → Marked t w (after continue r w)
      by_rows (ok rows) =
          export_fresh-Marked t sensor (zone_of env t sensor) (fmt_sql_utc env.libc env.now)
            (fresh_of t.last_export_ts rows) w
      by_rows (err x) = refl

  -- A run that throws has moved no watermark, whatever part of it had been done. A run that returns
  -- has either written nothing, with an empty summary, or has written exactly one watermark, that of
  -- its target and of the summary.
  pub run_export-Marked : (t : ExportTargetRow) (w : List Written) → Marked t w (run_export env t w)
  unfolding run_export
  run_export-Marked t w = by_found (env.find_sensor t.sensor_id)
    where
      by_found : (r : Result (Option (SensorRow D))) → Marked t w (after (with_sensor env t) r w)
      by_found (ok found) = with_sensor-Marked t found w
      by_found (err x) = refl
