-- ===== src/Export/Schedule.antt =====
-- src/export/export_scheduler.cpp: the worker of an export target.
-- What the database, the clock and the run answer in a cycle of the loop is in `ExportCycle`.
-- Log lines on stderr are left out.
pub mod Due
use night_watcher.Base.{
  ℕ, ◌+◌, Bool, true, false, not, ◌&&◌, ◌||◌, Option, none, some, List, [], ◌∷◌, ◌++◌,
  if◌then◌else◌, ltb, Bytes, codes, bytes_eq, Exception, what, Result, ok, err,
}
use night_watcher.Base.Int.{ℤ, pos, ◌-ℤ◌, leb_ℤ, ltb_ℤ, to_int32}
use night_watcher.Db.{ExportTargetRow, Event}
use night_watcher.Export.TimeUtil.{
  Libc, scan_int, scan_char, next_local_hhmm_utc, next_local_weekly_utc, next_local_monthly_utc,
}
use night_watcher.Export.Run.{ExportRunResult}
use night_watcher.Text.{to_string}

-- sscanf(s, "%d:%d", …) with both items assigned.
unfoldable pub scan_hhmm : Bytes → Option (ℤ × ℤ)
unfolding scan_int scan_char
scan_hhmm s = elim (scan_int s) [
  | none ↦ none
  | some (h, s₁) ↦ elim (scan_char b':' s₁) [
    | none ↦ none
    | some s₂ ↦ elim (scan_int s₂) [ none ↦ none | some (m, _) ↦ some (h, m) ]
  ]
]

unfoldable pub parse_hhmm : Bytes → ℤ × ℤ
unfolding scan_hhmm
parse_hhmm s = elim (scan_hhmm s) [
  | none ↦ (pos 6, pos 0)
  | some (h, m) ↦
      if ltb_ℤ h (pos 0) || ltb_ℤ (pos 23) h || ltb_ℤ m (pos 0) || ltb_ℤ (pos 59) m
      then (pos 6, pos 0)
      else (h, m)
]

-- ExportScheduler::start: the targets that get a worker.
unfoldable pub export_start : List ExportTargetRow → List ExportTargetRow
export_start [] = []
export_start (t ∷ targets) =
    let rest = export_start targets in
    if bytes_eq t.schedule (codes "manual") then rest else t ∷ rest

abbrev pub value_or : Option ℤ → ℤ → ℤ
value_or none d = d
value_or (some v) d = v

unfoldable pub interval_wait : Option ℤ → ℤ
interval_wait none = pos 3600
interval_wait (some v) = if ltb_ℤ (pos 0) v then v else pos 3600

module _ (c : Libc) where
  -- When a target that is not on an interval is due.
  unfoldable pub next_due : ExportTargetRow → Bytes → ℤ → ℤ
  unfolding parse_hhmm
  next_due t tz now =
      let clock = parse_hhmm t.schedule_time in
      if bytes_eq t.schedule (codes "weekly")
      then next_local_weekly_utc c (value_or t.schedule_day (pos 0)) clock.0 clock.1 tz now
      else if bytes_eq t.schedule (codes "monthly")
      then next_local_monthly_utc c (value_or t.schedule_day (pos 1)) clock.0 clock.1 tz now
      else next_local_hhmm_utc c clock.0 clock.1 tz now

  unfoldable pub wait_of : ExportTargetRow → Bytes → ℤ → ℤ
  unfolding next_due interval_wait
  wait_of t tz now =
      if bytes_eq t.schedule (codes "interval")
      then interval_wait t.interval_s
      else (let wait_s = to_int32 (next_due t tz now -ℤ now) in
          if ltb_ℤ wait_s (pos 1) then pos 1 else wait_s)

-- What a cycle meets: the target as reloaded, the time, whether stop is requested by the end of the
-- wait, the run, and how the inserts of the two events answer.
pub record ExportCycle : Type 0 where
  pub target : Result (Option ExportTargetRow)
  pub now : ℤ
  pub stop_requested : Bool
  pub run_result : Result ExportRunResult
  pub info_insert : Option Exception
  pub error_insert : Option Exception

-- How a worker ends: an exception of the reload or of the sensor's lookup leaves the thread's
-- function, which ends the process; `running` is where the list of cycles ends.
pub data Ending : Type 0 where
  no_database inactive stopped running : Ending
  terminated : Exception → Ending

pub record ExportOutcome : Type 0 where
  pub wait_s : ℤ
  pub exported : Bool
  pub stored : List Event

module _ (t : ExportTargetRow) where
  export_event : Bytes → Bytes → Bytes → Event
  export_event level name detail = record {
    source = codes "export";
    level = level;
    event = name;
    detail = detail;
    device_id = t.id;
  }

  on_export_error : Exception → Option Exception → List Event
  unfolding export_event
  on_export_error e none = export_event (codes "error") (codes "export_error") (what e) ∷ []
  on_export_error e (some f) = []

  detail_of : ExportRunResult → Bytes
  unfolding to_string
  detail_of res =
      to_string res.rows ++ codes " reading(s), " ++ to_string res.files ++ codes " file(s)"

  -- The two try blocks behind the wait: an exception of the first insert is reported like one of the
  -- run.
  unfoldable pub report : Result ExportRunResult → Option Exception → Option Exception → List Event
  unfolding on_export_error detail_of export_event
  report (err e) info_insert error_insert = on_export_error e error_insert
  report (ok res) none error_insert =
      if ltb 0 res.files
      then export_event (codes "info") (codes "export") (detail_of res) ∷ []
      else []
  report (ok res) (some e) error_insert =
      if ltb 0 res.files then on_export_error e error_insert else []

  module _ (c : Libc) (tz : Bytes) where
    unfoldable pub export_cycle : ExportTargetRow → ExportCycle → ExportOutcome
    unfolding wait_of report
    export_cycle cur k = record {
      wait_s = wait_of c cur tz k.now;
      exported = not k.stop_requested;
      stored = if k.stop_requested then [] else report k.run_result k.info_insert k.error_insert;
    }

    unfoldable pub export_loop : List ExportCycle → List ExportOutcome × Ending
    unfolding export_cycle
    export_loop [] = ([], running)
    export_loop (k ∷ cycles) =
        let rest = export_loop cycles in
        elim k.target [
          | err e ↦ ([], terminated e)
          | ok none ↦ ([], inactive)
          | ok (some cur) ↦
              if not (bytes_eq cur.status (codes "active"))
              then ([], inactive)
              else if k.stop_requested
              then (export_cycle cur k ∷ [], stopped)
              else (export_cycle cur k ∷ rest.0, rest.1)
        ]

  -- ExportScheduler::worker; `zone` is what looking up the sensor's zone comes to, empty without a
  -- sensor.
  unfoldable pub export_worker :
      Libc
      → (connecting : Option Exception) → (zone : Result Bytes) → List ExportCycle
      → List ExportOutcome × Ending
  unfolding export_loop
  export_worker c (some e) zone cycles = ([], no_database)
  export_worker c none (err e) cycles = ([], terminated e)
  export_worker c none (ok tz) cycles = export_loop c tz cycles
