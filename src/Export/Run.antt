-- ===== src/Export/Run.antt =====
-- src/export/exporter.hpp and export_runner.cpp: what a run passes on, what it asks of the database and
-- of the exporter, and the rows that it writes, as a state passing computation.
use night_watcher.Base.{
  ℕ, ◌+◌, Bool, true, false, ◌&&◌, ◌||◌, Option, none, some, List, [], ◌∷◌, ◌++◌, if◌then◌else◌,
  ◌==◌, ltb, Bytes, codes, Exception, what, Result, ok, err,
}
use night_watcher.Base.Int.{ℤ, pos}
use night_watcher.Db.{SensorRow, ReadingRow, WeatherStationRow, WeatherReadingRow, ExportLogRow}
use night_watcher.Export.TimeUtil.{Libc}

abbrev pub k_max_rows : ℕ
k_max_rows = 200000

-- operator< of std::string.
unfoldable pub bytes_lt : Bytes → Bytes → Bool
bytes_lt s [] = false
bytes_lt [] (y ∷ t) = true
bytes_lt (x ∷ s) (y ∷ t) = ltb x y || (x == y && bytes_lt s t)

pub record ExportContext (D : Type 0) : Type 0 where
  pub sensor : SensorRow D
  pub readings : List (ReadingRow D)
  pub weather : List (WeatherReadingRow D)
  pub from_ts : Bytes
  pub to_ts : Bytes

pub record ExportResult : Type 0 where
  pub file_name : Bytes
  pub remote_id : Bytes
  pub row_count : ℕ

pub data Windowing : Type 0 where
  monthly incremental : Windowing

pub record Exporter (D : Type 0) : Type 0 where
  pub windowing : Windowing
  pub export_run : ExportContext D → Result ExportResult

pub record ExportRunResult : Type 0 where
  pub files : ℕ
  pub rows : ℕ
  pub last_ts : Bytes
  pub file_names : List Bytes

abbrev pub empty_summary : ExportRunResult
empty_summary = record { files = 0; rows = 0; last_ts = []; file_names = [] }

pub record Environment (D : Type 0) : Type 0 where
  pub libc : Libc
  pub now : ℤ
  pub find_sensor : Bytes → Result (Option (SensorRow D))
  pub readings_between : Bytes → Bytes → Bytes → ℕ → Result (List (ReadingRow D))
  pub weather_stations : Result (List (WeatherStationRow D))
  pub active_weather_stations : Result (List (WeatherStationRow D))
  pub weather_readings_between : Bytes → Bytes → Bytes → ℕ → Result (List (WeatherReadingRow D))
  pub insert_export_log : ExportLogRow → Option Exception
  pub set_export_watermark : Bytes → Bytes → Option Exception
  -- The string under "timezone" of a JSON text, if it parses to an object that has one.
  pub config_timezone : Bytes → Option Bytes
  pub make_exporter : Bytes → Bytes → Result (Exporter D)

-- What a run has written.
pub data Written : Type 0 where
  logged : ExportLogRow → Written
  watermark : Bytes → Bytes → Written

abbrev pub Run : Type 0 → Type 0
Run A = List Written → Result A × List Written

abbrev pub after : {A B : Type 0} → (A → Run B) → Result A → List Written → Result B × List Written
after f (ok a) w = f a w
after f (err e) w = (err e, w)

infixl 5 ◌>>=◌
abbrev pub ◌>>=◌ : {A B : Type 0} → Run A → (A → Run B) → Run B
◌>>=◌ m f w = after f (m w).0 (m w).1

abbrev pub pure : {A : Type 0} → A → Run A
pure a w = (ok a, w)

abbrev pub throw : {A : Type 0} → Exception → Run A
throw e w = (err e, w)

-- A query: it writes nothing.
abbrev pub query : {A : Type 0} → Result A → Run A
query r w = (r, w)

-- A statement: its row is written, or it throws.
abbrev pub statement : Option Exception → Written → Run (Unit {0})
statement none row w = (ok tt, w ++ row ∷ [])
statement (some e) row w = (err e, w)

abbrev pub with_result : ExportLogRow → ExportResult → ExportLogRow
with_result log res = record log {
  row_count = res.row_count;
  file_name = res.file_name;
  remote_id = res.remote_id;
  status = if ltb 0 res.row_count then codes "ok" else codes "empty";
}

abbrev pub with_error : ExportLogRow → Exception → ExportLogRow
with_error log e = record log { status = codes "error"; detail = what e }

unfoldable pub new_log : Bytes → Bytes → Bytes → ExportLogRow
new_log target from_ts to_ts = record {
  id = pos 0;
  target_id = target;
  ts_utc = [];
  from_ts = from_ts;
  to_ts = to_ts;
  row_count = 0;
  file_name = [];
  remote_id = [];
  status = [];
  detail = [];
}

abbrev pub add_file : ExportRunResult → ExportResult → ExportRunResult
add_file summary res = record summary {
  files = summary.files + 1;
  rows = summary.rows + res.row_count;
  file_names = summary.file_names ++ res.file_name ∷ [];
}
