-- ===== src/Database/Records.antt =====
-- src/db/database.cpp: the methods on `events` and `export_log`, and the deletion of readings.
use night_watcher.Base.{List, Bytes, [], ◌∷◌, ℕ}
use night_watcher.Base.Int.{ℤ}
use night_watcher.Database.{
  code, Db, ret, ◌>>=◌, ◌>>◌, exec, select, all_rows, sql, quoted, or_null, or_now, int_text,
  at_least_one, insert_id, affected_rows,
}
use night_watcher.Database.Rows.{
  k_event_cols, k_export_log_cols, event_from_row, exportlog_from_row,
}
use night_watcher.Database.RowTypes.{EventRow, ExportLog}
use night_watcher.Database.Readings.{or_default}

unfoldable pub insert_event : Bytes → Bytes → Bytes → Bytes → Bytes → Db Unit
unfolding sql or_null exec ◌>>=◌ ◌>>◌
insert_event source level event detail device_id = do
  exec (
      sql "INSERT INTO events (ts_utc, device_id, source, level, event, detail) VALUES ("
      ∷ sql "UTC_TIMESTAMP(), "
      ∷ or_null device_id
      ∷ sql ", "
      ∷ quoted source
      ∷ sql ", "
      ∷ quoted level
      ∷ sql ", "
      ∷ quoted event
      ∷ sql ", "
      ∷ or_null detail
      ∷ sql ")"
      ∷ [])
  ret tt

unfoldable pub recent_events : ℤ → Db (List EventRow)
unfolding sql select at_least_one int_text all_rows ◌>>=◌
recent_events limit = do
  res ← select (
      sql "SELECT "
      ∷ sql k_event_cols
      ∷ sql " FROM events ORDER BY id DESC LIMIT "
      ∷ code (int_text (at_least_one limit))
      ∷ [])
  ret (all_rows event_from_row res)

unfoldable pub insert_export_log : ExportLog → Db ℕ
unfolding sql or_now or_null or_default int_text exec insert_id ◌>>=◌
insert_export_log r = do
  a ← exec (
      sql
        "INSERT INTO export_log (target_id, ts_utc, from_ts, to_ts, row_count, file_name, remote_id, status, detail) VALUES ("
      ∷ quoted r.target_id
      ∷ sql ", "
      ∷ or_now r.ts_utc
      ∷ sql ", "
      ∷ or_null r.from_ts
      ∷ sql ", "
      ∷ or_null r.to_ts
      ∷ sql ", "
      ∷ code (int_text r.row_count)
      ∷ sql ", "
      ∷ or_null r.file_name
      ∷ sql ", "
      ∷ or_null r.remote_id
      ∷ sql ", "
      ∷ quoted (or_default "ok" r.status)
      ∷ sql ", "
      ∷ or_null r.detail
      ∷ sql ")"
      ∷ [])
  ret (insert_id a)

unfoldable pub export_log : Bytes → ℤ → Db (List ExportLog)
unfolding sql select at_least_one int_text all_rows ◌>>=◌
export_log target_id limit = do
  res ← select (
      sql "SELECT "
      ∷ sql k_export_log_cols
      ∷ sql " FROM export_log WHERE target_id="
      ∷ quoted target_id
      ∷ sql " ORDER BY ts_utc DESC, id DESC LIMIT "
      ∷ code (int_text (at_least_one limit))
      ∷ [])
  ret (all_rows exportlog_from_row res)

unfoldable pub delete_readings_before : Bytes → Bytes → Db ℕ
unfolding sql exec affected_rows ◌>>=◌
delete_readings_before sensor_id ts_utc = do
  a ← exec (
      sql "DELETE FROM readings WHERE sensor_id="
      ∷ quoted sensor_id
      ∷ sql " AND ts_utc < "
      ∷ quoted ts_utc
      ∷ [])
  ret (affected_rows a)
