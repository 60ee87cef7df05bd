-- ===== src/Database/Accounts.antt =====
-- src/db/database.cpp: the methods on `users`, `sessions`, `settings` and `extensions`, and
-- query_recent.
use Prim.Native.String.{String}
use night_watcher.Base.{
  Option, none, some, Bool, true, false, List, Bytes, [], ◌∷◌, if◌then◌else◌, ltb, map, codes,
}
use night_watcher.Base.Int.{ℤ, pos, ltb_ℤ}
use night_watcher.Database.{
  Row, code, named, Db, ret, ◌>>=◌, ◌>>◌, exec, select, store_result, all_rows, first_row, sql,
  quoted, int_text, at_least_one, affected_rows, text_at, read_or, until_nul, ResultSet, atoll,
}
use night_watcher.Database.Rows.{
  k_user_cols, k_ext_cols, user_from_row, session_from_row, extension_from_row,
}
use night_watcher.Database.RowTypes.{UserRow, SessionInfo, ExtensionRow}

unfoldable pub get_setting : Bytes → Db (Option Bytes)
unfolding sql exec store_result first_row text_at ◌>>=◌
get_setting name = do
  a ← exec (sql "SELECT value FROM settings WHERE name=" ∷ quoted name ∷ sql " LIMIT 1" ∷ [])
  res ← store_result (codes "get_setting: ") a
  ret (first_row (λ row. text_at row 0) res)

unfoldable pub set_setting : Bytes → Bytes → Db Unit
unfolding sql exec ◌>>=◌ ◌>>◌
set_setting name value = do
  exec (
      sql "INSERT INTO settings (name, value) VALUES ("
      ∷ quoted name
      ∷ sql ", "
      ∷ quoted value
      ∷ sql ") ON DUPLICATE KEY UPDATE value=VALUES(value)"
      ∷ [])
  ret tt

unfoldable pub delete_setting : Bytes → Db Unit
unfolding sql exec ◌>>=◌ ◌>>◌
delete_setting name = do exec (sql "DELETE FROM settings WHERE name = " ∷ quoted name ∷ []); ret tt

-- `if (MYSQL_ROW row = mysql_fetch_row(res)) n = row[0] ? std::atoll(row[0]) : 0`, with `n` 0
-- at the start.
unfoldable pub counted : ResultSet → ℤ
unfolding read_or
counted res = elim res.rows [ [] ↦ pos 0 | row ∷ rows ↦ read_or (pos 0) atoll row 0 ]

unfoldable pub count_users : Db ℤ
unfolding sql select counted ◌>>=◌
count_users = do res ← select (sql "SELECT COUNT(*) FROM users" ∷ []); ret (counted res)

unfoldable pub bool_text : Bool → String
bool_text b = if b then "1" else "0"

unfoldable pub create_user : Bytes → Bytes → Bytes → Bool → Db Unit
unfolding sql bool_text exec ◌>>=◌ ◌>>◌
create_user username password_hash role must_change_password = do
  exec (
      sql "INSERT INTO users (username, password_hash, role, must_change_password) VALUES ("
      ∷ quoted username
      ∷ sql ", "
      ∷ quoted password_hash
      ∷ sql ", "
      ∷ quoted role
      ∷ sql ", "
      ∷ sql (bool_text must_change_password)
      ∷ sql ")"
      ∷ [])
  ret tt

unfoldable pub find_user : Bytes → Db (Option UserRow)
unfolding sql select first_row ◌>>=◌
find_user username = do
  res ← select (
      sql "SELECT "
      ∷ sql k_user_cols
      ∷ sql " FROM users WHERE username="
      ∷ quoted username
      ∷ sql " LIMIT 1"
      ∷ [])
  ret (first_row user_from_row res)

unfoldable pub users : Db (List UserRow)
unfolding sql select all_rows ◌>>=◌
users = do
  res ← select (sql "SELECT " ∷ sql k_user_cols ∷ sql " FROM users ORDER BY username" ∷ [])
  ret (all_rows user_from_row res)

unfoldable pub change_found : Bytes → Bytes → Bool → Option UserRow → Db Bool
unfolding sql bool_text exec ◌>>=◌ ◌>>◌
change_found username password_hash must_change_password none = ret false
change_found username password_hash must_change_password (some row) = do
  exec (
      sql "UPDATE users SET password_hash="
      ∷ quoted password_hash
      ∷ sql ", must_change_password="
      ∷ sql (bool_text must_change_password)
      ∷ sql " WHERE username="
      ∷ quoted username
      ∷ [])
  ret true

unfoldable pub set_user_password : Bytes → Bytes → Bool → Db Bool
unfolding find_user change_found ◌>>=◌
set_user_password username password_hash must_change_password = do
  row ← find_user username
  change_found username password_hash must_change_password row

unfoldable pub delete_user : Bytes → Db Bool
unfolding sql exec affected_rows ◌>>=◌
delete_user username = do
  a ← exec (sql "DELETE FROM users WHERE username=" ∷ quoted username ∷ [])
  ret (ltb 0 (affected_rows a))

unfoldable pub create_session : Bytes → ℤ → ℤ → Db Unit
unfolding sql int_text exec ◌>>=◌ ◌>>◌
create_session token user_id ttl_seconds = do
  exec (
      sql "INSERT INTO sessions (token, user_id, expires_at) VALUES ("
      ∷ quoted token
      ∷ sql ", "
      ∷ code (int_text user_id)
      ∷ sql ", UTC_TIMESTAMP() + INTERVAL "
      ∷ code (int_text ttl_seconds)
      ∷ sql " SECOND)"
      ∷ [])
  ret tt

unfoldable pub validate_session : Bytes → Db (Option SessionInfo)
unfolding sql select first_row ◌>>=◌
validate_session token = do
  res ← select (
      sql
        "SELECT u.id, u.username, u.role FROM sessions s JOIN users u ON u.id = s.user_id WHERE s.token="
      ∷ quoted token
      ∷ sql " AND s.expires_at > UTC_TIMESTAMP() LIMIT 1"
      ∷ [])
  ret (first_row session_from_row res)

unfoldable pub delete_session : Bytes → Db Unit
unfolding sql exec ◌>>=◌ ◌>>◌
delete_session token = do exec (sql "DELETE FROM sessions WHERE token=" ∷ quoted token ∷ []); ret tt

unfoldable pub delete_expired_sessions : Db Unit
unfolding sql exec ◌>>=◌ ◌>>◌
delete_expired_sessions = do
  exec (sql "DELETE FROM sessions WHERE expires_at <= UTC_TIMESTAMP()" ∷ [])
  ret tt

unfoldable pub extensions : Db (List ExtensionRow)
unfolding sql select all_rows ◌>>=◌
extensions = do
  res ← select (sql "SELECT " ∷ sql k_ext_cols ∷ sql " FROM extensions ORDER BY name" ∷ [])
  ret (all_rows extension_from_row res)

unfoldable pub find_extension : Bytes → Db (Option ExtensionRow)
unfolding sql select first_row ◌>>=◌
find_extension name = do
  res ←
      select
        (sql "SELECT " ∷ sql k_ext_cols ∷ sql " FROM extensions WHERE name=" ∷ quoted name ∷ [])
  ret (first_row extension_from_row res)

pub record TableData : Type 0 where
  pub columns : List Bytes
  pub rows : List (List (Option Bytes))

-- The cells 0 to nf - 1 of a row, `nf` the number of fields.
unfoldable pub cells : List Bytes → Row → List (Option Bytes)
unfolding until_nul
cells [] row = []
cells (f ∷ fields) [] = none ∷ cells fields []
cells (f ∷ fields) (none ∷ row) = none ∷ cells fields row
cells (f ∷ fields) (some v ∷ row) = some (until_nul v) ∷ cells fields row

-- `if (limit < 1) limit = 1; if (limit > 5000) limit = 5000`.
unfoldable pub clamped : ℤ → ℤ
unfolding at_least_one
clamped limit = let l = at_least_one limit in if ltb_ℤ (pos 5000) l then pos 5000 else l

unfoldable pub table_data : ResultSet → TableData
unfolding cells until_nul
table_data res = record {
  columns = map until_nul res.fields;
  rows = map (cells res.fields) res.rows;
}

unfoldable pub query_recent : Bytes → ℤ → Db TableData
unfolding sql clamped int_text select table_data ◌>>=◌
query_recent table limit = do
  res ← select (
      sql "SELECT * FROM "
      ∷ named table
      ∷ sql " ORDER BY id DESC LIMIT "
      ∷ code (int_text (clamped limit))
      ∷ [])
  ret (table_data res)
