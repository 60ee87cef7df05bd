-- ===== src/Database/Schema.antt =====
-- src/db/database.cpp: run_schema_script and schema_status.
use Prim.Native.String.{String}
use night_watcher.Base.{
  ℕ, Bool, true, false, ◌&&◌, ◌||◌, some, List, [], ◌∷◌, ◌++◌, ◌==◌, if◌then◌else◌, Bytes, codes,
  is_empty, bytes_eq,
}
use night_watcher.Base.Int.{ℤ, pos}
use night_watcher.Text.{drop_while, drop_end_while, split}
use night_watcher.Database.{Answer, accepted, code, named, Db, ret, ◌>>=◌, ◌>>◌, exec, select, sql}
use night_watcher.Database.Dump.{table_names}
use night_watcher.Database.Accounts.{counted}

-- `line.substr(0, line.find("--"))`, the whole line where there is none.
unfoldable pub before_dashes : Bytes → Bytes
before_dashes [] = []
before_dashes (c ∷ []) = c ∷ []
before_dashes (c ∷ d ∷ s) =
    let rest = before_dashes (d ∷ s) in if c == b'-' && d == b'-' then [] else c ∷ rest

unfoldable pub cleaned : List Bytes → Bytes
unfolding before_dashes
cleaned [] = []
cleaned (line ∷ lines) = before_dashes line ++ 10 ∷ cleaned lines

-- The set " \t\r\n".
unfoldable pub is_white : ℕ → Bool
is_white c = c == b' ' || c == 9 || c == 13 || c == 10

-- `stmt` without the white bytes at its ends.
unfoldable pub stripped : Bytes → Bytes
unfolding drop_while drop_end_while is_white
stripped stmt = drop_end_while is_white (drop_while is_white stmt)

unfoldable pub flush : Bytes → Db Unit
unfolding stripped exec ◌>>=◌ ◌>>◌
flush stmt =
    if is_empty (stripped stmt) then ret tt else do exec (code (stripped stmt) ∷ []); ret tt

unfoldable pub each_byte : Bytes → Bytes → Db Unit
unfolding flush ◌>>=◌ ◌>>◌
each_byte stmt [] = flush stmt
each_byte stmt (c ∷ s) = elim (c == b';') [
  | true ↦ flush stmt >> each_byte [] s
  | false ↦ each_byte (stmt ++ c ∷ []) s
]

unfoldable pub run_schema_script : Bytes → Db Unit
unfolding each_byte cleaned split
run_schema_script sql = each_byte [] (cleaned (split 10 sql))

pub record TableCount : Type 0 where
  pub table : Bytes
  pub rows : ℤ
  pub present : Bool

-- std::set's `count(t) > 0`.
unfoldable pub is_present : Bytes → List Bytes → Bool
unfolding bytes_eq
is_present t [] = false
is_present t (u ∷ present) = bytes_eq t u || is_present t present

abbrev pub k_known : List String
k_known =
    "sensors" ∷ "readings" ∷ "config_log" ∷ "events" ∷ "weather_stations" ∷ "weather_readings"
    ∷ "users" ∷ "sessions" ∷ "export_targets" ∷ "export_log" ∷ "settings" ∷ "extensions" ∷ []

-- The rows counted, 0 where mysql_store_result returns null.
unfoldable pub rows_of : Answer → ℤ
unfolding counted
rows_of (accepted (some res) e i n) = counted res
rows_of _ = pos 0

unfoldable pub table_status : List Bytes → Bytes → Db TableCount
unfolding is_present exec sql rows_of ◌>>=◌
table_status present t =
    if is_present t present
    then (do
      a ← exec (sql "SELECT COUNT(*) FROM " ∷ named t ∷ [])
      ret (record { table = t; rows = rows_of a; present = true }))
    else ret (record { table = t; rows = pos 0; present = false })

unfoldable pub each_status : List Bytes → List String → Db (List TableCount)
unfolding table_status ◌>>=◌
each_status present [] = ret []
each_status present (t ∷ known) = do
  tc ← table_status present (codes t)
  others ← each_status present known
  ret (tc ∷ others)

unfoldable pub schema_status : Db (List TableCount)
unfolding select sql table_names each_status ◌>>=◌
schema_status = do
  res ←
      select (
        sql "SELECT table_name FROM information_schema.tables WHERE table_schema = DATABASE()" ∷ [])
  each_status (table_names res.rows) k_known
