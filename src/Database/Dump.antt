-- ===== src/Database/Dump.antt =====
-- src/db/database.cpp: dump_sql and restore_sql. The text is what dump_sql has written when it
-- returns; what it has written when it throws is not kept.
use night_watcher.Base.{
  ℕ, suc, Bool, true, false, ◌&&◌, ◌||◌, Option, none, some, List, [], ◌∷◌, ◌++◌, ◌==◌,
  if◌then◌else◌, Bytes, codes, is_empty,
}
use night_watcher.Text.{drop_while, drop_end_while, split}
use night_watcher.Database.{
  Row, Answer, accepted, code, named, Db, ret, ◌>>=◌, ◌>>◌, exec, store_result, sql, cell,
  until_nul, ResultSet, text_at,
}

-- `out << ";\n"`.
abbrev pub end_line : Bytes
end_line = b';' ∷ 10 ∷ []

-- `if (tr[0]) tables.emplace_back(tr[0])`, for every row.
unfoldable pub table_names : List Row → List Bytes
unfolding until_nul
table_names [] = []
table_names (row ∷ rows) = elim (cell row 0) [
  | none ↦ table_names rows
  | some t ↦ until_nul t ∷ table_names rows
]

-- `create`, empty where the result, its row or the cell is missing.
unfoldable pub create_of : Answer → Bytes
unfolding text_at
create_of (accepted (some res) e i n) = elim res.rows [ [] ↦ [] | row ∷ rows ↦ text_at row 1 ]
create_of _ = []

-- `if (ch == '\n' || ch == '\r') ch = ' '`, for every byte.
unfoldable pub collapsed : Bytes → Bytes
collapsed [] = []
collapsed (c ∷ s) = (if c == 10 || c == 13 then b' ' else c) ∷ collapsed s

-- `if (in_batch > 0) out << ";\n"`, and the counter behind `++in_batch`.
unfoldable pub batch_end : ℕ → Bytes
batch_end in_batch = if in_batch == 0 then [] else end_line

unfoldable pub next_in_batch : ℕ → ℕ
next_in_batch in_batch = if suc in_batch == 100 then 0 else suc in_batch

-- `if (++in_batch == kBatch) out << ";\n"`.
unfoldable pub full_end : ℕ → Bytes
full_end in_batch = if suc in_batch == 100 then end_line else []

unfoldable pub insert_into : Bytes → Bytes
insert_into t = codes "INSERT INTO `" ++ (t ++ codes "` VALUES ")

unfoldable pub dump_head : Bytes
dump_head =
    codes "-- NightWatcher database backup\n"
    ++ (codes "-- Restore with: nwdb restore <file>\n"
        ++ (codes "SET NAMES utf8mb4;\n" ++ codes "SET FOREIGN_KEY_CHECKS=0;\n"))

unfoldable pub dump_tail : Bytes
dump_tail = codes "SET FOREIGN_KEY_CHECKS=1;\n"

module _ (esc : Bytes → Bytes) where
  unfoldable pub cell_text : Option Bytes → Bytes
  cell_text none = codes "NULL"
  cell_text (some v) = b'\'' ∷ esc v ++ b'\'' ∷ []

  -- The cells `c` to `cols` - 1 of a row, `first` for `c` 0.
  unfoldable pub cells_text : Bool → List Bytes → Row → Bytes
  unfolding cell_text
  cells_text first [] row = []
  cells_text first (f ∷ fields) [] =
      (if first then [] else codes ",") ++ cell_text none ++ cells_text false fields []
  cells_text first (f ∷ fields) (c ∷ row) =
      (if first then [] else codes ",") ++ cell_text c ++ cells_text false fields row

  unfoldable pub row_text : List Bytes → Row → Bytes
  unfolding cells_text
  row_text fields row = b'(' ∷ cells_text true fields row ++ b')' ∷ []

  unfoldable pub rows_text : Bytes → List Bytes → ℕ → List Row → Bytes
  unfolding row_text insert_into batch_end next_in_batch full_end
  rows_text t fields in_batch [] = batch_end in_batch
  rows_text t fields in_batch (row ∷ rows) =
      (if in_batch == 0 then insert_into t else codes ",")
      ++ (row_text fields row
          ++ (full_end in_batch ++ rows_text t fields (next_in_batch in_batch) rows))

  -- What one table adds to the output, with the collapsed schema.
  unfoldable pub table_text : Bytes → Bytes → ResultSet → Bytes
  unfolding rows_text
  table_text t create res =
      codes "DROP TABLE IF EXISTS `"
      ++ (t
          ++ (codes "`;\n"
              ++ ((if is_empty create then [] else create ++ end_line)
                  ++ rows_text t res.fields 0 res.rows)))

  unfoldable pub dump_table : Bytes → Db Bytes
  unfolding exec store_result sql create_of collapsed table_text ◌>>=◌
  dump_table t = do
    a ← exec (sql "SHOW CREATE TABLE " ∷ named t ∷ [])
    b ← exec (sql "SELECT * FROM " ∷ named t ∷ [])
    res ← store_result (codes "dump " ++ t ++ codes ": ") b
    ret (table_text t (collapsed (create_of a)) res)

  unfoldable pub dump_tables : List Bytes → Db Bytes
  unfolding dump_table ◌>>=◌
  dump_tables [] = ret []
  dump_tables (t ∷ tables) = do
    this ← dump_table t
    others ← dump_tables tables
    ret (this ++ others)

  unfoldable pub dump_sql : Db Bytes
  unfolding exec store_result sql table_names dump_tables dump_head dump_tail ◌>>=◌
  dump_sql = do
    a ← exec (sql "SHOW TABLES" ∷ [])
    res ← store_result (codes "SHOW TABLES: ") a
    body ← dump_tables (table_names res.rows)
    ret (dump_head ++ (body ++ dump_tail))

-- The set " \t\r".
unfoldable pub is_blank : ℕ → Bool
is_blank c = c == b' ' || c == 9 || c == 13

-- `if (line[e] == ';') --e`.
unfoldable pub drop_semicolon : Bytes → Bytes
drop_semicolon [] = []
drop_semicolon (c ∷ s) =
    let rest = drop_semicolon s in if is_empty s && c == b';' then [] else c ∷ rest

-- Without a `;` at the end, `none` for a blank line and a bare semicolon.
unfoldable pub without_semicolon : Bytes → Option Bytes
unfolding drop_semicolon
without_semicolon [] = none
without_semicolon (c ∷ s) = if is_empty s && c == b';' then none else some (drop_semicolon (c ∷ s))

unfoldable pub is_comment : Bytes → Bool
is_comment (c ∷ d ∷ s) = c == b'-' && d == b'-'
is_comment _ = false

-- What the loop of restore_sql executes for a line.
unfoldable pub statement_of : Bytes → Option Bytes
unfolding is_blank drop_while drop_end_while is_comment without_semicolon
statement_of line =
    let rest = drop_while is_blank line in
    if is_comment rest then none else without_semicolon (drop_end_while is_blank rest)

unfoldable pub restore_lines : ℕ → List Bytes → Db ℕ
unfolding statement_of exec ◌>>=◌ ◌>>◌
restore_lines n [] = ret n
restore_lines n (line ∷ lines) = elim (statement_of line) [
  | none ↦ restore_lines n lines
  | some s ↦ exec (code s ∷ []) >> restore_lines (suc n) lines
]

unfoldable pub restore_sql : Bytes → Db ℕ
unfolding restore_lines split
restore_sql in_ = restore_lines 0 (split 10 in_)
