-- ===== src/Database/Columns.antt =====
-- src/db/database.cpp: the statements that upsert_sensor, update_sensor and the methods like them
-- build from the members of a `...Fields` that are set.
use Prim.Native.String.{String}
use night_watcher.Base.{
  Bool, true, false, Option, none, some, List, [], ◌∷◌, ◌++◌, if◌then◌else◌, Bytes, codes, is_empty,
  map,
}
use night_watcher.Base.Int.{ℤ}
use night_watcher.Database.{
  Piece, code, quoted, Statement, Row, Db, ret, ◌>>=◌, ◌>>◌, exec, select, first_row, int_text, sql,
}

-- A column with the value to write, if its member is set.
abbrev pub Setting : Type 0
Setting = Bytes × Option Piece

-- addS, addI and addD, or setS, setI and setD; `to_string` is std::to_string of a `double`.
unfoldable pub text_setting : String → Option Bytes → Setting
text_setting c none = (codes c, none)
text_setting c (some v) = (codes c, some (quoted v))

unfoldable pub int_setting : String → Option ℤ → Setting
unfolding int_text
int_setting c none = (codes c, none)
int_setting c (some v) = (codes c, some (code (int_text v)))

unfoldable pub double_setting : {D : Type 0} → (D → Bytes) → String → Option D → Setting
double_setting to_string c none = (codes c, none)
double_setting to_string c (some v) = (codes c, some (code (to_string v)))

-- `for (i ...) { if (i) q << sep; q << items[i]; }`.
unfoldable pub separated : String → List Statement → Statement
unfolding sql
separated sep [] = []
separated sep (item ∷ []) = item
separated sep (item ∷ next ∷ items) = item ++ sql sep ∷ separated sep (next ∷ items)

-- The vectors `cols`, `vals` and `ups`.
pub record Columns : Type 0 where
  pub cols : List Bytes
  pub vals : List Piece
  pub ups : List Bytes

unfoldable pub column_update : Bytes → Bytes
column_update c = c ++ (codes "=VALUES(" ++ (c ++ codes ")"))

unfoldable pub add : Columns → Setting → Columns
unfolding column_update
add st (c, none) = st
add st (c, some v) = record {
  cols = st.cols ++ c ∷ [];
  vals = st.vals ++ v ∷ [];
  ups = st.ups ++ column_update c ∷ [];
}

unfoldable pub add_all : Columns → List Setting → Columns
unfolding add
add_all st [] = st
add_all st (s ∷ settings) = add_all (add st s) settings

unfoldable pub columns : Bytes → List Setting → Columns
unfolding add_all
columns id settings =
    add_all (record { cols = codes "id" ∷ []; vals = quoted id ∷ []; ups = [] }) settings

abbrev pub one : Piece → Statement
one p = p ∷ []

abbrev pub one_code : Bytes → Statement
one_code s = code s ∷ []

unfoldable pub upsert_statement : String → Bytes → List Setting → Statement
unfolding sql separated columns
upsert_statement table id settings =
    let st = columns id settings in
    sql "INSERT INTO "
    ∷ sql table
    ∷ sql " ("
    ∷ (separated ", " (map one_code st.cols)
        ++ (sql ") VALUES ("
            ∷ (separated ", " (map one st.vals)
                ++ (sql ")"
                    ∷ (if is_empty st.ups
                        then []
                        else sql " ON DUPLICATE KEY UPDATE "
                          ∷ separated ", " (map one_code st.ups))))))

unfoldable pub upsert : String → Bytes → List Setting → Db Unit
unfolding upsert_statement exec ◌>>=◌ ◌>>◌
upsert table id settings = do exec (upsert_statement table id settings); ret tt

-- The vector `sets`.
unfoldable pub sets : List Setting → List Statement
sets [] = []
sets ((c, none) ∷ settings) = sets settings
sets ((c, some v) ∷ settings) = (code (c ++ codes "=") ∷ v ∷ []) ∷ sets settings

unfoldable pub update_statement : String → Bytes → List Setting → Statement
unfolding sql separated sets
update_statement table id settings =
    sql "UPDATE "
    ∷ sql table
    ∷ sql " SET "
    ∷ (separated ", " (sets settings) ++ sql " WHERE id=" ∷ quoted id ∷ [])

unfoldable pub find_statement : String → String → Bytes → Statement
unfolding sql
find_statement cols table id =
    sql "SELECT "
    ∷ sql cols
    ∷ sql " FROM "
    ∷ sql table
    ∷ sql " WHERE id="
    ∷ quoted id
    ∷ sql " LIMIT 1"
    ∷ []

-- find_sensor and the like.
unfoldable pub find : {A : Type 0} → (Row → A) → String → String → Bytes → Db (Option A)
unfolding find_statement select first_row ◌>>=◌
find from_row cols table id = do
  res ← select (find_statement cols table id)
  ret (first_row from_row res)

-- update_sensor and the like, behind the search for the row.
unfoldable pub update_found : {A : Type 0} → String → Bytes → List Setting → Option A → Db Bool
unfolding update_statement exec ◌>>=◌ ◌>>◌
update_found table id settings none = ret false
update_found table id settings (some row) =
    if is_empty (sets settings)
    then ret true
    else do exec (update_statement table id settings); ret true

unfoldable pub remove : String → Bytes → Db Unit
unfolding sql exec ◌>>=◌ ◌>>◌
remove table id = do
  exec (sql "DELETE FROM " ∷ sql table ∷ sql " WHERE id=" ∷ quoted id ∷ [])
  ret tt
