-- ===== src/Database/RoundTrip.antt =====
-- dump_sql against a server that holds tables, and restore_sql on what it writes.
use night_watcher.Base.{
  ℕ, some, List, [], ◌∷◌, ◌++◌, ◌≡◌, refl, sym, ap, ap₂, ◌∙◌, Bytes, codes, All, ok,
}
use night_watcher.Text.Split.{Free}
use night_watcher.Text.{split}
use night_watcher.Database.{
  Row, ResultSet, Answer, accepted, rejected, Db, ret, throw, query, ◌>>=◌, run, exec, answered,
  store_result, text_at,
}
use night_watcher.Database.Dump.{
  collapsed, table_names, create_of, table_text, dump_table, dump_tables, dump_head, dump_tail,
  dump_sql, restore_sql, restore_lines, statement_of, is_comment, is_blank,
}
use night_watcher.Database.Batches.{
  Table, lines_of, tables_statements, table_statements, dump_statements, table_text-lines,
  lines_of-append,
}
use night_watcher.Database.Restore.{exec_all, restore_lines_lem}
use night_watcher.Database.Lines.{IsTable, dump_statements-AreLines}

shown : ResultSet → Answer
shown res = accepted (some res) [] 0 0

-- The answers to SHOW CREATE TABLE and SELECT *, table by table.
unfoldable pub table_answers : List Table → List Answer
unfolding shown
table_answers [] = []
table_answers (tb ∷ tables) =
    shown (record {
      fields = codes "Table" ∷ codes "Create Table" ∷ [];
      rows = (some tb.name ∷ some tb.create ∷ []) ∷ [];
    })
    ∷ shown tb.data_
    ∷ table_answers tables

name_rows : List Table → List Row
name_rows [] = []
name_rows (tb ∷ tables) = (some tb.name ∷ []) ∷ name_rows tables

-- What a server with these tables answers to the statements of a dump, in turn.
unfoldable pub dump_answers : List Table → List Answer
unfolding shown name_rows table_answers
dump_answers tables =
    shown (record { fields = codes "Tables" ∷ []; rows = name_rows tables }) ∷ table_answers tables

-- The server gives the answers one by one, whatever it is asked.
unfoldable pub answer_next : List Answer → Bytes → Answer × List Answer
answer_next [] q = (rejected (codes "no answer"), [])
answer_next (a ∷ answers) q = (a, answers)

module _ {A B C : Type 0} where
  bind_assoc : (m : Db A) (f : A → Db B) (g : B → Db C) → ((m >>= f) >>= g) ≡ (m >>= λ a. f a >>= g)
  unfolding ◌>>=◌
  bind_assoc (ret a) f g = refl
  bind_assoc (throw e) f g = refl
  bind_assoc (query q k) f g = λ i. query q (λ a. bind_assoc (k a) f g i)

module _ (esc : Bytes → Bytes) where
  unfoldable pub tables_text : List Table → Bytes
  tables_text [] = []
  tables_text (tb ∷ tables) =
      table_text esc tb.name (collapsed tb.create) tb.data_ ++ tables_text tables

  names : List Table → List Bytes
  names [] = []
  names (tb ∷ tables) = tb.name ∷ names tables

  table_names_lem :
      (tables : List Table) → All IsTable tables → table_names (name_rows tables) ≡ names tables
  unfolding table_names name_rows names
  table_names_lem [] h = refl
  table_names_lem (tb ∷ tables) h = ap₂ (λ t ts. t ∷ ts) h.0.name_whole (table_names_lem tables h.1)

  dump_table_lem :
      {B : Type 0} (tb : Table) (tables : List Table) (k : Bytes → Db B)
      → IsTable tb
      → run esc answer_next (dump_table esc tb.name >>= k) (table_answers (tb ∷ tables))
        ≡ run esc answer_next
            (k (table_text esc tb.name (collapsed tb.create) tb.data_))
            (table_answers tables)
  unfolding run dump_table table_answers answer_next shown ◌>>=◌ exec answered store_result
      create_of text_at
  dump_table_lem tb tables k h = rw h.create_whole refl

  dump_tables_lem :
      {B : Type 0} (tables : List Table) (k : Bytes → Db B)
      → All IsTable tables
      → run esc answer_next (dump_tables esc (names tables) >>= k) (table_answers tables)
        ≡ run esc answer_next (k (tables_text tables)) []
  unfolding dump_tables names tables_text table_answers ◌>>=◌
  dump_tables_lem [] k h = refl
  dump_tables_lem (tb ∷ tables) k h =
      ap (λ m. run esc answer_next m (table_answers (tb ∷ tables)))
        (bind_assoc (dump_table esc tb.name) _ k)
      ∙ dump_table_lem tb tables _ h.0
      ∙ ap (λ m. run esc answer_next m (table_answers tables))
          (bind_assoc (dump_tables esc (names tables)) _ k)
      ∙ dump_tables_lem tables _ h.1

  unfoldable pub dump_text : List Table → Bytes
  unfolding tables_text
  dump_text tables = dump_head ++ (tables_text tables ++ dump_tail)

  dump_sql_lem :
      (tables : List Table)
      → All IsTable tables
      → run esc answer_next (dump_sql esc) (dump_answers tables) ≡ (ok (dump_text tables), [])
  unfolding dump_sql dump_answers run answer_next exec answered store_result shown dump_text ◌>>=◌
  dump_sql_lem tables h =
      ap
        (λ ts.
          run esc answer_next
            (dump_tables esc ts >>= λ body. ret (dump_head ++ (body ++ dump_tail)))
            (table_answers tables))
        (table_names_lem tables h)
      ∙ dump_tables_lem tables (λ body. ret (dump_head ++ (body ++ dump_tail))) h

  tables_text-lines :
      (tables : List Table) → tables_text tables ≡ lines_of (tables_statements esc tables)
  unfolding tables_text tables_statements
  tables_text-lines [] = refl
  tables_text-lines (tb ∷ tables) =
      ap₂ (◌++◌) (table_text-lines esc tb) (tables_text-lines tables)
      ∙ sym (lines_of-append (table_statements esc tb) (tables_statements esc tables))

  dump_lines :
      (tables : List Table)
      → tables_text tables ++ dump_tail
        ≡ lines_of (tables_statements esc tables ++ codes "SET FOREIGN_KEY_CHECKS=1" ∷ [])
  unfolding dump_tail
  dump_lines tables =
      ap (λ s. s ++ dump_tail) (tables_text-lines tables)
      ∙ sym (lines_of-append (tables_statements esc tables) (codes "SET FOREIGN_KEY_CHECKS=1" ∷ []))

  comment_skipped :
      (n : ℕ) (s : Bytes)
      → restore_lines n (
          split 10 (
            codes "-- NightWatcher database backup\n"
            ++ (codes "-- Restore with: nwdb restore <file>\n" ++ s)))
        ≡ restore_lines n (split 10 s)
  unfolding split restore_lines statement_of is_comment is_blank
  comment_skipped n s = refl

-- A dump of any tables, restored: against a server that answers with the tables, dump_sql returns
-- a text on which restore_sql executes the statements of the dump in their order, and returns their
-- number. The statements are SET NAMES, the checks off, for each table its DROP, its CREATE on one
-- line and its rows in INSERTs of at most a hundred, and the checks on. The escape writes no line
-- break, names have no line break or zero byte, and a schema starts with a letter.
pub restore-dump :
    (esc : Bytes → Bytes) (tables : List Table)
    → ((s : Bytes) → Free 10 (esc s))
    → All IsTable tables
    → (dump : Bytes) × (run esc answer_next (dump_sql esc) (dump_answers tables) ≡ (ok dump, []))
      × (restore_sql dump ≡ exec_all 0 (dump_statements esc tables))
unfolding restore_sql dump_statements dump_text dump_head
restore-dump esc tables no_break h = (
  dump_text esc tables,
  dump_sql_lem esc tables h,
  comment_skipped esc 0 (
        codes "SET NAMES utf8mb4;\n"
        ++ (codes "SET FOREIGN_KEY_CHECKS=0;\n" ++ (tables_text esc tables ++ dump_tail)))
      ∙ ap
          (λ s.
            restore_lines 0 (
              split 10
                (codes "SET NAMES utf8mb4;\n" ++ (codes "SET FOREIGN_KEY_CHECKS=0;\n" ++ s))))
          (dump_lines esc tables)
      ∙ restore_lines_lem 0 (dump_statements esc tables)
          (dump_statements-AreLines esc no_break tables h),
)
