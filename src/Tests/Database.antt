-- ===== src/Tests/Database.antt =====
-- The database layer on concrete calls, scripts and tables.
use night_watcher.Base.{
  ℕ, Option, none, some, List, [], ◌∷◌, ◌++◌, ◌≡◌, refl, ◌==◌, if◌then◌else◌, Bytes, codes, All,
  All-append, arith, ap, sym, ◌∙◌, ok,
}
use mathlib.Core.List.{append_assoc, append-nil}
use night_watcher.Base.Int.{pos}
use night_watcher.Text.{is_alpha, split, drop_while, drop_end_while}
use night_watcher.Text.Split.{Free}
use night_watcher.Database.{text, until_nul, run, int_text}
use night_watcher.Database.Calls.{Call, Doubles, perform, Every}
use night_watcher.Database.Calls
use night_watcher.Database.Lexer.{scan, next, tokens, meant, inside, closing, unescaped}
use night_watcher.Database.Safety.{Escapes}
use night_watcher.Database.Fits.{tame-int_text}
use night_watcher.Database.Injection.{TameDoubles, perform-Meant}
use night_watcher.Database.Dump.{dump_sql, restore_sql}
use night_watcher.Database.Batches.{Table, dump_statements}
use night_watcher.Database.Lines.{IsTable}
use night_watcher.Database.Restore.{exec_all}
use night_watcher.Database.RoundTrip.{answer_next, dump_answers, restore-dump}
use night_watcher.Database.Script.{IsScriptStatement, run_schema_script-send_all, send_all}
use night_watcher.Database.Schema.{cleaned, before_dashes, stripped, is_white, run_schema_script}
use night_watcher.Database.ColumnOrder
use night_watcher.Database.Rows

-- An escape that does what MariaDB documents, for the bytes that must not stand in a literal.
hidden : ℕ → Bytes
hidden c =
    if c == 0
    then b'\\' ∷ b'0' ∷ []
    else if c == 10
    then b'\\' ∷ b'n' ∷ []
    else if c == 13
    then b'\\' ∷ b'r' ∷ []
    else if c == 26
    then b'\\' ∷ b'Z' ∷ []
    else if c == b'"'
    then b'\\' ∷ b'"' ∷ []
    else if c == b'\''
    then b'\\' ∷ b'\'' ∷ []
    else if c == b'\\'
    then b'\\' ∷ b'\\' ∷ []
    else c ∷ []

pub escape : Bytes → Bytes
unfolding hidden
escape [] = []
escape (c ∷ s) = hidden c ++ escape s

scan-hidden :
    (c : ℕ) (acc rest : Bytes)
    → scan (inside b'\'' acc) (hidden c ++ rest) ≡ scan (inside b'\'' (acc ++ c ∷ [])) rest
unfolding scan next unescaped hidden
scan-hidden c acc rest = ground arith

scan-escape :
    (s acc rest : Bytes)
    → scan (inside b'\'' acc) (escape s ++ b'\'' ∷ rest) ≡ scan (closing b'\'' (acc ++ s)) rest
unfolding escape scan next
scan-escape [] acc rest = rw append-nil refl
scan-escape (c ∷ s) acc rest =
    ap (scan (inside b'\'' acc)) (append_assoc (hidden c) (escape s) (b'\'' ∷ rest))
    ∙ scan-hidden c acc (escape s ++ b'\'' ∷ rest)
    ∙ scan-escape s (acc ++ c ∷ []) rest
    ∙ ap (λ a. scan (closing b'\'' a) rest) (append_assoc acc (c ∷ []) s)

until_nul-hidden : (c : ℕ) (s : Bytes) → until_nul (hidden c ++ s) ≡ hidden c ++ until_nul s
unfolding until_nul hidden
until_nul-hidden c s = ground arith

until_nul-escape : (s rest : Bytes) → until_nul (escape s ++ rest) ≡ escape s ++ until_nul rest
unfolding escape
until_nul-escape [] rest = refl
until_nul-escape (c ∷ s) rest =
    ap until_nul (append_assoc (hidden c) (escape s) rest)
    ∙ until_nul-hidden c (escape s ++ rest)
    ∙ ap (◌++◌ (hidden c)) (until_nul-escape s rest)
    ∙ sym (append_assoc (hidden c) (escape s) (until_nul rest))

pub escape-Escapes : Escapes escape
escape-Escapes = record { reads_back = λ s rest. scan-escape s [] rest; no_nul = until_nul-escape }

-- Natural numbers as the numbers of a `double` column.
abbrev ticks : Doubles ℕ
ticks = record {
  atof = λ s. 0;
  to_string = λ n. int_text (pos n);
  put = λ n. int_text (pos n);
  zero = 0;
}

ticks_tame : TameDoubles ℕ ticks
ticks_tame = record {
  to_string_tame = λ n. tame-int_text (pos n);
  put_tame = λ n. tame-int_text (pos n);
}

perform-Meant_example :
    Every
      (λ q. tokens (until_nul (text escape q)) ≡ meant q)
      (perform ticks (Calls.find_user (codes "' OR '1'='1")))
perform-Meant_example =
    perform-Meant ticks escape (Calls.find_user (codes "' OR '1'='1")) ticks_tame escape-Escapes tt

hidden-Free : (c : ℕ) → Free 10 (hidden c)
unfolding hidden
hidden-Free c = ground arith

escape-Free : (s : Bytes) → Free 10 (escape s)
unfolding escape
escape-Free [] = tt
escape-Free (c ∷ s) = All-append _ (hidden c) (escape s) (hidden-Free c) (escape-Free s)

-- A table with a quote and a line break in a cell, and one with no rows.
abbrev settings_table : Table
settings_table = record {
  name = codes "settings";
  create = codes "CREATE TABLE `settings` (\n name text\n)";
  data_ = record {
    fields = codes "name" ∷ codes "value" ∷ [];
    rows = (some (codes "it's") ∷ none ∷ []) ∷ (some (codes "a\nb") ∷ some [] ∷ []) ∷ [];
  };
}

abbrev empty_table : Table
empty_table = record {
  name = codes "events";
  create = codes "CREATE TABLE `events` (id int)";
  data_ = record { fields = codes "id" ∷ []; rows = [] };
}

abbrev two_tables : List Table
two_tables = settings_table ∷ empty_table ∷ []

two_tables-IsTable : All IsTable two_tables
unfolding until_nul is_alpha
two_tables-IsTable = (
  record {
    name_line = (refl, (refl, (refl, (refl, (refl, (refl, (refl, (refl, tt))))))));
    name_whole = refl;
    create_starts = refl;
    create_whole = refl;
  },
  (
    record {
      name_line = (refl, (refl, (refl, (refl, (refl, (refl, tt))))));
      name_whole = refl;
      create_starts = refl;
      create_whole = refl;
    },
    tt,
  ),
)

restore-dump_example :
    (dump : Bytes) × (run escape answer_next (dump_sql escape) (dump_answers two_tables)
      ≡ (ok dump, []))
    × (restore_sql dump ≡ exec_all 0 (dump_statements escape two_tables))
restore-dump_example = restore-dump escape two_tables escape-Free two_tables-IsTable

abbrev script_sample : Bytes
script_sample = codes "-- tables\nCREATE TABLE a (b int);\n;\nDROP TABLE c"

run_schema_script-send_all_example :
    (run_schema_script script_sample
      ≡ send_all (codes "CREATE TABLE a (b int)" ∷ codes "DROP TABLE c" ∷ []))
    × Every IsScriptStatement (run_schema_script script_sample)
unfolding cleaned before_dashes split stripped is_white drop_while drop_end_while
run_schema_script-send_all_example = run_schema_script-send_all script_sample

-- Each column holds its own name.
abbrev holds_names : Bytes → Option Bytes
holds_names column = some column

abbrev read_zero : Bytes → ℕ
read_zero s = 0

from_row-columns_example :
    (Rows.sensor_from_row read_zero (ColumnOrder.row_of holds_names Rows.k_sensor_cols)
      ≡ ColumnOrder.sensor_named holds_names read_zero 0)
    × (Rows.weather_from_row read_zero (ColumnOrder.row_of holds_names Rows.k_weather_cols)
        ≡ ColumnOrder.station_named holds_names read_zero 0)
    × (Rows.wxreading_from_row read_zero (ColumnOrder.row_of holds_names Rows.k_wx_reading_cols)
        ≡ ColumnOrder.observation_named holds_names read_zero 0)
    × (Rows.reading_from_row read_zero 0 (ColumnOrder.row_of holds_names Rows.k_reading_cols)
        ≡ ColumnOrder.reading_named holds_names read_zero 0)
    × (Rows.config_log_from_row read_zero (ColumnOrder.row_of holds_names Rows.k_config_log_cols)
        ≡ ColumnOrder.config_change_named holds_names read_zero 0)
    × (Rows.export_from_row (ColumnOrder.row_of holds_names Rows.k_export_cols)
        ≡ ColumnOrder.target_named holds_names read_zero 0)
    × (Rows.exportlog_from_row (ColumnOrder.row_of holds_names Rows.k_export_log_cols)
        ≡ ColumnOrder.export_named holds_names read_zero 0)
    × (Rows.event_from_row (ColumnOrder.row_of holds_names Rows.k_event_cols)
        ≡ ColumnOrder.event_named holds_names read_zero 0)
    × (Rows.user_from_row (ColumnOrder.row_of holds_names Rows.k_user_cols)
        ≡ ColumnOrder.user_named holds_names read_zero 0)
from_row-columns_example = ColumnOrder.from_row-columns holds_names read_zero 0
