-- ===== src/Database/Lines.antt =====
-- The statements of a dump stand on one line each and start with a letter.
use night_watcher.Base.{
  ℕ, zero, suc, Bool, true, false, Option, none, some, List, [], ◌∷◌, ◌++◌, ◌==◌, ◌≡◌, refl,
  if◌then◌else◌, Bytes, codes, map, All, arith, take, drop, length, All-append, not, ◌&&◌,
}
use night_watcher.Text.{is_alpha}
use night_watcher.Text.Split.{Free, join}
use night_watcher.Text.Trim.{first_is}
use night_watcher.Database.{Row, until_nul}
use night_watcher.Database.Restore.{IsLine}
use night_watcher.Database.Batches.{
  hundreds, insert_statement, insert_statements, Table, table_statements, tables_statements,
  dump_statements, drop_statement, create_statements,
}
use night_watcher.Database.Dump.{collapsed, insert_into, cell_text, cells_text, row_text}

module _ (esc : Bytes → Bytes) (no_break : (s : Bytes) → Free 10 (esc s)) where
  cell_text-Free : (v : Option Bytes) → Free 10 (cell_text esc v)
  unfolding cell_text
  cell_text-Free none = (refl, (refl, (refl, (refl, tt))))
  cell_text-Free (some v) = (refl, All-append _ (esc v) (b'\'' ∷ []) (no_break v) (refl, tt))

  comma-Free : (first : Bool) → Free 10 (if first then [] else codes ",")
  comma-Free true = tt
  comma-Free false = (refl, tt)

  cells_text-Free :
      (first : Bool) (fields : List Bytes) (row : Row) → Free 10 (cells_text esc first fields row)
  unfolding cells_text
  cells_text-Free first [] row = tt
  cells_text-Free first (f ∷ fields) [] =
      All-append _ _ (cells_text esc false fields [])
        (All-append _ _ (cell_text esc none) (comma-Free first) (cell_text-Free none))
        (cells_text-Free false fields [])
  cells_text-Free first (f ∷ fields) (c ∷ row) =
      All-append _ _ (cells_text esc false fields row)
        (All-append _ _ (cell_text esc c) (comma-Free first) (cell_text-Free c))
        (cells_text-Free false fields row)

  row_text-Free : (fields : List Bytes) (row : Row) → Free 10 (row_text esc fields row)
  unfolding row_text
  row_text-Free fields row = (
    refl,
    All-append _ (cells_text esc true fields row) (b')' ∷ []) (cells_text-Free true fields row)
        (refl, tt),
  )

  map-Free :
      (fields : List Bytes) (rows : List Row) → All (Free 10) (map (row_text esc fields) rows)
  map-Free fields [] = tt
  map-Free fields (row ∷ rows) = (row_text-Free fields row, map-Free fields rows)

join-Free : (items : List Bytes) → All (Free 10) items → Free 10 (join b',' items)
join-Free [] h = tt
join-Free (item ∷ []) h = h.0
join-Free (item ∷ next ∷ items) h =
    All-append _ item (b',' ∷ join b',' (next ∷ items)) h.0 (refl, join-Free (next ∷ items) h.1)

module _ {A : Type 0} (P : A → Type 0) where
  All-take : (n : ℕ) (xs : List A) → All P xs → All P (take n xs)
  All-take zero xs h = tt
  All-take (suc n) [] h = tt
  All-take (suc n) (x ∷ xs) h = (h.0, All-take n xs h.1)

  All-drop : (n : ℕ) (xs : List A) → All P xs → All P (drop n xs)
  All-drop zero xs h = h
  All-drop (suc n) [] h = tt
  All-drop (suc n) (x ∷ xs) h = All-drop n xs h.1

-- The test for a text of the code.
one_line : Bytes → Bool
one_line [] = true
one_line (c ∷ s) = not (c == 10) && one_line s

one_line-Free : (s : Bytes) → one_line s ≡ true → Free 10 s
unfolding one_line
one_line-Free [] h = tt
one_line-Free (c ∷ s) h = (ground arith, one_line-Free s (ground arith))

collapsed-Free : (s : Bytes) → Free 10 (collapsed s)
unfolding collapsed
collapsed-Free [] = tt
collapsed-Free (c ∷ s) = (ground arith, collapsed-Free s)

named-Free :
    (before t behind : Bytes)
    → one_line before ≡ true
    → Free 10 t
    → one_line behind ≡ true
    → Free 10 (before ++ (t ++ behind))
named-Free before t behind h k l =
    All-append _ before (t ++ behind) (one_line-Free before h)
      (All-append _ t behind k (one_line-Free behind l))

inserts-AreLines :
    (t : Bytes) (fuel : ℕ) (rows : List Bytes)
    → Free 10 t
    → All (Free 10) rows
    → All IsLine (map (insert_statement t) (hundreds fuel rows))
unfolding insert_statement insert_into hundreds is_alpha one_line
inserts-AreLines t zero rows h k = tt
inserts-AreLines t (suc fuel) [] h k = tt
inserts-AreLines t (suc fuel) (row ∷ rows) h k = (
  (
    refl,
    All-append _ (insert_into t) (join b',' (take 100 (row ∷ rows)))
        (named-Free (codes "INSERT INTO `") t (codes "` VALUES ") refl h refl)
        (join-Free (take 100 (row ∷ rows)) (All-take _ 100 (row ∷ rows) k)),
  ),
  inserts-AreLines t fuel (drop 100 (row ∷ rows)) h (All-drop _ 100 (row ∷ rows) k),
)

first-collapsed : (s : Bytes) → first_is is_alpha s ≡ true → first_is is_alpha (collapsed s) ≡ true
unfolding collapsed is_alpha
first-collapsed [] h = cc
first-collapsed (c ∷ s) h = ground arith

-- A name without a line break or a zero byte, and a schema that starts with a letter.
pub record IsTable (tb : Table) : Type 0 where
  pub name_line : Free 10 tb.name
  pub name_whole : until_nul tb.name ≡ tb.name
  pub create_starts : first_is is_alpha tb.create ≡ true
  pub create_whole : until_nul tb.create ≡ tb.create

create_statements-AreLines :
    (create : Bytes)
    → first_is is_alpha create ≡ true
    → Free 10 create
    → All IsLine (create_statements create)
unfolding create_statements
create_statements-AreLines [] h k = tt
create_statements-AreLines (c ∷ create) h k = ((h, k), tt)

drop_statement-IsLine : (t : Bytes) → Free 10 t → IsLine (drop_statement t)
unfolding drop_statement is_alpha one_line
drop_statement-IsLine t h =
    (refl, named-Free (codes "DROP TABLE IF EXISTS `") t (codes "`") refl h refl)

module _ (esc : Bytes → Bytes) (no_break : (s : Bytes) → Free 10 (esc s)) where
  tables-AreLines :
      (tables : List Table) → All IsTable tables → All IsLine (tables_statements esc tables)
  unfolding tables_statements table_statements insert_statements
  tables-AreLines [] h = tt
  tables-AreLines (tb ∷ tables) h =
      All-append IsLine (table_statements esc tb) (tables_statements esc tables)
        (
          drop_statement-IsLine tb.name h.0.name_line,
          All-append IsLine (create_statements (collapsed tb.create))
              (insert_statements esc tb.name tb.data_)
              (create_statements-AreLines (collapsed tb.create)
                (first-collapsed tb.create h.0.create_starts) (collapsed-Free tb.create))
              (inserts-AreLines tb.name (length tb.data_.rows) _ h.0.name_line
                (map-Free esc no_break tb.data_.fields tb.data_.rows)),
        )
        (tables-AreLines tables h.1)

  pub dump_statements-AreLines :
      (tables : List Table) → All IsTable tables → All IsLine (dump_statements esc tables)
  unfolding dump_statements is_alpha one_line
  dump_statements-AreLines tables h = (
    (refl, one_line-Free (codes "SET NAMES utf8mb4") refl),
    (
      (refl, one_line-Free (codes "SET FOREIGN_KEY_CHECKS=0") refl),
      All-append IsLine (tables_statements esc tables) (codes "SET FOREIGN_KEY_CHECKS=1" ∷ [])
          (tables-AreLines tables h)
          ((refl, one_line-Free (codes "SET FOREIGN_KEY_CHECKS=1") refl), tt),
    ),
  )
