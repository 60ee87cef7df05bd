-- ===== src/Database/Batches.antt =====
-- What dump_sql writes for a table, as the list of its statements.
use night_watcher.Base.{
  ℕ, zero, suc, ◌-◌, ◌≤◌, ◌<◌, List, [], ◌∷◌, ◌++◌, ◌≡◌, refl, sym, ap, ◌∙◌, if◌then◌else◌, Bytes,
  codes, map, arith, is_empty, take, drop, length, length-drop,
}
use mathlib.Core.List.{append_assoc, append-nil}
use night_watcher.Text.Split.{join}
use night_watcher.Database.{Row, ResultSet}
use night_watcher.Database.Dump.{
  end_line, collapsed, batch_end, next_in_batch, full_end, insert_into, row_text, rows_text,
  table_text,
}

-- Each statement on its line.
abbrev pub lines_of : List Bytes → Bytes
lines_of [] = []
lines_of (s ∷ ss) = s ++ (b';' ∷ 10 ∷ lines_of ss)

-- The reference: rows in statements of a hundred.
unfoldable pub hundreds : ℕ → List Bytes → List (List Bytes)
hundreds zero rows = []
hundreds (suc fuel) [] = []
hundreds (suc fuel) (row ∷ rows) = take 100 (row ∷ rows) ∷ hundreds fuel (drop 100 (row ∷ rows))

unfoldable pub insert_statement : Bytes → List Bytes → Bytes
unfolding insert_into
insert_statement t tuples = insert_into t ++ join b',' tuples

regroup : (a b c d : Bytes) → a ++ (b ++ (c ++ d)) ≡ (a ++ (b ++ c)) ++ d
regroup a b c d = simp append_assoc

module _ {A B : Type 0} (f : A → B) where
  take-map : (n : ℕ) (xs : List A) → take n (map f xs) ≡ map f (take n xs)
  take-map zero xs = refl
  take-map (suc n) [] = refl
  take-map (suc n) (x ∷ xs) = ap (◌∷◌ (f x)) (take-map n xs)

  drop-map : (n : ℕ) (xs : List A) → drop n (map f xs) ≡ map f (drop n xs)
  drop-map zero xs = refl
  drop-map (suc n) [] = refl
  drop-map (suc n) (x ∷ xs) = drop-map n xs

before_left : (left : ℕ) → suc left < 99 → suc (99 - suc left) ≡ 99 - left
before_left left h = omega arith

module _ (esc : Bytes → Bytes) (t : Bytes) (fields : List Bytes) where
  -- Further tuples of the statement that has been begun.
  further : List Row → Bytes
  further [] = []
  further (row ∷ rows) = b',' ∷ (row_text esc fields row ++ further rows)

  -- A row in the middle of a statement.
  rows_text-middle :
      (k : ℕ) (row : Row) (rows : List Row)
      → 0 < k
      → suc k < 100
      → rows_text esc t fields k (row ∷ rows)
        ≡ b',' ∷ (row_text esc fields row ++ rows_text esc t fields (suc k) rows)
  unfolding rows_text full_end next_in_batch
  rows_text-middle k row rows lo hi = ground arith

  -- Once a statement is begun, it takes what the batch has left and ends.
  rows_text-further :
      (left : ℕ) (rows : List Row)
      → left < 99
      → rows_text esc t fields (99 - left) rows
        ≡ further (take (suc left) rows)
          ++ (b';' ∷ 10 ∷ rows_text esc t fields 0 (drop (suc left) rows))
  unfolding rows_text batch_end next_in_batch full_end further
  rows_text-further left [] h = ground arith
  rows_text-further zero (row ∷ rows) h =
      rw (append_assoc (row_text esc fields row) [] (b';' ∷ 10 ∷ rows_text esc t fields 0 rows))
        refl
  rows_text-further (suc left) (row ∷ rows) h =
      rows_text-middle (99 - suc left) row rows (omega arith) (omega arith)
      ∙ ap (λ k. b',' ∷ (row_text esc fields row ++ rows_text esc t fields k rows))
          (before_left left h)
      ∙ ap (λ s. b',' ∷ (row_text esc fields row ++ s)) (rows_text-further left rows (omega arith))
      ∙ ap (◌∷◌ b',')
          (sym (append_assoc (row_text esc fields row) (further (take (suc left) rows)) _))

  join-further :
      (row : Row) (rows : List Row)
      → join b',' (map (row_text esc fields) (row ∷ rows)) ≡ row_text esc fields row ++ further rows
  unfolding further
  join-further row [] = sym (append-nil (row_text esc fields row))
  join-further row (next ∷ rows) =
      ap (λ s. row_text esc fields row ++ b',' ∷ s) (join-further next rows)

  none_left : rows_text esc t fields 0 [] ≡ []
  unfolding rows_text batch_end
  none_left = refl

  rows_text-first :
      (row : Row) (rows : List Row)
      → rows_text esc t fields 0 (row ∷ rows)
        ≡ insert_into t ++ (row_text esc fields row ++ rows_text esc t fields 1 rows)
  unfolding rows_text full_end next_in_batch
  rows_text-first row rows = refl

  -- The rows of a table are written as statements of a hundred.
  rows_text-hundreds :
      (fuel : ℕ) (rows : List Row)
      → length rows ≤ fuel
      → rows_text esc t fields 0 rows
        ≡ lines_of (map (insert_statement t) (hundreds fuel (map (row_text esc fields) rows)))
  unfolding hundreds insert_statement
  rows_text-hundreds zero [] h = none_left
  rows_text-hundreds (suc fuel) [] h = none_left
  rows_text-hundreds zero (row ∷ rows) h = absurd (omega arith)
  rows_text-hundreds (suc fuel) (row ∷ rows) h =
      let rest =
        b';'
        ∷ 10
        ∷ lines_of
            (map (insert_statement t) (hundreds fuel (map (row_text esc fields) (drop 99 rows)))) in
      rw (take-map (row_text esc fields) 99 rows, drop-map (row_text esc fields) 99 rows)
        (rows_text-first row rows
          ∙ ap (λ s. insert_into t ++ (row_text esc fields row ++ s))
              (rows_text-further 98 rows (omega arith))
          ∙ ap
              (λ s.
                insert_into t
                ++ (row_text esc fields row ++ (further (take 99 rows) ++ (b';' ∷ 10 ∷ s))))
              (rows_text-hundreds fuel (drop 99 rows) (omega (arith, length-drop 99 rows)))
          ∙ regroup (insert_into t) (row_text esc fields row) (further (take 99 rows)) rest
          ∙ ap (λ s. (insert_into t ++ s) ++ rest) (sym (join-further row (take 99 rows))))

-- What the database holds of a table: its name, what SHOW CREATE TABLE shows and its rows.
pub record Table : Type 0 where
  pub name : Bytes
  pub create : Bytes
  pub data_ : ResultSet

unfoldable pub drop_statement : Bytes → Bytes
drop_statement t = codes "DROP TABLE IF EXISTS `" ++ (t ++ codes "`")

unfoldable pub create_statements : Bytes → List Bytes
create_statements create = if is_empty create then [] else create ∷ []

module _ (esc : Bytes → Bytes) where
  unfoldable pub insert_statements : Bytes → ResultSet → List Bytes
  unfolding hundreds insert_statement
  insert_statements t res =
      map (insert_statement t) (hundreds (length res.rows) (map (row_text esc res.fields) res.rows))

  unfoldable pub table_statements : Table → List Bytes
  unfolding drop_statement create_statements insert_statements collapsed
  table_statements tb =
      drop_statement tb.name
      ∷ (create_statements (collapsed tb.create) ++ insert_statements tb.name tb.data_)

  unfoldable pub tables_statements : List Table → List Bytes
  unfolding table_statements
  tables_statements [] = []
  tables_statements (tb ∷ tables) = table_statements tb ++ tables_statements tables

  -- The statements of a dump, in their order.
  unfoldable pub dump_statements : List Table → List Bytes
  unfolding tables_statements
  dump_statements tables =
      codes "SET NAMES utf8mb4"
      ∷ codes "SET FOREIGN_KEY_CHECKS=0"
      ∷ (tables_statements tables ++ codes "SET FOREIGN_KEY_CHECKS=1" ∷ [])

pub lines_of-append : (ss rs : List Bytes) → lines_of (ss ++ rs) ≡ lines_of ss ++ lines_of rs
lines_of-append [] rs = refl
lines_of-append (s ∷ ss) rs =
    ap (λ x. s ++ (b';' ∷ 10 ∷ x)) (lines_of-append ss rs)
    ∙ sym (append_assoc s (b';' ∷ 10 ∷ lines_of ss) (lines_of rs))

created :
    (create rest : Bytes)
    → (if is_empty create then [] else create ++ end_line) ++ rest
      ≡ lines_of (create_statements create) ++ rest
unfolding create_statements
created [] rest = refl
created (c ∷ create) rest = refl

pub table_text-lines :
    (esc : Bytes → Bytes) (tb : Table)
    → table_text esc tb.name (collapsed tb.create) tb.data_ ≡ lines_of (table_statements esc tb)
unfolding table_text table_statements drop_statement insert_statements
table_text-lines esc tb =
    let rows = rows_text esc tb.name tb.data_.fields 0 tb.data_.rows in
    let creates = create_statements (collapsed tb.create) in
    let inserts = insert_statements esc tb.name tb.data_ in
    ap (λ s. codes "DROP TABLE IF EXISTS `" ++ s)
      (ap (λ s. tb.name ++ (codes "`;\n" ++ s))
          (created (collapsed tb.create) rows
            ∙ ap (◌++◌ (lines_of creates)) (
                rows_text-hundreds esc tb.name tb.data_.fields (length tb.data_.rows) tb.data_.rows
                  (omega arith))
            ∙ sym (lines_of-append creates inserts))
        ∙ sym (append_assoc tb.name (codes "`") (b';' ∷ 10 ∷ lines_of (creates ++ inserts))))
