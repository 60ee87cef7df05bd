-- ===== src/Database.antt =====
-- src/db/database.cpp and database.hpp: the MariaDB layer. A method of `Database` is a program
-- that sends statements and goes on with the server's answers; the server is an argument of `run`.
-- A statement is the list of what the code inserts into it, and `text` is the text that leaves.
-- `esc` (mysql_real_escape_string) and the conversions of a `double` are parameters.
pub mod Readings
pub mod Inserts
pub mod Composed
pub mod RowTypes
pub mod Columns
pub mod Rows
pub mod Fields
pub mod Tables
pub mod Records
pub mod Accounts
pub mod Dump
pub mod Schema
pub mod Lexer
pub mod Safety
pub mod Calls
pub mod Fits
pub mod Queries
pub mod Issued
pub mod Injection
pub mod Batches
pub mod Restore
pub mod ColumnOrder
pub mod Script
pub mod Lines
pub mod RoundTrip
use Prim.Native.String.{String}
use night_watcher.Base.{
  ℕ, zero, suc, Bool, true, false, Option, none, some, List, [], ◌∷◌, ◌++◌, ◌==◌, if◌then◌else◌,
  Bytes, codes, get_or, Result, ok, err, Exception, runtime_error, is_empty, map,
}
use night_watcher.Base.Int.{ℤ, pos, negsuc, leb_ℤ, ltb_ℤ, low_bits}
use night_watcher.Text.{atoi, to_string, strtol}

-- `quoted s` is `"'" << esc(s) << "'"`, `fixed s` the same without `esc`, for a text of the code,
-- and `named s` an identifier between backticks.
pub data Piece : Type 0 where
  code quoted fixed named : Bytes → Piece

abbrev pub Statement : Type 0
Statement = List Piece

abbrev pub Row : Type 0
Row = List (Option Bytes)

-- What mysql_store_result returns; a missing cell is a null pointer.
pub record ResultSet : Type 0 where
  pub fields : List Bytes
  pub rows : List Row

-- What the connection shows after a statement: its error, or the result (`none` where
-- mysql_store_result returns null, with mysql_error), mysql_insert_id and mysql_affected_rows.
pub data Answer : Type 0 where
  rejected : Bytes → Answer
  accepted : (result : Option ResultSet) (error : Bytes) (insert_id affected_rows : ℕ) → Answer

pub data Db (A : Type 0) : Type 0 where
  ret : A → Db A
  throw : Exception → Db A
  query : Statement → (Answer → Db A) → Db A

infixl 5 ◌>>=◌ ◌>>◌
unfoldable pub ◌>>=◌ : {A B : Type 0} → Db A → (A → Db B) → Db B
ret a >>= next = next a
throw e >>= next = throw e
query q k >>= next = query q (λ a. k a >>= next)

unfoldable pub ◌>>◌ : {A B : Type 0} → Db A → Db B → Db B
unfolding ◌>>=◌
m >> next = m >>= λ _. next

-- Database::exec, with what the connection shows afterwards.
unfoldable pub answered : Answer → Db Answer
answered (rejected e) = throw (runtime_error (codes "query failed: " ++ e))
answered a = ret a

unfoldable pub exec : Statement → Db Answer
unfolding answered
exec q = query q answered

-- `res = mysql_store_result(...)`, and the exception that starts with `what` where it is null.
unfoldable pub store_result : Bytes → Answer → Db ResultSet
store_result what (accepted (some res) e i n) = ret res
store_result what (accepted none e i n) = throw (runtime_error (what ++ e))
store_result what (rejected e) = throw (runtime_error (what ++ e))

unfoldable pub insert_id : Answer → ℕ
insert_id (rejected e) = 0
insert_id (accepted res e i n) = i

unfoldable pub affected_rows : Answer → ℕ
affected_rows (rejected e) = 0
affected_rows (accepted res e i n) = n

-- exec and mysql_store_result, with the message that most methods use.
unfoldable pub select : Statement → Db ResultSet
unfolding exec store_result ◌>>=◌
select q = do a ← exec q; store_result (codes "store_result: ") a

-- `while ((row = mysql_fetch_row(res)) != nullptr) out.push_back(from_row(row))`.
unfoldable pub all_rows : {A : Type 0} → (Row → A) → ResultSet → List A
all_rows from_row res = map from_row res.rows

-- `if (MYSQL_ROW row = mysql_fetch_row(res)) out = from_row(row)`.
unfoldable pub first_row : {A : Type 0} → (Row → A) → ResultSet → Option A
first_row from_row res = elim res.rows [ [] ↦ none | row ∷ rows ↦ some (from_row row) ]

-- A `const char*` as a std::string: what stands before the first zero byte.
unfoldable pub until_nul : Bytes → Bytes
until_nul [] = []
until_nul (c ∷ s) = let rest = until_nul s in if c == 0 then [] else c ∷ rest

abbrev pub cell : Row → ℕ → Option Bytes
cell row i = get_or row i none

-- `row[i] ? row[i] : ""`.
unfoldable pub text_at : Row → ℕ → Bytes
unfolding until_nul
text_at row i = elim (cell row i) [ none ↦ [] | some s ↦ until_nul s ]

-- `if (row[i]) member = read(row[i])`.
unfoldable pub read_at : {A : Type 0} → (Bytes → A) → Row → ℕ → Option A
unfolding until_nul
read_at read row i = elim (cell row i) [ none ↦ none | some s ↦ some (read (until_nul s)) ]

-- `row[i] ? read(row[i]) : d`.
unfoldable pub read_or : {A : Type 0} → A → (Bytes → A) → Row → ℕ → A
unfolding until_nul
read_or d read row i = elim (cell row i) [ none ↦ d | some s ↦ read (until_nul s) ]

-- std::to_string of an `int`, and `<<` of one.
unfoldable pub int_text : ℤ → Bytes
unfolding to_string
int_text (pos n) = to_string n
int_text (negsuc n) = b'-' ∷ to_string (suc n)

unfoldable pub sql : String → Piece
sql s = code (codes s)

-- `s.empty() ? "NULL" : "'" + esc(s) + "'"`.
unfoldable pub or_null : Bytes → Piece
unfolding sql
or_null s = if is_empty s then sql "NULL" else quoted s

-- `ts_utc.empty() ? "UTC_TIMESTAMP()" : "'" + esc(ts_utc) + "'"`.
unfoldable pub or_now : Bytes → Piece
unfolding sql
or_now ts_utc = if is_empty ts_utc then sql "UTC_TIMESTAMP()" else quoted ts_utc

-- std::atoll. Outside the range of `long long` C leaves the result open; here it is the value.
unfoldable pub atoll : Bytes → ℤ
unfolding strtol
atoll s = elim (strtol s) [ none ↦ pos 0 | some v ↦ v ]

-- `if (limit < 1) limit = 1`.
unfoldable pub at_least_one : ℤ → ℤ
at_least_one limit = if ltb_ℤ limit (pos 1) then pos 1 else limit

module _ (esc : Bytes → Bytes) where
  unfoldable pub piece_text : Piece → Bytes
  piece_text (code s) = s
  piece_text (quoted s) = b'\'' ∷ esc s ++ b'\'' ∷ []
  piece_text (fixed s) = b'\'' ∷ s ++ b'\'' ∷ []
  piece_text (named s) = b'`' ∷ s ++ b'`' ∷ []

  -- `q.str()`.
  unfoldable pub text : Statement → Bytes
  unfolding piece_text
  text [] = []
  text (p ∷ q) = piece_text p ++ text q

  -- A program against a server with its state `S`; mysql_query takes the text up to its first
  -- zero byte.
  unfoldable pub run : {S A : Type 0} → (S → Bytes → Answer × S) → Db A → S → Result A × S
  unfolding text until_nul
  run server (ret a) s = (ok a, s)
  run server (throw e) s = (err e, s)
  run server (query q k) s = let (a, s') = server s (until_nul (text q)) in run server (k a) s'
