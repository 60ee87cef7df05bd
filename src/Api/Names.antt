-- ===== src/Api/Names.antt =====
-- src/api/http_server.cpp: the tests on addresses and identifiers, the name of a download, and the
-- data of an extension.
use night_watcher.Base.{
  ℕ, Bool, true, false, not, ◌&&◌, ◌||◌, Option, none, some, [], ◌∷◌, ◌++◌, ◌==◌, if◌then◌else◌,
  Bytes, codes, is_empty, length, ltb, leb, take, Result, ok, err, what,
}
use night_watcher.Base.Int.{ℤ}
use night_watcher.Text.{is_alpha, is_digit}
use night_watcher.Api.Json.{Json, string, lookup, members_of}
use night_watcher.Database.{Db, ret, ◌>>=◌}
use night_watcher.Database.RowTypes.{ExtensionRow}
use night_watcher.Database.Accounts.{TableData, find_extension, query_recent}

unfoldable pub is_alnum : ℕ → Bool
unfolding is_alpha is_digit
is_alnum c = is_alpha c || is_digit c

unfoldable pub all_bytes : (ℕ → Bool) → Bytes → Bool
all_bytes p [] = true
all_bytes p (c ∷ s) = p c && all_bytes p s

unfoldable pub is_bind_byte : ℕ → Bool
unfolding is_alnum
is_bind_byte c = is_alnum c || (c == b'.' || (c == b':' || (c == b'-' || c == b'_')))

unfoldable pub valid_bind : Bytes → Bool
unfolding all_bytes is_bind_byte
valid_bind b = not (is_empty b || ltb 64 (length b)) && all_bytes is_bind_byte b

unfoldable pub is_word : ℕ → Bool
unfolding is_alnum
is_word c = is_alnum c || c == b'_'

unfoldable pub starts_word : Bytes → Bool
unfolding is_alpha
starts_word [] = false
starts_word (c ∷ s) = is_alpha c || c == b'_'

unfoldable pub valid_identifier : Bytes → Bool
unfolding starts_word all_bytes is_word
valid_identifier s = not (is_empty s || ltb 64 (length s)) && (starts_word s && all_bytes is_word s)

unfoldable pub is_name_byte : ℕ → Bool
unfolding is_alnum
is_name_byte c = is_alnum c || (c == b'-' || (c == b'_' || c == b'.'))

-- The loop of dsn_download_name.
unfoldable pub sanitized : Bytes → Bytes
unfolding is_name_byte
sanitized [] = []
sanitized (c ∷ s) = (if is_name_byte c then c else b'_') ∷ sanitized s

-- The site of the settings, if they name one.
unfoldable pub site_of : {N : Type 0} → Bytes → Option (Json N) → Bytes
unfolding lookup members_of
site_of id none = id
site_of id (some c) = elim (lookup (codes "site_id") (members_of c)) [
  | some (string s) ↦ if is_empty s then id else s
  | _ ↦ id
]

unfoldable pub day_or : Bytes → Bytes → Bytes
day_or d ts = if leb 10 (length ts) then take 10 ts else d

unfoldable pub dsn_download_name :
    {N : Type 0} → (Bytes → Option (Json N)) → Bytes → Bytes → Bytes → Bytes → Bytes
unfolding site_of day_or sanitized
dsn_download_name parse id config from to_ =
    let site = if is_empty config then id else site_of id (parse config) in
    sanitized (
      site
      ++ (codes "_"
          ++ (day_or (codes "start") from
              ++ (codes "_" ++ (day_or (codes "end") to_ ++ codes ".dat")))))

-- A response: an error with its status, or what a 200 sends.
pub data Reply (A : Type 0) : Type 0 where
  fails : (status : ℕ) (message : Bytes) → Reply A
  sends : A → Reply A

-- `catch (const std::exception& e) { send_err(res, 500, e.what()); }`.
unfoldable pub caught : {A : Type 0} → Result (Reply A) → Reply A
caught (ok r) = r
caught (err e) = fails 500 (what e)

-- GET /api/v1/extensions/<name>/data, behind the connection.
unfoldable pub data_of : ℤ → Option ExtensionRow → Db (Reply (ExtensionRow × TableData))
unfolding query_recent valid_identifier ◌>>=◌
data_of limit none = ret (fails 404 (codes "no such extension"))
data_of limit (some ext) =
    if is_empty ext.data_table || not (valid_identifier ext.data_table)
    then ret (fails 400 (codes "extension has no valid data table"))
    else (do data_ ← query_recent ext.data_table limit; ret (sends (ext, data_)))

unfoldable pub extension_data : Bytes → ℤ → Db (Reply (ExtensionRow × TableData))
unfolding find_extension data_of ◌>>=◌
extension_data name limit = do ext ← find_extension name; data_of limit ext
