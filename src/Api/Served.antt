-- ===== src/Api/Served.antt =====
-- Names that the API accepts or makes are safe where it puts them.
use night_watcher.Base.{
  ℕ, ◌<◌, ◌≢◌, All, if◌then◌else◌, true, not, ◌||◌, Option, none, some, [], ◌∷◌, ◌≡◌, refl, Bytes,
  arith, is_empty, Bool-cases, inl, inr,
}
use night_watcher.Base.Int.{ℤ}
use night_watcher.Text.{is_alpha, is_digit}
use night_watcher.Api.Json.{Json}
use night_watcher.Api.Names.{
  is_alnum, all_bytes, is_word, valid_identifier, is_name_byte, sanitized, dsn_download_name,
  data_of, extension_data,
}
use night_watcher.Database.{text, until_nul}
use night_watcher.Database.Accounts.{find_extension, query_recent}
use night_watcher.Database.RowTypes.{ExtensionRow}
use night_watcher.Database.Calls.{Every}
use night_watcher.Database.Lexer.{sound, tame, is_tame, is_quote, tokens, meant}
use night_watcher.Database.Safety.{Escapes, tokens-sound}
use night_watcher.Database.Fits.{Safe, bind-Safe, ret-Safe}
use night_watcher.Database.Issued.{find_extension-Safe, query_recent-Safe}
use night_watcher.Database.Injection.{Every-map}

tame_words : (s : Bytes) → all_bytes is_word s ≡ true → tame s ≡ true
unfolding all_bytes is_word is_alnum is_alpha is_digit tame is_tame is_quote
tame_words [] h = refl
tame_words (c ∷ s) h = ground (arith, tame_words s)

-- An identifier holds no quote, backslash or zero byte.
tame_identifier : (s : Bytes) → valid_identifier s ≡ true → tame s ≡ true
unfolding valid_identifier
tame_identifier s h = ground (arith, tame_words s)

data_of-Safe : (limit : ℤ) (ext : Option ExtensionRow) → Safe (data_of limit ext)
unfolding data_of
data_of-Safe limit none = ret-Safe _
data_of-Safe limit (some ext) =
    elim (Bool-cases (is_empty ext.data_table || not (valid_identifier ext.data_table))) [
      | inl e ↦ rw e (ret-Safe _)
      | inr e ↦ rw e (
          bind-Safe (query_recent ext.data_table limit) _
            (query_recent-Safe ext.data_table limit (tame_identifier ext.data_table (ground arith)))
            (λ data_. ret-Safe _))
    ]

-- Whatever name a request gives and whatever table the registry of extensions names, the server
-- reads each statement of the request as the code means it. The escape reads back and writes no
-- zero byte.
pub extension_data-Meant :
    (esc : Bytes → Bytes) (name : Bytes) (limit : ℤ)
    → Escapes esc
    → Every (λ q. tokens (until_nul (text esc q)) ≡ meant q) (extension_data name limit)
unfolding extension_data Safe
extension_data-Meant esc name limit escapes =
    Every-map (λ q. sound q ≡ true) (λ q. tokens (until_nul (text esc q)) ≡ meant q)
      (tokens-sound esc escapes) (extension_data name limit)
      (bind-Safe (find_extension name) (data_of limit) (find_extension-Safe name)
        (data_of-Safe limit))

-- A printing byte but the space, and neither a quote or backslash, which mean something in a quoted
-- header value, nor a slash.
abbrev pub IsQuotable : ℕ → Type 0
IsQuotable c = (32 < c) × (c < 127) × (c ≢ 34) × (c ≢ 92) × (c ≢ 47)

name_byte-IsQuotable : (c : ℕ) → IsQuotable (if is_name_byte c then c else b'_')
unfolding is_name_byte is_alnum is_alpha is_digit
name_byte-IsQuotable c =
    (ground arith, ground arith, λ e. ground arith, λ e. ground arith, λ e. ground arith)

sanitized-IsQuotable : (s : Bytes) → All IsQuotable (sanitized s)
unfolding sanitized
sanitized-IsQuotable [] = tt
sanitized-IsQuotable (c ∷ s) = (name_byte-IsQuotable c, sanitized-IsQuotable s)

-- The file name of a download holds printing ASCII bytes alone, and no space, quote, backslash or
-- slash, whatever the sensor, its settings and the dates of the request are: it cannot end the quoted
-- header value it stands in.
pub dsn_download_name-IsQuotable :
    {N : Type 0} (parse : Bytes → Option (Json N)) (id config from to_ : Bytes)
    → All IsQuotable (dsn_download_name parse id config from to_)
unfolding dsn_download_name
dsn_download_name-IsQuotable parse id config from to_ = sanitized-IsQuotable _
