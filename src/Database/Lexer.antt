-- ===== src/Database/Lexer.antt =====
-- How the server reads a statement's text: quoted parts with their backslash escapes and doubled
-- quotes, and all else byte by byte. What MariaDB documents of its literals; comments are left as
-- the bytes they are.
use night_watcher.Base.{
  ℕ, Bool, true, false, not, ◌&&◌, ◌||◌, List, [], ◌∷◌, ◌++◌, ◌==◌, if◌then◌else◌, Bytes, map,
}
use night_watcher.Database.{Piece, code, quoted, fixed, named, Statement}

-- A byte of code, or the content of a part between two of the quotes `q`.
pub data Token : Type 0 where
  plain : ℕ → Token
  within : ℕ → Bytes → Token
  unfinished : Token

-- `closing` is behind a quote that ends the part, if it is not doubled.
pub data Mode : Type 0 where
  outside : Mode
  inside escaped closing : ℕ → Bytes → Mode

unfoldable pub is_quote : ℕ → Bool
is_quote c = c == b'\'' || c == b'"' || c == b'`'

-- The byte that a backslash in front of `c` makes of it.
unfoldable pub unescaped : ℕ → ℕ
unescaped c =
    if c == b'0'
    then 0
    else if c == b'n'
    then 10
    else if c == b'r'
    then 13
    else if c == b't'
    then 9
    else if c == b'b'
    then 8
    else if c == b'Z'
    then 26
    else c

unfoldable pub from_outside : ℕ → Mode × List Token
unfolding is_quote
from_outside c = if is_quote c then (inside c [], []) else (outside, plain c ∷ [])

unfoldable pub next : Mode → ℕ → Mode × List Token
unfolding from_outside unescaped
next outside c = from_outside c
next (inside q acc) c =
    if c == q
    then (closing q acc, [])
    else if c == b'\\' && not (q == b'`')
    then (escaped q acc, [])
    else (inside q (acc ++ c ∷ []), [])
next (escaped q acc) c = (inside q (acc ++ unescaped c ∷ []), [])
next (closing q acc) c =
    if c == q
    then (inside q (acc ++ c ∷ []), [])
    else let (m, ts) = from_outside c in (m, within q acc ∷ ts)

unfoldable pub at_end : Mode → List Token
at_end outside = []
at_end (inside q acc) = unfinished ∷ []
at_end (escaped q acc) = unfinished ∷ []
at_end (closing q acc) = within q acc ∷ []

unfoldable pub scan : Mode → Bytes → List Token
unfolding next at_end
scan m [] = at_end m
scan m (c ∷ s) = (next m c).1 ++ scan (next m c).0 s

unfoldable pub tokens : Bytes → List Token
unfolding scan
tokens s = scan outside s

-- What the code means a statement to say: its code byte by byte, and each text as given.
unfoldable pub meant_piece : Piece → List Token
meant_piece (code s) = map plain s
meant_piece (quoted s) = within b'\'' s ∷ []
meant_piece (fixed s) = within b'\'' s ∷ []
meant_piece (named s) = within b'`' s ∷ []

unfoldable pub meant : Statement → List Token
unfolding meant_piece
meant [] = []
meant (p ∷ q) = meant_piece p ++ meant q

-- No quote, backslash or zero byte.
unfoldable pub is_tame : ℕ → Bool
unfolding is_quote
is_tame c = not (is_quote c || c == b'\\' || c == 0)

unfoldable pub tame : Bytes → Bool
unfolding is_tame
tame [] = true
tame (c ∷ s) = is_tame c && tame s

-- Code, and not nothing.
unfoldable pub starts_code : Statement → Bool
starts_code [] = true
starts_code (code (c ∷ s) ∷ q) = true
starts_code _ = false

-- Code and names are tame, and code stands behind each quoted part.
unfoldable pub sound : Statement → Bool
unfolding tame starts_code
sound [] = true
sound (code s ∷ q) = tame s && sound q
sound (quoted s ∷ q) = starts_code q && sound q
sound (fixed s ∷ q) = tame s && starts_code q && sound q
sound (named s ∷ q) = tame s && starts_code q && sound q
