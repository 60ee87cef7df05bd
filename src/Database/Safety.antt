-- ===== src/Database/Safety.antt =====
-- The text of a sound statement is read as its code and its texts, whatever the texts are.
use night_watcher.Base.{ℕ, true, [], ◌∷◌, ◌++◌, ◌≡◌, refl, Bytes, map, arith}
use mathlib.Core.List.{append_assoc, append-nil}
use night_watcher.Database.{code, quoted, fixed, named, Statement, piece_text, text, until_nul}
use night_watcher.Database.Lexer

-- What mysql_real_escape_string promises: between quotes its result reads as the text, and it
-- holds no zero byte.
pub record Escapes (esc : Bytes → Bytes) : Type 0 where
  pub reads_back :
      (s rest : Bytes)
      → Lexer.scan (Lexer.inside b'\'' []) (esc s ++ b'\'' ∷ rest)
        ≡ Lexer.scan (Lexer.closing b'\'' s) rest
  pub no_nul : (s rest : Bytes) → until_nul (esc s ++ rest) ≡ esc s ++ until_nul rest

scan-tame :
    (s rest : Bytes)
    → Lexer.tame s ≡ true
    → Lexer.scan Lexer.outside (s ++ rest) ≡ map Lexer.plain s ++ Lexer.scan Lexer.outside rest
unfolding Lexer.scan Lexer.tame Lexer.is_tame Lexer.next Lexer.from_outside
scan-tame [] rest h = refl
scan-tame (c ∷ s) rest h = ground (arith, scan-tame s rest)

scan_within-tame :
    (q : ℕ) (acc s rest : Bytes)
    → Lexer.is_quote q ≡ true
    → Lexer.tame s ≡ true
    → Lexer.scan (Lexer.inside q acc) (s ++ q ∷ rest) ≡ Lexer.scan (Lexer.closing q (acc ++ s)) rest
unfolding Lexer.scan Lexer.tame Lexer.is_tame Lexer.next Lexer.is_quote
scan_within-tame q acc [] rest hq h = rw append-nil (ground arith)
scan_within-tame q acc (c ∷ s) rest hq h =
    ground (arith, scan_within-tame q (acc ++ c ∷ []) s rest hq, append_assoc acc (c ∷ []) s)

until_nul-tame :
    (s rest : Bytes) → Lexer.tame s ≡ true → until_nul (s ++ rest) ≡ s ++ until_nul rest
unfolding until_nul Lexer.tame Lexer.is_tame
until_nul-tame [] rest h = refl
until_nul-tame (c ∷ s) rest h = ground (arith, until_nul-tame s rest)

module _ (esc : Bytes → Bytes) (escapes : Escapes esc) where
  -- Behind a quoted part that code follows, the part is over.
  scan_closing :
      (k : ℕ) (s : Bytes) (q : Statement)
      → Lexer.is_quote k ≡ true
      → Lexer.starts_code q ≡ true
      → Lexer.sound q ≡ true
      → Lexer.scan (Lexer.closing k s) (text esc q)
        ≡ Lexer.within k s ∷ Lexer.scan Lexer.outside (text esc q)
  unfolding Lexer.scan Lexer.next Lexer.at_end Lexer.from_outside Lexer.starts_code Lexer.sound
      Lexer.tame Lexer.is_tame text piece_text
  scan_closing k s [] hk hs h = refl
  scan_closing k s (code (c ∷ t) ∷ q) hk hs h = ground arith
  scan_closing k s (code [] ∷ q) hk hs h = cc
  scan_closing k s (quoted t ∷ q) hk hs h = cc
  scan_closing k s (fixed t ∷ q) hk hs h = cc
  scan_closing k s (named t ∷ q) hk hs h = cc

  until_nul_text : (q : Statement) → Lexer.sound q ≡ true → until_nul (text esc q) ≡ text esc q
  unfolding text piece_text until_nul Lexer.sound
  until_nul_text [] h = refl
  until_nul_text (code s ∷ q) h = ground (arith, until_nul-tame s (text esc q), until_nul_text q)
  until_nul_text (quoted s ∷ q) h =
      rw (append_assoc (esc s) (b'\'' ∷ []) (text esc q), escapes.no_nul s (b'\'' ∷ text esc q))
        (ground (arith, until_nul_text q))
  until_nul_text (fixed s ∷ q) h =
      rw (append_assoc s (b'\'' ∷ []) (text esc q))
        (ground (arith, until_nul-tame s (b'\'' ∷ text esc q), until_nul_text q))
  until_nul_text (named s ∷ q) h =
      rw (append_assoc s (b'`' ∷ []) (text esc q))
        (ground (arith, until_nul-tame s (b'`' ∷ text esc q), until_nul_text q))

  scan_text :
      (q : Statement) → Lexer.sound q ≡ true → Lexer.scan Lexer.outside (text esc q) ≡ Lexer.meant q
  unfolding text piece_text Lexer.sound Lexer.meant Lexer.meant_piece Lexer.scan Lexer.next
      Lexer.from_outside Lexer.is_quote Lexer.at_end
  scan_text [] h = refl
  scan_text (code s ∷ q) h = ground (arith, scan-tame s (text esc q), scan_text q)
  scan_text (quoted s ∷ q) h =
      rw (append_assoc (esc s) (b'\'' ∷ []) (text esc q), escapes.reads_back s (text esc q))
        (ground (arith, scan_closing b'\'' s q refl, scan_text q))
  scan_text (fixed s ∷ q) h = rw (append_assoc s (b'\'' ∷ []) (text esc q)) (
      ground (
        arith,
        scan_within-tame b'\'' [] s (text esc q) refl,
        scan_closing b'\'' s q refl,
        scan_text q,
      ))
  scan_text (named s ∷ q) h = rw (append_assoc s (b'`' ∷ []) (text esc q)) (
      ground (
        arith,
        scan_within-tame b'`' [] s (text esc q) refl,
        scan_closing b'`' s q refl,
        scan_text q,
      ))

  -- What leaves for the server is read as meant.
  pub tokens-sound :
      (q : Statement) → Lexer.sound q ≡ true → Lexer.tokens (until_nul (text esc q)) ≡ Lexer.meant q
  unfolding Lexer.tokens
  tokens-sound q h = rw (until_nul_text q h) (scan_text q h)
