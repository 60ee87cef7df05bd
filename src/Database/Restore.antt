-- ===== src/Database/Restore.antt =====
-- restore_sql on what dump_sql writes: the statements come back one by one.
use night_watcher.Base.{
  ℕ, suc, true, false, some, List, [], ◌∷◌, ◌++◌, ◌==◌, ◌≡◌, refl, sym, ap, ◌∙◌, Bytes, All, arith,
  is_empty, All-append,
}
use mathlib.Core.List.{append_assoc, append-nil}
use night_watcher.Text.{drop_end_while, split, is_alpha}
use night_watcher.Text.Split.{Free, split-append}
use night_watcher.Text.Trim.{first_is, drop_while_bare, last_is-append, drop_end_while-append}
use night_watcher.Database.{code, Db, ret, ◌>>=◌, ◌>>◌, exec}
use night_watcher.Database.Batches.{lines_of}
use night_watcher.Database.Dump.{
  is_blank, without_semicolon, drop_semicolon, is_comment, statement_of, restore_lines,
}

-- `exec` for one statement after the other, and then their number on top of `n`.
unfoldable pub exec_all : ℕ → List Bytes → Db ℕ
unfolding exec ◌>>=◌ ◌>>◌
exec_all n [] = ret n
exec_all n (s ∷ ss) = exec (code s ∷ []) >> exec_all (suc n) ss

-- A statement that starts with a letter and has no line break.
abbrev pub IsLine : Bytes → Type 0
IsLine s = (first_is is_alpha s ≡ true) × Free 10 s

drop_semicolon-append : (s : Bytes) → drop_semicolon (s ++ b';' ∷ []) ≡ s
unfolding drop_semicolon
drop_semicolon-append [] = refl
drop_semicolon-append (c ∷ []) = refl
drop_semicolon-append (c ∷ d ∷ s) = ap (◌∷◌ c) (drop_semicolon-append (d ∷ s))

not_empty : (s : Bytes) (c : ℕ) → is_empty (s ++ c ∷ []) ≡ false
not_empty [] c = refl
not_empty (d ∷ s) c = refl

without_semicolon-append :
    (c : ℕ) (s : Bytes) → without_semicolon (c ∷ (s ++ b';' ∷ [])) ≡ some (c ∷ s)
unfolding without_semicolon
without_semicolon-append c s = rw (not_empty s b';', drop_semicolon-append s) refl

letter_kept : (c : ℕ) → is_alpha c ≡ true → (is_blank c ≡ false) × ((c == b'-') ≡ false)
unfolding is_alpha is_blank
letter_kept c h = ground arith

not_comment : (c : ℕ) (s : Bytes) → (c == b'-') ≡ false → is_comment (c ∷ s) ≡ false
unfolding is_comment
not_comment c [] h = refl
not_comment c (d ∷ s) h = rw h refl

kept_whole :
    (c : ℕ) (s : Bytes) → drop_end_while is_blank (c ∷ (s ++ b';' ∷ [])) ≡ c ∷ (s ++ b';' ∷ [])
unfolding is_blank
kept_whole c s =
    ap (drop_end_while is_blank) (sym (append-nil (c ∷ (s ++ b';' ∷ []))))
    ∙ drop_end_while-append is_blank (c ∷ (s ++ b';' ∷ [])) [] tt
        (last_is-append is_blank (c ∷ s) b';' [])

statement_of-line :
    (s : Bytes) → first_is is_alpha s ≡ true → statement_of (s ++ b';' ∷ []) ≡ some s
unfolding statement_of
statement_of-line [] h = cc
statement_of-line (c ∷ s) h =
    let (blank, dash) = letter_kept c h in
    rw
      (
        drop_while_bare is_blank (c ∷ (s ++ b';' ∷ [])) blank,
        not_comment c (s ++ b';' ∷ []) dash,
        kept_whole c s,
      )
      (without_semicolon-append c s)

-- A line that holds a statement is executed, and the rest follows.
restore_one :
    (n : ℕ) (s : Bytes) (lines : List Bytes)
    → first_is is_alpha s ≡ true
    → restore_lines n ((s ++ b';' ∷ []) ∷ lines)
      ≡ (exec (code s ∷ []) >> restore_lines (suc n) lines)
unfolding restore_lines
restore_one n s lines h = rw (restore_lines, statement_of-line s h) refl

split_line :
    (s rest : Bytes)
    → Free 10 s
    → split 10 (s ++ (b';' ∷ 10 ∷ rest)) ≡ (s ++ b';' ∷ []) ∷ split 10 rest
split_line s rest h =
    ap (split 10) (sym (append_assoc s (b';' ∷ []) (10 ∷ rest)))
    ∙ split-append 10 (s ++ b';' ∷ []) rest
        (All-append (λ c. (c == 10) ≡ false) s (b';' ∷ []) h (refl, tt))

pub restore_lines_lem :
    (n : ℕ) (ss : List Bytes)
    → All IsLine ss
    → restore_lines n (split 10 (lines_of ss)) ≡ exec_all n ss
unfolding exec_all split restore_lines
restore_lines_lem n [] h = refl
restore_lines_lem n (s ∷ ss) h =
    ap (restore_lines n) (split_line s (lines_of ss) h.0.1)
    ∙ restore_one n s (split 10 (lines_of ss)) h.0.0
    ∙ ap (λ m. exec (code s ∷ []) >> m) (restore_lines_lem (suc n) ss h.1)
