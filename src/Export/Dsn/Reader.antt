-- ===== src/Export/Dsn/Reader.antt =====
-- A reader of the .dat format, written from its description and not from the formatter: lines end
-- in CR LF, the third says how many lines the header has, and a data line has its fields between
-- semicolons.
use night_watcher.Base.{
  ℕ, false, List, [], ◌∷◌, ◌++◌, map, ◌≡◌, refl, ap, ◌∙◌, sym, arith, ◌==◌, if◌then◌else◌, Bytes,
  All, drop, get_or,
}
use mathlib.Core.List.{append_assoc}
use night_watcher.Export.Dsn.{holds, drop_last_if, ended}
use night_watcher.Text.Split.{Free, split-append}
use night_watcher.Text.{split, cons_head, digits_value}

-- All that stands between delimiters, empty or not.
unfoldable pub fields : ℕ → Bytes → List Bytes
fields d [] = [] ∷ []
fields d (c ∷ s) = let rest = fields d s in if c == d then [] ∷ rest else cons_head c rest

unfoldable pub lines : Bytes → List Bytes
unfolding split drop_last_if
lines text = map (drop_last_if 13) (split 10 text)

-- The number behind the 26 bytes "# Number of header lines: ".
unfoldable pub declared : List Bytes → ℕ
unfolding digits_value
declared ls = digits_value 0 (drop 26 (get_or ls 2 []))

unfoldable pub read_lines : List Bytes → List (List Bytes)
unfolding declared fields
read_lines ls = map (fields b';') (drop (declared ls) ls)

unfoldable pub read_dat : Bytes → List (List Bytes)
unfolding read_lines lines
read_dat text = read_lines (lines text)

-- Neither `c` nor the line break stands in a text.
abbrev pub Lacks : ℕ → Bytes → Type 0
Lacks c s = holds c s ≡ false

module _ (c : ℕ) where
  pub Lacks-append : (s t : Bytes) → Lacks c s → Lacks c t → Lacks c (s ++ t)
  unfolding holds
  Lacks-append [] t hs ht = ht
  Lacks-append (d ∷ s) t hs ht = ground (arith, Lacks-append s t)

  pub Lacks-Free : (s : Bytes) → Lacks c s → Free c s
  unfolding holds
  Lacks-Free [] h = tt
  Lacks-Free (d ∷ s) h = ground (arith, Lacks-Free s)

  fields_one : (s : Bytes) → Free c s → fields c s ≡ s ∷ []
  unfolding fields
  fields_one [] h = refl
  fields_one (d ∷ s) h = rw (h.0, fields_one s h.1, fields)

  fields_delim : (s : Bytes) → fields c (c ∷ s) ≡ [] ∷ fields c s
  unfolding fields
  fields_delim s = ground arith

  fields-append : (item s : Bytes) → Free c item → fields c (item ++ c ∷ s) ≡ item ∷ fields c s
  unfolding fields
  fields-append [] s h = fields_delim s
  fields-append (d ∷ item) s h = rw (h.0, fields-append item s h.1, fields)

  pub fields_last : (s : Bytes) → Lacks c s → fields c s ≡ s ∷ []
  fields_last s h = fields_one s (Lacks-Free s h)

  pub fields_next : (item s : Bytes) → Lacks c item → fields c (item ++ c ∷ s) ≡ item ∷ fields c s
  fields_next item s h = fields-append item s (Lacks-Free item h)

drop_last_if-append : (s : Bytes) → drop_last_if 13 (s ++ 13 ∷ []) ≡ s
unfolding drop_last_if
drop_last_if-append [] = refl
drop_last_if-append (d ∷ []) = ground arith
drop_last_if-append (d ∷ e ∷ s) = ap (◌∷◌ d) (drop_last_if-append (e ∷ s))

split_line : (h s : Bytes) → Lacks 10 h → split 10 (h ++ 13 ∷ 10 ∷ s) ≡ (h ++ 13 ∷ []) ∷ split 10 s
split_line h s l =
    ap (split 10) (sym (append_assoc h (13 ∷ []) (10 ∷ s)))
    ∙ split-append 10 (h ++ 13 ∷ []) s (Lacks-Free 10 (h ++ 13 ∷ []) (cr h l))
  where
    cr : (h : Bytes) → Lacks 10 h → Lacks 10 (h ++ 13 ∷ [])
    cr h l = Lacks-append 10 h (13 ∷ []) l (unfold holds in refl)

-- Lines without line breaks come back.
pub lines-ended : (ls : List Bytes) → All (Lacks 10) ls → lines (ended ls) ≡ ls
unfolding lines ended
lines-ended [] h = unfold split in refl
lines-ended (l ∷ ls) h =
    ap (map (drop_last_if 13)) (split_line l (ended ls) h.0)
    ∙ (ap (λ x. x ∷ lines (ended ls)) (drop_last_if-append l) ∙ ap (◌∷◌ l) (lines-ended ls h.1))
