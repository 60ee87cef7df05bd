-- ===== src/Tests/Samples.antt =====
-- Deciding, for concrete texts, what the theorems about texts ask for.
use night_watcher.Base.{
  ℕ, ◌≡◌, ◌≢◌, refl, Bool, true, false, not, ◌&&◌, List, [], ◌∷◌, ◌++◌, arith, Bytes, codes, All,
  ◌==◌, Result, ok, Bool-cases, inl, inr,
}
use night_watcher.Sqm.Protocol.Fields.{IsField}
use night_watcher.Sqm.Protocol.Responses.{IsLine}
use night_watcher.Text.{is_space, is_alpha}
use night_watcher.Text.Split.{Free, join, ends_full}
use night_watcher.Text.Trim.{last_is, Only, IsBare}

abbrev pub only : (ℕ → Bool) → Bytes → Bool
only p [] = true
only p (c ∷ s) = p c && only p s

pub only-Only : (p : ℕ → Bool) (s : Bytes) → only p s ≡ true → Only p s
only-Only p [] h = tt
only-Only p (c ∷ s) h = elim (Bool-cases (p c)) [
  | inl e ↦ (e, only-Only p s (rw e at h))
  | inr e ↦ cc (rw e at h)
]

abbrev pub lacks : ℕ → Bytes → Bool
lacks d [] = true
lacks d (c ∷ s) = not (c == d) && lacks d s

pub lacks-Free : (d : ℕ) (s : Bytes) → lacks d s ≡ true → Free d s
lacks-Free d [] h = tt
lacks-Free d (c ∷ s) h = (ground arith, lacks-Free d s (ground arith))

abbrev pub all_lack : ℕ → List Bytes → Bool
all_lack d [] = true
all_lack d (item ∷ items) = lacks d item && all_lack d items

pub all_lack-Free : (d : ℕ) (items : List Bytes) → all_lack d items ≡ true → All (Free d) items
all_lack-Free d [] h = tt
all_lack-Free d (item ∷ items) h =
    (lacks-Free d item (ground arith), all_lack-Free d items (ground arith))

-- A text that is its own value: the stand-in for `double`.
abbrev pub kept : Bytes → Result Bytes
kept s = ok s

pub IsLine-of :
    (items : List Bytes)
    → all_lack b',' items ≡ true
    → ends_full items ≡ true
    → IsBare is_space (join b',' items)
    → IsLine (codes " " ++ (join b',' items ++ codes "\r")) items
unfolding is_space
IsLine-of items h e bare = record {
  before = codes " ";
  behind = codes "\r";
  splits = refl;
  blank_before = (refl, tt);
  blank_behind = (refl, tt);
  bare = bare;
  free = all_lack-Free b',' items h;
  full = e;
}

abbrev pub field_text : Bytes → Bytes → Bytes → Bytes → Bytes
field_text before token unit behind = before ++ ((token ++ unit) ++ behind)

pub IsField-of :
    (before token unit behind : Bytes)
    → only is_space before ≡ true
    → only is_alpha unit ≡ true
    → only is_space behind ≡ true
    → IsBare is_space token
    → last_is is_alpha token ≡ false
    → token ≢ []
    → IsField (field_text before token unit behind) token
IsField-of before token unit behind hb hu he bare ends ne = record {
  before = before;
  unit = unit;
  behind = behind;
  splits = refl;
  blank_before = only-Only is_space before hb;
  letters = only-Only is_alpha unit hu;
  blank_behind = only-Only is_space behind he;
  token_bare = bare;
  token_ends = ends;
  token_ne_nil = ne;
}
