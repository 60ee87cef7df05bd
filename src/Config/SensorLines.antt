-- ===== src/Config/SensorLines.antt =====
-- Which lines of a configuration name a sensor, as the loader takes them and as they are written.
use night_watcher.Base.{
  ap₂, Bool-cases, true, false, ◌&&◌, ◌||◌, ◌==◌, ==_iff, get_or, length, take, is_empty, codes,
  ◌⊎◌, subst, ℕ, suc, ◌-◌, ◌≡◌, refl, sym, ap, ◌∙◌, none, some, List, [], ◌∷◌, ◌++◌, arith, Bytes,
  Option-cases, inl, inr,
}
use night_watcher.Config.{back, after_prefix, section_of, Line, header, sensor_of, classify}
use night_watcher.Text.{trim, cut}

-- The identifiers that a file's lines name, in order.
abbrev pub named : Line → List Bytes
named (header section) = elim (sensor_of section) [ none ↦ [] | some sc ↦ sc.id ∷ [] ]
named _ = []

abbrev pub sensor_ids : List Bytes → List Bytes
sensor_ids [] = []
sensor_ids (l ∷ lines) = named (classify (trim l)) ++ sensor_ids lines

-- A line `[sensor: id ]`, with any white space around its parts.
abbrev pub IsSensorLine : Bytes → Bytes → Type 0
IsSensorLine l id =
    (inner rest : Bytes) × (trim l ≡ b'[' ∷ (inner ++ b']' ∷ []))
    × (trim inner ≡ codes "sensor:" ++ rest)
    × (id ≡ trim rest)

-- The identifiers of the sensor lines, in order.
pub data SensorLines : List Bytes → List Bytes → Type 0 where
  no_lines : SensorLines [] []
  sensor_line :
      {l id : Bytes} {lines ids : List Bytes}
      → IsSensorLine l id
      → SensorLines lines ids
      → SensorLines (l ∷ lines) (id ∷ ids)
  other_line :
      {l : Bytes} {lines ids : List Bytes}
      → ((id : Bytes) → ¬ IsSensorLine l id)
      → SensorLines lines ids
      → SensorLines (l ∷ lines) ids

after_prefix_complete : (p rest : Bytes) → after_prefix p (p ++ rest) ≡ some rest
unfolding after_prefix
after_prefix_complete [] rest = refl
after_prefix_complete (c ∷ p) rest =
    rw ((==_iff c c).1 refl, after_prefix) (after_prefix_complete p rest)

after_prefix_sound : (p s rest : Bytes) → after_prefix p s ≡ some rest → s ≡ p ++ rest
unfolding after_prefix
after_prefix_sound [] s rest h = cc
after_prefix_sound (c ∷ p) [] rest h = cc
after_prefix_sound (c ∷ p) (d ∷ s) rest h = ground (arith, after_prefix_sound p s rest)

get_last : (s : Bytes) (d : ℕ) → get_or (s ++ d ∷ []) (length s) 0 ≡ d
get_last [] d = refl
get_last (c ∷ s) d = get_last s d

length_last : (s : Bytes) (d : ℕ) → length (s ++ d ∷ []) ≡ suc (length s)
length_last [] d = refl
length_last (c ∷ s) d = ap suc (length_last s d)

take_last : (s : Bytes) (d : ℕ) → take (length s) (s ++ d ∷ []) ≡ s
take_last [] d = refl
take_last (c ∷ s) d = ap (◌∷◌ c) (take_last s d)

last_of : (c : ℕ) (s : Bytes) → (inner : Bytes) × (d : ℕ) × (c ∷ s ≡ inner ++ d ∷ [])
last_of c [] = ([], c, refl)
last_of c (e ∷ s) = let (inner, d, q) = last_of e s in (c ∷ inner, d, ap (◌∷◌ c) q)

back_framed : (c : ℕ) (inner : Bytes) (d : ℕ) → back (c ∷ (inner ++ d ∷ [])) ≡ d
unfolding back
back_framed c inner d = ap (λ n. get_or (c ∷ (inner ++ d ∷ [])) n 0) counted ∙ get_last inner d
  where
    counted : suc (length (inner ++ d ∷ [])) - 1 ≡ suc (length inner)
    counted = omega (arith, length_last inner d)

section_framed : (c : ℕ) (inner : Bytes) (d : ℕ) → section_of (c ∷ (inner ++ d ∷ [])) ≡ trim inner
unfolding section_of
section_framed c inner d =
    ap (λ n. trim (take n (inner ++ d ∷ []))) counted ∙ ap trim (take_last inner d)
  where
    counted : suc (length (inner ++ d ∷ [])) - 2 ≡ length inner
    counted = omega (arith, length_last inner d)

classify-framed : (inner : Bytes) → classify (b'[' ∷ (inner ++ b']' ∷ [])) ≡ header (trim inner)
unfolding classify
classify-framed inner =
    rw (back_framed b'[' inner b']', classify) (ap header (section_framed b'[' inner b']'))

-- What is not in brackets names nothing.
named_plain :
    (t : Bytes) → (get_or t 0 0 == b'[' && back t == b']') ≡ false → named (classify t) ≡ []
unfolding classify
named_plain t h = elim (Bool-cases (is_empty t || get_or t 0 0 == b'#' || get_or t 0 0 == b';')) [
  | inl e ↦ rw (e, classify) refl
  | inr e ↦ elim (Option-cases (cut b'=' t)) [
    | inl f ↦ rw (e, h, f, classify) refl
    | inr (kv, f) ↦ rw (e, h, f, classify) refl
  ]
]

named-sensor :
    (section rest : Bytes)
    → after_prefix (codes "sensor:") section ≡ some rest
    → named (header section) ≡ trim rest ∷ []
unfolding sensor_of
named-sensor section rest h = rw (h, sensor_of) refl

named-other :
    (section : Bytes) → after_prefix (codes "sensor:") section ≡ none → named (header section) ≡ []
unfolding sensor_of
named-other section h = rw (h, sensor_of) refl

named_complete : (l id : Bytes) → IsSensorLine l id → named (classify (trim l)) ≡ id ∷ []
named_complete l id (inner, rest, framed, sensor, same) =
    ap (λ t. named (classify t)) framed
    ∙ ap named (classify-framed inner)
    ∙ named-sensor (trim inner) rest
        (ap (after_prefix (codes "sensor:")) sensor ∙ after_prefix_complete (codes "sensor:") rest)
    ∙ ap (λ i. i ∷ []) (sym same)

abbrev Names : Bytes → Type 0
Names l =
    (named (classify (trim l)) ≡ [])
    ⊎ ((id : Bytes) × (named (classify (trim l)) ≡ id ∷ []) × IsSensorLine l id)

named_inside : (l inner : Bytes) → trim l ≡ b'[' ∷ (inner ++ b']' ∷ []) → Names l
named_inside l inner framed = elim (Option-cases (after_prefix (codes "sensor:") (trim inner))) [
  | inl e ↦ inl (
      ap (λ t. named (classify t)) framed
      ∙ ap named (classify-framed inner)
      ∙ named-other (trim inner) e)
  | inr (rest, e) ↦
      let line : IsSensorLine l (trim rest) =
        (inner, rest, framed, after_prefix_sound (codes "sensor:") (trim inner) rest e, refl) in
      inr (trim rest, named_complete l (trim rest) line, line)
]

named_framed :
    (l t : Bytes) → trim l ≡ t → (get_or t 0 0 == b'[' && back t == b']') ≡ true → Names l
unfolding back
named_framed l [] e h = cc
named_framed l (c ∷ []) e h = ground arith
named_framed l (c ∷ b ∷ s) e h =
    let (inner, d, q) = last_of b s in
    let brackets =
      in_brackets inner d (subst (λ u. (c == b'[' && back (c ∷ u) == b']') ≡ true) q h) in
    named_inside l inner
      (e ∙ ap (◌∷◌ c) q ∙ ap₂ (λ x y. x ∷ (inner ++ y ∷ [])) brackets.0 brackets.1)
  where
    in_brackets :
        (inner : Bytes) (d : ℕ)
        → (c == b'[' && back (c ∷ (inner ++ d ∷ [])) == b']') ≡ true
        → (c ≡ b'[') × (d ≡ b']')
    in_brackets inner d k = both (rw (back_framed c inner d) at k)
      where
        both : (c == b'[' && d == b']') ≡ true → (c ≡ b'[') × (d ≡ b']')
        both k = ground arith

named_sound : (l : Bytes) → Names l
named_sound l = elim (Bool-cases (get_or (trim l) 0 0 == b'[' && back (trim l) == b']')) [
  | inl e ↦ named_framed l (trim l) refl e
  | inr e ↦ inl (named_plain (trim l) e)
]

pub sensor_ids-SensorLines : (lines : List Bytes) → SensorLines lines (sensor_ids lines)
sensor_ids-SensorLines [] = no_lines
sensor_ids-SensorLines (l ∷ lines) = elim (named_sound l) [
  | inr (id, e, line) ↦
      subst (λ ids. SensorLines (l ∷ lines) (ids ++ sensor_ids lines)) (sym e)
        (sensor_line line (sensor_ids-SensorLines lines))
  | inl e ↦
      subst (λ ids. SensorLines (l ∷ lines) (ids ++ sensor_ids lines)) (sym e)
        (other_line (λ id line. cc (e, named_complete l id line)) (sensor_ids-SensorLines lines))
]
