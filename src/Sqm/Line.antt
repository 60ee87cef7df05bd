-- ===== src/Sqm/Line.antt =====
-- src/sqm/transport.hpp: what both transports do with their receive buffer, and the lines of a
-- byte stream.
use night_watcher.Base.{
  ℕ, zero, suc, ◌≡◌, refl, inl, inr, true, false, Option, none, some, List, [], ◌∷◌, ◌++◌, arith,
  ◌==◌, if◌then◌else◌, Bytes, Bool-cases, Option-cases,
}
use night_watcher.Text.{cut}

-- `if (!line.empty() && line.back() == '\r') line.pop_back()`.
unfoldable pub strip_cr : Bytes → Bytes
strip_cr [] = []
strip_cr (c ∷ []) = if c == b'\r' then [] else c ∷ []
strip_cr (c ∷ d ∷ s) = c ∷ strip_cr (d ∷ s)

-- The line up to the first '\n' of the buffer, without its terminator, and the bytes behind it.
unfoldable pub take_line : Bytes → Option (Bytes × Bytes)
take_line buf = elim (cut b'\n' buf) [
  | none ↦ none
  | some (line, behind) ↦ some (strip_cr line, behind)
]

-- What a call of read_line comes to: a line, an exception, or it still waits because `tape`, the
-- results of the system calls to come, has run out. The buffer and the rest of the tape stay.
pub data ReadOutcome (T : Type 0) : Type 0 where
  line : Bytes → Bytes → List T → ReadOutcome T
  throws : Bytes → Bytes → List T → ReadOutcome T
  waits : Bytes → ReadOutcome T

-- The first `n` lines of a stream, or as many as it has.
unfoldable pub stream_lines : ℕ → Bytes → List Bytes
stream_lines zero s = []
stream_lines (suc n) s = elim (take_line s) [
  | none ↦ []
  | some (l, behind) ↦ l ∷ stream_lines n behind
]

-- More bytes behind the buffer leave the first line as it is.
cut-append :
    (d : ℕ) (s t : Bytes)
    → cut d (s ++ t) ≡ (elim (cut d s) [
      | none ↦ elim (cut d t) [ none ↦ none | some (l, r) ↦ some (s ++ l, r) ]
      | some (l, r) ↦ some (l, r ++ t)
    ])
unfolding cut
cut-append d [] t = elim (Option-cases (cut d t)) [ inl e ↦ rw e refl | inr (p, e) ↦ rw e refl ]
cut-append d (c ∷ s) t = elim (Bool-cases (c == d)) [
  | inl e ↦ rw e refl
  | inr e ↦ elim (Option-cases (cut d s)) [
    | inl f ↦
        rw (e, cut-append d s t, f)
          (elim (Option-cases (cut d t)) [ inl g ↦ rw g refl | inr (q, g) ↦ rw g refl ])
    | inr (q, f) ↦ rw (e, cut-append d s t, f) refl
  ]
]

pub take_line-append :
    (s t l r : Bytes) → take_line s ≡ some (l, r) → take_line (s ++ t) ≡ some (l, r ++ t)
unfolding take_line
take_line-append s t l r h = ground (arith, cut-append b'\n' s t)

cut_split :
    (d : ℕ) (s : Bytes) (p : Bytes × Bytes)
    → cut d s ≡ some p
    → (s ≡ p.0 ++ d ∷ p.1) × (cut d p.0 ≡ none)
unfolding cut
cut_split d [] p h = cc
cut_split d (c ∷ s) p h = elim (Bool-cases (c == d)) [
  | inl e ↦ at_once e (rw e at h)
  | inr e ↦ elim (Option-cases (cut d s)) [
    | inl f ↦ ground (arith)
    | inr (q, f) ↦ later e q f (cut_split d s q f)
  ]
]
  where
    at_once :
        (c == d) ≡ true → some ([], s) ≡ some p → (c ∷ s ≡ p.0 ++ d ∷ p.1) × (cut d p.0 ≡ none)
    at_once e g = ground arith

    later :
        (c == d) ≡ false
        → (q : Bytes × Bytes) → cut d s ≡ some q
        → (s ≡ q.0 ++ d ∷ q.1) × (cut d q.0 ≡ none)
        → (c ∷ s ≡ p.0 ++ d ∷ p.1) × (cut d p.0 ≡ none)
    later e q f ih = ground arith

-- A line ends at the first '\n' of the stream, and what is behind it is kept.
pub take_line-some :
    (s l r : Bytes)
    → take_line s ≡ some (l, r)
    → (raw : Bytes) × (s ≡ raw ++ b'\n' ∷ r) × (l ≡ strip_cr raw) × (cut b'\n' raw ≡ none)
unfolding take_line
take_line-some s l r h = elim (Option-cases (cut b'\n' s)) [
  | inl f ↦ ground arith
  | inr (q, f) ↦
      (q.0, ground (arith, cut_split b'\n' s q f), ground arith, (cut_split b'\n' s q f).1)
]
