-- ===== src/Sqm/Tcp/Reading.antt =====
-- `read_line` against the byte stream, however TCP cuts it into segments.
use mathlib.Core.List.{append-nil, append_assoc}
use night_watcher.Base.{
  ℕ, zero, suc, ◌≡◌, refl, sym, ap, ap₂, ◌∙◌, inl, inr, Option, none, some, List, [], ◌∷◌, ◌++◌,
  arith, Bytes, codes, Option-cases, subst,
}
use night_watcher.Sqm.Line.{
  ReadOutcome, line, throws, waits, take_line, take_line-append, stream_lines,
}
use night_watcher.Sqm.Tcp.{Recv, chunk, closed, interrupted, timed_out, failed, read_line}

some-ne-none {ℓ} : {A : Type ℓ} {a : A} → ¬ (some a ≡ none)
some-ne-none h = cc

-- The tape only delivers bytes, and signals.
abbrev pub IsQuiet : List Recv → Type 0
IsQuiet [] = Unit {0}
IsQuiet (chunk c ∷ tape) = IsQuiet tape
IsQuiet (interrupted ∷ tape) = IsQuiet tape
IsQuiet (_ ∷ tape) = ⊥

abbrev pub stream : List Recv → Bytes
stream [] = []
stream (chunk c ∷ tape) = c ++ stream tape
stream (_ ∷ tape) = stream tape

-- The outcome is the line `l`, and `rest` is still to come: buffered, or on the tape.
abbrev pub Finds : ReadOutcome Recv → Bytes → Bytes → Type 0
Finds (line l' buf tape) l rest = (l' ≡ l) × (buf ++ stream tape ≡ rest) × IsQuiet tape
Finds (throws _ _ _) l rest = ⊥
Finds (waits _) l rest = ⊥

found :
    (buf : Bytes) (tape : List Recv) (l rest : Bytes) (p : Bytes × Bytes)
    → take_line buf ≡ some p
    → take_line (buf ++ stream tape) ≡ some (l, rest)
    → IsQuiet tape
    → Finds (line p.0 p.1 tape) l rest
found buf tape l rest p e h q = (cc shifted, cc shifted, q)
  where
    shifted : take_line (buf ++ stream tape) ≡ some (p.0, p.1 ++ stream tape)
    shifted = take_line-append buf (stream tape) p.0 p.1 e

-- A line that is in the buffer is returned with no system call.
pub read_line_buffered :
    (buf : Bytes) (tape : List Recv) (p : Bytes × Bytes)
    → take_line buf ≡ some p
    → read_line buf tape ≡ line p.0 p.1 tape
unfolding read_line
read_line_buffered buf [] p e = rw (e, read_line)
read_line_buffered buf (chunk c ∷ tape) p e = rw (e, read_line)
read_line_buffered buf (interrupted ∷ tape) p e = rw (e, read_line)
read_line_buffered buf (closed ∷ tape) p e = rw (e, read_line)
read_line_buffered buf (timed_out ∷ tape) p e = rw (e, read_line)
read_line_buffered buf (failed why ∷ tape) p e = rw (e, read_line)

read_line-chunk :
    (buf c : Bytes) (tape : List Recv)
    → take_line buf ≡ none
    → read_line buf (chunk c ∷ tape) ≡ read_line (buf ++ c) tape
unfolding read_line
read_line-chunk buf c tape e = rw (e, read_line)

read_line-interrupted :
    (buf : Bytes) (tape : List Recv)
    → take_line buf ≡ none
    → read_line buf (interrupted ∷ tape) ≡ read_line buf tape
unfolding read_line
read_line-interrupted buf tape e = rw (e, read_line)

module _ (l rest : Bytes) where
  Finds_buffered :
      (buf : Bytes) (tape : List Recv) (p : Bytes × Bytes)
      → IsQuiet tape
      → take_line (buf ++ stream tape) ≡ some (l, rest)
      → take_line buf ≡ some p
      → Finds (read_line buf tape) l rest
  Finds_buffered buf tape p q h e =
      subst (λ o. Finds o l rest) (sym (read_line_buffered buf tape p e))
        (found buf tape l rest p e h q)

  -- Where the stream holds a line, read_line finds it and loses none of the bytes behind it.
  pub read_line-Finds :
      (buf : Bytes) (tape : List Recv)
      → IsQuiet tape
      → take_line (buf ++ stream tape) ≡ some (l, rest)
      → Finds (read_line buf tape) l rest
  read_line-Finds buf [] q h = elim (Option-cases (take_line buf)) [
    | inl e ↦ absurd (some-ne-none (sym h ∙ ap take_line (append-nil buf) ∙ e))
    | inr (p, e) ↦ Finds_buffered buf [] p q h e
  ]
  read_line-Finds buf (chunk c ∷ tape) q h = elim (Option-cases (take_line buf)) [
    | inl e ↦
        subst (λ o. Finds o l rest) (sym (read_line-chunk buf c tape e))
          (read_line-Finds (buf ++ c) tape q (ap take_line (append_assoc buf c (stream tape)) ∙ h))
    | inr (p, e) ↦ Finds_buffered buf (chunk c ∷ tape) p q h e
  ]
  read_line-Finds buf (interrupted ∷ tape) q h = elim (Option-cases (take_line buf)) [
    | inl e ↦
        subst (λ o. Finds o l rest) (sym (read_line-interrupted buf tape e))
          (read_line-Finds buf tape q h)
    | inr (p, e) ↦ Finds_buffered buf (interrupted ∷ tape) p q h e
  ]
  read_line-Finds buf (closed ∷ tape) q h = elim q [ ]
  read_line-Finds buf (timed_out ∷ tape) q h = elim q [ ]
  read_line-Finds buf (failed why ∷ tape) q h = elim q [ ]

-- The message with which a recv result ends the call.
abbrev pub ends_with : Recv → Option Bytes
ends_with closed = some (codes "connection closed by peer")
ends_with timed_out = some (codes "read timeout")
ends_with (failed why) = some (codes "recv: " ++ why)
ends_with _ = none

take_line_prefix : (s t : Bytes) → take_line (s ++ t) ≡ none → take_line s ≡ none
take_line_prefix s t h = elim (Option-cases (take_line s)) [
  | inl e ↦ e
  | inr (p, e) ↦ absurd (some-ne-none (sym (take_line-append s t p.0 p.1 e) ∙ h))
]

-- With no line in the bytes that arrive, the call ends with what ends the stream: its exception,
-- with all the bytes still in the buffer.
pub read_line-throws :
    (buf : Bytes) (tape : List Recv) (last : Recv) (more : List Recv) (message : Bytes)
    → IsQuiet tape
    → take_line (buf ++ stream tape) ≡ none
    → ends_with last ≡ some message
    → read_line buf (tape ++ last ∷ more) ≡ throws message (buf ++ stream tape) more
unfolding read_line
read_line-throws buf [] closed more message q h e =
    rw (append-nil buf) (rw (ap take_line (sym (append-nil buf)) ∙ h, read_line) (ground arith))
read_line-throws buf [] (chunk c) more message q h e = cc
read_line-throws buf [] timed_out more message q h e =
    rw (append-nil buf) (rw (ap take_line (sym (append-nil buf)) ∙ h, read_line) (ground arith))
read_line-throws buf [] interrupted more message q h e = cc
read_line-throws buf [] (failed why) more message q h e =
    rw (append-nil buf) (rw (ap take_line (sym (append-nil buf)) ∙ h, read_line) (ground arith))
read_line-throws buf (chunk c ∷ tape) last more message q h e =
    read_line-chunk buf c (tape ++ last ∷ more) (take_line_prefix buf (c ++ stream tape) h)
    ∙ read_line-throws (buf ++ c) tape last more message q
        (ap take_line (append_assoc buf c (stream tape)) ∙ h) e
    ∙ ap (λ b. throws message b more) (append_assoc buf c (stream tape))
read_line-throws buf (interrupted ∷ tape) last more message q h e =
    read_line-interrupted buf (tape ++ last ∷ more) (take_line_prefix buf (stream tape) h)
    ∙ read_line-throws buf tape last more message q h e
read_line-throws buf (closed ∷ tape) last more message q h e = elim q [ ]
read_line-throws buf (timed_out ∷ tape) last more message q h e = elim q [ ]
read_line-throws buf (failed why ∷ tape) last more message q h e = elim q [ ]

-- The lines that `n` calls of read_line return, up to the first that returns none.
unfoldable pub read_lines : ℕ → Bytes → List Recv → List Bytes
read_lines zero buf tape = []
read_lines (suc n) buf tape = elim (read_line buf tape) [
  | line l rest left ↦ l ∷ read_lines n rest left
  | throws _ _ _ ↦ []
  | waits _ ↦ []
]

read_line-waits :
    (buf : Bytes) (tape : List Recv)
    → IsQuiet tape
    → take_line (buf ++ stream tape) ≡ none
    → read_line buf tape ≡ waits (buf ++ stream tape)
unfolding read_line
read_line-waits buf [] q h =
    let e = ap take_line (sym (append-nil buf)) ∙ h in
    rw (e, read_line) (ap waits (sym (append-nil buf)))
read_line-waits buf (chunk c ∷ tape) q h =
    read_line-chunk buf c tape (take_line_prefix buf (c ++ stream tape) h)
    ∙ read_line-waits (buf ++ c) tape q (ap take_line (append_assoc buf c (stream tape)) ∙ h)
    ∙ ap waits (append_assoc buf c (stream tape))
read_line-waits buf (interrupted ∷ tape) q h =
    read_line-interrupted buf tape (take_line_prefix buf (stream tape) h)
    ∙ read_line-waits buf tape q h
read_line-waits buf (closed ∷ tape) q h = elim q [ ]
read_line-waits buf (timed_out ∷ tape) q h = elim q [ ]
read_line-waits buf (failed why ∷ tape) q h = elim q [ ]

-- However the stream is cut into segments, the calls return its lines, in order.
pub read_lines-stream :
    (n : ℕ) (buf : Bytes) (tape : List Recv)
    → IsQuiet tape
    → read_lines n buf tape ≡ stream_lines n (buf ++ stream tape)
unfolding read_lines stream_lines
read_lines-stream zero buf tape q = refl
read_lines-stream (suc n) buf tape q = elim (Option-cases (take_line (buf ++ stream tape))) [
  | inl e ↦ rw (e, read_line-waits buf tape q e, read_lines, stream_lines) refl
  | inr (p, e) ↦
      rw (e, stream_lines, read_lines)
        (by_outcome (read_lines-stream n) (read_line buf tape) p
          (read_line-Finds p.0 p.1 buf tape q e))
]
  where
    by_outcome :
        ((b : Bytes) (t : List Recv)
          → IsQuiet t
          → read_lines n b t ≡ stream_lines n (b ++ stream t))
        → (o : ReadOutcome Recv) (p : Bytes × Bytes) → Finds o p.0 p.1
        → (elim o [
          | line l rest left ↦ l ∷ read_lines n rest left
          | throws _ _ _ ↦ []
          | waits _ ↦ []
        ])
          ≡ p.0 ∷ stream_lines n p.1
    by_outcome again (line l rest left) p (same, remains, quiet) =
        ap₂ ◌∷◌ same (again rest left quiet ∙ ap (stream_lines n) remains)
    by_outcome again (throws _ _ _) p f = elim f [ ]
    by_outcome again (waits _) p f = elim f [ ]
