-- ===== src/Sqm/Simulator/Chunks.antt =====
-- The simulator answers a command once, however it is cut into segments.
use night_watcher.Base.{
  ℕ, Bool, true, false, ◌||◌, none, some, List, [], ◌∷◌, ◌++◌, ◌≡◌, refl, ap, ◌∙◌, sym, subst, ◌⊎◌,
  arith, ◌==◌, Bytes, codes, is_empty, Option-cases, inl, inr,
}
use mathlib.Core.List.{append_assoc}
use night_watcher.Sqm.Simulator.{
  strip_prefix, find_behind, found, SimState, Prints, set_value, set_loop, query_response,
  response_for, serve,
}
use night_watcher.Text.Cut.{cut-Free}
use night_watcher.Text.Split.{Free}

-- A byte of a text.
abbrev pub has : ℕ → Bytes → Bool
has c [] = false
has c (d ∷ t) = d == c || has c t

strip_prefix-Free : (c : ℕ) (t s : Bytes) → has c t ≡ true → Free c s → strip_prefix t s ≡ none
unfolding strip_prefix
strip_prefix-Free c [] s h f = cc
strip_prefix-Free c (d ∷ t) [] h f = refl
strip_prefix-Free c (d ∷ t) (e ∷ s) h f = ground (arith, f.0, strip_prefix-Free c t s)

-- A text with a byte that another lacks does not occur in it.
pub find_behind-Free : (c : ℕ) (t s : Bytes) → has c t ≡ true → Free c s → find_behind t s ≡ none
unfolding find_behind
find_behind-Free c t [] h f = strip_prefix-Free c t [] h f
find_behind-Free c t (e ∷ s) h f =
    rw (strip_prefix-Free c t (e ∷ s) h f, find_behind) (find_behind-Free c t s h f.1)

pub found-Free : (c : ℕ) (t s : Bytes) → has c t ≡ true → Free c s → found t s ≡ false
unfolding found
found-Free c t s h f = rw (find_behind-Free c t s h f)

strip_prefix-rest :
    (c : ℕ) (t s : Bytes) {rest : Bytes} → strip_prefix t s ≡ some rest → Free c s → Free c rest
unfolding strip_prefix
strip_prefix-rest c [] s h f = subst (Free c) (ground arith) f
strip_prefix-rest c (d ∷ t) [] h f = cc
strip_prefix-rest c (d ∷ t) (e ∷ s) h f = strip_prefix-rest c t s (ground arith) f.1

-- What stands behind an occurrence lacks what the text lacks.
find_behind-rest :
    (c : ℕ) (t s : Bytes) {rest : Bytes} → find_behind t s ≡ some rest → Free c s → Free c rest
unfolding find_behind
find_behind-rest c t [] h f = strip_prefix-rest c t [] h f
find_behind-rest c t (e ∷ s) h f = elim (Option-cases (strip_prefix t (e ∷ s))) [
  | inl n ↦ find_behind-rest c t s (rw (n, find_behind) at h) f.1
  | inr (r, m) ↦ strip_prefix-rest c t (e ∷ s) (m ∙ (rw (m, find_behind) at h)) f
]

-- No byte that ends a command, and none that tells the commands that arm from those that set.
pub record IsOpen (buf : Bytes) : Type 0 where
  pub no_x : Free b'x' buf
  pub no_a : Free b'A' buf
  pub no_b : Free b'B' buf
  pub no_d : Free b'D' buf

module _ {D : Type 0} (p : Prints D) where
  set_value-Free :
      (which : ℕ) (behind : Bytes) (st : SimState D)
      → Free b'x' behind
      → set_value p which behind st ≡ ([], st)
  unfolding set_value
  set_value-Free which behind st f = rw (cut-Free b'x' behind f, set_value)

  set_loop-Free :
      (ws : List ℕ) (buf : Bytes) (st : SimState D)
      → Free b'x' buf
      → (set_loop p ws buf st ≡ none) ⊎ (set_loop p ws buf st ≡ some ([], st))
  unfolding set_loop
  set_loop-Free [] buf st f = inl refl
  set_loop-Free (w ∷ ws) buf st f = elim (Option-cases (find_behind (codes "zcal" ++ w ∷ []) buf)) [
    | inl e ↦ rw (e, set_loop) (set_loop-Free ws buf st f)
    | inr (b, e) ↦
        rw (e, set_loop)
          (inr (
            ap some
              (set_value-Free w b st (find_behind-rest b'x' (codes "zcal" ++ w ∷ []) buf e f))))
  ]

  query_response-Free :
      (buf : Bytes) (st : SimState D) → Free b'x' buf → query_response p buf st ≡ []
  unfolding query_response
  query_response-Free buf st f = rw (
    found-Free b'x' (codes "ix") buf refl f,
    found-Free b'x' (codes "ux") buf refl f,
    found-Free b'x' (codes "cx") buf refl f,
    found-Free b'x' (codes "rx") buf refl f,
  )

  -- An open buffer has no response yet and changes nothing.
  pub response_for-IsOpen :
      (buf : Bytes) (st : SimState D) → IsOpen buf → response_for p buf st ≡ ([], st)
  unfolding response_for
  response_for-IsOpen buf st o =
      rw
        (
          found-Free b'A' (codes "zcalA") buf refl o.no_a,
          found-Free b'B' (codes "zcalB") buf refl o.no_b,
          found-Free b'D' (codes "zcalD") buf refl o.no_d,
        )
        (elim (set_loop-Free (b'5' ∷ b'6' ∷ b'7' ∷ b'8' ∷ []) buf st o.no_x) [
          | inl e ↦ rw (e, query_response-Free buf st o.no_x)
          | inr e ↦ rw e refl
        ])

Free-prefix : (c : ℕ) (s t : Bytes) → Free c (s ++ t) → Free c s
Free-prefix c [] t f = tt
Free-prefix c (d ∷ s) t f = (f.0, Free-prefix c s t f.1)

IsOpen-prefix : (s t : Bytes) → IsOpen (s ++ t) → IsOpen s
IsOpen-prefix s t o = record {
  no_x = Free-prefix b'x' s t o.no_x;
  no_a = Free-prefix b'A' s t o.no_a;
  no_b = Free-prefix b'B' s t o.no_b;
  no_d = Free-prefix b'D' s t o.no_d;
}

-- The bytes of segments that arrive one after the other.
abbrev pub joined : List Bytes → Bytes
joined [] = []
joined (c ∷ chunks) = c ++ joined chunks

module _ {D : Type 0} (p : Prints D) where
  -- What the whole text is answered with, with an empty buffer behind it.
  abbrev pub Answered : Bytes → SimState D → List Bytes × Bytes × SimState D → Type 0
  Answered text st r = r ≡ ((response_for p text st).0 ∷ [], [], (response_for p text st).1)

  serve_from :
      (buf : Bytes) (st : SimState D) (chunks : List Bytes) (last : Bytes)
      → IsOpen (buf ++ joined chunks)
      → is_empty (response_for p (buf ++ (joined chunks ++ last)) st).0 ≡ false
      → Answered (buf ++ (joined chunks ++ last)) st (serve p buf st (chunks ++ last ∷ []))
  unfolding serve
  serve_from buf st [] last o e = rw e refl
  serve_from buf st (c ∷ chunks) last o e =
      rw
        (response_for-IsOpen p (buf ++ c) st (
          IsOpen-prefix (buf ++ c) (joined chunks)
            (subst IsOpen (sym (append_assoc buf c (joined chunks))) o)))
        (subst (λ t. Answered t st (serve p (buf ++ c) st (chunks ++ last ∷ []))) regroup
          (serve_from (buf ++ c) st chunks last
            (subst IsOpen (sym (append_assoc buf c (joined chunks))) o)
            (subst (λ t. is_empty (response_for p t st).0 ≡ false) (sym regroup) e)))
    where
      regroup : (buf ++ c) ++ (joined chunks ++ last) ≡ buf ++ ((c ++ joined chunks) ++ last)
      regroup =
          append_assoc buf c (joined chunks ++ last)
          ∙ ap (◌++◌ buf) (sym (append_assoc c (joined chunks) last))

  -- A command that arrives in segments is answered by one send, of the response to the whole command,
  -- and leaves the buffer empty and the state that this response gives. What comes before the last
  -- segment holds no x, and no A, B or D, which tell apart the commands that are answered before their
  -- x; the whole has a response.
  pub serve-segments :
      (st : SimState D) (chunks : List Bytes) (last : Bytes)
      → IsOpen (joined chunks)
      → is_empty (response_for p (joined chunks ++ last) st).0 ≡ false
      → let r = response_for p (joined chunks ++ last) st in
        serve p [] st (chunks ++ last ∷ []) ≡ (r.0 ∷ [], [], r.1)
  serve-segments st chunks last o e = serve_from [] st chunks last o e
