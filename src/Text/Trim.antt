-- ===== src/Text/Trim.antt =====
-- What `trim` and its two halves keep of a text.
use mathlib.Core.List.{append-nil}
use night_watcher.Base.{
  ℕ, Bool, true, false, ◌&&◌, [], ◌∷◌, ◌++◌, ◌≡◌, refl, ap, ◌∙◌, inl, inr, arith, if◌then◌else◌,
  is_empty, Bytes, All, Bool-cases, sym, All-append,
}
use night_watcher.Text.{drop_while, drop_end_while, is_space, trim}

abbrev pub first_is : (ℕ → Bool) → Bytes → Bool
first_is p [] = false
first_is p (c ∷ s) = p c

abbrev pub last_is : (ℕ → Bool) → Bytes → Bool
last_is p [] = false
last_is p (c ∷ []) = p c
last_is p (c ∷ d ∷ s) = last_is p (d ∷ s)

-- Neither end passes.
abbrev pub IsBare : (ℕ → Bool) → Bytes → Type 0
IsBare p s = (first_is p s ≡ false) × (last_is p s ≡ false)

abbrev pub Only : (ℕ → Bool) → Bytes → Type 0
Only p s = All (λ c. p c ≡ true) s

module _ (p : ℕ → Bool) where
  pub drop_while_bare : (s : Bytes) → first_is p s ≡ false → drop_while p s ≡ s
  unfolding drop_while
  drop_while_bare [] h = refl
  drop_while_bare (c ∷ s) h = rw h

  pub drop_while-append :
      (xs s : Bytes) → Only p xs → first_is p s ≡ false → drop_while p (xs ++ s) ≡ s
  unfolding drop_while
  drop_while-append [] s h b = drop_while_bare s b
  drop_while-append (x ∷ xs) s h b = rw h.0 (drop_while-append xs s h.1 b)

  pub drop_end_while-Only : (s : Bytes) → Only p s → drop_end_while p s ≡ []
  unfolding drop_end_while
  drop_end_while-Only [] h = refl
  drop_end_while-Only (c ∷ s) h = ground (arith, drop_end_while-Only s h.1)

  pub drop_end_while-append :
      (s xs : Bytes) → Only p xs → last_is p s ≡ false → drop_end_while p (s ++ xs) ≡ s
  unfolding drop_end_while
  drop_end_while-append [] xs h b = drop_end_while-Only xs h
  drop_end_while-append (c ∷ []) xs h b = ground (arith, drop_end_while-Only xs h)
  drop_end_while-append (c ∷ d ∷ s) xs h b =
      rw (drop_end_while-append (d ∷ s) xs h b, drop_end_while)

  drop_while_split :
      (s : Bytes)
      → (xs : Bytes) × (s ≡ xs ++ drop_while p s)
        × Only p xs
        × (first_is p (drop_while p s) ≡ false)
  unfolding drop_while
  drop_while_split [] = ([], refl, tt, refl)
  drop_while_split (c ∷ s) = elim (Bool-cases (p c)) [
    | inl e ↦
        let (xs, q, only, bare) = drop_while_split s in rw e (c ∷ xs, ap (◌∷◌ c) q, (e, only), bare)
    | inr e ↦ rw e ([], refl, tt, e)
  ]

  pub last_is-append : (s : Bytes) (c : ℕ) (t : Bytes) → last_is p (s ++ c ∷ t) ≡ last_is p (c ∷ t)
  last_is-append [] c t = refl
  last_is-append (x ∷ []) c t = refl
  last_is-append (x ∷ y ∷ s) c t = last_is-append (y ∷ s) c t

  -- What `drop_end_while` takes off, and that it stops there; the first byte stays.
  pub drop_end_while_split :
      (s : Bytes)
      → (xs : Bytes) × (s ≡ drop_end_while p s ++ xs)
        × Only p xs
        × (last_is p (drop_end_while p s) ≡ false)
        × (first_is p s ≡ false → first_is p (drop_end_while p s) ≡ false)
  unfolding drop_end_while
  drop_end_while_split [] = ([], refl, tt, refl, λ h. h)
  drop_end_while_split (c ∷ s) = cons_split (drop_end_while p s) (drop_end_while_split s)
    where
      cons_split :
          (kept : Bytes)
          → ((xs : Bytes) × (s ≡ kept ++ xs)
              × Only p xs
              × (last_is p kept ≡ false)
              × (first_is p s ≡ false → first_is p kept ≡ false))
          → (xs : Bytes) × (c ∷ s ≡ (if is_empty kept && p c then [] else c ∷ kept) ++ xs)
            × Only p xs
            × (last_is p (if is_empty kept && p c then [] else c ∷ kept) ≡ false)
            × (p c ≡ false → first_is p (if is_empty kept && p c then [] else c ∷ kept) ≡ false)
      cons_split [] (xs, e, only, l, f) = elim (Bool-cases (p c)) [
        | inl h ↦ rw h (c ∷ xs, ap (◌∷◌ c) e, (h, only), refl, λ _. refl)
        | inr h ↦ rw h (xs, ap (◌∷◌ c) e, only, h, λ _. h)
      ]
      cons_split (k ∷ kept) (xs, e, only, l, f) = (xs, ap (◌∷◌ c) e, only, l, λ h. h)

-- A text between white space comes back whole.
pub trim-between :
    (before s behind : Bytes)
    → Only is_space before
    → IsBare is_space s
    → Only is_space behind
    → trim (before ++ (s ++ behind)) ≡ s
unfolding trim
trim-between before [] behind hb bare ha = ap (drop_end_while is_space) (
    ap (drop_while is_space) (sym (append-nil (before ++ behind)))
    ∙ drop_while-append is_space (before ++ behind) []
        (All-append (λ c. is_space c ≡ true) before behind hb ha) refl)
trim-between before (c ∷ s) behind hb bare ha =
    rw (drop_while-append is_space before ((c ∷ s) ++ behind) hb bare.0)
      (drop_end_while-append is_space (c ∷ s) behind ha bare.1)

pub trim_bare : (s : Bytes) → IsBare is_space s → trim s ≡ s
unfolding trim
trim_bare s bare = rw (drop_while_bare is_space s bare.0) (
    ap (drop_end_while is_space) (sym (append-nil s))
    ∙ drop_end_while-append is_space s [] tt bare.1)

-- `trim` takes off white space alone, at the two ends, and all of it there.
pub trim_split :
    (s : Bytes)
    → (before behind : Bytes) × (s ≡ before ++ (trim s ++ behind))
      × Only is_space before
      × Only is_space behind
      × IsBare is_space (trim s)
unfolding trim
trim_split s =
    let (before, e, only, first) = drop_while_split is_space s in
    let (behind, e', only', last, keeps) = drop_end_while_split is_space (drop_while is_space s) in
    (before, behind, e ∙ ap (◌++◌ before) e', only, only', (keeps first, last))

pub trim-trim : (s : Bytes) → trim (trim s) ≡ trim s
trim-trim s = let (_, _, _, _, _, bare) = trim_split s in trim_bare (trim s) bare
