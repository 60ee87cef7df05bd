-- ===== src/Text/Split.antt =====
-- `split` against joining with the delimiter.
use night_watcher.Base.{
  ℕ, Bool, true, false, List, [], ◌∷◌, ◌++◌, ◌≡◌, refl, ap, ◌∙◌, inl, inr, arith, ◌==◌,
  if◌then◌else◌, is_empty, Bytes, All, Bool-cases,
}
use night_watcher.Text.{split, cons_head}

-- The delimiter does not occur.
abbrev pub Free : ℕ → Bytes → Type 0
Free d s = All (λ c. (c == d) ≡ false) s

abbrev pub join : ℕ → List Bytes → Bytes
join d [] = []
join d (item ∷ []) = item
join d (item ∷ next ∷ items) = item ++ d ∷ join d (next ∷ items)

-- The last item, if there is one, is not empty.
abbrev pub ends_full : List Bytes → Bool
ends_full [] = true
ends_full (item ∷ []) = if is_empty item then false else true
ends_full (item ∷ next ∷ items) = ends_full (next ∷ items)

module _ (d : ℕ) where
  split_delim : (s : Bytes) → split d (d ∷ s) ≡ [] ∷ split d s
  unfolding split
  split_delim s = ground arith

  pub split-append : (item s : Bytes) → Free d item → split d (item ++ d ∷ s) ≡ item ∷ split d s
  unfolding split
  split-append [] s h = split_delim s
  split-append (c ∷ item) s h = rw (h.0, split-append item s h.1, split)

  pub split_one : (c : ℕ) (item : Bytes) → Free d (c ∷ item) → split d (c ∷ item) ≡ (c ∷ item) ∷ []
  unfolding split
  split_one c [] h = rw h.0
  split_one c (e ∷ item) h = rw (h.0, split_one e item h.1, split)

  -- Items with no delimiter come back, if the last is not empty.
  pub split-join :
      (items : List Bytes)
      → All (Free d) items
      → ends_full items ≡ true
      → split d (join d items) ≡ items
  unfolding split
  split-join [] h e = refl
  split-join ([] ∷ []) h e = cc
  split-join ((c ∷ item) ∷ []) h e = split_one c item h.0
  split-join (item ∷ next ∷ items) h e =
      split-append item (join d (next ∷ items)) h.0
      ∙ ap (◌∷◌ item) (split-join (next ∷ items) h.1 e)

  cons_head-Free :
      (c : ℕ) (items : List Bytes)
      → (c == d) ≡ false
      → All (Free d) items
      → All (Free d) (cons_head c items)
  cons_head-Free c [] e h = ((e, tt), tt)
  cons_head-Free c (item ∷ items) e h = ((e, h.0), h.1)

  -- No item holds a delimiter.
  pub split-Free : (s : Bytes) → All (Free d) (split d s)
  unfolding split
  split-Free [] = tt
  split-Free (c ∷ s) = elim (Bool-cases (c == d)) [
    | inl e ↦ rw e (tt, split-Free s)
    | inr e ↦ rw e (cons_head-Free c (split d s) e (split-Free s))
  ]
