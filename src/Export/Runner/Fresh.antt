-- ===== src/Export/Runner/Fresh.antt =====
-- The readings that a run takes, against the watermark that it leaves.
use night_watcher.Base.{
  true, false, ◌≡◌, ◌≢◌, refl, List, [], ◌∷◌, Bytes, All, arith, Bool-cases, inl, inr,
  if◌then◌else◌,
}
use night_watcher.Db.{ReadingRow}
use night_watcher.Export.Runner.{newer_than, fresh_of, newest_from}
use night_watcher.Export.Run.{bytes_lt}

bytes_lt_irrefl : (s : Bytes) → bytes_lt s s ≡ false
unfolding bytes_lt
bytes_lt_irrefl [] = refl
bytes_lt_irrefl (x ∷ s) = ground (arith, bytes_lt_irrefl s)

bytes_lt_trans : (s t u : Bytes) → bytes_lt s t ≡ true → bytes_lt t u ≡ true → bytes_lt s u ≡ true
unfolding bytes_lt
bytes_lt_trans s [] u h k = cc
bytes_lt_trans s (y ∷ t) [] h k = cc
bytes_lt_trans [] (y ∷ t) (z ∷ u) h k = refl
bytes_lt_trans (x ∷ s) (y ∷ t) (z ∷ u) h k = ground (arith, bytes_lt_trans s t u)

-- s < t and t ≤ u give s < u.
bytes_lt_of_not_lt :
    (s t u : Bytes) → bytes_lt s t ≡ true → bytes_lt u t ≡ false → bytes_lt s u ≡ true
unfolding bytes_lt
bytes_lt_of_not_lt s [] u h k = cc
bytes_lt_of_not_lt [] (y ∷ t) [] h k = cc
bytes_lt_of_not_lt [] (y ∷ t) (z ∷ u) h k = refl
bytes_lt_of_not_lt (x ∷ s) (y ∷ t) [] h k = cc
bytes_lt_of_not_lt (x ∷ s) (y ∷ t) (z ∷ u) h k = ground (arith, bytes_lt_of_not_lt s t u)

bytes_le_trans :
    (s t u : Bytes) → bytes_lt t s ≡ false → bytes_lt u t ≡ false → bytes_lt u s ≡ false
bytes_le_trans s t u h k = elim (Bool-cases (bytes_lt u s)) [
  | inl e ↦ cc (bytes_lt_of_not_lt u s t e h)
  | inr e ↦ e
]

bytes_lt_asymm : (s t : Bytes) → bytes_lt s t ≡ true → bytes_lt t s ≡ false
bytes_lt_asymm s t h = elim (Bool-cases (bytes_lt t s)) [
  | inl e ↦ cc (bytes_lt_trans s t s h e, bytes_lt_irrefl s)
  | inr e ↦ e
]

not_below_nil : (s : Bytes) → ¬ (bytes_lt s [] ≡ true)
unfolding bytes_lt
not_below_nil s h = cc

-- a ≤ b for texts: b is not below a.
abbrev pub AtMost : Bytes → Bytes → Type 0
AtMost a b = bytes_lt b a ≡ false

module _ {D : Type 0} where
  newest_from-ge : (n : Bytes) (rows : List (ReadingRow D)) → AtMost n (newest_from n rows)
  unfolding newest_from
  newest_from-ge n [] = bytes_lt_irrefl n
  newest_from-ge n (r ∷ rows) = elim (Bool-cases (bytes_lt n r.ts_utc)) [
    | inl e ↦
        rw e
          (bytes_le_trans n r.ts_utc _ (bytes_lt_asymm n r.ts_utc e) (newest_from-ge r.ts_utc rows))
    | inr e ↦ rw e (newest_from-ge n rows)
  ]

  newest_from-first :
      (n : Bytes) (r : ReadingRow D) (rows : List (ReadingRow D))
      → AtMost r.ts_utc (newest_from (if bytes_lt n r.ts_utc then r.ts_utc else n) rows)
  newest_from-first n r rows = elim (Bool-cases (bytes_lt n r.ts_utc)) [
    | inl e ↦ rw e (newest_from-ge r.ts_utc rows)
    | inr e ↦ rw e (bytes_le_trans r.ts_utc n _ e (newest_from-ge n rows))
  ]

  -- No reading is newer than the newest.
  newest_from-upper :
      (n : Bytes) (rows : List (ReadingRow D))
      → All (λ r. AtMost r.ts_utc (newest_from n rows)) rows
  unfolding newest_from
  newest_from-upper n [] = tt
  newest_from-upper n (r ∷ rows) = (
    newest_from-first n r rows,
    newest_from-upper (if bytes_lt n r.ts_utc then r.ts_utc else n) rows,
  )

  newer_than-none :
      (wm : Bytes) (rows : List (ReadingRow D))
      → All (λ r. AtMost r.ts_utc wm) rows
      → newer_than wm rows ≡ []
  unfolding newer_than
  newer_than-none wm [] h = refl
  newer_than-none wm (r ∷ rows) h = rw h.0 (newer_than-none wm rows h.1)

  -- What is not newer than the old watermark, or is fresh, is not newer than the new one.
  covered :
      (wm new : Bytes) (rows : List (ReadingRow D))
      → AtMost wm new
      → All (λ r. AtMost r.ts_utc new) (newer_than wm rows)
      → All (λ r. AtMost r.ts_utc new) rows
  unfolding newer_than
  covered wm new [] le h = tt
  covered wm new (r ∷ rows) le h = elim (Bool-cases (bytes_lt wm r.ts_utc)) [
    | inl e ↦ let h' = rw e at h in (h'.0, covered wm new rows le h'.1)
    | inr e ↦ let h' = rw e at h in (bytes_le_trans r.ts_utc wm new e le, covered wm new rows le h')
  ]

  first_newer :
      (wm : Bytes) (rows : List (ReadingRow D))
      → All (λ r. bytes_lt wm r.ts_utc ≡ true) (newer_than wm rows)
  unfolding newer_than
  first_newer wm [] = tt
  first_newer wm (r ∷ rows) = elim (Bool-cases (bytes_lt wm r.ts_utc)) [
    | inl e ↦ rw e (e, first_newer wm rows)
    | inr e ↦ rw e (first_newer wm rows)
  ]

  newest-beyond :
      (wm : Bytes) (fresh : List (ReadingRow D))
      → fresh ≢ []
      → All (λ r. bytes_lt wm r.ts_utc ≡ true) fresh
      → bytes_lt wm (newest_from [] fresh) ≡ true
  newest-beyond wm [] ne h = absurd (ne refl)
  newest-beyond wm (r ∷ fresh) ne h =
      bytes_lt_of_not_lt wm r.ts_utc (newest_from [] (r ∷ fresh)) h.0
        (newest_from-upper [] (r ∷ fresh)).0

  -- Where some rows are fresh against a watermark that is set, the new watermark lies behind the old
  -- one, and none of the same rows is fresh against it.
  pub fresh_of-newest :
      (wm : Bytes) (rows : List (ReadingRow D))
      → wm ≢ []
      → fresh_of wm rows ≢ []
      → (bytes_lt wm (newest_from [] (fresh_of wm rows)) ≡ true)
        × (fresh_of (newest_from [] (fresh_of wm rows)) rows ≡ [])
  unfolding fresh_of
  fresh_of-newest [] rows set ne = absurd (set refl)
  fresh_of-newest (c ∷ wm) rows set ne = (beyond, nothing (newest_from [] fresh) beyond upper)
    where
      fresh : List (ReadingRow D)
      fresh = newer_than (c ∷ wm) rows

      beyond : bytes_lt (c ∷ wm) (newest_from [] fresh) ≡ true
      beyond = newest-beyond (c ∷ wm) fresh ne (first_newer (c ∷ wm) rows)

      upper : All (λ r. AtMost r.ts_utc (newest_from [] fresh)) rows
      upper =
          covered (c ∷ wm) (newest_from [] fresh) rows
            (bytes_lt_asymm (c ∷ wm) (newest_from [] fresh) beyond) (newest_from-upper [] fresh)

      nothing :
          (new : Bytes)
          → bytes_lt (c ∷ wm) new ≡ true
          → All (λ r. AtMost r.ts_utc new) rows
          → fresh_of new rows ≡ []
      nothing [] b u = absurd (not_below_nil (c ∷ wm) b)
      nothing (x ∷ new) b u = newer_than-none (x ∷ new) rows u
