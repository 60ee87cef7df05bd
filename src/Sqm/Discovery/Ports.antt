-- ===== src/Sqm/Discovery/Ports.antt =====
-- The serial ports that are queued: each target once.
use night_watcher.Base.{
  ◌≡◌, ◌≢◌, refl, sym, ◌∙◌, ap, subst, ◌⊎◌, true, false, Option, none, some, List, [], ◌∷◌, ◌++◌,
  Bytes, bytes_eq, bytes_eq_iff, Bool-cases, Option-cases, inl, inr, arith, All, All-map,
}
use night_watcher.Sqm.Discovery.{
  seen, key_of, add_all, enumerate_serial_devices, by_id_paths, tty_paths,
}

module _ (realpath : Bytes → Option Bytes) where
  -- The target of a path: what realpath gives, and the path itself where realpath fails.
  abbrev pub Resolves : Bytes → Bytes → Type 0
  Resolves path target = (realpath path ≡ some target) ⊎ ((realpath path ≡ none) × (target ≡ path))

  abbrev pub Apart : Bytes → Bytes → Type 0
  Apart path other =
      (target target' : Bytes) → Resolves path target → Resolves other target' → target ≢ target'

  abbrev pub PairwiseApart : List Bytes → Type 0
  PairwiseApart [] = Unit {0}
  PairwiseApart (path ∷ paths) = All (Apart path) paths × PairwiseApart paths

  -- One of the paths has a target of `path`.
  abbrev pub IsCovered : List Bytes → Bytes → Type 0
  IsCovered [] path = ⊥
  IsCovered (other ∷ others) path =
      ((target : Bytes) × Resolves path target × Resolves other target) ⊎ IsCovered others path

  Resolves-key : (path target : Bytes) → Resolves path target → key_of realpath path ≡ target
  unfolding key_of
  Resolves-key path target (inl e) = rw (key_of, e) refl
  Resolves-key path target (inr (e, same)) = rw (key_of, e) (sym same)

  key-Resolves : (path : Bytes) → Resolves path (key_of realpath path)
  key-Resolves path = elim (Option-cases (realpath path)) [
    | inl e ↦ by_key path (inr (e, refl))
    | inr (target, e) ↦ by_key target (inl e)
  ]
    where
      by_key : (target : Bytes) → Resolves path target → Resolves path (key_of realpath path)
      by_key target r = subst (Resolves path) (sym (Resolves-key path target r)) r

  Apart-keys :
      (path other : Bytes) → key_of realpath other ≢ key_of realpath path → Apart path other
  Apart-keys path other h target target' r r' e =
      h (Resolves-key other target' r' ∙ sym e ∙ sym (Resolves-key path target r))

  -- No key is among `keys`, nor twice in the list.
  abbrev Distinct : List Bytes → List Bytes → Type 0
  Distinct keys [] = Unit {0}
  Distinct keys (path ∷ paths) =
      (seen (key_of realpath path) keys ≡ false) × Distinct (key_of realpath path ∷ keys) paths

  add_all-Distinct : (keys paths : List Bytes) → Distinct keys (add_all realpath keys paths)
  unfolding add_all
  add_all-Distinct keys [] = tt
  add_all-Distinct keys (path ∷ paths) = elim (Bool-cases (seen (key_of realpath path) keys)) [
    | inl e ↦ rw e (add_all-Distinct keys paths)
    | inr e ↦ rw e (e, add_all-Distinct (key_of realpath path ∷ keys) paths)
  ]

  seen_first : (key : Bytes) (keys : List Bytes) → seen key (key ∷ keys) ≡ true
  unfolding seen
  seen_first key keys = rw ((bytes_eq_iff key key).1 refl)

  seen_later :
      (key k : Bytes) (keys : List Bytes) → seen key keys ≡ true → seen key (k ∷ keys) ≡ true
  unfolding seen
  seen_later key k keys h = ground arith

  -- A key that is taken is no path's further on.
  Distinct-apart :
      (key : Bytes) (keys paths : List Bytes)
      → seen key keys ≡ true
      → Distinct keys paths
      → All (λ path. key_of realpath path ≢ key) paths
  Distinct-apart key keys [] s d = tt
  Distinct-apart key keys (path ∷ paths) s d = (
    λ e. cc (s, d.0, ap (λ k. seen k keys) e),
    Distinct-apart key (key_of realpath path ∷ keys) paths
        (seen_later key (key_of realpath path) keys s) d.1,
  )

  Distinct-PairwiseApart : (keys paths : List Bytes) → Distinct keys paths → PairwiseApart paths
  Distinct-PairwiseApart keys [] d = tt
  Distinct-PairwiseApart keys (path ∷ paths) d = (
    All-map (Apart-keys path) paths (
        Distinct-apart (key_of realpath path) (key_of realpath path ∷ keys) paths
          (seen_first (key_of realpath path) keys) d.1),
    Distinct-PairwiseApart (key_of realpath path ∷ keys) paths d.1,
  )

  -- A path is queued, or its key is taken.
  IsKnown : List Bytes → List Bytes → Bytes → Type 0
  IsKnown keys queued path = (seen (key_of realpath path) keys ≡ true) ⊎ IsCovered queued path

  IsKnown-behind :
      (keys queued : List Bytes) (first path : Bytes)
      → IsKnown (key_of realpath first ∷ keys) queued path
      → IsKnown keys (first ∷ queued) path
  unfolding IsKnown seen
  IsKnown-behind keys queued first path (inr c) = inr (inr c)
  IsKnown-behind keys queued first path (inl s) =
      elim (Bool-cases (bytes_eq (key_of realpath path) (key_of realpath first))) [
        | inr e ↦ inl (ground arith)
        | inl e ↦ inr (
            inl (
              key_of realpath first,
              subst (Resolves path)
                  ((bytes_eq_iff (key_of realpath path) (key_of realpath first)).0 e)
                  (key-Resolves path),
              key-Resolves first,
            ))
      ]

  add_all-IsKnown :
      (keys paths : List Bytes) → All (IsKnown keys (add_all realpath keys paths)) paths
  unfolding add_all IsKnown
  add_all-IsKnown keys [] = tt
  add_all-IsKnown keys (path ∷ paths) = elim (Bool-cases (seen (key_of realpath path) keys)) [
    | inl e ↦
        queued {xs = add_all realpath keys paths} (rw e refl) (inl e, add_all-IsKnown keys paths)
    | inr e ↦
        queued {xs = path ∷ add_all realpath (key_of realpath path ∷ keys) paths} (rw e refl) (
          inr (inl (key_of realpath path, key-Resolves path, key-Resolves path)),
          All-map (IsKnown-behind keys (add_all realpath (key_of realpath path ∷ keys) paths) path)
              paths (add_all-IsKnown (key_of realpath path ∷ keys) paths),
        )
  ]
    where
      queued :
          {xs : List Bytes}
          → add_all realpath keys (path ∷ paths) ≡ xs
          → All (IsKnown keys xs) (path ∷ paths)
          → All (IsKnown keys (add_all realpath keys (path ∷ paths))) (path ∷ paths)
      queued e = subst (λ q. All (IsKnown keys q) (path ∷ paths)) (sym e)

  known-IsCovered :
      (queued : List Bytes) (path : Bytes) → IsKnown [] queued path → IsCovered queued path
  unfolding IsKnown seen
  known-IsCovered queued path (inl s) = cc
  known-IsCovered queued path (inr c) = c

  -- However the two directories link to each other, no two of the queued ports resolve to one target,
  -- and each port of the two directories resolves to the target of a queued one.
  pub enumerate-PairwiseApart :
      (by_id dev : List Bytes)
      → PairwiseApart (enumerate_serial_devices realpath by_id dev)
        × All
            (IsCovered (enumerate_serial_devices realpath by_id dev))
            (by_id_paths realpath by_id ++ tty_paths realpath dev)
  unfolding enumerate_serial_devices
  enumerate-PairwiseApart by_id dev =
      let paths = by_id_paths realpath by_id ++ tty_paths realpath dev in
      (
        Distinct-PairwiseApart [] (add_all realpath [] paths) (add_all-Distinct [] paths),
        All-map (known-IsCovered (add_all realpath [] paths)) paths (add_all-IsKnown [] paths),
      )
