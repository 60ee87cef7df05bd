-- ===== src/Sqm/Discovery/Range.antt =====
-- The loop over the hosts of a network, up to the last address.
use night_watcher.Base.{
  ℕ, zero, suc, ◌+◌, ◌-◌, ◌^◌, ◌≤◌, ◌<◌, ◌%◌, ◌≡◌, ap, ◌∙◌, refl, true, false, List, [], ◌∷◌, arith,
  Bytes, map, ok, Bool-cases, inl, inr, ltb, ◌==◌, ==_iff, Option,
}
use night_watcher.Sqm.Discovery.{count_of, hosts_from, hosts_between}

-- `count` numbers from `a` on.
abbrev pub range : ℕ → ℕ → List ℕ
range a zero = []
range a (suc count) = a ∷ range (suc a) count

count_of-lt :
    (first last : ℕ) → first ≤ last → last < 2 ^ 32 → count_of first last ≡ suc (last - first)
unfolding count_of
count_of-lt first last le lt = omega arith

module _ (inet_pton : Bytes → Option ℕ) (inet_ntop : ℕ → Bytes) where
  hosts_from-range :
      (fuel n a last : ℕ)
      → n < fuel
      → last ≡ a + n
      → last < 2 ^ 32
      → hosts_from inet_pton inet_ntop fuel a last ≡ map inet_ntop (range a (suc n))
  unfolding hosts_from
  hosts_from-range zero n a last f e lt = absurd (omega arith)
  hosts_from-range (suc fuel) zero a last f e lt = rw (at_end (omega arith), hosts_from) refl
    where
      at_end : a ≡ last → (a == last) ≡ true
      at_end = (==_iff a last).1
  hosts_from-range (suc fuel) (suc n) a last f e lt = elim (Bool-cases (a == last)) [
    | inl same ↦ absurd (ground (arith, ==_iff a last))
    | inr other ↦
        rw (other, hosts_from)
          (ap (◌∷◌ (inet_ntop a)) (
            ap (λ b. hosts_from inet_pton inet_ntop fuel b last) (next a (omega arith))
            ∙ hosts_from-range fuel n (suc a) last (omega arith) (omega arith) lt))
  ]
    where
      next : (a : ℕ) → a + 1 < 2 ^ 32 → (a + 1) % 2 ^ 32 ≡ suc a
      next a lt = omega arith

  -- Of two addresses at most 65535 apart, the hosts are all from the first to the last, each once and
  -- in order, also where the last is the greatest of all.
  pub hosts_between-range :
      (first last : ℕ)
      → first ≤ last
      → last < 2 ^ 32
      → last - first < 65536
      → hosts_between inet_pton inet_ntop first last
        ≡ ok (map inet_ntop (range first (suc (last - first))))
  unfolding hosts_between
  hosts_between-range first last le lt few =
      rw (counted, hosts_between)
        (rw (small (last - first) few)
          (ap ok (hosts_from-range 65536 (last - first) first last few (omega arith) lt)))
    where
      counted : count_of first last ≡ suc (last - first)
      counted = count_of-lt first last le lt

      small : (n : ℕ) → n < 65536 → ltb 65536 (suc n) ≡ false
      small n h = ground arith
