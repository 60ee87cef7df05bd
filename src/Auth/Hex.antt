-- ===== src/Auth/Hex.antt =====
-- Bytes in hexadecimal: what to_hex writes, from_hex reads.
use night_watcher.Base.{
  ==_iff, ◌+◌, ◌≤◌, Bool-cases, inl, inr, if◌then◌else◌, ℕ, zero, suc, ◌<◌, Bool, true, false, ◌&&◌,
  [], ◌∷◌, ◌≡◌, refl, arith, ◌==◌, Bytes, All, Result, ok, err, get_or, not, ◌/◌, ◌%◌,
}
use night_watcher.Base.Int.{ℤ, pos, low_bits}
use night_watcher.Auth.{to_hex, from_hex, stoi_16, k_hex}
use night_watcher.Text.Split.{Free}

abbrev pub AreBytes : Bytes → Type 0
AreBytes = All (λ b. b < 256)

-- A test that every byte from `i` on passes, `left` of them.
unfoldable pub passes : ℕ → ℕ → (ℕ → Bool) → Bool
passes zero i test = true
passes (suc left) i test = let later = passes left (suc i) test in if test i then later else false

pub passes_lem :
    (left i : ℕ) (test : ℕ → Bool) (b : ℕ)
    → passes left i test ≡ true
    → i ≤ b
    → b < i + left
    → test b ≡ true
unfolding passes
passes_lem zero i test b h lo hi = absurd (omega arith)
passes_lem (suc left) i test b h lo hi = elim (Bool-cases (test i)) [
  | inr e ↦ cc (rw e at h)
  | inl e ↦ elim (Bool-cases (b == i)) [
    | inl same ↦ rw ((==_iff b i).0 same) e
    | inr other ↦
        passes_lem left (suc i) test b (rw e at h) (ground (arith, ==_iff b i)) (omega arith)
  ]
]

is_pos : Result ℤ → ℕ → Bool
is_pos (ok (pos v)) b = v == b
is_pos _ b = false

is_pos_sound : (r : Result ℤ) (b : ℕ) → is_pos r b ≡ true → r ≡ ok (pos b)
unfolding is_pos
is_pos_sound (ok (pos v)) b h = ground arith
is_pos_sound (ok (ℤ.negsuc v)) b h = cc
is_pos_sound (err e) b h = cc

-- The two digits of a byte.
pub pair_of : ℕ → Bytes
pair_of b = to_hex (b ∷ [])

reads_back : passes 256 0 (λ b. is_pos (stoi_16 (pair_of b)) b) ≡ true
unfolding passes is_pos stoi_16 pair_of to_hex
reads_back = refl

stoi_16-to_hex : (b : ℕ) → b < 256 → stoi_16 (to_hex (b ∷ [])) ≡ ok (pos b)
unfolding pair_of
stoi_16-to_hex b lt =
    is_pos_sound (stoi_16 (pair_of b)) b
      (passes_lem 256 0 (λ b. is_pos (stoi_16 (pair_of b)) b) b reads_back (omega arith) lt)

-- Every sequence of bytes survives being written and read.
pub from_hex-to_hex : (data_ : Bytes) → AreBytes data_ → from_hex (to_hex data_) ≡ ok data_
unfolding from_hex to_hex low_bits
from_hex-to_hex [] h = refl
from_hex-to_hex (b ∷ data_) h =
    rw (stoi_16-to_hex b h.0, from_hex-to_hex data_ h.1, from_hex) (ground arith)

no_dollar :
    passes 256 0
      (λ b. not (get_or k_hex (b / 16) 0 == b'$') && not (get_or k_hex (b % 16) 0 == b'$'))
    ≡ true
unfolding passes
no_dollar = refl

pub to_hex-Free : (data_ : Bytes) → AreBytes data_ → Free b'$' (to_hex data_)
unfolding to_hex
to_hex-Free [] h = tt
to_hex-Free (b ∷ data_) h =
    let digits = passes_lem 256 0 _ b no_dollar (omega arith) h.0 in
    (ground arith, (ground arith, to_hex-Free data_ h.1))
