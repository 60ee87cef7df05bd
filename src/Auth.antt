-- ===== src/Auth.antt =====
-- src/auth/password.cpp: password hashes and random tokens.
-- PKCS5_PBKDF2_HMAC and RAND_bytes are parameters; `none` is their failure.
pub mod Hex
pub mod Digest
pub mod Verify
use Prim.Native.Nat.{bit_or, bit_xor}
use night_watcher.Base.{
  ℕ, zero, suc, ◌+◌, ◌-◌, ◌*◌, ◌/◌, ◌%◌, ◌^◌, Bool, true, false, not, ◌&&◌, ◌||◌, Option, none,
  some, List, [], ◌∷◌, ◌++◌, if◌then◌else◌, ◌==◌, ltb, leb, is_empty, Bytes, codes, length, get_or,
  bytes_eq, Result, ok, err, ◌>>=◌, runtime_error,
}
use night_watcher.Base.Int.{ℤ, pos, negsuc, sub_ℕ, leb_ℤ, ltb_ℤ, low_bits, pos_part}
use night_watcher.Text.{is_space, is_digit, drop_while, split, stoi, in_range_or_throw, to_string}

abbrev pub k_iterations : ℕ
k_iterations = 120000

abbrev pub k_salt_len : ℕ
k_salt_len = 16

abbrev pub k_hash_len : ℕ
k_hash_len = 32

abbrev pub k_hex : Bytes
k_hex = codes "0123456789abcdef"

-- data[i] >> 4 and data[i] & 0x0f, of a byte.
unfoldable pub to_hex : Bytes → Bytes
to_hex [] = []
to_hex (b ∷ data_) = get_or k_hex (b / 16) 0 ∷ get_or k_hex (b % 16) 0 ∷ to_hex data_

unfoldable pub is_hex : ℕ → Bool
unfolding is_digit
is_hex c = is_digit c || (leb b'a' c && leb c b'f') || (leb b'A' c && leb c b'F')

unfoldable pub hex_value : ℕ → ℕ
unfolding is_digit
hex_value c = if is_digit c then c - b'0' else if leb b'a' c then c - b'a' + 10 else c - b'A' + 10

unfoldable pub hex_digits : ℕ → Bytes → ℕ
unfolding is_hex hex_value
hex_digits acc [] = acc
hex_digits acc (c ∷ s) =
    let rest = hex_digits (acc * 16 + hex_value c) s in if is_hex c then rest else acc

unfoldable pub starts_hex : Bytes → Bool
unfolding is_hex
starts_hex [] = false
starts_hex (c ∷ s) = is_hex c

-- Behind the sign strtol takes off a prefix 0x, if a digit follows it.
unfoldable pub strip_0x : Bytes → Bytes
unfolding starts_hex
strip_0x (z ∷ x ∷ s) =
    if (z == b'0' && (x == b'x' || x == b'X')) && starts_hex s then s else z ∷ x ∷ s
strip_0x s = s

unfoldable pub magnitude_16 : Bytes → Option ℕ
unfolding strip_0x starts_hex hex_digits
magnitude_16 s = if starts_hex (strip_0x s) then some (hex_digits 0 (strip_0x s)) else none

unfoldable pub signed_16 : Bytes → Option ℤ
unfolding magnitude_16
signed_16 [] = none
signed_16 (c ∷ t) =
    if c == b'-'
    then elim (magnitude_16 t) [ none ↦ none | some n ↦ some (sub_ℕ 0 n) ]
    else elim (magnitude_16 (if c == b'+' then t else c ∷ t)) [
      | none ↦ none
      | some n ↦ some (pos n)
    ]

-- std::stoi(s, nullptr, 16).
unfoldable pub stoi_16 : Bytes → Result ℤ
unfolding in_range_or_throw signed_16 drop_while is_space
stoi_16 s =
    in_range_or_throw (codes "stoi") (negsuc (2 ^ 31 - 1)) (pos (2 ^ 31 - 1))
      (signed_16 (drop_while is_space s))

-- An odd byte at the end is not read.
unfoldable pub from_hex : Bytes → Result Bytes
unfolding stoi_16 low_bits
from_hex (a ∷ b ∷ s) = do v ← stoi_16 (a ∷ b ∷ []); out ← from_hex s; ok (low_bits 8 v ∷ out)
from_hex _ = ok []

-- `diff` over the bytes of two texts of one length.
unfoldable pub diff_from : ℕ → Bytes → Bytes → ℕ
diff_from diff (a ∷ actual) (e ∷ expected) = diff_from (bit_or diff (bit_xor a e)) actual expected
diff_from diff _ _ = diff

-- What is written for a salt and a hash.
unfoldable pub encoded_of : Bytes → Bytes → Bytes
unfolding to_hex to_string
encoded_of salt hash =
    codes "pbkdf2_sha256$" ++ (to_string k_iterations ++ b'$' ∷ (to_hex salt ++ b'$' ∷ to_hex hash))

module _ (pkcs5_pbkdf2_hmac : Bytes → Bytes → ℕ → ℕ → Option Bytes) where
  unfoldable pub pbkdf2 : Bytes → Bytes → ℕ → ℕ → Result Bytes
  pbkdf2 pw salt iters outlen = elim (pkcs5_pbkdf2_hmac pw salt iters outlen) [
    | none ↦ err (runtime_error (codes "PBKDF2 derivation failed"))
    | some out ↦ ok out
  ]

  unfoldable pub hash_password : (ℕ → Option Bytes) → Bytes → Result Bytes
  unfolding encoded_of pbkdf2
  hash_password rand_bytes password = elim (rand_bytes k_salt_len) [
    | none ↦ err (runtime_error (codes "RAND_bytes failed"))
    | some salt ↦ do hash ← pbkdf2 password salt k_iterations k_hash_len; ok (encoded_of salt hash)
  ]

  -- The comparison behind the two decoded fields.
  unfoldable pub matches : Bytes → ℕ → Bytes → Bytes → Result Bool
  unfolding pbkdf2 diff_from
  matches password iters salt expected =
      if is_empty salt || is_empty expected then ok false else (do
        actual ← pbkdf2 password salt iters (length expected)
        ok (length actual == length expected && diff_from 0 actual expected == 0))

  unfoldable pub verify_parts : Bytes → List Bytes → Result Bool
  unfolding matches from_hex stoi
  verify_parts password (name ∷ iterations ∷ salt_hex ∷ hash_hex ∷ []) =
      if bytes_eq name (codes "pbkdf2_sha256")
      then (elim (stoi iterations) [
        | err e ↦ ok false
        | ok iters ↦ if ltb_ℤ iters (pos 1) then ok false else (do
          salt ← from_hex salt_hex
          expected ← from_hex hash_hex
          matches password (pos_part iters) salt expected)
      ])
      else ok false
  verify_parts password _ = ok false

  unfoldable pub verify_password : Bytes → Bytes → Result Bool
  unfolding verify_parts split
  verify_password password encoded = verify_parts password (split b'$' encoded)

unfoldable pub random_hex : (ℕ → Option Bytes) → ℕ → Result Bytes
unfolding to_hex
random_hex rand_bytes nbytes = elim (rand_bytes nbytes) [
  | none ↦ err (runtime_error (codes "RAND_bytes failed"))
  | some b ↦ ok (to_hex b)
]
