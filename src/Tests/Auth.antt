-- ===== src/Tests/Auth.antt =====
-- Passwords, with stand-ins for the C functions.
use night_watcher.Base.{
  ℕ, zero, suc, ◌%◌, ◌<◌, ◌≡◌, ◌↔◌, refl, ap, arith, Option, some, [], ◌∷◌, Bytes, codes, length,
  replicate, ok, true,
}
use night_watcher.Auth.{
  k_iterations, k_salt_len, k_hash_len, pbkdf2, encoded_of, hash_password, verify_password,
}
use night_watcher.Auth.Verify.{Fills, verify-hash_password}

-- A digest that repeats the length of the password.
abbrev hmac : Bytes → Bytes → ℕ → ℕ → Option Bytes
hmac pw salt iters outlen = some (replicate outlen (length pw % 256))

abbrev rand : ℕ → Option Bytes
rand n = some (replicate n 7)

filled : (n b : ℕ) → b < 256 → Fills (some (replicate n b)) n
filled zero b lt = (refl, tt)
filled (suc n) b lt = let ih = filled n b lt in (ap suc ih.0, (lt, ih.1))

abbrev salt_sample : Bytes
salt_sample = replicate 16 7

abbrev encoded_sample : Bytes
encoded_sample = encoded_of salt_sample (replicate 32 3)

verify-hash_password_example :
    (salt : Bytes) × (rand k_salt_len ≡ some salt)
    × ((verify_password hmac (codes "abcd") encoded_sample ≡ ok true) ↔ (
        pbkdf2 hmac (codes "abcd") salt k_iterations k_hash_len
        ≡ pbkdf2 hmac (codes "abc") salt k_iterations k_hash_len))
unfolding hash_password
verify-hash_password_example =
    verify-hash_password hmac rand (codes "abc") (codes "abcd") encoded_sample
      (filled 16 7 (omega arith)) (λ pw salt. filled 32 (length pw % 256) (omega arith)) refl

abbrev one_two : Bytes
one_two = 1 ∷ 2 ∷ []

abbrev one_three : Bytes
one_three = 1 ∷ 3 ∷ []
