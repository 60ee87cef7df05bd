-- ===== src/Auth/Verify.antt =====
-- hash_password and verify_password against each other.
use night_watcher.Base.{
  ℕ, suc, ◌≡◌, ◌↔◌, refl, sym, ap, ◌∙◌, subst, true, false, Option, none, some, List, [], ◌∷◌, ◌++◌,
  arith, Bytes, codes, length, is_empty, bytes_eq, ok, Option-cases, inl, inr,
}
use night_watcher.Text.{decimal, to_string, split, stoi}
use night_watcher.Text.Split.{Free, join, ends_full, split-join}
use night_watcher.Auth.{
  to_hex, pbkdf2, encoded_of, hash_password, matches, verify_parts, verify_password, k_iterations,
  k_salt_len, k_hash_len,
}
use night_watcher.Auth.Hex.{AreBytes, from_hex-to_hex, to_hex-Free}
use night_watcher.Auth.Digest.{diff_from_iff}

-- A success gives as many bytes as were asked for.
abbrev pub Fills : Option Bytes → ℕ → Type 0
Fills none n = Unit {0}
Fills (some out) n = (length out ≡ n) × AreBytes out

decimal_iterations : (f : ℕ) → decimal (suc (suc (suc (suc (suc (suc f)))))) 120000 ≡ codes "120000"
unfolding decimal
decimal_iterations f = refl

to_string_iterations : to_string k_iterations ≡ codes "120000"
unfolding to_string
to_string_iterations = decimal_iterations 119995

module _ (hmac : Bytes → Bytes → ℕ → ℕ → Option Bytes) where
  fields : Bytes → Bytes → List Bytes
  fields salt hash = codes "pbkdf2_sha256" ∷ codes "120000" ∷ to_hex salt ∷ to_hex hash ∷ []

  encoded_of-join : (salt hash : Bytes) → encoded_of salt hash ≡ join b'$' (fields salt hash)
  unfolding encoded_of fields
  encoded_of-join salt hash =
      ap (λ s. codes "pbkdf2_sha256$" ++ (s ++ b'$' ∷ (to_hex salt ++ b'$' ∷ to_hex hash)))
        to_string_iterations

  full : (salt : Bytes) (b : ℕ) (hash : Bytes) → ends_full (fields salt (b ∷ hash)) ≡ true
  unfolding fields to_hex
  full salt b hash = refl

  split-encoded_of :
      (salt hash : Bytes)
      → AreBytes salt
      → AreBytes hash
      → is_empty hash ≡ false
      → split b'$' (encoded_of salt hash) ≡ fields salt hash
  unfolding fields
  split-encoded_of salt [] hs hh e = cc
  split-encoded_of salt (b ∷ hash) hs hh e =
      ap (split b'$') (encoded_of-join salt (b ∷ hash))
      ∙ split-join b'$' (fields salt (b ∷ hash))
          (free_name, (free_iterations, (to_hex-Free salt hs, (to_hex-Free (b ∷ hash) hh, tt))))
          (full salt b hash)
    where
      free_name : Free b'$' (codes "pbkdf2_sha256")
      free_name = (
        refl,
        (
          refl,
          (
            refl,
            (refl, (refl, (refl, (refl, (refl, (refl, (refl, (refl, (refl, (refl, tt)))))))))),
          ),
        ),
      )

      free_iterations : Free b'$' (codes "120000")
      free_iterations = (refl, (refl, (refl, (refl, (refl, (refl, tt))))))

  verify-encoded_of :
      (password salt hash : Bytes)
      → AreBytes salt
      → AreBytes hash
      → is_empty hash ≡ false
      → verify_password hmac password (encoded_of salt hash)
        ≡ matches hmac password k_iterations salt hash
  unfolding verify_password verify_parts fields bytes_eq stoi
  verify-encoded_of password salt hash hs hh e =
      rw
        (
          split-encoded_of salt hash hs hh e,
          from_hex-to_hex salt hs,
          from_hex-to_hex hash hh,
          verify_parts,
        )
        refl

  -- Where both derivations succeed, the comparison is that of the digests.
  matches_iff :
      (password salt hash : Bytes)
      → is_empty salt ≡ false
      → is_empty hash ≡ false
      → Fills (hmac password salt k_iterations (length hash)) (length hash)
      → (matches hmac password k_iterations salt hash ≡ ok true)
        ↔ (pbkdf2 hmac password salt k_iterations (length hash) ≡ ok hash)
  unfolding matches pbkdf2
  matches_iff password salt hash es eh fills =
      elim (Option-cases (hmac password salt k_iterations (length hash))) [
        | inl e ↦ rw (es, eh, e, pbkdf2) (ground arith)
        | inr (out, e) ↦
            rw (es, eh, e, pbkdf2)
              (ground (arith, (rw e at fills).0, diff_from_iff out hash (rw e at fills).0))
      ]

  verify_iff :
      (password salt hash : Bytes)
      → Fills (some salt) k_salt_len
      → Fills (some hash) k_hash_len
      → Fills (hmac password salt k_iterations k_hash_len) k_hash_len
      → (verify_password hmac password (encoded_of salt hash) ≡ ok true)
        ↔ (pbkdf2 hmac password salt k_iterations k_hash_len ≡ ok hash)
  verify_iff password [] hash fs fh fills = absurd (omega (arith, fs.0))
  verify_iff password (c ∷ salt) [] fs fh fills = absurd (omega (arith, fh.0))
  verify_iff password (c ∷ salt) (b ∷ hash) fs fh fills =
      rw (verify-encoded_of password (c ∷ salt) (b ∷ hash) fs.1 fh.1 refl) (
        subst
          (λ n.
            (matches hmac password k_iterations (c ∷ salt) (b ∷ hash) ≡ ok true)
            ↔ (pbkdf2 hmac password (c ∷ salt) k_iterations n ≡ ok (b ∷ hash)))
          fh.0
          (matches_iff password (c ∷ salt) (b ∷ hash) refl refl
            (subst (λ n. Fills (hmac password (c ∷ salt) k_iterations n) n) (sym fh.0) fills)))

  hash_password-ok :
      (rand : ℕ → Option Bytes) (password encoded : Bytes)
      → Fills (rand k_salt_len) k_salt_len
      → ((salt : Bytes) → Fills (hmac password salt k_iterations k_hash_len) k_hash_len)
      → hash_password hmac rand password ≡ ok encoded
      → (salt : Bytes) × (hash : Bytes) × (rand k_salt_len ≡ some salt)
        × (pbkdf2 hmac password salt k_iterations k_hash_len ≡ ok hash)
        × (encoded ≡ encoded_of salt hash)
        × Fills (some salt) k_salt_len
        × Fills (some hash) k_hash_len
  unfolding hash_password pbkdf2
  hash_password-ok rand password encoded fr fh h = elim (Option-cases (rand k_salt_len)) [
    | inl e ↦ cc
    | inr (salt, e) ↦ elim (Option-cases (hmac password salt k_iterations k_hash_len)) [
      | inl f ↦ absurd (ground arith)
      | inr (hash, f) ↦
          (salt, hash, e, rw (f, pbkdf2) refl, ground arith, (rw e at fr), (rw f at (fh salt)))
    ]
  ]

  against :
      (password other encoded salt hash : Bytes)
      → encoded ≡ encoded_of salt hash
      → pbkdf2 hmac password salt k_iterations k_hash_len ≡ ok hash
      → (verify_password hmac other (encoded_of salt hash) ≡ ok true)
        ↔ (pbkdf2 hmac other salt k_iterations k_hash_len ≡ ok hash)
      → (verify_password hmac other encoded ≡ ok true) ↔ (
          pbkdf2 hmac other salt k_iterations k_hash_len
          ≡ pbkdf2 hmac password salt k_iterations k_hash_len)
  against password other encoded salt hash text derived iff =
      subst
        (λ e. (verify_password hmac other e ≡ ok true) ↔ (
          pbkdf2 hmac other salt k_iterations k_hash_len
          ≡ pbkdf2 hmac password salt k_iterations k_hash_len))
        (sym text)
        (subst
          (λ r.
            (verify_password hmac other (encoded_of salt hash) ≡ ok true)
            ↔ (pbkdf2 hmac other salt k_iterations k_hash_len ≡ r))
          (sym derived) iff)

  -- A password matches what hash_password wrote for one exactly if the two give the same digest under
  -- the salt that was written; where the C functions fill the buffers that they are given.
  pub verify-hash_password :
      (rand : ℕ → Option Bytes) (password other encoded : Bytes)
      → Fills (rand k_salt_len) k_salt_len
      → ((pw salt : Bytes) → Fills (hmac pw salt k_iterations k_hash_len) k_hash_len)
      → hash_password hmac rand password ≡ ok encoded
      → (salt : Bytes) × (rand k_salt_len ≡ some salt)
        × ((verify_password hmac other encoded ≡ ok true) ↔ (
            pbkdf2 hmac other salt k_iterations k_hash_len
            ≡ pbkdf2 hmac password salt k_iterations k_hash_len))
  verify-hash_password rand password other encoded fr fh h =
      let (salt, hash, e, derived, text, fs, fl) =
        hash_password-ok rand password encoded fr (fh password) h in
      (
        salt,
        e,
        against password other encoded salt hash text derived
            (verify_iff other salt hash fs fl (fh other salt)),
      )
