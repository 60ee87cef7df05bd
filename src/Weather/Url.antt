-- ===== src/Weather/Url.antt =====
-- Percent-encoding against decoding.
use night_watcher.Base.{
  ℕ, ◌+◌, ◌-◌, ◌*◌, ◌/◌, ◌%◌, ◌<◌, ◌≡◌, refl, ap, ◌∙◌, true, false, [], ◌∷◌, arith, Bytes,
  Bool-cases, inl, inr, ap₂, ◌==◌, ==_iff, if◌then◌else◌, get_or, leb,
}
use night_watcher.Auth.Hex.{AreBytes, passes, passes_lem}
use night_watcher.Text.{is_alpha, is_digit}
use night_watcher.Weather.{is_plain, url_encode, k_hex_upper}

abbrev pub nibble : ℕ → ℕ
nibble c = if leb b'A' c then c - b'A' + 10 else c - b'0'

-- What a server does: an escape gives its byte, any other byte itself.
unfoldable pub url_decode : Bytes → Bytes
url_decode (c ∷ a ∷ b ∷ s) =
    let escaped = url_decode s in
    let plain = url_decode (a ∷ b ∷ s) in
    if c == b'%' then (nibble a * 16 + nibble b) ∷ escaped else c ∷ plain
url_decode s = s

decode_plain : (c : ℕ) (s : Bytes) → (c == b'%') ≡ false → url_decode (c ∷ s) ≡ c ∷ url_decode s
unfolding url_decode
decode_plain c [] h = refl
decode_plain c (a ∷ []) h = refl
decode_plain c (a ∷ b ∷ s) h = rw h refl

nibbles_table :
    passes 256 0 (λ c.
      nibble (get_or k_hex_upper (c / 16) 0) * 16 + nibble (get_or k_hex_upper (c % 16) 0) == c)
    ≡ true
unfolding passes
nibbles_table = refl

nibbles :
    (c : ℕ)
    → c < 256
    → nibble (get_or k_hex_upper (c / 16) 0) * 16 + nibble (get_or k_hex_upper (c % 16) 0) ≡ c
nibbles c lt = (==_iff _ c).0 (passes_lem 256 0 _ c nibbles_table (omega arith) lt)

plain-not-percent : (c : ℕ) → is_plain c ≡ true → (c == b'%') ≡ false
unfolding is_plain is_alpha is_digit
plain-not-percent c h = ground arith

decode_escape :
    (a b : ℕ) (s : Bytes)
    → url_decode (b'%' ∷ a ∷ b ∷ s) ≡ (nibble a * 16 + nibble b) ∷ url_decode s
unfolding url_decode
decode_escape a b s = refl

-- Every text of bytes comes back from its encoding.
pub url_decode-url_encode : (s : Bytes) → AreBytes s → url_decode (url_encode s) ≡ s
unfolding url_encode url_decode
url_decode-url_encode [] h = refl
url_decode-url_encode (c ∷ s) h = elim (Bool-cases (is_plain c)) [
  | inl e ↦ rw e (
      decode_plain c (url_encode s) (plain-not-percent c e)
      ∙ ap (◌∷◌ c) (url_decode-url_encode s h.1))
  | inr e ↦
      rw e
        (decode_escape _ _ (url_encode s) ∙ ap₂ ◌∷◌ (nibbles c h.0) (url_decode-url_encode s h.1))
]
