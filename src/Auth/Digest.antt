-- ===== src/Auth/Digest.antt =====
-- The comparison of digests: `diff` is 0 exactly for equal texts.
use Prim.Native.Nat.{bit_or, bit_xor, bit_or-bitwise, bit_xor-bitwise, digits, differ, max}
use night_watcher.Base.{
  ℕ, zero, suc, ◌≤◌, ◌/◌, ◌%◌, [], ◌∷◌, ◌≡◌, refl, sym, ap, ap₂, ◌∙◌, arith, Bytes, length, ◌↔◌,
  subst,
}
use night_watcher.Auth.{diff_from}

or_digits_zero : (n a b : ℕ) → a ≤ n → digits (λ b. b) max n a b ≡ 0 → (a ≡ 0) × (b ≡ 0)
or_digits_zero zero a b le h = (omega arith, h)
or_digits_zero (suc n) zero b le h = (refl, h)
or_digits_zero (suc n) (suc a) b le h =
    let ih = or_digits_zero n (suc a / 2) (b / 2) (omega arith) (omega arith) in
    (omega (arith, ih.0, ih.1), omega (arith, ih.0, ih.1))

bit_or_zero : (a b : ℕ) → bit_or a b ≡ 0 → (a ≡ 0) × (b ≡ 0)
bit_or_zero a b h = or_digits_zero a a b (omega arith) (sym (bit_or-bitwise a b) ∙ h)

differ_zero : (x y : ℕ) → differ x y ≡ 0 → x ≡ y
differ_zero zero y h = sym h
differ_zero (suc x) zero h = h
differ_zero (suc x) (suc y) h = ap suc (differ_zero x y h)

differ_self : (x : ℕ) → differ x x ≡ 0
differ_self zero = refl
differ_self (suc x) = differ_self x

xor_digits_zero : (n a b : ℕ) → a ≤ n → digits (λ b. b) differ n a b ≡ 0 → a ≡ b
xor_digits_zero zero a b le h = omega arith
xor_digits_zero (suc n) zero b le h = sym h
xor_digits_zero (suc n) (suc a) b le h = omega (
  arith,
  xor_digits_zero n (suc a / 2) (b / 2) (omega arith) (omega arith),
  differ_zero (suc a % 2) (b % 2) (omega arith),
)

xor_digits_self : (n a : ℕ) → a ≤ n → digits (λ b. b) differ n a a ≡ 0
xor_digits_self zero a le = omega arith
xor_digits_self (suc n) zero le = refl
xor_digits_self (suc n) (suc a) le =
    omega (arith, xor_digits_self n (suc a / 2) (omega arith), differ_self (suc a % 2))

bit_xor_zero : (a b : ℕ) → bit_xor a b ≡ 0 → a ≡ b
bit_xor_zero a b h = xor_digits_zero a a b (omega arith) (sym (bit_xor-bitwise a b) ∙ h)

bit_xor_self : (a : ℕ) → bit_xor a a ≡ 0
bit_xor_self a = bit_xor-bitwise a a ∙ xor_digits_self a a (omega arith)

diff_zero :
    (diff : ℕ) (s t : Bytes) → length s ≡ length t → diff_from diff s t ≡ 0 → (diff ≡ 0) × (s ≡ t)
unfolding diff_from
diff_zero diff [] [] e h = (h, refl)
diff_zero diff [] (y ∷ t) e h = absurd (omega arith)
diff_zero diff (x ∷ s) [] e h = absurd (omega arith)
diff_zero diff (x ∷ s) (y ∷ t) e h =
    let ih = diff_zero (bit_or diff (bit_xor x y)) s t (omega arith) h in
    let here = bit_or_zero diff (bit_xor x y) ih.0 in
    (here.0, ap₂ ◌∷◌ (bit_xor_zero x y here.1) ih.1)

diff_self : (s : Bytes) → diff_from 0 s s ≡ 0
unfolding diff_from
diff_self [] = refl
diff_self (x ∷ s) = rw (bit_xor_self x) (diff_self s)

-- For texts of one length, no bit differs exactly if the texts are the same.
pub diff_from_iff : (s t : Bytes) → length s ≡ length t → (diff_from 0 s t ≡ 0) ↔ (s ≡ t)
diff_from_iff s t e =
    ((λ h. (diff_zero 0 s t e h).1), λ h. subst (λ u. diff_from 0 s u ≡ 0) h (diff_self s))
