-- ===== src/Sqm/Protocol/Kinds.antt =====
-- Which of the parsers take a line.
use Prim.Native.String.{String}
use night_watcher.Base.{
  ℕ, ◌+◌, ◌≤◌, false, [], ◌≡◌, ◌≢◌, ◌⊎◌, inl, inr, refl, sym, ◌∙◌, arith, Bytes, codes, Result, ok,
  err, bytes_eq, bytes_eq_iff, get_or, Bool-cases,
}
use night_watcher.Sqm.Protocol.{
  parse_reading, parse_unit_info, parse_calibration, parse_cal_set_echo,
}
use night_watcher.Text.{trim, split}

abbrev pub accepts {ℓ} : {A : Type ℓ} → Result A → ℕ
accepts (ok a) = 1
accepts (err e) = 0

-- The tag of a line: its first field, trimmed.
abbrev tag : Bytes → Bytes
tag line = trim (get_or (split b',' (trim line)) 0 [])

reading_tag :
    {D : Type 0} (stod : Bytes → Result D) (line : Bytes)
    → tag line ≢ codes "r"
    → tag line ≢ codes "u"
    → accepts (parse_reading stod line) ≡ 0
unfolding parse_reading
reading_tag stod line r u =
    ground (arith, bytes_eq_iff (tag line) (codes "r"), bytes_eq_iff (tag line) (codes "u"))

calibration_tag :
    {D : Type 0} (stod : Bytes → Result D) (line : Bytes)
    → tag line ≢ codes "c"
    → accepts (parse_calibration stod line) ≡ 0
unfolding parse_calibration
calibration_tag stod line ne = ground (arith, bytes_eq_iff (tag line) (codes "c"))

unit_info_tag : (line : Bytes) → tag line ≢ codes "i" → accepts (parse_unit_info line) ≡ 0
unfolding parse_unit_info
unit_info_tag line ne = ground (arith, bytes_eq_iff (tag line) (codes "i"))

cal_set_echo_tag :
    {D : Type 0} (stod : Bytes → Result D) (line : Bytes)
    → tag line ≢ codes "z"
    → accepts (parse_cal_set_echo stod line) ≡ 0
unfolding parse_cal_set_echo
cal_set_echo_tag stod line ne = ground (arith, bytes_eq_iff (tag line) (codes "z"))

not_both : (t a b : Bytes) → bytes_eq a b ≡ false → t ≡ a → t ≢ b
not_both t a b differ p q = cc (differ, (bytes_eq_iff a b).1 (sym p ∙ q))

accepts-le-one {ℓ} : {A : Type ℓ} (r : Result A) → accepts r ≤ 1
accepts-le-one (ok a) = omega arith
accepts-le-one (err e) = omega arith

-- Of the four parsers that look at the tag, at most one takes a line.
pub kinds_le_one :
    {D : Type 0} (stod : Bytes → Result D) (line : Bytes)
    → accepts (parse_reading stod line)
        + accepts (parse_calibration stod line)
        + accepts (parse_unit_info line)
        + accepts (parse_cal_set_echo stod line)
      ≤ 1
unfolding bytes_eq
kinds_le_one stod line = by_tag (is "r") (is "u") (is "c") (is "i")
  where
    is : (name : String) → (tag line ≡ codes name) ⊎ (tag line ≢ codes name)
    is name = elim (Bool-cases (bytes_eq (tag line) (codes name))) [
      | inl e ↦ inl ((bytes_eq_iff (tag line) (codes name)).0 e)
      | inr e ↦ inr (λ h. ground (arith, bytes_eq_iff (tag line) (codes name)))
    ]

    r₁ : accepts (parse_reading stod line) ≤ 1
    r₁ = accepts-le-one (parse_reading stod line)

    c₁ : accepts (parse_calibration stod line) ≤ 1
    c₁ = accepts-le-one (parse_calibration stod line)

    i₁ : accepts (parse_unit_info line) ≤ 1
    i₁ = accepts-le-one (parse_unit_info line)

    z₁ : accepts (parse_cal_set_echo stod line) ≤ 1
    z₁ = accepts-le-one (parse_cal_set_echo stod line)

    by_tag :
        (tag line ≡ codes "r") ⊎ (tag line ≢ codes "r")
        → (tag line ≡ codes "u") ⊎ (tag line ≢ codes "u")
        → (tag line ≡ codes "c") ⊎ (tag line ≢ codes "c")
        → (tag line ≡ codes "i") ⊎ (tag line ≢ codes "i")
        → accepts (parse_reading stod line)
            + accepts (parse_calibration stod line)
            + accepts (parse_unit_info line)
            + accepts (parse_cal_set_echo stod line)
          ≤ 1
    by_tag (inl r) _ _ _ = omega (
      arith,
      calibration_tag stod line (not_both _ (codes "r") (codes "c") refl r),
      unit_info_tag line (not_both _ (codes "r") (codes "i") refl r),
      cal_set_echo_tag stod line (not_both _ (codes "r") (codes "z") refl r),
      r₁,
    )
    by_tag (inr r) (inl u) _ _ = omega (
      arith,
      calibration_tag stod line (not_both _ (codes "u") (codes "c") refl u),
      unit_info_tag line (not_both _ (codes "u") (codes "i") refl u),
      cal_set_echo_tag stod line (not_both _ (codes "u") (codes "z") refl u),
      r₁,
    )
    by_tag (inr r) (inr u) (inl c) _ = omega (
      arith,
      reading_tag stod line r u,
      unit_info_tag line (not_both _ (codes "c") (codes "i") refl c),
      cal_set_echo_tag stod line (not_both _ (codes "c") (codes "z") refl c),
      c₁,
    )
    by_tag (inr r) (inr u) (inr c) (inl i) = omega (
      arith,
      reading_tag stod line r u,
      calibration_tag stod line c,
      cal_set_echo_tag stod line (not_both _ (codes "i") (codes "z") refl i),
      i₁,
    )
    by_tag (inr r) (inr u) (inr c) (inr i) =
        omega
          (arith, reading_tag stod line r u, calibration_tag stod line c, unit_info_tag line i, z₁)
