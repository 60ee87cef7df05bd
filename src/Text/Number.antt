-- ===== src/Text/Number.antt =====
-- The decimal conversions on a text of digits, and that printing and reading a number agree.
use night_watcher.Base.{
  ℕ, zero, suc, ◌+◌, ◌-◌, ◌*◌, ◌/◌, ◌%◌, ◌^◌, ◌<◌, ◌≤◌, false, [], ◌∷◌, ◌++◌, ◌≡◌, refl, ap, ◌∙◌,
  some, arith, Bytes, ok, codes,
}
use night_watcher.Base.Int.{pos, negsuc}
use night_watcher.Text.Trim.{first_is, Only}
use night_watcher.Text.{
  is_digit, digits_value, starts_digit, strtol, in_range_or_throw, stoi, stoll, decimal, to_string,
}

-- The value of a text of digits, on top of `acc`.
abbrev pub value : ℕ → Bytes → ℕ
value acc [] = acc
value acc (c ∷ s) = value (acc * 10 + (c - b'0')) s

pub digits_value-append :
    (acc : ℕ) (ds rest : Bytes)
    → Only is_digit ds
    → first_is is_digit rest ≡ false
    → digits_value acc (ds ++ rest) ≡ value acc ds
unfolding digits_value
digits_value-append acc [] [] h b = refl
digits_value-append acc [] (c ∷ rest) h b = rw b
digits_value-append acc (d ∷ ds) rest h b =
    rw h.0 (digits_value-append (acc * 10 + (d - b'0')) ds rest h.1 b)

-- A text that starts with a digit is read as a number without sign.
pub strtol-digits :
    (d : ℕ) (ds rest : Bytes)
    → Only is_digit (d ∷ ds)
    → first_is is_digit rest ≡ false
    → strtol (d ∷ ds ++ rest) ≡ some (pos (value 0 (d ∷ ds)))
unfolding strtol is_digit starts_digit
strtol-digits d ds rest h b = ground (arith, digits_value-append 0 (d ∷ ds) rest h b)

in_range-pos :
    (name : Bytes) (lo hi n : ℕ)
    → n ≤ hi
    → in_range_or_throw name (negsuc lo) (pos hi) (some (pos n)) ≡ ok (pos n)
unfolding in_range_or_throw
in_range-pos name lo hi n h = ground arith

pub stoi-digits :
    (d : ℕ) (ds rest : Bytes)
    → Only is_digit (d ∷ ds)
    → first_is is_digit rest ≡ false
    → value 0 (d ∷ ds) < 2 ^ 31
    → stoi (d ∷ ds ++ rest) ≡ ok (pos (value 0 (d ∷ ds)))
unfolding stoi
stoi-digits d ds rest h b lt =
    ap (in_range_or_throw (codes "stoi") (negsuc (2 ^ 31 - 1)) (pos (2 ^ 31 - 1)))
      (strtol-digits d ds rest h b)
    ∙ in_range-pos (codes "stoi") (2 ^ 31 - 1) (2 ^ 31 - 1) (value 0 (d ∷ ds)) (omega arith)

pub stoll-digits :
    (d : ℕ) (ds rest : Bytes)
    → Only is_digit (d ∷ ds)
    → first_is is_digit rest ≡ false
    → value 0 (d ∷ ds) < 2 ^ 63
    → stoll (d ∷ ds ++ rest) ≡ ok (pos (value 0 (d ∷ ds)))
unfolding stoll
stoll-digits d ds rest h b lt =
    ap (in_range_or_throw (codes "stoll") (negsuc (2 ^ 63 - 1)) (pos (2 ^ 63 - 1)))
      (strtol-digits d ds rest h b)
    ∙ in_range-pos (codes "stoll") (2 ^ 63 - 1) (2 ^ 63 - 1) (value 0 (d ∷ ds)) (omega arith)

value-append :
    (acc : ℕ) (s : Bytes) (c : ℕ) → value acc (s ++ c ∷ []) ≡ value acc s * 10 + (c - b'0')
value-append acc [] c = refl
value-append acc (d ∷ s) c = value-append (acc * 10 + (d - b'0')) s c

decimal_value : (fuel n : ℕ) → n < fuel → value 0 (decimal fuel n) ≡ n
unfolding decimal
decimal_value zero n h = elim h [ ]
decimal_value (suc fuel) n h =
    ground
      (arith, decimal_value fuel (n / 10), value-append 0 (decimal fuel (n / 10)) (b'0' + n % 10))

-- A printed number reads as itself.
pub value-to_string : (n : ℕ) → value 0 (to_string n) ≡ n
unfolding to_string
value-to_string n = decimal_value (n + 1) n (omega arith)
