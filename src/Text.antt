-- ===== src/Text.antt =====
-- Byte-string helpers that several sources define alike: `trim` and `split` of
-- src/sqm/protocol.cpp, src/daemon/config.cpp and src/auth/password.cpp, and the decimal
-- conversions of the standard library that they call.
pub mod Trim
pub mod Split
pub mod Cut
pub mod Number
use night_watcher.Base.{
  zero, suc, ◌/◌, ◌%◌, ℕ, ◌+◌, ◌-◌, ◌*◌, ◌^◌, ◌<◌, ◌≤◌, Bool, true, false, not, ◌&&◌, ◌||◌, Option,
  none, some, List, [], ◌∷◌, ◌++◌, leb, ltb, ◌==◌, if◌then◌else◌, is_empty, Bytes, codes, Result,
  ok, err, invalid_argument, out_of_range, bytes_eq,
}
use night_watcher.Base.Int.{ℤ, pos, negsuc, sub_ℕ, leb_ℤ, to_int32, pos_part, neg_part}

-- isspace, isalpha and isdigit in the "C" locale.
unfoldable pub is_space : ℕ → Bool
is_space c = c == b' ' || (leb 9 c && leb c 13)

unfoldable pub is_alpha : ℕ → Bool
is_alpha c = (leb b'A' c && leb c b'Z') || (leb b'a' c && leb c b'z')

unfoldable pub is_digit : ℕ → Bool
is_digit c = leb b'0' c && leb c b'9'

-- Without the longest prefix of bytes that pass.
unfoldable pub drop_while : (ℕ → Bool) → Bytes → Bytes
drop_while p [] = []
drop_while p (c ∷ s) = if p c then drop_while p s else c ∷ s

-- `while (!s.empty() && p(s.back())) s.pop_back()`.
unfoldable pub drop_end_while : (ℕ → Bool) → Bytes → Bytes
drop_end_while p [] = []
drop_end_while p (c ∷ s) =
    let kept = drop_end_while p s in if is_empty kept && p c then [] else c ∷ kept

unfoldable pub trim : Bytes → Bytes
unfolding drop_while drop_end_while is_space
trim s = drop_end_while is_space (drop_while is_space s)

-- The first byte of the first item, when there is one.
abbrev pub cons_head : ℕ → List Bytes → List Bytes
cons_head c [] = (c ∷ []) ∷ []
cons_head c (item ∷ items) = (c ∷ item) ∷ items

-- `while (getline(ss, item, delim)) out.push_back(item)`: an empty last item is not read.
unfoldable pub split : ℕ → Bytes → List Bytes
split d [] = []
split d (c ∷ s) = let items = split d s in if c == d then [] ∷ items else cons_head c items

-- The bytes before the first `d`, and those behind it: `s.find(d)` with the two `substr`.
unfoldable pub cut : ℕ → Bytes → Option (Bytes × Bytes)
cut d [] = none
cut d (c ∷ s) =
    if c == d
    then some ([], s)
    else elim (cut d s) [ none ↦ none | some (before, behind) ↦ some (c ∷ before, behind) ]

-- The same at the last `d`: `s.rfind(d)`.
unfoldable pub cut_last : ℕ → Bytes → Option (Bytes × Bytes)
cut_last d [] = none
cut_last d (c ∷ s) = elim (cut_last d s) [
  | some (before, behind) ↦ some (c ∷ before, behind)
  | none ↦ if c == d then some ([], s) else none
]

-- The leading decimal digits, as a number on top of `acc`.
unfoldable pub digits_value : ℕ → Bytes → ℕ
unfolding is_digit
digits_value acc [] = acc
digits_value acc (c ∷ s) =
    let rest = digits_value (acc * 10 + (c - b'0')) s in if is_digit c then rest else acc

unfoldable pub starts_digit : Bytes → Bool
unfolding is_digit
starts_digit [] = false
starts_digit (c ∷ s) = is_digit c

-- What strtol reads behind the sign.
unfoldable pub magnitude : Bytes → Option ℕ
unfolding starts_digit digits_value
magnitude s = if starts_digit s then some (digits_value 0 s) else none

abbrev negated : Option ℕ → Option ℤ
negated none = none
negated (some n) = some (sub_ℕ 0 n)

abbrev plain : Option ℕ → Option ℤ
plain none = none
plain (some n) = some (pos n)

unfoldable pub signed : Bytes → Option ℤ
unfolding magnitude
signed [] = none
signed (c ∷ t) =
    if c == b'-'
    then negated (magnitude t)
    else if c == b'+'
    then plain (magnitude t)
    else plain (magnitude (c ∷ t))

-- strtol and strtoll in base 10 with no bound: white space, a sign, digits; `none` where no
-- conversion can be performed.
unfoldable pub strtol : Bytes → Option ℤ
unfolding drop_while is_space signed
strtol s = signed (drop_while is_space s)

-- std::stoi and std::stoll: the converted value, or the exception that names the function.
unfoldable pub in_range_or_throw : Bytes → ℤ → ℤ → Option ℤ → Result ℤ
in_range_or_throw name lo hi none = err (invalid_argument name)
in_range_or_throw name lo hi (some v) =
    if leb_ℤ lo v && leb_ℤ v hi then ok v else err (out_of_range name)

unfoldable pub stoi : Bytes → Result ℤ
unfolding in_range_or_throw strtol
stoi s = in_range_or_throw (codes "stoi") (negsuc (2 ^ 31 - 1)) (pos (2 ^ 31 - 1)) (strtol s)

unfoldable pub stoll : Bytes → Result ℤ
unfolding in_range_or_throw strtol
stoll s = in_range_or_throw (codes "stoll") (negsuc (2 ^ 63 - 1)) (pos (2 ^ 63 - 1)) (strtol s)

-- atoi: 0 where no conversion can be performed. Outside the range of `int` C leaves the result
-- open; here it is the low 32 bits.
unfoldable pub atoi : Bytes → ℤ
unfolding strtol to_int32
atoi s = elim (strtol s) [ none ↦ pos 0 | some v ↦ to_int32 v ]

-- std::to_string of an unsigned number: the fuel is the number itself and one.
unfoldable pub decimal : ℕ → ℕ → Bytes
decimal zero n = []
decimal (suc fuel) n =
    let upper = decimal fuel (n / 10) in
    if ltb n 10 then (b'0' + n) ∷ [] else upper ++ (b'0' + n % 10) ∷ []

unfoldable pub to_string : ℕ → Bytes
unfolding decimal
to_string n = decimal (n + 1) n
