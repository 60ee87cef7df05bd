-- ===== src/Sqm/Protocol/Fields.antt =====
-- `numeric_part`, `to_ll` and `to_double` of protocol.cpp on a field as the devices write it.
use night_watcher.Base.{
  ℕ, ◌<◌, ◌^◌, Bool, true, false, [], ◌∷◌, ◌++◌, ◌≡◌, ◌≢◌, refl, sym, ap, ◌∙◌, arith, if◌then◌else◌,
  is_empty, Bytes, Result, ok,
}
use mathlib.Core.List.{append-nil}
use night_watcher.Base.Int.{pos}
use night_watcher.Sqm.Protocol.{numeric_part, to_ll, to_double}
use night_watcher.Text.Number.{value, stoll-digits}
use night_watcher.Text.Trim.{
  first_is, last_is, IsBare, Only, trim-between, trim_bare, drop_end_while-append,
}
use night_watcher.Text.{is_space, is_alpha, is_digit, stoll}

-- A field: a token that ends in no letter, then unit letters, with white space about them.
pub record IsField (text token : Bytes) : Type 0 where
  pub before : Bytes
  pub unit : Bytes
  pub behind : Bytes
  pub splits : text ≡ before ++ ((token ++ unit) ++ behind)
  pub blank_before : Only is_space before
  pub letters : Only is_alpha unit
  pub blank_behind : Only is_space behind
  pub token_bare : IsBare is_space token
  pub token_ends : last_is is_alpha token ≡ false
  pub token_ne_nil : token ≢ []

alpha-not-space : (c : ℕ) → is_alpha c ≡ true → is_space c ≡ false
unfolding is_alpha is_space
alpha-not-space c h = ground arith

alpha-IsBare : (s : Bytes) → Only is_alpha s → last_is is_space s ≡ false
alpha-IsBare [] h = refl
alpha-IsBare (c ∷ []) h = alpha-not-space c h.0
alpha-IsBare (c ∷ d ∷ s) h = alpha-IsBare (d ∷ s) h.1

last_is-unit :
    (s unit : Bytes)
    → last_is is_space s ≡ false
    → Only is_alpha unit
    → last_is is_space (s ++ unit) ≡ false
last_is-unit [] unit b h = alpha-IsBare unit h
last_is-unit (c ∷ []) [] b h = b
last_is-unit (c ∷ []) (d ∷ unit) b h = alpha-IsBare (d ∷ unit) h
last_is-unit (c ∷ d ∷ s) unit b h = last_is-unit (d ∷ s) unit b h

first_is-append :
    (p : ℕ → Bool) (s t : Bytes) → s ≢ [] → first_is p s ≡ false → first_is p (s ++ t) ≡ false
first_is-append p [] t ne b = absurd (ne refl)
first_is-append p (c ∷ s) t ne b = b

-- The numeric token of a field is what is left of it.
pub numeric_part-IsField : {text token : Bytes} → IsField text token → numeric_part text ≡ token
unfolding numeric_part
numeric_part-IsField {text} {token} f = rw f.splits (
    rw (trim-between f.before (token ++ f.unit) f.behind f.blank_before bare f.blank_behind) (
      rw (drop_end_while-append is_alpha token f.unit f.letters f.token_ends)
        (trim_bare token f.token_bare)))
  where
    bare : IsBare is_space (token ++ f.unit)
    bare = (
      first_is-append is_space token f.unit f.token_ne_nil f.token_bare.0,
      last_is-unit token f.unit f.token_bare.1 f.letters,
    )

if-is_empty {ℓ} : {A : Type ℓ} (s : Bytes) (x y : A) → s ≢ [] → (if is_empty s then x else y) ≡ y
if-is_empty [] x y ne = absurd (ne refl)
if-is_empty (c ∷ s) x y ne = refl

pub to_ll-IsField : {text token : Bytes} → IsField text token → to_ll text ≡ stoll token
unfolding to_ll
to_ll-IsField {text} {token} f = rw (numeric_part-IsField f) (if-is_empty token _ _ f.token_ne_nil)

pub to_double-IsField :
    {D : Type 0} (stod : Bytes → Result D) {text token : Bytes}
    → IsField text token
    → to_double stod text ≡ stod token
unfolding to_double
to_double-IsField stod {text} {token} f =
    rw (numeric_part-IsField f) (if-is_empty token _ _ f.token_ne_nil)

digit-not-alpha : (c : ℕ) → is_digit c ≡ true → (is_alpha c ≡ false) × (is_space c ≡ false)
unfolding is_alpha is_space is_digit
digit-not-alpha c h = ground arith

digits-ends :
    (s : Bytes) → Only is_digit s → (last_is is_alpha s ≡ false) × (last_is is_space s ≡ false)
digits-ends [] h = (refl, refl)
digits-ends (c ∷ []) h = digit-not-alpha c h.0
digits-ends (c ∷ d ∷ s) h = digits-ends (d ∷ s) h.1

-- A text of digits with unit letters is a field.
pub digits-IsField :
    (d : ℕ) (ds unit : Bytes)
    → Only is_digit (d ∷ ds)
    → Only is_alpha unit
    → IsField (d ∷ ds ++ unit) (d ∷ ds)
digits-IsField d ds unit h u = record {
  before = [];
  unit = unit;
  behind = [];
  splits = sym (append-nil (d ∷ ds ++ unit));
  blank_before = tt;
  letters = u;
  blank_behind = tt;
  token_bare = ((digit-not-alpha d h.0).1, (digits-ends (d ∷ ds) h).1);
  token_ends = (digits-ends (d ∷ ds) h).0;
  token_ne_nil = λ e. cc;
}

-- An integer field of zero-padded digits and unit letters reads as the number.
pub to_ll-digits :
    (d : ℕ) (ds unit : Bytes)
    → Only is_digit (d ∷ ds)
    → Only is_alpha unit
    → value 0 (d ∷ ds) < 2 ^ 63
    → to_ll (d ∷ ds ++ unit) ≡ ok (pos (value 0 (d ∷ ds)))
to_ll-digits d ds unit h u lt =
    to_ll-IsField (digits-IsField d ds unit h u)
    ∙ ap stoll (sym (append-nil (d ∷ ds)))
    ∙ stoll-digits d ds [] h refl lt
