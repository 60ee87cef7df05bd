-- ===== src/Api/Cookies.antt =====
-- The Cookie header as browsers write it, `name=value` with `; ` between, and what get_cookie finds.
use night_watcher.Base.{
  ℕ, zero, suc, ◌+◌, ◌≤◌, false, some, List, [], ◌∷◌, ◌++◌, ◌≡◌, refl, sym, ap, ◌∙◌, arith, Bytes,
  bytes_eq, length, if◌then◌else◌, All, All-append,
}
use mathlib.Core.List.{append_assoc}
use night_watcher.Api.Access.{is_gap, cookie_from, get_cookie}
use night_watcher.Text.Cut.{cut-Free, cut-append}
use night_watcher.Text.Split.{Free}
use night_watcher.Text.Trim.{first_is, Only, drop_while-append}
use night_watcher.Text.{cut}

pub record Cookie : Type 0 where
  pub name : Bytes
  pub value : Bytes

pub record IsCookie (k : Cookie) : Type 0 where
  pub name_free : Free b'=' k.name
  pub name_bare : first_is is_gap k.name ≡ false
  pub value_free : Free b';' k.value

abbrev pub header_of : List Cookie → Bytes
header_of [] = []
header_of (k ∷ []) = k.name ++ b'=' ∷ k.value
header_of (k ∷ l ∷ ks) = k.name ++ b'=' ∷ (k.value ++ b';' ∷ b' ' ∷ header_of (l ∷ ks))

-- The value of the first cookie with a name, empty if there is none.
abbrev pub value_of : Bytes → List Cookie → Bytes
value_of name [] = []
value_of name (k ∷ ks) = if bytes_eq k.name name then k.value else value_of name ks

cut_name :
    (gap : Bytes) (k : Cookie) (s : Bytes)
    → Free b'=' gap
    → IsCookie k
    → cut b'=' (gap ++ (k.name ++ b'=' ∷ s)) ≡ some (gap ++ k.name, s)
cut_name gap k s f h =
    ap (cut b'=') (sym (append_assoc gap k.name (b'=' ∷ s)))
    ∙ cut-append b'=' (gap ++ k.name) s (All-append _ gap k.name f h.name_free)

one_gap : Only is_gap (b' ' ∷ [])
unfolding is_gap
one_gap = (refl, tt)

cookie_from-value_of :
    (fuel : ℕ) (name gap : Bytes) (ks : List Cookie)
    → length ks ≤ fuel
    → Free b'=' gap
    → Only is_gap gap
    → All IsCookie ks
    → cookie_from fuel name (gap ++ header_of ks) ≡ value_of name ks
unfolding cookie_from
cookie_from-value_of zero name gap [] le f o h = refl
cookie_from-value_of zero name gap (k ∷ ks) le f o h = absurd (omega arith)
cookie_from-value_of (suc fuel) name gap [] le f o h =
    rw (cut-Free b'=' (gap ++ []) (All-append _ gap [] f tt), cookie_from) refl
cookie_from-value_of (suc fuel) name gap (k ∷ []) le f o h =
    rw
      (
        cut_name gap k k.value f h.0,
        cut-Free b';' k.value h.0.value_free,
        drop_while-append is_gap gap k.name o h.0.name_bare,
        cookie_from,
      )
      refl
cookie_from-value_of (suc fuel) name gap (k ∷ l ∷ ks) le f o h =
    rw
      (
        cut_name gap k (k.value ++ b';' ∷ b' ' ∷ header_of (l ∷ ks)) f h.0,
        cut-append b';' k.value (b' ' ∷ header_of (l ∷ ks)) h.0.value_free,
        drop_while-append is_gap gap k.name o h.0.name_bare,
        cookie_from,
      )
      (ap (λ later. if bytes_eq k.name name then k.value else later)
        (cookie_from-value_of fuel name (b' ' ∷ []) (l ∷ ks) (omega arith) (refl, tt) one_gap h.1))

length-append : (s t : Bytes) → length (s ++ t) ≡ length s + length t
length-append [] t = omega arith
length-append (c ∷ s) t = omega (arith, length-append s t)

cookies_le_length : (ks : List Cookie) → length ks ≤ length (header_of ks)
cookies_le_length [] = omega arith
cookies_le_length (k ∷ []) = omega (arith, length-append k.name (b'=' ∷ k.value))
cookies_le_length (k ∷ l ∷ ks) = omega (
  arith,
  length-append k.name (b'=' ∷ (k.value ++ b';' ∷ b' ' ∷ header_of (l ∷ ks))),
  length-append k.value (b';' ∷ b' ' ∷ header_of (l ∷ ks)),
  cookies_le_length (l ∷ ks),
)

-- In such a header get_cookie finds the first cookie with the name.
pub get_cookie-header_of :
    (ks : List Cookie) (name : Bytes)
    → All IsCookie ks
    → get_cookie (header_of ks) name ≡ value_of name ks
unfolding get_cookie
get_cookie-header_of ks name h =
    cookie_from-value_of (length (header_of ks) + 1) name [] ks
      (omega (arith, cookies_le_length ks)) tt tt h
