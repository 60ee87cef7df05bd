-- ===== src/Base/Exceptions.antt =====
-- C++ exceptions as values: the standard classes that the code throws or that reach it from the
-- standard library, each with its what() text.
use mathlib.Core.Logic.{◌⊎◌, inl, inr}
use mathlib.Core.Path.{◌≡◌, refl}
use night_watcher.Base.Lists.{Bytes}

pub data Exception : Type 0 where
  runtime_error invalid_argument out_of_range other_exception : Bytes → Exception

abbrev pub what : Exception → Bytes
what (runtime_error m) = m
what (invalid_argument m) = m
what (out_of_range m) = m
what (other_exception m) = m

pub data Result {ℓ} (A : Type ℓ) : Type ℓ where
  ok : A → Result A
  err : Exception → Result A

infixl 5 ◌>>=◌
abbrev pub ◌>>=◌ {ℓ κ} : {A : Type ℓ} {B : Type κ} → Result A → (A → Result B) → Result B
r >>= next = elim r [ err e ↦ err e | ok a ↦ next a ]

pub Result-cases {ℓ} :
    {A : Type ℓ} (r : Result A) → ((a : A) × (r ≡ ok a)) ⊎ ((e : Exception) × (r ≡ err e))
Result-cases (ok a) = inl (a, refl)
Result-cases (err e) = inr (e, refl)

pub ok-injective {ℓ} : {A : Type ℓ} {x y : A} → ok x ≡ ok y → x ≡ y
ok-injective h = cc
