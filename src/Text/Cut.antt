-- ===== src/Text/Cut.antt =====
-- Where `cut` cuts a text.
use night_watcher.Base.{ℕ, none, some, [], ◌∷◌, ◌++◌, ◌≡◌, refl, arith, Bytes}
use night_watcher.Text.{cut}
use night_watcher.Text.Split.{Free}

pub cut-Free : (c : ℕ) (s : Bytes) → Free c s → cut c s ≡ none
unfolding cut
cut-Free c [] f = refl
cut-Free c (d ∷ s) f = rw (f.0, cut-Free c s f.1)

pub cut-append : (c : ℕ) (s t : Bytes) → Free c s → cut c (s ++ c ∷ t) ≡ some (s, t)
unfolding cut
cut-append c [] t f = ground arith
cut-append c (d ∷ s) t f = rw (f.0, cut-append c s t f.1, cut)
