-- ===== src/Sqm/Device/Address.antt =====
-- Stored addresses of TCP devices.
use night_watcher.Base.{
  ℕ, zero, suc, ◌+◌, ◌/◌, ◌%◌, ◌^◌, ◌<◌, ◌≡◌, refl, sym, ap, ◌∙◌, [], ◌∷◌, ◌++◌, arith, Bytes,
  All-append, Bool-cases, inl, inr, none, some, ltb, true,
}
use mathlib.Core.List.{append-nil}
use night_watcher.Base.Int.{pos, to_int32, to_int32-eq_self, low_bits}
use night_watcher.Text.{is_digit, cut_last, decimal, to_string, atoi, strtol}
use night_watcher.Text.Number.{value, value-to_string, strtol-digits}
use night_watcher.Text.Split.{Free}
use night_watcher.Text.Trim.{Only}
use night_watcher.Sqm.Device.{tcp_endpoint, tcp_of}

cut_last-Free : (d : ℕ) (s : Bytes) → Free d s → cut_last d s ≡ none
unfolding cut_last
cut_last-Free d [] h = refl
cut_last-Free d (c ∷ s) h = ground (arith, h.0, cut_last-Free d s h.1)

cut_last-append : (d : ℕ) (s t : Bytes) → Free d t → cut_last d (s ++ d ∷ t) ≡ some (s, t)
unfolding cut_last
cut_last-append d [] t h = rw (cut_last-Free d t h, cut_last) (ground arith)
cut_last-append d (c ∷ s) t h = rw (cut_last-append d s t h, cut_last) refl

digit : (m : ℕ) → m < 10 → is_digit (b'0' + m) ≡ true
unfolding is_digit
digit m lt = ground arith

Only-decimal : (fuel n : ℕ) → Only is_digit (decimal fuel n)
unfolding decimal
Only-decimal zero n = tt
Only-decimal (suc fuel) n = elim (Bool-cases (ltb n 10)) [
  | inl e ↦ rw e (digit n (ground arith), tt)
  | inr e ↦ rw e (
      All-append _ (decimal fuel (n / 10)) ((b'0' + n % 10) ∷ []) (Only-decimal fuel (n / 10))
        (digit (n % 10) (omega arith), tt))
]

to_string-digits : (n : ℕ) → Only is_digit (to_string n)
unfolding to_string
to_string-digits n = Only-decimal (n + 1) n

Free-digits : (s : Bytes) → Only is_digit s → Free b':' s
unfolding is_digit
Free-digits [] h = tt
Free-digits (c ∷ s) h = (ground (arith, h.0), Free-digits s h.1)

nonempty-append : (s : Bytes) (c : ℕ) → (d : ℕ) × (ds : Bytes) × (s ++ c ∷ [] ≡ d ∷ ds)
nonempty-append [] c = (c, [], refl)
nonempty-append (d ∷ s) c = (d, s ++ c ∷ [], refl)

decimal-nonempty : (fuel n : ℕ) → n < fuel → (d : ℕ) × (ds : Bytes) × (decimal fuel n ≡ d ∷ ds)
unfolding decimal
decimal-nonempty zero n lt = absurd (omega arith)
decimal-nonempty (suc fuel) n lt = elim (Bool-cases (ltb n 10)) [
  | inl e ↦ rw e (b'0' + n, [], refl)
  | inr e ↦ rw e (nonempty-append (decimal fuel (n / 10)) (b'0' + n % 10))
]

to_string-nonempty : (n : ℕ) → (d : ℕ) × (ds : Bytes) × (to_string n ≡ d ∷ ds)
unfolding to_string
to_string-nonempty n = decimal-nonempty (n + 1) n (omega arith)

read :
    (d : ℕ) (ds : Bytes)
    → Only is_digit (d ∷ ds)
    → atoi (d ∷ ds) ≡ to_int32 (pos (value 0 (d ∷ ds)))
unfolding atoi
read d ds h = rw (ap strtol (sym (append-nil (d ∷ ds))) ∙ strtol-digits d ds [] h refl, atoi) refl

-- atoi reads a printed `int` back.
atoi-to_string : (n : ℕ) → n < 2 ^ 31 → atoi (to_string n) ≡ pos n
unfolding atoi
atoi-to_string n lt =
    let (d, ds, e) = to_string-nonempty n in
    by_text d ds e (rw e at (to_string-digits n)) (rw e at (value-to_string n))
  where
    by_text :
        (d : ℕ) (ds : Bytes)
        → to_string n ≡ d ∷ ds
        → Only is_digit (d ∷ ds)
        → value 0 (d ∷ ds) ≡ n
        → atoi (to_string n) ≡ pos n
    by_text d ds e digits v =
        ap atoi e
        ∙ read d ds digits
        ∙ ap (λ k. to_int32 (pos k)) v
        ∙ to_int32-eq_self (pos n) (omega arith) (omega arith)

low_bits_small : (n : ℕ) → n < 2 ^ 16 → low_bits 16 (pos n) ≡ n
unfolding low_bits
low_bits_small n lt = omega arith

-- A port in decimal behind the host's last colon is the port that is opened.
pub tcp_of-port :
    (host : Bytes) (port : ℕ)
    → port < 2 ^ 16
    → tcp_of (host ++ b':' ∷ to_string port) ≡ tcp_endpoint host port
unfolding tcp_of
tcp_of-port host port lt =
    rw
      (
        cut_last-append b':' host (to_string port)
            (Free-digits (to_string port) (to_string-digits port)),
        tcp_of,
      )
      (rw (atoi-to_string port (omega arith)) (ap (tcp_endpoint host) (low_bits_small port lt)))
