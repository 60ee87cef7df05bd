-- ===== src/Export/Dsn/Marks.antt =====
-- Which bytes the texts of a .dat file lack: the line break and the semicolon are in no number and no
-- time stamp, and the functions that shorten a text bring none in.
use night_watcher.Api.Json.{Json, string}
use night_watcher.Base.Int.{ℤ, pos, negsuc, ◌+ℤ◌}
use night_watcher.Base.{
  ℕ, zero, suc, ◌+◌, ◌-◌, ◌/◌, ◌%◌, Bool, false, Option, none, some, [], ◌∷◌, ◌++◌, ◌≡◌, refl,
  arith, ◌==◌, Bytes, codes, take, replicate, length,
}
use night_watcher.Database.{int_text}
use night_watcher.Export.Dsn.Reader.{Lacks, Lacks-append}
use night_watcher.Export.Dsn.{holds, drop_last_if, trim_zeros, plus_int, text_or}
use night_watcher.Export.TimeUtil.{Tm, padded, fmt_date, fmt_time, fmt_iso_ms}
use night_watcher.Text.{decimal, to_string, is_digit, drop_end_while}

-- A byte that no printed number or time stamp has.
pub record IsApart (c : ℕ) : Type 0 where
  pub no_digit : is_digit c ≡ false
  pub no_minus : (c == b'-') ≡ false
  pub no_plus : (c == b'+') ≡ false
  pub no_colon : (c == b':') ≡ false
  pub no_dot : (c == b'.') ≡ false
  pub no_t : (c == b'T') ≡ false

module _ (c : ℕ) where
  pub Lacks-take : (n : ℕ) (s : Bytes) → Lacks c s → Lacks c (take n s)
  unfolding holds
  Lacks-take zero s h = refl
  Lacks-take (suc n) [] h = refl
  Lacks-take (suc n) (d ∷ s) h = ground (arith, Lacks-take n s)

  Lacks-drop_last_if : (d : ℕ) (s : Bytes) → Lacks c s → Lacks c (drop_last_if d s)
  unfolding holds drop_last_if
  Lacks-drop_last_if d [] h = refl
  Lacks-drop_last_if d (e ∷ s) h = ground (arith, Lacks-drop_last_if d s)

  Lacks-drop_end_while : (p : ℕ → Bool) (s : Bytes) → Lacks c s → Lacks c (drop_end_while p s)
  unfolding holds drop_end_while
  Lacks-drop_end_while p [] h = refl
  Lacks-drop_end_while p (e ∷ s) h = ground (arith, Lacks-drop_end_while p s)

  pub Lacks-trim_zeros : (s : Bytes) → Lacks c s → Lacks c (trim_zeros s)
  unfolding trim_zeros
  Lacks-trim_zeros s h = ground (
    arith,
    Lacks-drop_last_if b'.' (drop_end_while (λ d. d == b'0') s),
    Lacks-drop_end_while (λ d. d == b'0') s,
  )

  pub Lacks-text_or :
      {N : Type 0} (o : Option (Json N)) (fallback : Bytes)
      → ((v : Bytes) → o ≡ some (string v) → Lacks c v)
      → Lacks c fallback
      → Lacks c (text_or o fallback)
  Lacks-text_or none fallback h l = l
  Lacks-text_or (some (string v)) fallback h l = ground (arith, h v refl)
  Lacks-text_or (some _) fallback h l = l

  module _ (a : IsApart c) where
    Lacks-decimal : (fuel n : ℕ) → Lacks c (decimal fuel n)
    unfolding decimal holds is_digit
    Lacks-decimal zero n = refl
    Lacks-decimal (suc fuel) n = ground (
      arith,
      a.no_digit,
      Lacks-decimal fuel (n / 10),
      Lacks-append c (decimal fuel (n / 10)) ((b'0' + n % 10) ∷ []),
    )

    pub Lacks-to_string : (n : ℕ) → Lacks c (to_string n)
    unfolding to_string
    Lacks-to_string n = Lacks-decimal (n + 1) n

    pub Lacks-int_text : (v : ℤ) → Lacks c (int_text v)
    unfolding int_text holds
    Lacks-int_text (pos n) = Lacks-to_string n
    Lacks-int_text (negsuc n) = ground (arith, a.no_minus, Lacks-to_string (suc n))

    pub Lacks-plus_int : (v : ℤ) → Lacks c (plus_int v)
    unfolding plus_int holds
    Lacks-plus_int (pos n) = ground (arith, a.no_plus, Lacks-int_text (pos n))
    Lacks-plus_int (negsuc n) = Lacks-int_text (negsuc n)

    Lacks-zeros : (n : ℕ) → Lacks c (replicate n b'0')
    unfolding holds is_digit
    Lacks-zeros zero = refl
    Lacks-zeros (suc n) = ground (arith, a.no_digit, Lacks-zeros n)

    Lacks-padded : (w : ℕ) (v : ℤ) → Lacks c (padded w v)
    unfolding padded holds
    Lacks-padded w (pos n) =
        Lacks-append c (replicate (w - length (to_string n)) b'0') (to_string n) (Lacks-zeros _)
          (Lacks-to_string n)
    Lacks-padded w (negsuc n) =
        let k = w - 1 - length (to_string (suc n)) in
        ground (
          arith,
          a.no_minus,
          Lacks-append c (replicate k b'0') (to_string (suc n)) (Lacks-zeros k)
              (Lacks-to_string (suc n)),
        )

    -- Three numbers with a separator.
    Lacks-three :
        (d : ℕ) (s t u : Bytes)
        → (c == d) ≡ false
        → Lacks c s
        → Lacks c t
        → Lacks c u
        → Lacks c (s ++ d ∷ (t ++ d ∷ u))
    unfolding holds
    Lacks-three d s t u e hs ht hu =
        Lacks-append c s (d ∷ (t ++ d ∷ u)) hs
          (ground (arith, Lacks-append c t (d ∷ u) ht (ground arith)))

    Lacks-fmt_date : (tm : Tm) → Lacks c (fmt_date tm)
    unfolding fmt_date
    Lacks-fmt_date tm =
        Lacks-three b'-' _ _ _ a.no_minus (Lacks-padded 4 (tm.tm_year +ℤ pos 1900))
          (Lacks-padded 2 (tm.tm_mon +ℤ pos 1)) (Lacks-padded 2 tm.tm_mday)

    Lacks-fmt_time : (tm : Tm) → Lacks c (fmt_time tm)
    unfolding fmt_time
    Lacks-fmt_time tm =
        Lacks-three b':' _ _ _ a.no_colon (Lacks-padded 2 tm.tm_hour) (Lacks-padded 2 tm.tm_min)
          (Lacks-padded 2 tm.tm_sec)

    Lacks-millis : Lacks c (codes ".000")
    unfolding holds is_digit
    Lacks-millis = ground (arith, a.no_dot, a.no_digit)

    pub Lacks-fmt_iso_ms : (tm : Tm) → Lacks c (fmt_iso_ms tm)
    unfolding fmt_iso_ms holds
    Lacks-fmt_iso_ms tm =
        Lacks-append c (fmt_date tm) (b'T' ∷ (fmt_time tm ++ codes ".000")) (Lacks-fmt_date tm) (
          ground (
            arith,
            a.no_t,
            Lacks-append c (fmt_time tm) (codes ".000") (Lacks-fmt_time tm) Lacks-millis,
          ))
