-- ===== src/Export/TimeUtil.antt =====
-- src/export/timeutil.cpp: UTC and local calendar time.
-- The C library's calendar is a parameter: `Libc` has its four conversions between a `time_t` and
-- a broken-down time, the local ones under a zone. tm_isdst is always -1 where it matters, and is
-- left out. The mutex around the transient TZ is not modelled; `with_tz` is.
pub mod Offset
pub mod Next
use night_watcher.Base.{
  ℕ, zero, suc, ◌+◌, ◌-◌, ◌*◌, ◌<◌, Bool, true, false, not, ◌&&◌, ◌||◌, Option, none, some, List,
  [], ◌∷◌, ◌++◌, if◌then◌else◌, ◌==◌, ltb, is_empty, Bytes, codes, length, take, replicate,
}
use night_watcher.Base.Int.{
  ℤ, pos, negsuc, pos_part, neg_part, sub_ℕ, ◌+ℤ◌, ◌-ℤ◌, leb_ℤ, ltb_ℤ, rem_ℤ,
}
use night_watcher.Text.{is_space, is_digit, drop_while, digits_value, starts_digit, to_string}

pub record Tm : Type 0 where
  pub tm_sec : ℤ
  pub tm_min : ℤ
  pub tm_hour : ℤ
  pub tm_mday : ℤ
  pub tm_mon : ℤ
  pub tm_year : ℤ
  pub tm_wday : ℤ

-- std::tm tm{}.
abbrev pub zero_tm : Tm
zero_tm = record {
  tm_sec = pos 0;
  tm_min = pos 0;
  tm_hour = pos 0;
  tm_mday = pos 0;
  tm_mon = pos 0;
  tm_year = pos 0;
  tm_wday = pos 0;
}

pub record Libc : Type 0 where
  pub timegm : Tm → ℤ
  pub gmtime : ℤ → Tm
  pub mktime : Bytes → Tm → ℤ
  pub localtime : Bytes → ℤ → Tm

-- The process's TZ variable around `fn`: set, then put back as it was.
unfoldable pub with_tz : {A : Type 0} → Bytes → (Option Bytes → A) → Option Bytes → A × Option Bytes
with_tz tz fn none = (fn (some tz), none)
with_tz tz fn (some saved) = (fn (some tz), some saved)

-- %d of scanf: white space, a sign, digits.
abbrev scan_digits : ℤ → Bytes → Option (ℤ × Bytes)
unfolding starts_digit digits_value drop_while is_digit
scan_digits sign s =
    if starts_digit s
    then some (
      (if leb_ℤ (pos 0) sign then pos (digits_value 0 s) else sub_ℕ 0 (digits_value 0 s)),
      drop_while is_digit s,
    )
    else none

scan_sign : Bytes → Option (ℤ × Bytes)
unfolding starts_digit digits_value drop_while is_digit
scan_sign [] = none
scan_sign (c ∷ s) =
    if c == b'-'
    then scan_digits (negsuc 0) s
    else if c == b'+'
    then scan_digits (pos 1) s
    else scan_digits (pos 1) (c ∷ s)

unfoldable pub scan_int : Bytes → Option (ℤ × Bytes)
unfolding scan_sign drop_while is_space
scan_int s = scan_sign (drop_while is_space s)

-- A literal character of a scanf format, and a space, which takes any white space.
unfoldable pub scan_char : ℕ → Bytes → Option Bytes
scan_char c [] = none
scan_char c (d ∷ s) = if d == c then some s else none

infixl 5 ◌>>=◌
abbrev ◌>>=◌ : {A B : Type 0} → Option A → (A → Option B) → Option B
none >>= f = none
some a >>= f = f a

-- sscanf(s, "%d-%d-%d %d:%d:%d", …) with all six items assigned.
unfoldable pub scan_sql : Bytes → Option Tm
unfolding scan_int scan_char drop_while is_space
scan_sql s = do
  (y, s₁) ← scan_int s
  s₂ ← scan_char b'-' s₁
  (mo, s₃) ← scan_int s₂
  s₄ ← scan_char b'-' s₃
  (d, s₅) ← scan_int s₄
  (h, s₆) ← scan_int (drop_while is_space s₅)
  s₇ ← scan_char b':' s₆
  (mi, s₈) ← scan_int s₇
  s₉ ← scan_char b':' s₈
  (se, _) ← scan_int s₉
  some (record zero_tm {
    tm_year = y -ℤ pos 1900;
    tm_mon = mo -ℤ pos 1;
    tm_mday = d;
    tm_hour = h;
    tm_min = mi;
    tm_sec = se;
  })

-- %0wd of printf.
unfoldable pub padded : ℕ → ℤ → Bytes
unfolding to_string
padded w (pos n) = let s = to_string n in replicate (w - length s) b'0' ++ s
padded w (negsuc n) = let s = to_string (suc n) in b'-' ∷ (replicate (w - 1 - length s) b'0' ++ s)

unfoldable pub fmt_date : Tm → Bytes
unfolding padded
fmt_date tm =
    padded 4 (tm.tm_year +ℤ pos 1900)
    ++ b'-' ∷ (padded 2 (tm.tm_mon +ℤ pos 1) ++ b'-' ∷ padded 2 tm.tm_mday)

unfoldable pub fmt_time : Tm → Bytes
unfolding padded
fmt_time tm = padded 2 tm.tm_hour ++ b':' ∷ (padded 2 tm.tm_min ++ b':' ∷ padded 2 tm.tm_sec)

-- The buffers of 80 bytes are longer than any six `int` fields.
unfoldable pub fmt_iso_ms : Tm → Bytes
unfolding fmt_date fmt_time
fmt_iso_ms tm = fmt_date tm ++ b'T' ∷ (fmt_time tm ++ codes ".000")

unfoldable pub fmt_sql : Tm → Bytes
unfolding fmt_date fmt_time
fmt_sql tm = fmt_date tm ++ b' ' ∷ fmt_time tm

-- `if (v > hi) v = hi`, and `if (v < lo) v = lo`.
abbrev pub at_most : ℤ → ℤ → ℤ
at_most hi v = if ltb_ℤ hi v then hi else v

abbrev pub at_least : ℤ → ℤ → ℤ
at_least lo v = if ltb_ℤ v lo then lo else v

module _ (c : Libc) where
  unfoldable pub tz_mktime : Tm → Bytes → ℤ
  tz_mktime tm tz = if is_empty tz then c.timegm tm else c.mktime tz tm

  unfoldable pub parse_sql_utc : Bytes → Option ℤ
  unfolding scan_sql
  parse_sql_utc s = elim (scan_sql s) [ none ↦ none | some tm ↦ some (c.timegm tm) ]

  unfoldable pub fmt_sql_utc : ℤ → Bytes
  unfolding fmt_sql
  fmt_sql_utc t = fmt_sql (c.gmtime t)

  unfoldable pub local_tm : ℤ → Bytes → Tm
  local_tm t tz = if is_empty tz then c.gmtime t else c.localtime tz t

  unfoldable pub local_ym : Bytes → Bytes → Bytes
  unfolding parse_sql_utc local_tm padded
  local_ym utc_sql tz = elim (parse_sql_utc utc_sql) [
    | none ↦ take 7 utc_sql
    | some t ↦
        let lt = local_tm t tz in
        padded 4 (lt.tm_year +ℤ pos 1900) ++ b'-' ∷ padded 2 (lt.tm_mon +ℤ pos 1)
  ]

  -- The bounds as times: the first second of the local month of `t`, and its last.
  unfoldable pub month_bounds : ℤ → Bytes → ℤ × ℤ
  unfolding local_tm tz_mktime
  month_bounds t tz =
      let lt = local_tm t tz in
      let first = record zero_tm { tm_year = lt.tm_year; tm_mon = lt.tm_mon; tm_mday = pos 1 } in
      let next = record zero_tm {
        tm_year = lt.tm_year;
        tm_mon = lt.tm_mon +ℤ pos 1;
        tm_mday = pos 1;
      } in
      (tz_mktime first tz, tz_mktime next tz -ℤ pos 1)

  unfoldable pub local_month_bounds_utc : Bytes → Bytes → Bytes × Bytes
  unfolding parse_sql_utc month_bounds fmt_sql_utc
  local_month_bounds_utc ref tz = elim (parse_sql_utc ref) [
    | none ↦ (ref, ref)
    | some t ↦ (fmt_sql_utc (month_bounds t tz).0, fmt_sql_utc (month_bounds t tz).1)
  ]

  -- `tm` at hour:minute:00.
  abbrev at_time : Tm → ℤ → ℤ → Tm
  at_time tm hour minute = record tm { tm_hour = hour; tm_min = minute; tm_sec = pos 0 }

  unfoldable pub next_local_hhmm_utc : ℤ → ℤ → Bytes → ℤ → ℤ
  unfolding local_tm tz_mktime
  next_local_hhmm_utc hour minute tz now =
      let base = local_tm now tz in
      let cand = tz_mktime (at_time base hour minute) tz in
      let tomorrow = record base { tm_mday = base.tm_mday +ℤ pos 1 } in
      if leb_ℤ cand now then tz_mktime (at_time tomorrow hour minute) tz else cand

  unfoldable pub next_local_weekly_utc : ℤ → ℤ → ℤ → Bytes → ℤ → ℤ
  unfolding local_tm tz_mktime rem_ℤ
  next_local_weekly_utc wday_in hour minute tz now =
      let wday = at_most (pos 6) (at_least (pos 0) wday_in) in
      let base = local_tm now tz in
      let delta = rem_ℤ (wday -ℤ base.tm_wday +ℤ pos 7) 7 in
      let day = record base { tm_mday = base.tm_mday +ℤ delta } in
      let week = record base { tm_mday = base.tm_mday +ℤ delta +ℤ pos 7 } in
      let cand = tz_mktime (at_time day hour minute) tz in
      if leb_ℤ cand now then tz_mktime (at_time week hour minute) tz else cand

  -- The day in the month that lies `months` behind that of `base`; a day up to 0 stands for the last
  -- day of the month, as day 0 of the one behind it.
  unfoldable pub monthly_target : ℤ → Tm → ℤ → Tm
  monthly_target mday base months =
      if leb_ℤ mday (pos 0)
      then record base { tm_mon = base.tm_mon +ℤ (months +ℤ pos 1); tm_mday = pos 0 }
      else record base { tm_mon = base.tm_mon +ℤ months; tm_mday = at_most (pos 28) mday }

  unfoldable pub next_local_monthly_utc : ℤ → ℤ → ℤ → Bytes → ℤ → ℤ
  unfolding local_tm tz_mktime monthly_target
  next_local_monthly_utc mday hour minute tz now =
      let base = local_tm now tz in
      let cand = tz_mktime (at_time (monthly_target mday base (pos 0)) hour minute) tz in
      if leb_ℤ cand now
      then tz_mktime (at_time (monthly_target mday base (pos 1)) hour minute) tz
      else cand
