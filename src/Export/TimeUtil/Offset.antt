-- ===== src/Export/TimeUtil/Offset.antt =====
-- Clock arithmetic in a zone with a fixed offset (UTC, or one without daylight saving).
use night_watcher.Base.{ℕ, ◌+◌, ◌-◌, ◌%◌, ap, ◌*◌, ◌≡◌, arith, Bytes, Bool-cases, inl, inr, leb}
use night_watcher.Base.Int.{
  ℤ, pos, negsuc, pos_part, neg_part, ◌+ℤ◌, ◌-ℤ◌, ◌*ℤ◌, ◌≤ℤ◌, time_laws, rem_ℤ,
}
use night_watcher.Export.TimeUtil.{Tm, Libc, tz_mktime}

-- mktime counts days, hours, minutes and seconds from the start of the month, and normalises what
-- overflows; a month has at least 28 days.
pub record FixedOffset (c : Libc) (tz : Bytes) : Type 0 where
  pub month_start : ℤ → ℤ → ℤ
  pub counts :
      (tm : Tm)
      → tz_mktime c tm tz
        ≡ month_start tm.tm_year tm.tm_mon
          +ℤ 86400 *ℤ tm.tm_mday
          +ℤ 3600 *ℤ tm.tm_hour
          +ℤ 60 *ℤ tm.tm_min
          +ℤ tm.tm_sec
  pub month_min : (y m : ℤ) → month_start y m +ℤ pos (28 * 86400) ≤ℤ month_start y (m +ℤ pos 1)

-- localtime at `now`: its fields lie in their ranges, and mktime leads back.
pub record IsNow (c : Libc) (tz : Bytes) (now : ℤ) (tm : Tm) : Type 0 where
  pub back : tz_mktime c tm tz ≡ now
  pub sec_low : pos 0 ≤ℤ tm.tm_sec
  pub sec_high : tm.tm_sec ≤ℤ pos 59
  pub min_low : pos 0 ≤ℤ tm.tm_min
  pub min_high : tm.tm_min ≤ℤ pos 59
  pub hour_low : pos 0 ≤ℤ tm.tm_hour
  pub hour_high : tm.tm_hour ≤ℤ pos 23
  pub wday_low : pos 0 ≤ℤ tm.tm_wday
  pub wday_high : tm.tm_wday ≤ℤ pos 6

pub record IsClock (hour minute : ℤ) : Type 0 where
  pub hour_low : pos 0 ≤ℤ hour
  pub hour_high : hour ≤ℤ pos 23
  pub minute_low : pos 0 ≤ℤ minute
  pub minute_high : minute ≤ℤ pos 59

-- Equal integers have equal parts.
pub parts : {a b : ℤ} → a ≡ b → (pos_part a ≡ pos_part b) × (neg_part a ≡ neg_part b)
parts e = (ap pos_part e, ap neg_part e)

-- The value of a broken-down time, from the start of its month.
abbrev pub total : ℤ → ℤ → ℤ → ℤ → ℤ → ℤ
total start mday hour minute second =
    start +ℤ 86400 *ℤ mday +ℤ 3600 *ℤ hour +ℤ 60 *ℤ minute +ℤ second

-- Another clock time of a day lies less than a day away.
pub same_day :
    (start mday hour minute second h m : ℤ)
    → pos 0 ≤ℤ second
    → second ≤ℤ pos 59
    → pos 0 ≤ℤ minute
    → minute ≤ℤ pos 59
    → pos 0 ≤ℤ hour
    → hour ≤ℤ pos 23
    → pos 0 ≤ℤ m
    → m ≤ℤ pos 59
    → pos 0 ≤ℤ h
    → h ≤ℤ pos 23
    → (total start mday h m (pos 0) ≤ℤ total start mday hour minute second +ℤ pos 86399)
      × (total start mday hour minute second ≤ℤ total start mday h m (pos 0) +ℤ pos 86399)
same_day start mday hour minute second h m a b c d e f g i j k = omega time_laws

-- The same clock time, days later.
pub later :
    (start mday days h m : ℤ)
    → total start (mday +ℤ days) h m (pos 0) ≡ total start mday h m (pos 0) +ℤ 86400 *ℤ days
later start mday days h m = omega time_laws

-- From one weekday to the next day with another, in days.
pub weeks_between :
    (w t : ℤ)
    → pos 0 ≤ℤ w
    → w ≤ℤ pos 6
    → pos 0 ≤ℤ t
    → t ≤ℤ pos 6
    → (weeks : ℤ) × (t +ℤ rem_ℤ (w -ℤ t +ℤ pos 7) 7 ≡ w +ℤ 7 *ℤ weeks)
unfolding rem_ℤ
weeks_between (pos w) (pos t) a b d e = elim (Bool-cases (leb t w)) [
  | inl f ↦ (pos 0, rw shifted (by_days 0 (ground arith)))
  | inr f ↦ (pos 1, rw shifted (by_days 1 (ground arith)))
]
  where
    shifted : pos w -ℤ pos t +ℤ pos 7 ≡ pos (w + 7 - t)
    shifted = omega time_laws

    by_days :
        (k : ℕ)
        → t + (w + 7 - t) % 7 ≡ w + 7 * k
        → pos t +ℤ pos ((w + 7 - t) % 7) ≡ pos w +ℤ 7 *ℤ pos k
    by_days k h = omega (time_laws, h)
weeks_between (negsuc w) t a b d e = absurd (ground arith)
weeks_between (pos w) (negsuc t) a b d e = absurd (ground arith)
