-- ===== src/Export/TimeUtil/Next.antt =====
-- When the next run is due, in a zone with a fixed offset (UTC, or one without daylight saving).
use night_watcher.Base.{ap, sym, ◌∙◌, ◌≡◌, arith, Bytes, Bool-cases, inl, inr}
use night_watcher.Base.Int.{
  ℤ, pos, pos_part, neg_part, ◌+ℤ◌, ◌-ℤ◌, ◌*ℤ◌, ◌≤ℤ◌, ◌<ℤ◌, leb_ℤ, leb_ℤ→le, leb_ℤ→gt, time_laws,
  rem_ℤ,
}
use night_watcher.Export.TimeUtil.{
  Tm, Libc, tz_mktime, local_tm, at_time, next_local_hhmm_utc, next_local_weekly_utc, at_most,
  at_least,
}
use night_watcher.Export.TimeUtil.Offset.{
  FixedOffset, IsNow, IsClock, parts, total, same_day, later, weeks_between,
}

module _ (c : Libc) (tz : Bytes) (z : FixedOffset c tz) (now : ℤ)
    (n : IsNow c tz now (local_tm c now tz)) (hour minute : ℤ) (k : IsClock hour minute) where
  start : ℤ
  start = z.month_start (local_tm c now tz).tm_year (local_tm c now tz).tm_mon

  at_day : ℤ → Tm
  at_day mday = at_time c (record (local_tm c now tz) { tm_mday = mday }) hour minute

  -- A candidate of the day `mday` of this month.
  candidate : (mday : ℤ) → tz_mktime c (at_day mday) tz ≡ total start mday hour minute (pos 0)
  unfolding start at_day
  candidate mday = z.counts (at_day mday)

  -- Today's candidate lies less than a day from `now`.
  today :
      (tz_mktime c (at_day (local_tm c now tz).tm_mday) tz ≤ℤ now +ℤ pos 86399)
      × (now ≤ℤ tz_mktime c (at_day (local_tm c now tz).tm_mday) tz +ℤ pos 86399)
  unfolding start at_day
  today = omega (
    time_laws,
    (parts (candidate (local_tm c now tz).tm_mday)).0,
    (parts (candidate (local_tm c now tz).tm_mday)).1,
    (parts (sym n.back ∙ z.counts (local_tm c now tz))).0,
    (parts (sym n.back ∙ z.counts (local_tm c now tz))).1,
    same.0,
    same.1,
  )
    where
      same :
          (total start (local_tm c now tz).tm_mday hour minute (pos 0)
            ≤ℤ total start
                (local_tm c now tz).tm_mday
                (local_tm c now tz).tm_hour
                (local_tm c now tz).tm_min
                (local_tm c now tz).tm_sec
              +ℤ pos 86399)
          × (total start
                (local_tm c now tz).tm_mday
                (local_tm c now tz).tm_hour
                (local_tm c now tz).tm_min
                (local_tm c now tz).tm_sec
              ≤ℤ total start (local_tm c now tz).tm_mday hour minute (pos 0) +ℤ pos 86399)
      same =
          same_day start (local_tm c now tz).tm_mday (local_tm c now tz).tm_hour
            (local_tm c now tz).tm_min (local_tm c now tz).tm_sec hour minute n.sec_low n.sec_high
            n.min_low n.min_high n.hour_low n.hour_high k.minute_low k.minute_high k.hour_low
            k.hour_high

  -- Days later, by 86400 seconds each.
  days_later :
      (mday days : ℤ)
      → tz_mktime c (at_day (mday +ℤ days)) tz ≡ tz_mktime c (at_day mday) tz +ℤ 86400 *ℤ days
  days_later mday days =
      candidate (mday +ℤ days)
      ∙ later start mday days hour minute
      ∙ ap (λ t. t +ℤ 86400 *ℤ days) (sym (candidate mday))

  -- The clock time of the day that lies `days` behind the day of `now`.
  abbrev pub clock_at : ℤ → ℤ
  clock_at days =
      z.month_start (local_tm c now tz).tm_year (local_tm c now tz).tm_mon
      +ℤ 86400 *ℤ ((local_tm c now tz).tm_mday +ℤ days)
      +ℤ 3600 *ℤ hour
      +ℤ 60 *ℤ minute

  candidate_at :
      (days : ℤ) → tz_mktime c (at_day ((local_tm c now tz).tm_mday +ℤ days)) tz ≡ clock_at days
  unfolding start
  candidate_at days = candidate ((local_tm c now tz).tm_mday +ℤ days) ∙ omega time_laws

  candidate_today : tz_mktime c (at_day (local_tm c now tz).tm_mday) tz ≡ clock_at (pos 0)
  unfolding start
  candidate_today = candidate (local_tm c now tz).tm_mday ∙ omega time_laws

  -- The nightly run is due at the clock time of a day.
  pub next_local_hhmm_utc_clock :
      (days : ℤ) × (next_local_hhmm_utc c hour minute tz now ≡ clock_at days)
  unfolding next_local_hhmm_utc at_day
  next_local_hhmm_utc_clock =
      elim (Bool-cases (leb_ℤ (tz_mktime c (at_day (local_tm c now tz).tm_mday) tz) now)) [
        | inl e ↦ (pos 1, rw e (candidate_at (pos 1)))
        | inr e ↦ (pos 0, rw e candidate_today)
      ]

  -- The nightly run is due after `now`, and within a day.
  pub next_local_hhmm_utc_bounds :
      (now <ℤ next_local_hhmm_utc c hour minute tz now)
      × (next_local_hhmm_utc c hour minute tz now ≤ℤ now +ℤ pos 86400)
  unfolding next_local_hhmm_utc at_day
  next_local_hhmm_utc_bounds = elim (Bool-cases (leb_ℤ first now)) [
    | inl e ↦
        rw e
          (rw (days_later mday (pos 1)) (omega (time_laws, today.0, today.1, leb_ℤ→le first now e)))
    | inr e ↦ rw e (omega (time_laws, today.0, today.1, leb_ℤ→gt first now e))
  ]
    where
      mday : ℤ
      mday = (local_tm c now tz).tm_mday

      first : ℤ
      first = tz_mktime c (at_day mday) tz

  weekday : ℤ → ℤ
  weekday wday = at_most (pos 6) (at_least (pos 0) wday)

  delta : ℤ → ℤ
  delta wday = rem_ℤ (weekday wday -ℤ (local_tm c now tz).tm_wday +ℤ pos 7) 7

  delta_weeks :
      (wday : ℤ)
      → (weeks : ℤ) × ((local_tm c now tz).tm_wday +ℤ delta wday ≡ weekday wday +ℤ 7 *ℤ weeks)
  unfolding delta weekday
  delta_weeks wday = weeks_between _ _ (ground arith) (ground arith) n.wday_low n.wday_high

  delta_bounds : (wday : ℤ) → (pos 0 ≤ℤ delta wday) × (delta wday ≤ℤ pos 6)
  unfolding delta weekday rem_ℤ ◌+ℤ◌ ◌-ℤ◌
  delta_bounds wday = ground (arith, n.wday_low, n.wday_high)

  -- The weekly run is due at the clock time of a day with the weekday asked for.
  pub next_local_weekly_utc_clock :
      (wday : ℤ)
      → (days weeks : ℤ) × (next_local_weekly_utc c wday hour minute tz now ≡ clock_at days)
        × ((local_tm c now tz).tm_wday +ℤ days
            ≡ at_most (pos 6) (at_least (pos 0) wday) +ℤ 7 *ℤ weeks)
  unfolding next_local_weekly_utc at_day delta weekday ◌+ℤ◌ start
  next_local_weekly_utc_clock wday =
      elim (Bool-cases
        (leb_ℤ (tz_mktime c (at_day ((local_tm c now tz).tm_mday +ℤ delta wday)) tz) now)) [
          | inl e ↦ (
            delta wday +ℤ pos 7,
            (delta_weeks wday).0 +ℤ pos 1,
            rw e (candidate ((local_tm c now tz).tm_mday +ℤ delta wday +ℤ pos 7) ∙ omega time_laws),
            omega (time_laws, (parts (delta_weeks wday).1).0, (parts (delta_weeks wday).1).1),
          )
          | inr e ↦ (
            delta wday,
            (delta_weeks wday).0,
            rw e (candidate_at (delta wday)),
            (delta_weeks wday).1,
          )
        ]

  -- The weekly run is due after `now`, and within a week.
  pub next_local_weekly_utc_bounds :
      (wday : ℤ)
      → (now <ℤ next_local_weekly_utc c wday hour minute tz now)
        × (next_local_weekly_utc c wday hour minute tz now ≤ℤ now +ℤ pos 604800)
  unfolding next_local_weekly_utc at_day delta weekday
  next_local_weekly_utc_bounds wday = elim (Bool-cases (leb_ℤ first now)) [
    | inl e ↦ rw e (
        rw (days_later (mday +ℤ delta wday) (pos 7)) (
          omega (
            time_laws,
            today.0,
            today.1,
            shifted.0,
            shifted.1,
            bounds.0,
            bounds.1,
            leb_ℤ→le first now e,
          )))
    | inr e ↦ rw e (
        omega (
          time_laws,
          today.0,
          today.1,
          shifted.0,
          shifted.1,
          bounds.0,
          bounds.1,
          leb_ℤ→gt first now e,
        ))
  ]
    where
      mday : ℤ
      mday = (local_tm c now tz).tm_mday

      first : ℤ
      first = tz_mktime c (at_day (mday +ℤ delta wday)) tz

      bounds : (pos 0 ≤ℤ delta wday) × (delta wday ≤ℤ pos 6)
      bounds = delta_bounds wday

      shifted :
          (pos_part first ≡ pos_part (tz_mktime c (at_day mday) tz +ℤ 86400 *ℤ delta wday))
          × (neg_part first ≡ neg_part (tz_mktime c (at_day mday) tz +ℤ 86400 *ℤ delta wday))
      shifted = parts (days_later mday (delta wday))
