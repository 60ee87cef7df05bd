-- ===== src/Export/Schedule/Due.antt =====
-- The wait of an export worker: it ends when the target is due.
use night_watcher.Base.{
  ◌⊎◌, ◌∙◌, subst, ◌≡◌, refl, ◌||◌, true, false, arith, Bytes, codes, bytes_eq, Bool-cases,
  Option-cases, inl, inr, if◌then◌else◌,
}
use night_watcher.Base.Int.{
  ℤ, pos, ◌+ℤ◌, ◌-ℤ◌, ◌*ℤ◌, ◌≤ℤ◌, ◌<ℤ◌, ltb_ℤ, to_int32, to_int32-eq_self, time_laws,
}
use night_watcher.Db.{ExportTargetRow}
use night_watcher.Export.TimeUtil.{Libc, local_tm, at_most, at_least}
use night_watcher.Export.TimeUtil.Next.{
  clock_at, next_local_hhmm_utc_clock, next_local_weekly_utc_clock, next_local_hhmm_utc_bounds,
  next_local_weekly_utc_bounds,
}
use night_watcher.Export.TimeUtil.Offset.{FixedOffset, IsNow, IsClock}
use night_watcher.Export.Schedule.{parse_hhmm, scan_hhmm, next_due, wait_of, value_or}

abbrev pub AtClock : ℤ × ℤ → Type 0
AtClock (h, m) = IsClock h m

in-IsClock :
    (h m : ℤ)
    → (ltb_ℤ h (pos 0) || ltb_ℤ (pos 23) h || ltb_ℤ m (pos 0) || ltb_ℤ (pos 59) m) ≡ false
    → IsClock h m
in-IsClock h m e = record {
  hour_low = ground arith;
  hour_high = ground arith;
  minute_low = ground arith;
  minute_high = ground arith;
}

-- Whatever the text, parse_hhmm gives a time of day.
pub parse_hhmm-IsClock : (s : Bytes) → AtClock (parse_hhmm s)
unfolding parse_hhmm
parse_hhmm-IsClock s = elim (Option-cases (scan_hhmm s)) [
  | inl e ↦ rw (e, parse_hhmm) (in-IsClock (pos 6) (pos 0) refl)
  | inr ((h, m), e) ↦ rw (e, parse_hhmm) (by_range h m)
]
  where
    by_range :
        (h m : ℤ)
        → AtClock (
            if ltb_ℤ h (pos 0) || ltb_ℤ (pos 23) h || ltb_ℤ m (pos 0) || ltb_ℤ (pos 59) m
            then (pos 6, pos 0)
            else (h, m))
    by_range h m =
        elim (Bool-cases
          (ltb_ℤ h (pos 0) || ltb_ℤ (pos 23) h || ltb_ℤ m (pos 0) || ltb_ℤ (pos 59) m)) [
            | inl e ↦ rw e (in-IsClock (pos 6) (pos 0) refl)
            | inr e ↦ rw e (in-IsClock h m e)
          ]

-- A time soon behind `now` is at the end of the wait for it.
wait_until :
    (now next : ℤ)
    → now <ℤ next
    → next ≤ℤ now +ℤ pos 604800
    → now +ℤ (if ltb_ℤ (to_int32 (next -ℤ now)) (pos 1) then pos 1 else to_int32 (next -ℤ now))
      ≡ next
wait_until now next lo hi =
    rw (to_int32-eq_self (next -ℤ now) (omega time_laws) (omega time_laws))
      (by_size (omega time_laws))
  where
    by_size :
        pos 1 ≤ℤ next -ℤ now
        → now +ℤ (if ltb_ℤ (next -ℤ now) (pos 1) then pos 1 else next -ℤ now) ≡ next
    by_size le = elim (Bool-cases (ltb_ℤ (next -ℤ now) (pos 1))) [
      | inl e ↦ absurd (ground arith)
      | inr e ↦ rw e (omega time_laws)
    ]

module _ (c : Libc) (tz : Bytes) (z : FixedOffset c tz) (now : ℤ)
    (n : IsNow c tz now (local_tm c now tz)) where
  due_soon :
      (t : ExportTargetRow)
      → bytes_eq t.schedule (codes "monthly") ≡ false
      → (now <ℤ next_due c t tz now) × (next_due c t tz now ≤ℤ now +ℤ pos 604800)
  unfolding next_due
  due_soon t e = elim (Bool-cases (bytes_eq t.schedule (codes "weekly"))) [
    | inl w ↦ rw w (
        next_local_weekly_utc_bounds c tz z now n _ _ (parse_hhmm-IsClock t.schedule_time)
          (value_or t.schedule_day (pos 0)))
    | inr w ↦
        rw (w, e)
          (let b =
              next_local_hhmm_utc_bounds c tz z now n _ _ (parse_hhmm-IsClock t.schedule_time) in
            (b.0, omega (time_laws, b.1)))
  ]

  -- The target's clock time on the day that lies `days` behind today.
  abbrev pub occurrence : ExportTargetRow → ℤ → ℤ
  occurrence t days =
      clock_at c tz z now n (parse_hhmm t.schedule_time).0 (parse_hhmm t.schedule_time).1
        (parse_hhmm-IsClock t.schedule_time) days

  -- A time within a day, or, for a weekly target, on its weekday and within a week; Sunday is 0.
  abbrev pub IsItsDay : ExportTargetRow → ℤ → ℤ → Type 0
  IsItsDay t days due =
      ((bytes_eq t.schedule (codes "weekly") ≡ false) × (due ≤ℤ now +ℤ pos 86400))
      ⊎ ((weeks : ℤ) × (bytes_eq t.schedule (codes "weekly") ≡ true)
          × ((local_tm c now tz).tm_wday +ℤ days
              ≡ at_most (pos 6) (at_least (pos 0) (value_or t.schedule_day (pos 0))) +ℤ 7 *ℤ weeks)
          × (due ≤ℤ now +ℤ pos 604800))

  due_day :
      (t : ExportTargetRow)
      → bytes_eq t.schedule (codes "monthly") ≡ false
      → (days : ℤ) × (next_due c t tz now ≡ occurrence t days)
        × IsItsDay t days (next_due c t tz now)
  unfolding next_due
  due_day t e = elim (Bool-cases (bytes_eq t.schedule (codes "weekly"))) [
    | inl w ↦
        let (days, weeks, at, wday) =
          next_local_weekly_utc_clock c tz z now n _ _ (parse_hhmm-IsClock t.schedule_time)
            (value_or t.schedule_day (pos 0)) in
        (
          days,
          rw w at,
          inr (
            weeks,
            w,
            wday,
            rw w
                (next_local_weekly_utc_bounds c tz z now n _ _ (parse_hhmm-IsClock t.schedule_time)
                  (value_or t.schedule_day (pos 0))).1,
          ),
        )
    | inr w ↦
        let (days, at) =
          next_local_hhmm_utc_clock c tz z now n _ _ (parse_hhmm-IsClock t.schedule_time) in
        (
          days,
          rw (w, e) at,
          inl (
            w,
            rw (w, e)
                (next_local_hhmm_utc_bounds c tz z now n _ _
                  (parse_hhmm-IsClock t.schedule_time)).1,
          ),
        )
  ]

  -- In a zone with a fixed offset, so without daylight saving, where localtime gives the fields of now,
  -- the wait of a target that is neither monthly nor on an interval ends at a moment with the clock
  -- time that parse_hhmm reads for it, behind now: at most a day on for a nightly target, and for a
  -- weekly one at most a week on and on its weekday, taken into 0 to 6.
  pub wait_of-due :
      (t : ExportTargetRow)
      → bytes_eq t.schedule (codes "interval") ≡ false
      → bytes_eq t.schedule (codes "monthly") ≡ false
      → (days : ℤ) × (now +ℤ wait_of c t tz now ≡ occurrence t days)
        × (now <ℤ occurrence t days)
        × IsItsDay t days (occurrence t days)
  unfolding wait_of
  wait_of-due t e f =
      let soon = due_soon t f in
      let (days, at, day) = due_day t f in
      (
        days,
        rw e (wait_until now (next_due c t tz now) soon.0 soon.1) ∙ at,
        subst (λ due. now <ℤ due) at soon.0,
        subst (IsItsDay t days) at day,
      )
