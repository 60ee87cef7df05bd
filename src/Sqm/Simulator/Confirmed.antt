-- ===== src/Sqm/Simulator/Confirmed.antt =====
-- A calibration value that the device sets on the simulator is confirmed, and is what the device reads
-- afterwards.
use night_watcher.Base.{
  ℕ, ◌≤◌, false, [], ◌∷◌, ◌++◌, ◌≡◌, refl, ap, ◌∙◌, subst, sym, Bytes, codes, length, Result, ok,
  bytes_eq, ==_iff,
}
use mathlib.Core.List.{append-nil}
use night_watcher.Sqm.Device.{set_cal_command, set_cal_value, calibration}
use night_watcher.Sqm.Protocol.{CalSetEcho, parse_cal_set_echo}
use night_watcher.Sqm.Protocol.Responses.{IsLine, trim-IsLine, split-IsLine, to_double-Reads}
use night_watcher.Sqm.Simulator.Calibrated.{
  link, idle, exchange, Shown, IsShown, calibration_of, calibration-idle, take_all, is_empty-append,
  EndsIn-append, last_is-EndsIn,
}
use night_watcher.Sqm.Simulator.{SimState, Prints, crlf, response_for}
use night_watcher.Text.Split.{Free, join}
use night_watcher.Text.{is_space}
use night_watcher.Sqm.Simulator.Commands.{
  Setting, light_offset, light_temp, dark_period, dark_temp, which_of, decimals_of, IsPlain,
  command, which_lem, z_tag, stored, unit_of, printed, echo_items, response_for-set,
}

module _ {D : Type 0} (p : Prints D) where
  unit-not-space : (s : Setting) → is_space (unit_of s) ≡ false
  unfolding is_space
  unit-not-space light_offset = refl
  unit-not-space light_temp = refl
  unit-not-space dark_period = refl
  unit-not-space dark_temp = refl

  module _ (stod : Bytes → Result D) where
    echo_items-IsLine :
        (s : Setting) (v : D)
        → Shown p stod (printed p s v ++ unit_of s ∷ []) v
        → IsLine (join b',' (echo_items p s v)) (echo_items p s v)
    unfolding is_space
    echo_items-IsLine s v h = record {
      before = [];
      behind = [];
      splits = sym (append-nil (join b',' (echo_items p s v)));
      blank_before = tt;
      blank_behind = tt;
      bare = (
        refl,
        last_is-EndsIn (unit_of s) _ (unit-not-space s) (
            EndsIn-append (unit_of s) (codes "z") _
              (EndsIn-append (unit_of s) (which_of s ∷ []) _ (printed p s v, refl))),
      );
      free = ((refl, tt), (((which_lem s).0, tt), (h.1, tt)));
      full = rw (is_empty-append (printed p s v) (unit_of s));
    }

    abbrev pub echo : Setting → D → CalSetEcho D
    echo s v = record { which = which_of s; value = v; raw = join b',' (echo_items p s v) }

    parse-echo :
        (s : Setting) (v : D)
        → Shown p stod (printed p s v ++ unit_of s ∷ []) v
        → parse_cal_set_echo stod (join b',' (echo_items p s v)) ≡ ok (echo s v)
    unfolding parse_cal_set_echo bytes_eq
    parse-echo s v h = rw (
      split-IsLine (echo_items-IsLine s v h),
      trim-IsLine (echo_items-IsLine s v h),
      z_tag,
      to_double-Reads stod h.0,
      (which_lem s).2,
    )

    -- What is asked of the printed value: it fits the buffers of both sides, it has none of the letters
    -- of the commands, and both sides read it as the value.
    pub record IsSettable (fixed : ℕ → D → Bytes) (s : Setting) (v : D) : Type 0 where
      pub plain : IsPlain (fixed (decimals_of s) v)
      pub command_fits : length (command s (fixed (decimals_of s) v)) ≤ 47
      pub received : p.atof (fixed (decimals_of s) v) ≡ v
      pub shown : Shown p stod (printed p s v ++ unit_of s ∷ []) v
      pub echo_fits : length (join b',' (echo_items p s v) ++ crlf) ≤ 63

    module _ (fixed : ℕ → D → Bytes) (s : Setting) (v : D) where
      sent_response :
          (st : SimState D)
          → IsSettable fixed s v
          → response_for p (set_cal_command (link p) stod fixed (which_of s) v (decimals_of s)) st
            ≡ (join b',' (echo_items p s v) ++ crlf, stored p s v st)
      unfolding set_cal_command
      sent_response st i =
          ap (λ c. response_for p c st)
            (take_all 47 (command s (fixed (decimals_of s) v)) i.command_fits)
          ∙ (response_for-set p s (fixed (decimals_of s) v) st i.plain (
                subst (λ w. length (join b',' (echo_items p s w) ++ crlf) ≤ 63) (sym i.received)
                  i.echo_fits)
              ∙ ap (λ w. (join b',' (echo_items p s w) ++ crlf, stored p s w st)) i.received)

      echo-lines :
          Shown p stod (printed p s v ++ unit_of s ∷ []) v
          → Free b'\n' (join b',' (echo_items p s v))
      echo-lines h = (refl, (refl, ((which_lem s).1, (refl, h.2))))

      set-idle :
          (st : SimState D)
          → IsSettable fixed s v
          → set_cal_value (link p) stod fixed (which_of s) v (decimals_of s) (idle st)
            ≡ (ok (echo s v), idle (stored p s v st))
      unfolding set_cal_value
      set-idle st i =
          rw
            (exchange p (parse_cal_set_echo stod)
              (set_cal_command (link p) stod fixed (which_of s) v (decimals_of s))
              (join b',' (echo_items p s v)) st (stored p s v st) (sent_response st i)
              (echo-lines i.shown))
            (rw (parse-echo s v i.shown, (==_iff (which_of s) (which_of s)).1 refl))

      -- Setting a calibration value on an idle simulator is confirmed with the value, and a reading of
      -- the calibration behind it gives the value, with all others as they were. The value's text fits
      -- the buffers and reads back, on both sides; so does the calibration line behind the setting,
      -- with each of its five values, which holds for values that printing at its digits does not
      -- round.
      pub calibration-set_cal_value :
          (st : SimState D)
          → IsSettable fixed s v
          → IsShown p stod (stored p s v st)
          → (set_cal_value (link p) stod fixed (which_of s) v (decimals_of s) (idle st)
              ≡ (ok (echo s v), idle (stored p s v st)))
            × (calibration
                  (link p)
                  stod
                  fixed
                  (set_cal_value (link p) stod fixed (which_of s) v (decimals_of s) (idle st)).1
                ≡ (ok (calibration_of p stod (stored p s v st)), idle (stored p s v st)))
      calibration-set_cal_value st i h = (
        set-idle st i,
        ap (λ r. calibration (link p) stod fixed r.1) (set-idle st i)
            ∙ calibration-idle p stod fixed h,
      )
