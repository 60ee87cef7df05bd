-- ===== src/Tests/Simulator.antt =====
-- The simulator, and a device on a connection to it. A double is its text.
use night_watcher.Base.{ℕ, ◌≡◌, refl, arith, true, [], ◌∷◌, ◌++◌, Bytes, codes, ok}
use night_watcher.Sqm.Device.{set_cal_value, calibration}
use night_watcher.Sqm.Simulator.Calibrated.{Shown, IsShown, link, idle, calibration_of}
use night_watcher.Sqm.Simulator.Chunks.{IsOpen, serve-segments}
use night_watcher.Sqm.Simulator.Commands.{light_offset, stored}
use night_watcher.Sqm.Simulator.Confirmed.{IsSettable, echo, calibration-set_cal_value}
use night_watcher.Sqm.Simulator.{SimState, Prints, serve, response_for}
use night_watcher.Tests.Samples.{kept, IsField-of, lacks, lacks-Free}
use night_watcher.Sqm.Protocol.Fields.{IsField}
use night_watcher.Text.{is_space, is_alpha}

abbrev texts : Prints Bytes
texts = record { atof = λ s. s; wide2 = λ v. v; wide3 = λ v. v; spaced1 = λ v. v; short1 = λ v. v }

abbrev started : SimState Bytes
started = record {
  light_offset = codes "17.60";
  dark_period = codes "0.0";
  temp_light = codes "39.4";
  sensor_offset = codes "8.71";
  temp_dark = codes "39.4";
  armed = 0;
  locked = true;
}

set_command-IsOpen : IsOpen (codes "zcal5000000")
set_command-IsOpen = record {
  no_x = lacks-Free b'x' (codes "zcal5000000") refl;
  no_a = lacks-Free b'A' (codes "zcal5000000") refl;
  no_b = lacks-Free b'B' (codes "zcal5000000") refl;
  no_d = lacks-Free b'D' (codes "zcal5000000") refl;
}

serve-segments_example :
    serve texts [] started ((codes "zc" ∷ codes "al5000000" ∷ []) ++ codes "18.25x" ∷ [])
    ≡ (codes "z,5,00000018.25m\r\n" ∷ [], [], record started { light_offset = codes "00000018.25" })
unfolding response_for
serve-segments_example =
    serve-segments texts started (codes "zc" ∷ codes "al5000000" ∷ []) (codes "18.25x")
      set_command-IsOpen refl

-- A text with a unit letter.
shown :
    (token : Bytes) (u : ℕ)
    → IsField (token ++ u ∷ []) token
    → lacks b',' (token ++ u ∷ []) ≡ true
    → lacks b'\n' (token ++ u ∷ []) ≡ true
    → Shown texts kept (token ++ u ∷ []) token
shown token u f c n =
    ((token, f, refl), lacks-Free b',' (token ++ u ∷ []) c, lacks-Free b'\n' (token ++ u ∷ []) n)

metres : Shown texts kept (codes "18.25m") (codes "18.25")
unfolding is_space is_alpha
metres =
    shown (codes "18.25") b'm'
      (IsField-of [] (codes "18.25") (codes "m") [] refl refl refl (refl, refl) refl (λ e. cc)) refl
      refl

seconds : Shown texts kept (codes "0.0s") (codes "0.0")
unfolding is_space is_alpha
seconds =
    shown (codes "0.0") b's'
      (IsField-of [] (codes "0.0") (codes "s") [] refl refl refl (refl, refl) refl (λ e. cc)) refl
      refl

degrees : Shown texts kept (codes "39.4C") (codes "39.4")
unfolding is_space is_alpha
degrees =
    shown (codes "39.4") b'C'
      (IsField-of [] (codes "39.4") (codes "C") [] refl refl refl (refl, refl) refl (λ e. cc)) refl
      refl

factory : Shown texts kept (codes "8.71m") (codes "8.71")
unfolding is_space is_alpha
factory =
    shown (codes "8.71") b'm'
      (IsField-of [] (codes "8.71") (codes "m") [] refl refl refl (refl, refl) refl (λ e. cc)) refl
      refl

started-IsShown : IsShown texts kept (stored texts light_offset (codes "18.25") started)
started-IsShown = record {
  shows_light = metres;
  shows_period = seconds;
  shows_temp_light = degrees;
  shows_sensor = factory;
  shows_temp_dark = degrees;
  line_fits = omega arith;
}

settable : IsSettable texts kept (λ k v. v) light_offset (codes "18.25")
settable = record {
  plain = record {
    no_a = lacks-Free b'A' (codes "18.25") refl;
    no_b = lacks-Free b'B' (codes "18.25") refl;
    no_d = lacks-Free b'D' (codes "18.25") refl;
    no_x = lacks-Free b'x' (codes "18.25") refl;
    no_z = lacks-Free b'z' (codes "18.25") refl;
  };
  command_fits = omega arith;
  received = refl;
  shown = metres;
  echo_fits = omega arith;
}

calibration-set_cal_value_example :
    (set_cal_value (link texts) kept (λ k v. v) b'5' (codes "18.25") 2 (idle started) ≡ (
      ok (echo texts kept light_offset (codes "18.25")),
      idle (stored texts light_offset (codes "18.25") started),
    ))
    × (calibration
          (link texts)
          kept
          (λ k v. v)
          (set_cal_value (link texts) kept (λ k v. v) b'5' (codes "18.25") 2 (idle started)).1
        ≡ (
          ok (calibration_of texts kept (stored texts light_offset (codes "18.25") started)),
          idle (stored texts light_offset (codes "18.25") started),
        ))
calibration-set_cal_value_example =
    calibration-set_cal_value texts kept (λ k v. v) light_offset (codes "18.25") started settable
      started-IsShown
