-- ===== src/Sqm/Protocol.antt =====
-- src/sqm/protocol.hpp and protocol.cpp: the parsers of the device's response lines.
-- A parser returns the record, or the exception that it throws. `double` and `std::stod`, which
-- reads one, are parameters.
pub mod Fields
pub mod Responses
pub mod Kinds
use night_watcher.Base.{
  ℕ, suc, Bool, true, false, not, ◌&&◌, ◌||◌, List, [], ◌∷◌, ◌++◌, ltb, ◌==◌, if◌then◌else◌,
  is_empty, Bytes, codes, length, get_or, Result, ok, err, ◌>>=◌, runtime_error, bytes_eq,
}
use night_watcher.Base.Int.{ℤ, to_int32}
use night_watcher.Text.{is_alpha, drop_end_while, trim, split, stoll}

pub record Reading (D : Type 0) : Type 0 where
  pub mag_arcsec2 : D
  pub freq_hz : ℤ
  pub period_counts : ℤ
  pub period_s : D
  pub temp_c : D
  pub serial : Bytes
  pub raw : Bytes

pub record Calibration (D : Type 0) : Type 0 where
  pub light_cal_offset : D
  pub dark_cal_period_s : D
  pub temp_light_c : D
  pub sensor_offset : D
  pub temp_dark_c : D
  pub raw : Bytes

pub record UnitInfo : Type 0 where
  pub protocol : ℤ
  pub model : ℤ
  pub feature : ℤ
  pub serial : Bytes
  pub raw : Bytes

pub record CalStatus : Type 0 where
  pub mode : ℕ
  pub armed : Bool
  pub locked : Bool
  pub raw : Bytes

pub record CalSetEcho (D : Type 0) : Type 0 where
  pub which : ℕ
  pub value : D
  pub raw : Bytes

-- A runtime_error that quotes a text.
abbrev pub refuse {ℓ} : {A : Type ℓ} → Bytes → Bytes → Result A
refuse message text = err (runtime_error (message ++ text ++ codes "'"))

unfoldable pub numeric_part : Bytes → Bytes
numeric_part s = trim (drop_end_while is_alpha (trim s))

unfoldable pub to_ll : Bytes → Result ℤ
to_ll field =
    if is_empty (numeric_part field)
    then refuse (codes "expected integer in field: '") field
    else stoll (numeric_part field)

unfoldable pub parse_unit_info : Bytes → Result UnitInfo
parse_unit_info line_in =
    let line = trim line_in in
    let f = split b',' line in
    if ltb (length f) 5 || not (bytes_eq (trim (get_or f 0 [])) (codes "i"))
    then refuse (codes "not a unit-info response: '") line
    else (do
      protocol ← to_ll (get_or f 1 [])
      model ← to_ll (get_or f 2 [])
      feature ← to_ll (get_or f 3 [])
      ok (record {
        protocol = to_int32 protocol;
        model = to_int32 model;
        feature = to_int32 feature;
        serial = trim (get_or f 4 []);
        raw = line;
      }))

unfoldable pub parse_cal_status : Bytes → Result CalStatus
parse_cal_status line_in =
    let line = trim line_in in
    if ltb (length line) 4 || not (get_or line 0 0 == b'z')
    then refuse (codes "not a calibration-status response: '") line
    else ok (record {
      mode = get_or line 1 0;
      armed = get_or line 2 0 == b'a';
      locked = not (get_or line 3 0 == b'U');
      raw = line;
    })

module _ {D : Type 0} (stod : Bytes → Result D) where
  unfoldable pub to_double : Bytes → Result D
  to_double field =
      if is_empty (numeric_part field)
      then refuse (codes "expected number in field: '") field
      else stod (numeric_part field)

  unfoldable pub parse_reading : Bytes → Result (Reading D)
  parse_reading line_in =
      let line = trim line_in in
      let f = split b',' line in
      let tag = trim (get_or f 0 []) in
      if ltb (length f) 6 || (not (bytes_eq tag (codes "r")) && not (bytes_eq tag (codes "u")))
      then refuse (codes "not a reading response: '") line
      else (do
        mag_arcsec2 ← to_double (get_or f 1 [])
        freq_hz ← to_ll (get_or f 2 [])
        period_counts ← to_ll (get_or f 3 [])
        period_s ← to_double (get_or f 4 [])
        temp_c ← to_double (get_or f 5 [])
        ok (record {
          mag_arcsec2 = mag_arcsec2;
          freq_hz = freq_hz;
          period_counts = period_counts;
          period_s = period_s;
          temp_c = temp_c;
          serial = if ltb 6 (length f) then trim (get_or f 6 []) else [];
          raw = line;
        }))

  unfoldable pub parse_calibration : Bytes → Result (Calibration D)
  parse_calibration line_in =
      let line = trim line_in in
      let f = split b',' line in
      if ltb (length f) 6 || not (bytes_eq (trim (get_or f 0 [])) (codes "c"))
      then refuse (codes "not a calibration response: '") line
      else (do
        light_cal_offset ← to_double (get_or f 1 [])
        dark_cal_period_s ← to_double (get_or f 2 [])
        temp_light_c ← to_double (get_or f 3 [])
        sensor_offset ← to_double (get_or f 4 [])
        temp_dark_c ← to_double (get_or f 5 [])
        ok (record {
          light_cal_offset = light_cal_offset;
          dark_cal_period_s = dark_cal_period_s;
          temp_light_c = temp_light_c;
          sensor_offset = sensor_offset;
          temp_dark_c = temp_dark_c;
          raw = line;
        }))

  unfoldable pub parse_cal_set_echo : Bytes → Result (CalSetEcho D)
  parse_cal_set_echo line_in =
      let line = trim line_in in
      let f = split b',' line in
      if ltb (length f) 3 || not (bytes_eq (trim (get_or f 0 [])) (codes "z"))
      then refuse (codes "not a calibration-set response: '") line
      else (do
        value ← to_double (get_or f 2 [])
        -- An empty field gives '\0'.
        ok (record { which = get_or (trim (get_or f 1 [])) 0 0; value = value; raw = line }))
