-- ===== src/Sqm/Device.antt =====
-- src/sqm/transport.hpp, sqm_device.cpp and device_factory.cpp: a device on any transport, and how
-- a stored address is opened.
pub mod Address
use night_watcher.Base.{
  ℕ, ◌==◌, if◌then◌else◌, Option, none, some, List, [], ◌∷◌, ◌++◌, Bytes, codes, take, Result, ok,
  err, runtime_error, bytes_eq,
}
use night_watcher.Base.Int.{low_bits}
use night_watcher.Text.{cut_last, atoi}
use night_watcher.Sqm.Protocol.{
  Reading, Calibration, UnitInfo, CalStatus, CalSetEcho, refuse, parse_reading, parse_calibration,
  parse_unit_info, parse_cal_status, parse_cal_set_echo,
}

-- ITransport: S is the state behind it.
pub record Transport (S : Type 0) : Type 0 where
  pub write : Bytes → S → Result (Unit {0}) × S
  pub read_line : S → Result Bytes × S

module _ {S : Type 0} (t : Transport S) where
  -- A step on the state, and what is computed from its result.
  then_read : Result (Unit {0}) × S → Result Bytes × S
  then_read (ok _, s) = t.read_line s
  then_read (err e, s) = (err e, s)

  unfoldable pub query_raw : Bytes → S → Result Bytes × S
  unfolding then_read
  query_raw cmd s = then_read (t.write cmd s)

  parsed : {A : Type 0} → (Bytes → Result A) → Result Bytes × S → Result A × S
  parsed parse (ok l, s) = (parse l, s)
  parsed parse (err e, s) = (err e, s)

  unfoldable pub query : {A : Type 0} → (Bytes → Result A) → Bytes → S → Result A × S
  unfolding parsed query_raw
  query parse cmd s = parsed parse (query_raw cmd s)

  unfoldable pub info : S → Result UnitInfo × S
  unfolding query
  info = query parse_unit_info (codes "ix")

  unfoldable pub arm_light_calibration : S → Result CalStatus × S
  unfolding query
  arm_light_calibration = query parse_cal_status (codes "zcalAx")

  unfoldable pub arm_dark_calibration : S → Result CalStatus × S
  unfolding query
  arm_dark_calibration = query parse_cal_status (codes "zcalBx")

  unfoldable pub disarm_calibration : S → Result CalStatus × S
  unfolding query
  disarm_calibration = query parse_cal_status (codes "zcalDx")

  -- `fixed decimals value` is the text of the conversion %011.*f.
  module _ {D : Type 0} (stod : Bytes → Result D) (fixed : ℕ → D → Bytes) where
    unfoldable pub read_averaged : S → Result (Reading D) × S
    unfolding query
    read_averaged = query (parse_reading stod) (codes "rx")

    unfoldable pub read_unaveraged : S → Result (Reading D) × S
    unfolding query
    read_unaveraged = query (parse_reading stod) (codes "ux")

    unfoldable pub calibration : S → Result (Calibration D) × S
    unfolding query
    calibration = query (parse_calibration stod) (codes "cx")

    -- snprintf into a buffer of 48 bytes, the last of them the terminator.
    unfoldable pub set_cal_command : ℕ → D → ℕ → Bytes
    set_cal_command which value decimals =
        take 47 (codes "zcal" ++ which ∷ (fixed decimals value ++ codes "x"))

    confirmed : ℕ → Result (CalSetEcho D) × S → Result (CalSetEcho D) × S
    confirmed which (ok e, s) = (
      if e.which == which then ok e else refuse (codes "unexpected calibration-set echo: '") e.raw,
      s,
    )
    confirmed which (err e, s) = (err e, s)

    unfoldable pub set_cal_value : ℕ → D → ℕ → S → Result (CalSetEcho D) × S
    unfolding query confirmed set_cal_command
    set_cal_value which value decimals s =
        confirmed which (query (parse_cal_set_echo stod) (set_cal_command which value decimals) s)

    unfoldable pub set_light_offset : D → S → Result (CalSetEcho D) × S
    unfolding set_cal_value
    set_light_offset mag_arcsec2 = set_cal_value b'5' mag_arcsec2 2

    unfoldable pub set_light_temp : D → S → Result (CalSetEcho D) × S
    unfolding set_cal_value
    set_light_temp celsius = set_cal_value b'6' celsius 2

    unfoldable pub set_dark_period : D → S → Result (CalSetEcho D) × S
    unfolding set_cal_value
    set_dark_period seconds = set_cal_value b'7' seconds 3

    unfoldable pub set_dark_temp : D → S → Result (CalSetEcho D) × S
    unfolding set_cal_value
    set_dark_temp celsius = set_cal_value b'8' celsius 2

-- What open_device passes to the transport's constructor.
pub data Endpoint : Type 0 where
  tcp_endpoint : Bytes → ℕ → Endpoint
  serial_endpoint : Bytes → ℕ → Endpoint

unfoldable pub tcp_of : Bytes → Endpoint
unfolding low_bits
tcp_of address = elim (cut_last b':' address) [
  | none ↦ tcp_endpoint address 10001
  | some (host, port) ↦ tcp_endpoint host (low_bits 16 (atoi port))
]

unfoldable pub open_device : Bytes → Bytes → Result Endpoint
unfolding tcp_of
open_device transport address =
    if bytes_eq transport (codes "tcp")
    then ok (tcp_of address)
    else if bytes_eq transport (codes "serial")
    then ok (serial_endpoint address 115200)
    else err (
        runtime_error
          (codes "unsupported transport '" ++ transport ++ codes "' (use tcp or serial)"))
