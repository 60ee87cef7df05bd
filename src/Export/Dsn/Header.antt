-- ===== src/Export/Dsn/Header.antt =====
-- The lines of the header hold no line break.
use night_watcher.Api.Json.{Json, lookup, members_of}
use night_watcher.Base.Int.{to_int32}
use night_watcher.Base.{◌&◌, [], ◌∷◌, ◌++◌, refl, Bytes, codes, All, Bool-cases, inl, inr}
use night_watcher.Db.{SensorRow}
use night_watcher.Export.Dsn.Marks.{Lacks-take, Lacks-text_or, Lacks-to_string, Lacks-plus_int}
use night_watcher.Export.Dsn.Reader.{Lacks, Lacks-append}
use night_watcher.Export.Dsn.{
  Formats, holds, all_digits, serial_int, plus_int, cfg_or, position, header, or_zero, if_empty,
}
use night_watcher.Text.{digits_value}
use night_watcher.Export.Dsn.Plain.{break_IsApart, PrintsPlainly, OnOneLine}

module _ {D N : Type 0} (fmt : Formats D N) where
  if_empty-Lacks : (s t : Bytes) → Lacks 10 s → Lacks 10 t → Lacks 10 (if_empty s t)
  if_empty-Lacks [] t hs ht = ht
  if_empty-Lacks (c ∷ s) t hs ht = hs

  serial-Lacks : (s : Bytes) → Lacks 10 s → Lacks 10 (serial_int s)
  unfolding serial_int
  serial-Lacks [] h = h
  serial-Lacks (c ∷ s) h = elim (Bool-cases (all_digits (c ∷ s))) [
    | inl e ↦ rw e (Lacks-to_string 10 break_IsApart (digits_value 0 (c ∷ s)))
    | inr e ↦ rw e h
  ]

  module _ (plain : PrintsPlainly fmt) where
    position-Lacks : (s : SensorRow D) → Lacks 10 (position fmt s)
    unfolding position
    position-Lacks s =
        let v = to_int32 (fmt.lround (or_zero fmt.zero_double s.elevation_m)) in
        Lacks-take 10 95 _ (
          Lacks-append 10 (fmt.signed_fixed 4 (or_zero fmt.zero_double s.latitude)) _
            (plain.signed_plain 4 _)
            (Lacks-append 10 (codes ", ") _ (unfold holds in refl) (
              Lacks-append 10 (fmt.signed_fixed 4 (or_zero fmt.zero_double s.longitude)) _
                (plain.signed_plain 4 _)
                (Lacks-append 10 (codes ", ") (plus_int v) (unfold holds in refl)
                  (Lacks-plus_int 10 break_IsApart v)))))

    module _ {cfg : Json N} {s : SensorRow D} (l : OnOneLine fmt cfg s) where
      -- A header line with a member of the configuration.
      entry :
          (label key fallback : Bytes)
          → Lacks 10 label
          → Lacks 10 fallback
          → Lacks 10 (label ++ cfg_or cfg key fallback)
      unfolding cfg_or
      entry label key fallback h k =
          Lacks-append 10 label _ h
            (Lacks-text_or 10 (lookup key (members_of cfg)) fallback (l.config_lines key) k)

      pub header-Lacks : All (Lacks 10) (header fmt cfg s)
      unfolding header holds
      header-Lacks =
          refl
          & refl
          & refl
          & refl
          & entry (codes "# Device type: ") (codes "device_type")
              (if_empty s.model (codes "SQM-LE/LU")) refl
              (if_empty-Lacks s.model (codes "SQM-LE/LU") l.model_line refl)
          & entry (codes "# Instrument ID: ") (codes "instrument_id") s.id refl l.id_line
          & entry (codes "# Data supplier: ") (codes "data_supplier") [] refl refl
          & entry (codes "# Location name: ") (codes "location_name") (if_empty s.site s.name) refl
              (if_empty-Lacks s.site s.name l.site_line l.name_line)
          & Lacks-append 10 (codes "# Position (lat, lon, elev(m)): ") (position fmt s) refl
              (position-Lacks s)
          & entry (codes "# Local timezone: ") (codes "timezone") s.timezone refl l.timezone_line
          & entry (codes "# Time Synchronization: ") (codes "time_sync") (codes "NTP") refl refl
          & refl
          & refl
          & refl
          & entry (codes "# Filters per channel: ") (codes "filter") (codes "HOYA CM-500") refl refl
          & refl
          & entry (codes "# Field of view (degrees): ") (codes "fov") (codes "20") refl refl
          & refl
          & Lacks-append 10 (codes "# SQM serial number: ") (serial_int s.serial_number) refl
              (serial-Lacks s.serial_number l.serial_line)
          & entry (codes "# SQM firmware version: ") (codes "firmware") [] refl refl
          & entry (codes "# SQM cover offset value: ") (codes "cover_offset") (codes "0") refl refl
          & entry (codes "# SQM readout test ix: ") (codes "ix_test") [] refl refl
          & entry (codes "# SQM readout test rx: ") (codes "rx_test") [] refl refl
          & entry (codes "# SQM readout test cx: ") (codes "cx_test") [] refl refl
          & entry (codes "# Comment: ") (codes "comment") (codes "Data acquired by NightWatcher2")
              refl refl
          & refl
          & refl
          & refl
          & refl
          & refl
          & refl
          & refl
          & refl
          & refl
          & refl
          & tt
