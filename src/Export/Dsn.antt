-- ===== src/Export/Dsn.antt =====
-- src/export/dsn_format.cpp: the .dat file and its name. printf's conversions of a double, lround and
-- the JSON library are parameters.
pub mod Reader
pub mod Marks
pub mod Plain
pub mod Header
pub mod Lines
pub mod Layout
pub mod Exporter
use night_watcher.Api.Json.{Json, object, no_members, string, lookup, members_of}
use night_watcher.Base.Int.{ℤ, pos, negsuc, to_int32}
use night_watcher.Base.{
  ℕ, Bool, true, false, not, ◌&&◌, ◌||◌, Option, none, some, List, [], ◌∷◌, ◌++◌, map,
  if◌then◌else◌, ◌==◌, leb, is_empty, Bytes, codes, length, take, drop, Result, ok, err, ◌>>=◌,
  runtime_error,
}
use night_watcher.Database.{int_text}
use night_watcher.Db.{SensorRow, ReadingRow}
use night_watcher.Export.Run.{ExportContext, ExportResult}
use night_watcher.Export.TimeUtil.{Libc, Tm, parse_sql_utc, fmt_iso_ms, local_tm, local_ym}
use night_watcher.Text.{is_digit, drop_end_while, digits_value, to_string}

-- What the formatter calls: %.*f and %+.*f, 0.0, lround, and of the JSON library `parse` and
-- `value` with a default.
pub record Formats (D N : Type 0) : Type 0 where
  pub fixed : ℕ → D → Bytes
  pub signed_fixed : ℕ → D → Bytes
  pub zero_double : D
  pub lround : D → ℤ
  pub parse : Bytes → Result (Json N)
  pub value_bool : Json N → Bytes → Bool → Result Bool
  pub value_text : Json N → Bytes → Bytes → Result Bytes

abbrev pub k_eol : Bytes
k_eol = 13 ∷ 10 ∷ []

-- A member that is a string and not empty, else the fallback.
abbrev pub text_or : {N : Type 0} → Option (Json N) → Bytes → Bytes
text_or (some (string v)) fallback = if is_empty v then fallback else v
text_or _ fallback = fallback

unfoldable pub cfg_or : {N : Type 0} → Json N → Bytes → Bytes → Bytes
unfolding lookup members_of
cfg_or cfg key fallback = text_or (lookup key (members_of cfg)) fallback

-- `s.find(c) != npos`.
unfoldable pub holds : ℕ → Bytes → Bool
holds c [] = false
holds c (d ∷ s) = d == c || holds c s

-- `if (!s.empty() && s.back() == c) s.pop_back()`.
unfoldable pub drop_last_if : ℕ → Bytes → Bytes
drop_last_if c [] = []
drop_last_if c (d ∷ s) =
    let rest = drop_last_if c s in if is_empty s && d == c then [] else d ∷ rest

unfoldable pub trim_zeros : Bytes → Bytes
unfolding holds drop_last_if drop_end_while
trim_zeros s = if holds b'.' s then drop_last_if b'.' (drop_end_while (λ c. c == b'0') s) else s

unfoldable pub all_digits : Bytes → Bool
unfolding is_digit
all_digits [] = true
all_digits (c ∷ s) = is_digit c && all_digits s

-- Where atoll leaves the range of `long long`, C leaves the result open; here it is the number.
unfoldable pub serial_int : Bytes → Bytes
unfolding all_digits digits_value to_string
serial_int s = if is_empty s then s else if all_digits s then to_string (digits_value 0 s) else s

-- %+d.
unfoldable pub plus_int : ℤ → Bytes
unfolding int_text
plus_int (pos n) = b'+' ∷ int_text (pos n)
plus_int (negsuc n) = int_text (negsuc n)

abbrev pub or_zero : {D : Type 0} → D → Option D → D
or_zero z none = z
or_zero z (some d) = d

-- The texts of a data row, in the order of the columns.
pub record Row : Type 0 where
  pub utc_iso : Bytes
  pub loc_iso : Bytes
  pub temp : Bytes
  pub counts : Bytes
  pub freq : Bytes
  pub msas : Bytes

abbrev pub if_empty : Bytes → Bytes → Bytes
if_empty s fallback = if is_empty s then fallback else s

unfoldable pub row_text : Row → Bytes
row_text w =
    w.utc_iso
    ++ b';'
      ∷ (w.loc_iso ++ b';' ∷ (w.temp ++ b';' ∷ (w.counts ++ b';' ∷ (w.freq ++ b';' ∷ w.msas))))

-- `out << h << kEol` for each.
unfoldable pub ended : List Bytes → Bytes
ended [] = []
ended (h ∷ lines) = h ++ (k_eol ++ ended lines)

unfoldable pub zone : {D N : Type 0} → Json N → ExportContext D → Bytes
unfolding cfg_or
zone cfg ctx = cfg_or cfg (codes "timezone") ctx.sensor.timezone

-- The two time stamps of a row.
unfoldable pub stamps : Libc → Bytes → Bytes → Bytes × Bytes
unfolding parse_sql_utc fmt_iso_ms local_tm
stamps c tz ts = elim (parse_sql_utc c ts) [
  | none ↦ (ts, ts)
  | some t ↦ (fmt_iso_ms (c.gmtime t), fmt_iso_ms (local_tm c t tz))
]

-- The last element's time stamp, when there is one.
unfoldable pub last_ts : {D : Type 0} → List (ReadingRow D) → Bytes
last_ts [] = []
last_ts (r ∷ []) = r.ts_utc
last_ts (r ∷ q ∷ rows) = last_ts (q ∷ rows)

-- The time whose month names the file.
unfoldable pub month_of : {D : Type 0} → ExportContext D → Bytes
unfolding last_ts
month_of ctx = if_empty (if_empty ctx.to_ts (last_ts ctx.readings)) ctx.from_ts

module _ {D N : Type 0} (fmt : Formats D N) where
  unfoldable pub fmt_msas : D → Bytes
  unfolding trim_zeros
  fmt_msas v = trim_zeros (take 31 (fmt.fixed 2 v))

  unfoldable pub config_of : Bytes → Result (Json N)
  config_of config_json =
      if is_empty config_json then ok (object no_members) else fmt.parse config_json

  -- snprintf into a buffer of 96 bytes, the last of them the terminator.
  unfoldable pub position : SensorRow D → Bytes
  unfolding plus_int to_int32
  position s = take 95 (
      fmt.signed_fixed 4 (or_zero fmt.zero_double s.latitude)
      ++ (codes ", "
          ++ (fmt.signed_fixed 4 (or_zero fmt.zero_double s.longitude)
              ++ (codes ", "
                  ++ plus_int (to_int32 (fmt.lround (or_zero fmt.zero_double s.elevation_m)))))))

  unfoldable pub header : Json N → SensorRow D → List Bytes
  unfolding cfg_or position serial_int
  header cfg s =
      codes "# Community Standard Skyglow Data Format 1.0"
      ∷ codes "# URL: http://www.darksky.org/NSBM/sdf1.0.pdf"
      ∷ codes "# Number of header lines: 35"
      ∷ (codes
          "# This data is released under the following license: ODbL 1.0 http://opendatacommons.org/licenses/odbl/summary/")
      ∷ (codes "# Device type: "
          ++ cfg_or cfg (codes "device_type") (if_empty s.model (codes "SQM-LE/LU")))
      ∷ (codes "# Instrument ID: " ++ cfg_or cfg (codes "instrument_id") s.id)
      ∷ (codes "# Data supplier: " ++ cfg_or cfg (codes "data_supplier") [])
      ∷ (codes "# Location name: " ++ cfg_or cfg (codes "location_name") (if_empty s.site s.name))
      ∷ (codes "# Position (lat, lon, elev(m)): " ++ position s)
      ∷ (codes "# Local timezone: " ++ cfg_or cfg (codes "timezone") s.timezone)
      ∷ (codes "# Time Synchronization: " ++ cfg_or cfg (codes "time_sync") (codes "NTP"))
      ∷ codes "# Moving / Stationary position: STATIONARY"
      ∷ codes "# Moving / Fixed look direction: FIXED"
      ∷ codes "# Number of channels: 1"
      ∷ (codes "# Filters per channel: " ++ cfg_or cfg (codes "filter") (codes "HOYA CM-500"))
      ∷ codes "# Measurement direction per channel: 0, 0"
      ∷ (codes "# Field of view (degrees): " ++ cfg_or cfg (codes "fov") (codes "20"))
      ∷ codes "# Number of fields per line: 6"
      ∷ (codes "# SQM serial number: " ++ serial_int s.serial_number)
      ∷ (codes "# SQM firmware version: " ++ cfg_or cfg (codes "firmware") [])
      ∷ (codes "# SQM cover offset value: " ++ cfg_or cfg (codes "cover_offset") (codes "0"))
      ∷ (codes "# SQM readout test ix: " ++ cfg_or cfg (codes "ix_test") [])
      ∷ (codes "# SQM readout test rx: " ++ cfg_or cfg (codes "rx_test") [])
      ∷ (codes "# SQM readout test cx: " ++ cfg_or cfg (codes "cx_test") [])
      ∷ (codes "# Comment: "
          ++ cfg_or cfg (codes "comment") (codes "Data acquired by NightWatcher2"))
      ∷ codes "# Comment: "
      ∷ codes "# Comment: "
      ∷ codes "# Comment: "
      ∷ codes "# Comment: "
      ∷ codes "# blank line 30"
      ∷ codes "# blank line 31"
      ∷ codes "# blank line 32"
      ∷ codes "# UTC Date & Time, Local Date & Time, Temperature, Counts, Frequency, MSAS"
      ∷ codes "# YYYY-MM-DDTHH:mm:ss.fff;YYYY-MM-DDTHH:mm:ss.fff;Celsius;number;Hz;mag/arcsec^2"
      ∷ codes "# END OF HEADER"
      ∷ []

  module _ (c : Libc) where
    unfoldable pub row_of : Bool → Bytes → ReadingRow D → Row
    unfolding stamps int_text fmt_msas
    row_of include_cf tz r = record {
      utc_iso = (stamps c tz r.ts_utc).0;
      loc_iso = (stamps c tz r.ts_utc).1;
      temp = take 15 (fmt.fixed 1 r.temp_c);
      counts = if include_cf then int_text r.period_counts else [];
      freq = if include_cf then int_text r.freq_hz else [];
      msas = fmt_msas r.mag_arcsec2;
    }

    unfoldable pub content_of : Json N → ExportContext D → Bool → Bytes
    unfolding header ended row_of row_text zone
    content_of cfg ctx include_cf = ended (
        header cfg ctx.sensor
        ++ map (λ r. row_text (row_of include_cf (zone cfg ctx) r)) ctx.readings)

    unfoldable pub format_dsn_dat : ExportContext D → Bytes → Result Bytes
    unfolding config_of content_of
    format_dsn_dat ctx config_json = do
      cfg ← config_of config_json
      include_cf ← fmt.value_bool cfg (codes "include_counts_freq") false
      ok (content_of cfg ctx include_cf)

    unfoldable pub dsn_file_name : ExportContext D → Bytes → Result Bytes
    unfolding config_of cfg_or zone month_of local_ym
    dsn_file_name ctx config_json = do
      cfg ← config_of config_json
      let site_id = cfg_or cfg (codes "site_id") ctx.sensor.id
      let supplier = cfg_or cfg (codes "supplier") []
      let ym = local_ym c (month_of ctx) (zone cfg ctx)
      let yymm = if leb 7 (length ym) then drop 2 ym else codes "00-00"
      let named = if is_empty supplier then site_id else site_id ++ b'_' ∷ supplier
      ok (named ++ b'_' ∷ (yymm ++ codes ".dat"))
