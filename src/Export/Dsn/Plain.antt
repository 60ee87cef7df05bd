-- ===== src/Export/Dsn/Plain.antt =====
-- What the texts that go into a .dat file must not hold for it to keep its lines and columns.
use night_watcher.Api.Json.{Json, string, lookup, members_of}
use night_watcher.Base.{ℕ, some, ◌≡◌, refl, Bytes}
use night_watcher.Db.{SensorRow, ReadingRow}
use night_watcher.Export.Dsn.Marks.{IsApart}
use night_watcher.Export.Dsn.Reader.{Lacks}
use night_watcher.Export.Dsn.{Formats}
use night_watcher.Text.{is_digit}

pub break_IsApart : IsApart 10
unfolding is_digit
break_IsApart = record {
  no_digit = refl;
  no_minus = refl;
  no_plus = refl;
  no_colon = refl;
  no_dot = refl;
  no_t = refl;
}

pub semicolon_IsApart : IsApart b';'
unfolding is_digit
semicolon_IsApart = record {
  no_digit = refl;
  no_minus = refl;
  no_plus = refl;
  no_colon = refl;
  no_dot = refl;
  no_t = refl;
}

module _ {D N : Type 0} (fmt : Formats D N) where
  -- printf puts no line break and no semicolon into a number.
  pub record PrintsPlainly : Type 0 where
    pub fixed_plain : (n : ℕ) (v : D) → Lacks 10 (fmt.fixed n v) × Lacks b';' (fmt.fixed n v)
    pub signed_plain : (n : ℕ) (v : D) → Lacks 10 (fmt.signed_fixed n v)

  -- The strings of the configuration and those of the sensor are on one line.
  pub record OnOneLine (cfg : Json N) (s : SensorRow D) : Type 0 where
    pub config_lines : (k v : Bytes) → lookup k (members_of cfg) ≡ some (string v) → Lacks 10 v
    pub id_line : Lacks 10 s.id
    pub name_line : Lacks 10 s.name
    pub site_line : Lacks 10 s.site
    pub model_line : Lacks 10 s.model
    pub serial_line : Lacks 10 s.serial_number
    pub timezone_line : Lacks 10 s.timezone

  -- The time stamp of a reading has no line break and no semicolon.
  abbrev pub StampPlain : ReadingRow D → Type 0
  StampPlain r = Lacks 10 r.ts_utc × Lacks b';' r.ts_utc
