-- ===== src/Export/Dsn/Layout.antt =====
-- The .dat file as a reader of the format sees it.
use night_watcher.Api.Json.{Json}
use night_watcher.Base.{
  Bool, false, List, ◌++◌, map, ◌≡◌, refl, ap, ◌∙◌, Bytes, codes, All, All-append, ok,
}
use night_watcher.Db.{SensorRow}
use night_watcher.Export.Dsn.Reader.{Lacks, fields, lines-ended, read_lines, read_dat, declared}
use night_watcher.Export.Dsn.{
  Formats, config_of, header, zone, stamps, row_of, row_text, content_of, format_dsn_dat,
}
use night_watcher.Export.Run.{ExportContext}
use night_watcher.Export.TimeUtil.{Libc}
use night_watcher.Text.{is_digit, digits_value}
use night_watcher.Export.Dsn.Plain.{PrintsPlainly, OnOneLine, StampPlain}
use night_watcher.Export.Dsn.Header.{header-Lacks}
use night_watcher.Export.Dsn.Lines.{row_fields, rows-breaks, rows-fields}

module _ {D N : Type 0} (fmt : Formats D N) where
  module _ (plain : PrintsPlainly fmt) where
    -- The third line of the header counts the lines of the header.
    read_lines-header :
        (cfg : Json N) (s : SensorRow D) (rows : List Bytes)
        → read_lines (header fmt cfg s ++ rows) ≡ map (fields b';') rows
    unfolding read_lines declared header digits_value is_digit
    read_lines-header cfg s rows = refl

    -- A reader of the format, which skips as many lines as the third line says, finds in what the
    -- formatter writes the readings, in order and each with its six texts. The strings of the
    -- configuration and of the sensor have no line break, printed numbers and time stamps neither a
    -- line break nor a semicolon.
    pub read_dat-format_dsn_dat :
        (c : Libc) (ctx : ExportContext D) (config_json : Bytes) (cfg : Json N) (include_cf : Bool)
        → config_of fmt config_json ≡ ok cfg
        → fmt.value_bool cfg (codes "include_counts_freq") false ≡ ok include_cf
        → OnOneLine fmt cfg ctx.sensor
        → All (StampPlain fmt) ctx.readings
        → (text : Bytes) × (format_dsn_dat fmt c ctx config_json ≡ ok text)
          × (read_dat text
              ≡ map (λ r. row_fields (row_of fmt c include_cf (zone cfg ctx) r)) ctx.readings)
    unfolding format_dsn_dat content_of read_dat
    read_dat-format_dsn_dat c ctx config_json cfg include_cf parsed given l stamps = (
      content_of fmt c cfg ctx include_cf,
      rw (parsed, given),
      ap read_lines (
            lines-ended (header fmt cfg ctx.sensor ++ rows) (
              All-append (Lacks 10) (header fmt cfg ctx.sensor) rows (header-Lacks fmt plain l)
                (rows-breaks fmt plain c include_cf (zone cfg ctx) ctx.readings stamps)))
          ∙ (read_lines-header cfg ctx.sensor rows
              ∙ rows-fields fmt plain c include_cf (zone cfg ctx) ctx.readings stamps),
    )
      where
        rows : List Bytes
        rows = map (λ r. row_text (row_of fmt c include_cf (zone cfg ctx) r)) ctx.readings
