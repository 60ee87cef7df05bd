-- ===== src/Export/Dsn/Lines.antt =====
-- The lines of the readings: without a line break, and with six columns.
use night_watcher.Base.Int.{ℤ}
use night_watcher.Database.{int_text}
use night_watcher.Base.{
  ◌&◌, ℕ, Bool, true, false, List, [], ◌∷◌, ◌++◌, map, ◌≡◌, refl, ap, ap₂, ◌∙◌, arith,
  if◌then◌else◌, Bytes, All, Option-cases, take, inl, inr,
}
use night_watcher.Db.{ReadingRow}
use night_watcher.Export.Dsn.Marks.{
  IsApart, Lacks-take, Lacks-trim_zeros, Lacks-int_text, Lacks-fmt_iso_ms,
}
use night_watcher.Export.Dsn.Reader.{Lacks, Lacks-append, fields, fields_last, fields_next}
use night_watcher.Export.Dsn.{Formats, Row, holds, fmt_msas, stamps, row_of, row_text}
use night_watcher.Export.TimeUtil.{Libc, parse_sql_utc, local_tm}
use night_watcher.Export.Dsn.Plain.{break_IsApart, semicolon_IsApart, PrintsPlainly, StampPlain}

-- The texts of a row, in the order of the columns that the header names.
abbrev pub row_fields : Row → List Bytes
row_fields w = w.utc_iso ∷ w.loc_iso ∷ w.temp ∷ w.counts ∷ w.freq ∷ w.msas ∷ []

-- None of them holds `c`.
abbrev RowLacks : ℕ → Row → Type 0
RowLacks c w = All (Lacks c) (row_fields w)

fields-row_text : (w : Row) → RowLacks b';' w → fields b';' (row_text w) ≡ row_fields w
unfolding row_text
fields-row_text w h =
    fields_next b';' w.utc_iso _ h.0
    ∙ ap (◌∷◌ w.utc_iso) (
        fields_next b';' w.loc_iso _ h.1.0
        ∙ ap (◌∷◌ w.loc_iso) (
            fields_next b';' w.temp _ h.1.1.0
            ∙ ap (◌∷◌ w.temp) (
                fields_next b';' w.counts _ h.1.1.1.0
                ∙ ap (◌∷◌ w.counts) (
                    fields_next b';' w.freq _ h.1.1.1.1.0
                    ∙ ap (◌∷◌ w.freq) (fields_last b';' w.msas h.1.1.1.1.1.0)))))

semi : (s t : Bytes) → Lacks 10 s → Lacks 10 t → Lacks 10 (s ++ b';' ∷ t)
unfolding holds
semi s t hs ht = Lacks-append 10 s (b';' ∷ t) hs (ground arith)

row_text-Lacks : (w : Row) → RowLacks 10 w → Lacks 10 (row_text w)
unfolding row_text
row_text-Lacks w h = semi w.utc_iso _ h.0 (
    semi w.loc_iso _ h.1.0 (
      semi w.temp _ h.1.1.0
        (semi w.counts _ h.1.1.1.0 (semi w.freq w.msas h.1.1.1.1.0 h.1.1.1.1.1.0))))

module _ {D N : Type 0} (fmt : Formats D N) where
  module _ (plain : PrintsPlainly fmt) where
    module _ (c : Libc) (include_cf : Bool) (tz : Bytes) (r : ReadingRow D)
        (p : StampPlain fmt r) where
      -- What holds for the line break and the semicolon alike.
      stamps-Lacks :
          (d : ℕ)
          → IsApart d
          → Lacks d r.ts_utc
          → Lacks d (stamps c tz r.ts_utc).0 × Lacks d (stamps c tz r.ts_utc).1
      unfolding stamps
      stamps-Lacks d a h = elim (Option-cases (parse_sql_utc c r.ts_utc)) [
        | inl e ↦ rw (e, stamps) (h, h)
        | inr (t, e) ↦
            rw (e, stamps)
              (Lacks-fmt_iso_ms d a (c.gmtime t), Lacks-fmt_iso_ms d a (local_tm c t tz))
      ]

      row-Lacks :
          (d : ℕ)
          → IsApart d
          → Lacks d r.ts_utc
          → ((n : ℕ) (v : D) → Lacks d (fmt.fixed n v))
          → RowLacks d (row_of fmt c include_cf tz r)
      unfolding row_of fmt_msas
      row-Lacks d a h printed =
          (stamps-Lacks d a h).0
          & (stamps-Lacks d a h).1
          & Lacks-take d 15 (fmt.fixed 1 r.temp_c) (printed 1 r.temp_c)
          & given include_cf r.period_counts
          & given include_cf r.freq_hz
          & Lacks-trim_zeros d (take 31 (fmt.fixed 2 r.mag_arcsec2))
              (Lacks-take d 31 (fmt.fixed 2 r.mag_arcsec2) (printed 2 r.mag_arcsec2))
          & tt
        where
          given : (b : Bool) (v : ℤ) → Lacks d (if b then int_text v else [])
          given true v = Lacks-int_text d a v
          given false v = unfold holds in refl

      row-breaks : Lacks 10 (row_text (row_of fmt c include_cf tz r))
      row-breaks =
          row_text-Lacks (row_of fmt c include_cf tz r)
            (row-Lacks 10 break_IsApart p.0 (λ n v. (plain.fixed_plain n v).0))

      row-fields :
          fields b';' (row_text (row_of fmt c include_cf tz r))
          ≡ row_fields (row_of fmt c include_cf tz r)
      row-fields =
          fields-row_text (row_of fmt c include_cf tz r)
            (row-Lacks b';' semicolon_IsApart p.1 (λ n v. (plain.fixed_plain n v).1))

    module _ (c : Libc) (include_cf : Bool) (tz : Bytes) where
      pub rows-breaks :
          (rs : List (ReadingRow D))
          → All (StampPlain fmt) rs
          → All (Lacks 10) (map (λ r. row_text (row_of fmt c include_cf tz r)) rs)
      rows-breaks [] h = tt
      rows-breaks (r ∷ rs) h = (row-breaks c include_cf tz r h.0, rows-breaks rs h.1)

      pub rows-fields :
          (rs : List (ReadingRow D))
          → All (StampPlain fmt) rs
          → map (fields b';') (map (λ r. row_text (row_of fmt c include_cf tz r)) rs)
            ≡ map (λ r. row_fields (row_of fmt c include_cf tz r)) rs
      rows-fields [] h = refl
      rows-fields (r ∷ rs) h = ap₂ ◌∷◌ (row-fields c include_cf tz r h.0) (rows-fields rs h.1)
