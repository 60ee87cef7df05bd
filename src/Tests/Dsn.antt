-- ===== src/Tests/Dsn.antt =====
-- A .dat file, and where it goes.
use night_watcher.Api.Json.{object, no_members, member, string, lookup, members_of}
use night_watcher.Base.Int.{pos}
use night_watcher.Base.{ℕ, ◌≡◌, ◌++◌, refl, true, [], Bytes, codes, ok, err, runtime_error, map}
use night_watcher.Export.Dsn.Exporter.Delivery.{Runs, dsn_run-Runs}
use night_watcher.Export.Dsn.Layout.{read_dat-format_dsn_dat}
use night_watcher.Export.Dsn.Lines.{row_fields}
use night_watcher.Export.Dsn.Plain.{PrintsPlainly, OnOneLine, break_IsApart, semicolon_IsApart}
use night_watcher.Export.Dsn.Marks.{Lacks-to_string}
use night_watcher.Export.Dsn.Reader.{Lacks-append, read_dat}
use night_watcher.Export.Dsn.{
  Formats, holds, trim_zeros, serial_int, config_of, zone, row_of, format_dsn_dat,
}
use night_watcher.Export.Dsn.Exporter.{Places, dsn_run}
use night_watcher.Text.{to_string}
use night_watcher.Tests.Export.{libc, context_sample}

-- A double is a number of halves, its JSON library knows one text.
abbrev half_formats : Formats ℕ ℕ
half_formats = record {
  fixed = λ n v. to_string v ++ codes ".50";
  signed_fixed = λ n v. codes "+" ++ to_string v;
  zero_double = 0;
  lround = λ v. pos v;
  parse = λ s. ok (object (member (codes "site_id") (string (codes "DSN003")) no_members));
  value_bool = λ cfg key default. ok true;
  value_text = λ cfg key default. ok (codes "/outbox");
}

half_plain : PrintsPlainly half_formats
unfolding holds
half_plain = record {
  fixed_plain = λ n v. (
    Lacks-append 10 (to_string v) (codes ".50") (Lacks-to_string 10 break_IsApart v) refl,
    Lacks-append b';' (to_string v) (codes ".50") (Lacks-to_string b';' semicolon_IsApart v) refl,
  );
  signed_plain = λ n v. Lacks-to_string 10 break_IsApart v;
}

sample_lines : OnOneLine half_formats (object no_members) context_sample.sensor
unfolding holds lookup members_of
sample_lines = record {
  config_lines = λ k v e. cc;
  id_line = refl;
  name_line = refl;
  site_line = refl;
  model_line = refl;
  serial_line = refl;
  timezone_line = refl;
}

read_dat-format_dsn_dat_example :
    (text : Bytes) × (format_dsn_dat half_formats libc context_sample [] ≡ ok text)
    × (read_dat text
        ≡ map
            (λ r.
              row_fields
                (row_of half_formats libc true (zone {N = ℕ} (object no_members) context_sample) r))
            context_sample.readings)
unfolding config_of holds
read_dat-format_dsn_dat_example =
    read_dat-format_dsn_dat half_formats half_plain libc context_sample [] (object no_members) true
      refl refl sample_lines ((refl, refl), ((refl, refl), tt))

abbrev disk : Places
disk = record {
  opens = λ path. true;
  takes = λ path content. true;
  upload = λ folder name content. err (runtime_error (codes "no network"));
}

dsn_run-Runs_example :
    Runs half_formats libc [] context_sample (dsn_run half_formats libc disk [] context_sample)
dsn_run-Runs_example = dsn_run-Runs half_formats libc disk [] context_sample

trim_zeros_short : trim_zeros (codes "15.70") ≡ codes "15.7"
unfolding trim_zeros
trim_zeros_short = refl

trim_zeros_whole : trim_zeros (codes "20.00") ≡ codes "20"
unfolding trim_zeros
trim_zeros_whole = refl

serial_int_padded : serial_int (codes "00007141") ≡ codes "7141"
unfolding serial_int
serial_int_padded = refl
