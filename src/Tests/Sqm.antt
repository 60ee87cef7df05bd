-- ===== src/Tests/Sqm.antt =====
-- The device's lines, and the transports on tapes of system calls.
use night_watcher.Base.{
  ℕ, ◌≡◌, ◌≢◌, refl, arith, inl, inr, true, some, List, [], ◌∷◌, ◌++◌, Bytes, codes, map, ok,
}
use night_watcher.Base.Int.{pos}
use night_watcher.Sqm.Line.{take_line, throws, stream_lines}
use night_watcher.Sqm.Protocol.Responses.{IsNumber, Reads, parse_reading-IsLine}
use night_watcher.Sqm.Protocol.{parse_reading}
use night_watcher.Sqm.Serial.Same.{recv_of, as_recv, untold, read_line_agrees}
use night_watcher.Sqm.Serial.{
  SerialRead, read_chunk, read_again, poll_none, SerialWrite, written, would_block,
}
use night_watcher.Sqm.Serial
use night_watcher.Sqm.Tcp.Opening.{fd_of, usable_of, held, open_tcp-held}
use night_watcher.Sqm.Tcp.Reading.{stream, read_lines, read_lines-stream, read_line-throws}
use night_watcher.Sqm.Tcp.Writing.{IsPrefixOf, write-IsPrefixOf, write_total}
use night_watcher.Sqm.Tcp.{
  Recv, chunk, interrupted, timed_out, Send, sent, send_interrupted, send_failed, read_line, write,
  wrote, Address, refused, connected, open_tcp,
}
use night_watcher.Sqm.Tcp
use night_watcher.Tests.Samples.{kept, only, only-Only, IsLine-of, IsField-of}
use night_watcher.Text.Split.{join}
use night_watcher.Text.Number.{value}
use night_watcher.Text.{is_space, is_alpha, is_digit, cut, trim, stoll}

abbrev segments : List Recv
segments = chunk (codes "r, 1") ∷ interrupted ∷ chunk (codes "9.0m\r\nix") ∷ []

read_lines-stream_example : read_lines 2 [] segments ≡ stream_lines 2 (stream segments)
read_lines-stream_example = read_lines-stream 2 [] segments tt

read_line-throws_example :
    read_line (codes "r,") (chunk (codes " 19") ∷ timed_out ∷ [])
    ≡ throws (codes "read timeout") (codes "r, 19") []
unfolding take_line cut
read_line-throws_example =
    read_line-throws (codes "r,") (chunk (codes " 19") ∷ []) timed_out [] (codes "read timeout") tt
      refl refl

write-IsPrefixOf_example :
    IsPrefixOf (write (codes "ix") (sent 1 ∷ send_failed [] ∷ [])) (codes "ix")
write-IsPrefixOf_example = write-IsPrefixOf (codes "ix") (sent 1 ∷ send_failed [] ∷ [])

write_total_example :
    write (codes "ix") (sent 1 ∷ send_interrupted ∷ sent 1 ∷ []) ≡ wrote (codes "ix")
write_total_example =
    write_total (codes "ix") (sent 1 ∷ send_interrupted ∷ sent 1 ∷ []) tt (omega arith)

abbrev addresses : List Address
addresses =
    record { socket = some 5; attempt = refused }
    ∷ record { socket = some 6; attempt = connected }
    ∷ []

open_tcp-held_example :
    (fd_of (open_tcp [] (codes "sqm") (codes "10001") 5000 (inr addresses) []).0
      ≡ usable_of (inr addresses))
    × ((open_tcp [] (codes "sqm") (codes "10001") 5000 (inr addresses) []).1
        ≡ held (usable_of (inr addresses)) [])
open_tcp-held_example = open_tcp-held [] (codes "sqm") (codes "10001") 5000 (inr addresses) []

abbrev serial_tape : List SerialRead
serial_tape = read_chunk (codes "r, 1") ∷ read_again ∷ read_chunk (codes "9\nx") ∷ poll_none ∷ []

read_line_agrees_example :
    as_recv (Serial.read_line [] serial_tape) ≡ untold (Tcp.read_line [] (map recv_of serial_tape))
read_line_agrees_example = read_line_agrees [] serial_tape

abbrev tag_r : Bytes
tag_r = codes "r"

abbrev mag_text : Bytes
mag_text = codes " 19.29m"

abbrev freq_text : Bytes
freq_text = codes "0000000002Hz"

abbrev counts_text : Bytes
counts_text = codes "0000277871c"

abbrev period_text : Bytes
period_text = codes "0000000.603s"

abbrev temp_text : Bytes
temp_text = codes " 039.4C"

abbrev reading_items : List Bytes
reading_items =
    tag_r ∷ mag_text ∷ freq_text ∷ counts_text ∷ period_text ∷ temp_text ∷ codes "00000413" ∷ []

ne-nil : {c : ℕ} {s : Bytes} → c ∷ s ≢ []
ne-nil h = cc

mag-Reads : Reads kept mag_text (codes "19.29")
unfolding is_space is_alpha is_digit
mag-Reads = (
  codes "19.29",
  IsField-of (codes " ") (codes "19.29") (codes "m") [] refl refl refl (refl, refl) refl ne-nil,
  refl,
)

freq-Reads : Reads stoll freq_text (pos 2)
unfolding is_space is_alpha is_digit stoll
freq-Reads = (
  codes "0000000002",
  IsField-of [] (codes "0000000002") (codes "Hz") [] refl refl refl (refl, refl) refl ne-nil,
  refl,
)

counts-Reads : Reads stoll counts_text (pos 277871)
unfolding is_space is_alpha is_digit stoll
counts-Reads = (
  codes "0000277871",
  IsField-of [] (codes "0000277871") (codes "c") [] refl refl refl (refl, refl) refl ne-nil,
  refl,
)

period-Reads : Reads kept period_text (codes "0000000.603")
unfolding is_space is_alpha is_digit
period-Reads = (
  codes "0000000.603",
  IsField-of [] (codes "0000000.603") (codes "s") [] refl refl refl (refl, refl) refl ne-nil,
  refl,
)

temp-Reads : Reads kept temp_text (codes "039.4")
unfolding is_space is_alpha is_digit
temp-Reads = (
  codes "039.4",
  IsField-of (codes " ") (codes "039.4") (codes "C") [] refl refl refl (refl, refl) refl ne-nil,
  refl,
)

abbrev reading_line : Bytes
reading_line = codes " " ++ (join b',' reading_items ++ codes "\r")

parse_reading-IsLine_example :
    parse_reading kept reading_line
    ≡ ok (record {
      mag_arcsec2 = codes "19.29";
      freq_hz = pos 2;
      period_counts = pos 277871;
      period_s = codes "0000000.603";
      temp_c = codes "039.4";
      serial = trim (codes "00000413");
      raw = join b',' reading_items;
    })
unfolding is_space trim
parse_reading-IsLine_example =
    parse_reading-IsLine kept tag_r (codes "00000413" ∷ []) (inl refl)
      (IsLine-of reading_items refl refl (refl, refl)) mag-Reads freq-Reads counts-Reads
      period-Reads temp-Reads

abbrev calibration_items : List Bytes
calibration_items = codes "c" ∷ mag_text ∷ period_text ∷ temp_text ∷ mag_text ∷ temp_text ∷ []

abbrev info_items : List Bytes
info_items =
    codes "i" ∷ codes "00000004" ∷ codes "00000003" ∷ codes "00000061" ∷ codes "00000413" ∷ []

IsNumber-of :
    (d : ℕ) (ds : Bytes) → only is_digit (d ∷ ds) ≡ true → IsNumber (d ∷ ds) (value 0 (d ∷ ds))
IsNumber-of d ds h = record {
  first = d;
  others = ds;
  splits = refl;
  digits = only-Only is_digit (d ∷ ds) h;
  reads = refl;
}
