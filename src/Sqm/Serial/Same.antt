-- ===== src/Sqm/Serial/Same.antt =====
-- The serial transport reads and writes as the TCP transport does, up to the texts of its exceptions.
use night_watcher.Base.{
  ◌≡◌, refl, List, [], ◌∷◌, ◌++◌, Bytes, none, some, map, take, drop, Option-cases, inl, inr,
}
use night_watcher.Sqm.Line.{ReadOutcome, line, throws, waits, take_line}
use night_watcher.Sqm.Tcp.{
  Recv, chunk, closed, interrupted, timed_out, failed, Send, sent, send_interrupted, send_failed,
  WriteOutcome, wrote, write_throws, write_waits,
}
use night_watcher.Sqm.Serial.{
  SerialRead, poll_interrupted, poll_none, poll_failed, read_chunk, read_nothing, read_again,
  read_failed, SerialWrite, written, write_interrupted, would_block, write_failed, read_line,
  write_from, write,
}
use night_watcher.Sqm.Tcp

-- The TCP event that a serial one amounts to.
abbrev pub recv_of : SerialRead → Recv
recv_of poll_interrupted = interrupted
recv_of poll_none = timed_out
recv_of (poll_failed why) = failed why
recv_of (read_chunk c) = chunk c
recv_of read_nothing = closed
recv_of read_again = interrupted
recv_of (read_failed why) = failed why

abbrev pub send_of : SerialWrite → Send
send_of (written n) = sent n
send_of write_interrupted = send_interrupted
send_of would_block = send_interrupted
send_of (write_failed why) = send_failed why

-- An outcome without the text of its exception.
abbrev pub untold : {T : Type 0} → ReadOutcome T → ReadOutcome T
untold (line l rest tape) = line l rest tape
untold (throws message buf tape) = throws [] buf tape
untold (waits buf) = waits buf

abbrev pub as_recv : ReadOutcome SerialRead → ReadOutcome Recv
as_recv (line l rest tape) = line l rest (map recv_of tape)
as_recv (throws message buf tape) = throws [] buf (map recv_of tape)
as_recv (waits buf) = waits buf

abbrev pub untold_write : WriteOutcome → WriteOutcome
untold_write (wrote wire) = wrote wire
untold_write (write_throws message wire) = write_throws [] wire
untold_write (write_waits wire) = write_waits wire

-- On what amounts to the same events, both transports return the same line or throw at the same
-- point, and leave the same buffer.
pub read_line_agrees :
    (buf : Bytes) (tape : List SerialRead)
    → as_recv (read_line buf tape) ≡ untold (Tcp.read_line buf (map recv_of tape))
unfolding read_line Tcp.read_line
read_line_agrees buf [] = elim (Option-cases (take_line buf)) [
  | inl e ↦ rw (e, read_line, Tcp.read_line) refl
  | inr (p, e) ↦ rw (e, read_line, Tcp.read_line) refl
]
read_line_agrees buf (e ∷ tape) = elim (Option-cases (take_line buf)) [
  | inl h ↦ nothing_buffered (λ b. read_line_agrees b tape) e h
  | inr (p, h) ↦ buffered e p h
]
  where
    nothing_buffered :
        ((b : Bytes) → as_recv (read_line b tape) ≡ untold (Tcp.read_line b (map recv_of tape)))
        → (e : SerialRead) → take_line buf ≡ none
        → as_recv (read_line buf (e ∷ tape))
          ≡ untold (Tcp.read_line buf (recv_of e ∷ map recv_of tape))
    nothing_buffered ih poll_interrupted h = rw (h, read_line, Tcp.read_line) (ih buf)
    nothing_buffered ih poll_none h = rw (h, read_line, Tcp.read_line) refl
    nothing_buffered ih (poll_failed why) h = rw (h, read_line, Tcp.read_line) refl
    nothing_buffered ih (read_chunk c) h = rw (h, read_line, Tcp.read_line) (ih (buf ++ c))
    nothing_buffered ih read_nothing h = rw (h, read_line, Tcp.read_line) refl
    nothing_buffered ih read_again h = rw (h, read_line, Tcp.read_line) (ih buf)
    nothing_buffered ih (read_failed why) h = rw (h, read_line, Tcp.read_line) refl

    buffered :
        (e : SerialRead) (p : Bytes × Bytes)
        → take_line buf ≡ some p
        → as_recv (read_line buf (e ∷ tape))
          ≡ untold (Tcp.read_line buf (recv_of e ∷ map recv_of tape))
    buffered poll_interrupted p h = rw (h, read_line, Tcp.read_line) refl
    buffered poll_none p h = rw (h, read_line, Tcp.read_line) refl
    buffered (poll_failed why) p h = rw (h, read_line, Tcp.read_line) refl
    buffered (read_chunk c) p h = rw (h, read_line, Tcp.read_line) refl
    buffered read_nothing p h = rw (h, read_line, Tcp.read_line) refl
    buffered read_again p h = rw (h, read_line, Tcp.read_line) refl
    buffered (read_failed why) p h = rw (h, read_line, Tcp.read_line) refl

write_from_agrees :
    (wire rest : Bytes) (tape : List SerialWrite)
    → untold_write (write_from wire rest tape)
      ≡ untold_write (Tcp.write_from wire rest (map send_of tape))
unfolding write_from Tcp.write_from
write_from_agrees wire [] [] = refl
write_from_agrees wire [] (e ∷ tape) = refl
write_from_agrees wire (b ∷ rest) [] = refl
write_from_agrees wire (b ∷ rest) (written n ∷ tape) =
    write_from_agrees (wire ++ take n (b ∷ rest)) (drop n (b ∷ rest)) tape
write_from_agrees wire (b ∷ rest) (write_interrupted ∷ tape) =
    write_from_agrees wire (b ∷ rest) tape
write_from_agrees wire (b ∷ rest) (would_block ∷ tape) = write_from_agrees wire (b ∷ rest) tape
write_from_agrees wire (b ∷ rest) (write_failed why ∷ tape) = refl

-- On what amounts to the same results, both transports put the same bytes on the wire.
pub write_agrees :
    (data_ : Bytes) (tape : List SerialWrite)
    → untold_write (write data_ tape) ≡ untold_write (Tcp.write data_ (map send_of tape))
unfolding write Tcp.write
write_agrees data_ tape = write_from_agrees [] data_ tape
