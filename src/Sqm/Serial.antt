-- ===== src/Sqm/Serial.antt =====
-- src/sqm/serial_transport.cpp: opening a serial port, and writing and reading on it.
-- As for TCP, the system calls of one loop answer from a tape.
pub mod Same
use night_watcher.Base.{
  ℕ, Bool, true, false, ◌==◌, if◌then◌else◌, Option, none, some, ◌⊎◌, inl, inr, List, [], ◌∷◌, ◌++◌,
  Bytes, codes, take, drop, Result, ok, err, runtime_error,
}
use night_watcher.Sqm.Line.{take_line, ReadOutcome, line, throws, waits}
use night_watcher.Sqm.Tcp.{WriteOutcome, wrote, write_throws, write_waits}

-- What one round of the loop meets: poll broken off by a signal, with nothing ready, or failing; then
-- the result of read, its `read_again` for EINTR, EAGAIN and EWOULDBLOCK.
pub data SerialRead : Type 0 where
  poll_interrupted poll_none : SerialRead
  poll_failed : Bytes → SerialRead
  read_chunk : Bytes → SerialRead
  read_nothing read_again : SerialRead
  read_failed : Bytes → SerialRead

unfoldable pub read_line : Bytes → List SerialRead → ReadOutcome SerialRead
read_line buf [] = elim (take_line buf) [ none ↦ waits buf | some (l, rest) ↦ line l rest [] ]
read_line buf (poll_interrupted ∷ tape) = elim (take_line buf) [
  | none ↦ read_line buf tape
  | some (l, rest) ↦ line l rest (poll_interrupted ∷ tape)
]
read_line buf (poll_none ∷ tape) = elim (take_line buf) [
  | none ↦ throws (codes "read timeout") buf tape
  | some (l, rest) ↦ line l rest (poll_none ∷ tape)
]
read_line buf (poll_failed why ∷ tape) = elim (take_line buf) [
  | none ↦ throws (codes "poll: " ++ why) buf tape
  | some (l, rest) ↦ line l rest (poll_failed why ∷ tape)
]
read_line buf (read_chunk c ∷ tape) = elim (take_line buf) [
  | none ↦ read_line (buf ++ c) tape
  | some (l, rest) ↦ line l rest (read_chunk c ∷ tape)
]
read_line buf (read_nothing ∷ tape) = elim (take_line buf) [
  | none ↦ throws (codes "serial closed") buf tape
  | some (l, rest) ↦ line l rest (read_nothing ∷ tape)
]
read_line buf (read_again ∷ tape) = elim (take_line buf) [
  | none ↦ read_line buf tape
  | some (l, rest) ↦ line l rest (read_again ∷ tape)
]
read_line buf (read_failed why ∷ tape) = elim (take_line buf) [
  | none ↦ throws (codes "serial read: " ++ why) buf tape
  | some (l, rest) ↦ line l rest (read_failed why ∷ tape)
]

-- The result of one write; behind `would_block` the loop polls for POLLOUT and tries again.
pub data SerialWrite : Type 0 where
  written : ℕ → SerialWrite
  write_interrupted would_block : SerialWrite
  write_failed : Bytes → SerialWrite

unfoldable pub write_from : Bytes → Bytes → List SerialWrite → WriteOutcome
write_from wire [] tape = wrote wire
write_from wire (b ∷ rest) [] = write_waits wire
write_from wire (b ∷ rest) (written n ∷ tape) =
    write_from (wire ++ take n (b ∷ rest)) (drop n (b ∷ rest)) tape
write_from wire (b ∷ rest) (write_interrupted ∷ tape) = write_from wire (b ∷ rest) tape
write_from wire (b ∷ rest) (would_block ∷ tape) = write_from wire (b ∷ rest) tape
write_from wire (b ∷ rest) (write_failed why ∷ tape) =
    write_throws (codes "serial write: " ++ why) wire

unfoldable pub write : Bytes → List SerialWrite → WriteOutcome
unfolding write_from
write data_ tape = write_from [] data_ tape

pub data Speed : Type 0 where
  b9600 b19200 b38400 b57600 b115200 b230400 : Speed

unfoldable pub baud_to_speed : ℕ → Speed
baud_to_speed baud =
    if baud == 9600
    then b9600
    else if baud == 19200
    then b19200
    else if baud == 38400
    then b38400
    else if baud == 57600
    then b57600
    else if baud == 115200
    then b115200
    else if baud == 230400
    then b230400
    else b115200

-- The parts of a termios that the code sets, flag by flag; `cs8` says that the size bits are CS8.
-- The rest of it is `other`.
pub record Termios (T : Type 0) : Type 0 where
  pub ispeed : Speed
  pub ospeed : Speed
  pub clocal : Bool
  pub cread : Bool
  pub cstopb : Bool
  pub parenb : Bool
  pub cs8 : Bool
  pub crtscts : Bool
  pub ixon : Bool
  pub ixoff : Bool
  pub ixany : Bool
  pub vmin : ℕ
  pub vtime : ℕ
  pub other : T

pub record Port (T : Type 0) : Type 0 where
  pub fd : ℕ
  pub settings : Termios T
  pub timeout_ms : ℕ

module _ {T : Type 0} (cfmakeraw : Termios T → Termios T) where
  unfoldable pub configured : ℕ → Termios T → Termios T
  unfolding baud_to_speed
  configured baud tio = record (cfmakeraw tio) {
    ispeed = baud_to_speed baud;
    ospeed = baud_to_speed baud;
    clocal = true;
    cread = true;
    cstopb = false;
    parenb = false;
    cs8 = true;
    crtscts = false;
    ixon = false;
    ixoff = false;
    ixany = false;
    vmin = 0;
    vtime = 0;
  }

  -- The constructor: open gives a descriptor or an errno text, tcgetattr the settings or an errno
  -- text, tcsetattr nothing or an errno text. With the descriptors that are open, before and behind.
  unfoldable pub open_port :
      List ℕ
      → Bytes
      → ℕ
      → ℕ
      → (open_call : Bytes ⊎ ℕ) → (tcgetattr_call : Bytes ⊎ Termios T)
      → (tcsetattr_call : Option Bytes) → Result (Port T) × List ℕ
  unfolding configured
  open_port opened device baud timeout_ms (inl why) got set =
      (err (runtime_error (codes "open(" ++ device ++ codes "): " ++ why)), opened)
  open_port opened device baud timeout_ms (inr fd) (inl why) set =
      (err (runtime_error (codes "tcgetattr(" ++ device ++ codes "): " ++ why)), opened)
  open_port opened device baud timeout_ms (inr fd) (inr tio) (some why) =
      (err (runtime_error (codes "tcsetattr(" ++ device ++ codes "): " ++ why)), opened)
  open_port opened device baud timeout_ms (inr fd) (inr tio) none = (
    ok (record { fd = fd; settings = configured baud tio; timeout_ms = timeout_ms }),
    fd ∷ opened,
  )
