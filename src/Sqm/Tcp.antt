-- ===== src/Sqm/Tcp.antt =====
-- src/sqm/tcp_transport.cpp: connecting, writing and reading on a TCP socket.
-- The kernel is a tape: the results that the successive system calls of one loop return.
pub mod Reading
pub mod Writing
pub mod Opening
use night_watcher.Base.{
  ℕ, ◌+◌, ◌/◌, ◌%◌, ◌*◌, Bool, true, false, ◌&&◌, Option, none, some, ◌⊎◌, inl, inr, List, [], ◌∷◌,
  ◌++◌, if◌then◌else◌, ◌==◌, Bytes, codes, take, drop, Result, ok, err, runtime_error,
}
use night_watcher.Base.Int.{ℤ, pos, negsuc}
use night_watcher.Sqm.Line.{take_line, ReadOutcome, line, throws, waits}

-- The result of one recv: bytes, 0, or -1 with an errno. `failed` carries its strerror.
pub data Recv : Type 0 where
  chunk : Bytes → Recv
  closed interrupted timed_out : Recv
  failed : Bytes → Recv

unfoldable pub read_line : Bytes → List Recv → ReadOutcome Recv
read_line buf [] = elim (take_line buf) [ none ↦ waits buf | some (l, rest) ↦ line l rest [] ]
read_line buf (chunk c ∷ tape) = elim (take_line buf) [
  | none ↦ read_line (buf ++ c) tape
  | some (l, rest) ↦ line l rest (chunk c ∷ tape)
]
read_line buf (closed ∷ tape) = elim (take_line buf) [
  | none ↦ throws (codes "connection closed by peer") buf tape
  | some (l, rest) ↦ line l rest (closed ∷ tape)
]
read_line buf (interrupted ∷ tape) = elim (take_line buf) [
  | none ↦ read_line buf tape
  | some (l, rest) ↦ line l rest (interrupted ∷ tape)
]
read_line buf (timed_out ∷ tape) = elim (take_line buf) [
  | none ↦ throws (codes "read timeout") buf tape
  | some (l, rest) ↦ line l rest (timed_out ∷ tape)
]
read_line buf (failed why ∷ tape) = elim (take_line buf) [
  | none ↦ throws (codes "recv: " ++ why) buf tape
  | some (l, rest) ↦ line l rest (failed why ∷ tape)
]

-- The result of one send.
pub data Send : Type 0 where
  sent : ℕ → Send
  send_interrupted : Send
  send_failed : Bytes → Send

-- What a call of write comes to, with the bytes that went out.
pub data WriteOutcome : Type 0 where
  wrote : Bytes → WriteOutcome
  write_throws : Bytes → Bytes → WriteOutcome
  write_waits : Bytes → WriteOutcome

-- `wire` is what has been sent, `rest` the data from offset `sent` on.
unfoldable pub write_from : Bytes → Bytes → List Send → WriteOutcome
write_from wire [] tape = wrote wire
write_from wire (b ∷ rest) [] = write_waits wire
write_from wire (b ∷ rest) (sent n ∷ tape) =
    write_from (wire ++ take n (b ∷ rest)) (drop n (b ∷ rest)) tape
write_from wire (b ∷ rest) (send_interrupted ∷ tape) = write_from wire (b ∷ rest) tape
write_from wire (b ∷ rest) (send_failed why ∷ tape) = write_throws (codes "send: " ++ why) wire

unfoldable pub write : Bytes → List Send → WriteOutcome
unfolding write_from
write data_ tape = write_from [] data_ tape

-- connect on a non-blocking socket; EINPROGRESS carries what poll and SO_ERROR then answer.
-- poll: the number of times that EINTR breaks it off does not matter; it ends with nothing ready,
-- or with events; getsockopt answers its result and the socket's error.
pub data Poll : Type 0 where
  poll_interrupted : Poll → Poll
  poll_none poll_error : Poll
  poll_events : Bool → ℕ → ℕ → Poll

pub data Connect : Type 0 where
  connected refused : Connect
  in_progress : Poll → Connect

unfoldable pub await : Poll → Bool
await (poll_interrupted again) = await again
await poll_none = false
await poll_error = false
await (poll_events writable getsockopt_rc soerr) = writable && (getsockopt_rc == 0 && soerr == 0)

unfoldable pub connects : Connect → Bool
unfolding await
connects connected = true
connects refused = false
connects (in_progress polled) = await polled

-- The result, and the descriptor's mode behind the call: the flags that were read are written back.
unfoldable pub connect_with_timeout : Bool → Connect → Bool × Bool
unfolding connects
connect_with_timeout flags attempt = (connects attempt, flags)

-- One entry of the address list: the descriptor that socket() gives, if any, and how connecting
-- on it goes.
pub record Address : Type 0 where
  pub socket : Option ℕ
  pub attempt : Connect

-- The loop over the addresses, with the descriptors that are open.
unfoldable pub open_first : List ℕ → List Address → Option ℕ × List ℕ
unfolding connect_with_timeout
open_first opened [] = (none, opened)
open_first opened (a ∷ addresses) = elim a.socket [
  | none ↦ open_first opened addresses
  | some fd ↦
      let rest = open_first opened addresses in
      if (connect_with_timeout false a.attempt).0 then (some fd, fd ∷ opened) else rest
]

pub record Socket : Type 0 where
  pub fd : ℕ
  pub tv_sec : ℕ
  pub tv_usec : ℕ

-- The constructor: `resolved` is what getaddrinfo gives, its error text or the addresses.
unfoldable pub open_tcp :
    List ℕ → Bytes → Bytes → ℕ → Bytes ⊎ List Address → Bytes → Result Socket × List ℕ
unfolding open_first
open_tcp opened host port timeout_ms (inl why) errno_text =
    (err (runtime_error (codes "getaddrinfo(" ++ host ++ codes "): " ++ why)), opened)
open_tcp opened host port timeout_ms (inr addresses) errno_text =
    finish (open_first opened addresses)
  where
    finish : Option ℕ × List ℕ → Result Socket × List ℕ
    finish (none, left) = (
      err (
          runtime_error
            (codes "cannot connect to " ++ host ++ codes ":" ++ port ++ codes ": " ++ errno_text)),
      left,
    )
    finish (some fd, left) = (
      ok (record { fd = fd; tv_sec = timeout_ms / 1000; tv_usec = timeout_ms % 1000 * 1000 }),
      left,
    )
