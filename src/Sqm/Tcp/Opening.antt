-- ===== src/Sqm/Tcp/Opening.antt =====
-- The constructor of TcpTransport: which address it connects to, and what stays open.
use night_watcher.Base.{
  ℕ, ◌≡◌, refl, ◌⊎◌, inl, inr, Option, none, some, List, [], ◌∷◌, arith, Bytes, Result, ok, err,
  if◌then◌else◌, Option-cases,
}
use night_watcher.Sqm.Tcp.{Address, Socket, connects, open_first, open_tcp}

-- The address can be used: it has a descriptor, and connecting succeeds in time.
abbrev pub usable : Address → Option ℕ
usable a = elim a.socket [ none ↦ none | some fd ↦ if connects a.attempt then some fd else none ]

abbrev pub first_usable : List Address → Option ℕ
first_usable [] = none
first_usable (a ∷ addresses) =
    let rest = first_usable addresses in elim (usable a) [ none ↦ rest | some fd ↦ some fd ]

abbrev pub held : Option ℕ → List ℕ → List ℕ
held none opened = opened
held (some fd) opened = fd ∷ opened

open_first_lem :
    (opened : List ℕ) (addresses : List Address)
    → open_first opened addresses ≡ (first_usable addresses, held (first_usable addresses) opened)
unfolding open_first
open_first_lem opened [] = refl
open_first_lem opened (a ∷ addresses) = ground (arith, open_first_lem opened addresses)

-- The descriptor that the constructor ends with, if it does not throw.
abbrev pub fd_of : Result Socket → Option ℕ
fd_of (ok s) = some s.fd
fd_of (err e) = none

abbrev pub usable_of : Bytes ⊎ List Address → Option ℕ
usable_of (inl why) = none
usable_of (inr addresses) = first_usable addresses

-- The constructor succeeds exactly if a resolved address can be used, with the first such one. The
-- descriptors open behind it are those from before, and its own if it succeeds: none leaks.
pub open_tcp-held :
    (opened : List ℕ) (host port : Bytes) (timeout_ms : ℕ) (resolved : Bytes ⊎ List Address)
    (errno_text : Bytes)
    → (fd_of (open_tcp opened host port timeout_ms resolved errno_text).0 ≡ usable_of resolved)
      × ((open_tcp opened host port timeout_ms resolved errno_text).1
          ≡ held (usable_of resolved) opened)
unfolding open_tcp
open_tcp-held opened host port timeout_ms (inl why) errno_text = (refl, refl)
open_tcp-held opened host port timeout_ms (inr addresses) errno_text =
    elim (Option-cases (first_usable addresses)) [
      | inl e ↦ rw (open_first_lem opened addresses, open_tcp) (rw e (refl, refl))
      | inr (fd, e) ↦ rw (open_first_lem opened addresses, open_tcp) (rw e (refl, refl))
    ]
