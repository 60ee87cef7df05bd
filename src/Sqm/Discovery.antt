-- ===== src/Sqm/Discovery.antt =====
-- src/sqm/discovery.cpp: the addresses of a network, and the serial ports that a scan tries.
-- inet_pton, inet_ntop and realpath are parameters; an address is its number in host order.
pub mod Range
pub mod Ports
pub mod Pool
use Prim.Native.Nat.{bit_and, bit_or}
use night_watcher.Base.{
  ℕ, zero, suc, ◌+◌, ◌-◌, ◌*◌, ◌%◌, ◌^◌, Bool, true, false, ◌||◌, Option, none, some, List, [], ◌∷◌,
  ◌++◌, if◌then◌else◌, ◌==◌, leb, ltb, Bytes, codes, bytes_eq, get_or, Result, ok, err, ◌>>=◌,
  runtime_error,
}
use night_watcher.Base.Int.{ℤ, pos, ltb_ℤ, pos_part}
use night_watcher.Text.{cut, stoi, to_string}

unfoldable pub mask_of : ℕ → ℕ
mask_of prefix = if prefix == 0 then 0 else (2 ^ 32 - 1) * 2 ^ (32 - prefix) % 2 ^ 32

-- The network and the broadcast address; ~mask in 32 bits.
unfoldable pub network_of : ℕ → ℕ → ℕ
unfolding mask_of
network_of ip prefix = bit_and ip (mask_of prefix)

unfoldable pub broadcast_of : ℕ → ℕ → ℕ
unfolding mask_of network_of
broadcast_of ip prefix = bit_or (network_of ip prefix) (2 ^ 32 - 1 - mask_of prefix)

-- The first and the last host, in uint32_t.
unfoldable pub first_of : ℕ → ℕ → ℕ
unfolding network_of
first_of ip prefix =
    if leb prefix 30 then (network_of ip prefix + 1) % 2 ^ 32 else network_of ip prefix

unfoldable pub last_of : ℕ → ℕ → ℕ
unfolding broadcast_of
last_of ip prefix =
    if leb prefix 30
    then (broadcast_of ip prefix + (2 ^ 32 - 1)) % 2 ^ 32
    else broadcast_of ip prefix

-- `last - first + 1` in uint64_t.
unfoldable pub count_of : ℕ → ℕ → ℕ
count_of first last = (last + 2 ^ 64 - first + 1) % 2 ^ 64

module _ (inet_pton : Bytes → Option ℕ) (inet_ntop : ℕ → Bytes) where
  unfoldable pub ipv4_to_u32 : Bytes → Result ℕ
  ipv4_to_u32 s = elim (inet_pton s) [
    | none ↦ err (runtime_error (codes "invalid IPv4 address: " ++ s))
    | some a ↦ ok a
  ]

  -- The loop, on fuel.
  unfoldable pub hosts_from : ℕ → ℕ → ℕ → List Bytes
  hosts_from zero a last = []
  hosts_from (suc fuel) a last = elim (a == last) [
    | true ↦ inet_ntop a ∷ []
    | false ↦ inet_ntop a ∷ hosts_from fuel ((a + 1) % 2 ^ 32) last
  ]

  -- The fuel is the greatest number of hosts that passes the test, however few there are: where the
  -- loop ends is up to its own test.
  unfoldable pub hosts_between : ℕ → ℕ → Result (List Bytes)
  unfolding count_of to_string
  hosts_between first last =
      if ltb 65536 (count_of first last)
      then err (
          runtime_error (
            codes "subnet too large to scan ("
            ++ (to_string (count_of first last) ++ codes " hosts); use a /16 or smaller range")))
      else ok (hosts_from 65536 first last)

  with_prefix : Bytes → Bytes → ℤ → Result (List Bytes)
  unfolding hosts_between ipv4_to_u32 first_of last_of
  with_prefix cidr base prefix =
      if ltb_ℤ prefix (pos 0) || ltb_ℤ (pos 32) prefix
      then err (runtime_error (codes "invalid CIDR prefix: " ++ cidr))
      else (do
        ip ← ipv4_to_u32 base
        hosts_between (first_of ip (pos_part prefix)) (last_of ip (pos_part prefix)))

  unfoldable pub cidr_hosts : Bytes → Result (List Bytes)
  unfolding with_prefix cut stoi
  cidr_hosts cidr = elim (cut b'/' cidr) [
    | none ↦ err (runtime_error (codes "expected CIDR like 192.168.1.0/24: " ++ cidr))
    | some (base, length_text) ↦ do prefix ← stoi length_text; with_prefix cidr base prefix
  ]

-- std::set's find.
unfoldable pub seen : Bytes → List Bytes → Bool
unfolding bytes_eq
seen key [] = false
seen key (k ∷ keys) = bytes_eq key k || seen key keys

unfoldable pub starts_with : Bytes → Bytes → Bool
starts_with [] s = true
starts_with (p ∷ prefix) [] = false
starts_with (p ∷ prefix) (c ∷ s) = if c == p then starts_with prefix s else false

module _ (realpath : Bytes → Option Bytes) where
  unfoldable pub key_of : Bytes → Bytes
  key_of path = elim (realpath path) [ none ↦ path | some target ↦ target ]

  -- The calls of `add` for a list of paths, with the keys that are taken; the devices that they queue.
  unfoldable pub add_all : List Bytes → List Bytes → List Bytes
  unfolding seen key_of
  add_all keys [] = []
  add_all keys (path ∷ paths) =
      let others = add_all keys paths in
      let more = add_all (key_of path ∷ keys) paths in
      if seen (key_of path) keys then others else path ∷ more

  -- The entries of /dev/serial/by-id and of /dev, as paths.
  unfoldable pub by_id_paths : List Bytes → List Bytes
  by_id_paths [] = []
  by_id_paths (name ∷ names) =
      let rest = by_id_paths names in
      if get_or name 0 0 == b'.' then rest else (codes "/dev/serial/by-id/" ++ name) ∷ rest

  unfoldable pub tty_paths : List Bytes → List Bytes
  unfolding starts_with
  tty_paths [] = []
  tty_paths (name ∷ names) =
      let rest = tty_paths names in
      if starts_with (codes "ttyUSB") name || starts_with (codes "ttyACM") name
      then (codes "/dev/" ++ name) ∷ rest
      else rest

  -- A directory that cannot be opened has no entries.
  unfoldable pub enumerate_serial_devices : List Bytes → List Bytes → List Bytes
  unfolding add_all by_id_paths tty_paths
  enumerate_serial_devices by_id dev = add_all [] (by_id_paths by_id ++ tty_paths dev)
