-- ===== src/Tests/Discovery.antt =====
-- Scanning the last addresses there are, and three names of two ports.
use night_watcher.Base.{
  All, ◌++◌, ℕ, suc, ◌-◌, ◌≡◌, refl, arith, Option, none, some, List, [], ◌∷◌, Bytes, codes, map,
  Result, ok, err, runtime_error, bytes_eq, if◌then◌else◌,
}
use night_watcher.Sqm.Discovery.Pool.Balance.{total, scan, run-total}
use night_watcher.Sqm.Discovery.Pool.{run, step, step_at, turn, found, start, nthreads}
use night_watcher.Sqm.Discovery.Ports.{PairwiseApart, IsCovered, enumerate-PairwiseApart}
use night_watcher.Sqm.Discovery.Range.{range, hosts_between-range}
use night_watcher.Sqm.Discovery.{
  by_id_paths, tty_paths, hosts_between, enumerate_serial_devices, cidr_hosts, mask_of, network_of,
  broadcast_of, first_of, last_of, count_of, hosts_from, ipv4_to_u32,
}
use night_watcher.Text.{
  cut, stoi, strtol, signed, magnitude, starts_digit, digits_value, is_digit, in_range_or_throw,
  drop_while, is_space,
}

abbrev pton : Bytes → Option ℕ
pton s = some 0xC0A80105

abbrev ntop : ℕ → Bytes
ntop a = a ∷ []

cidr_hosts-sample :
    cidr_hosts pton ntop (codes "192.168.1.5/30") ≡ ok ((0xC0A80105 ∷ []) ∷ (0xC0A80106 ∷ []) ∷ [])
unfolding cidr_hosts mask_of network_of broadcast_of first_of last_of count_of hosts_from
    hosts_between ipv4_to_u32 cut stoi strtol signed magnitude starts_digit digits_value is_digit
    in_range_or_throw drop_while is_space
cidr_hosts-sample = refl

hosts_between-range_example :
    hosts_between pton ntop 0xFFFFFFFE 0xFFFFFFFF
    ≡ ok (map ntop (range 0xFFFFFFFE (suc (0xFFFFFFFF - 0xFFFFFFFE))))
hosts_between-range_example =
    hosts_between-range pton ntop 0xFFFFFFFE 0xFFFFFFFF (omega arith) (omega arith) (omega arith)

abbrev resolve : Bytes → Option Bytes
resolve path =
    if bytes_eq path (codes "/dev/serial/by-id/usb-sqm") then some (codes "/dev/ttyUSB0") else none

enumerate-PairwiseApart_example :
    PairwiseApart resolve (
      enumerate_serial_devices resolve
        (codes "." ∷ codes "usb-sqm" ∷ [])
        (codes "ttyUSB0" ∷ codes "null" ∷ codes "ttyACM1" ∷ []))
    × All
        (IsCovered resolve (
          enumerate_serial_devices resolve
            (codes "." ∷ codes "usb-sqm" ∷ [])
            (codes "ttyUSB0" ∷ codes "null" ∷ codes "ttyACM1" ∷ [])))
        (by_id_paths resolve (codes "." ∷ codes "usb-sqm" ∷ [])
          ++ tty_paths resolve (codes "ttyUSB0" ∷ codes "null" ∷ codes "ttyACM1" ∷ []))
enumerate-PairwiseApart_example =
    enumerate-PairwiseApart resolve (codes "." ∷ codes "usb-sqm" ∷ [])
      (codes "ttyUSB0" ∷ codes "null" ∷ codes "ttyACM1" ∷ [])

abbrev answers : Bytes → Result ℕ
answers host =
    if bytes_eq host (codes "b") then ok 413 else err (runtime_error (codes "read timeout"))

abbrev hosts_sample : List Bytes
hosts_sample = codes "a" ∷ codes "b" ∷ []

abbrev schedule_sample : List ℕ
schedule_sample = 0 ∷ 1 ∷ 1 ∷ 0 ∷ 0 ∷ 1 ∷ []

abbrev size : Bytes × ℕ → ℕ
size (host, info) = info

run-total_example :
    total size (run answers hosts_sample schedule_sample (start 2 2)).results
    ≡ total size (scan answers hosts_sample)
unfolding run step step_at turn found start nthreads bytes_eq
run-total_example = run-total answers size hosts_sample 2 schedule_sample tt
