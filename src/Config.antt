-- ===== src/Config.antt =====
-- src/daemon/config.hpp and config.cpp: the configuration file. The file's bytes are an argument,
-- `none` where it cannot be opened.
pub mod SensorLines
pub mod Sensors
pub mod Tls
use Prim.Native.String.{String}
use night_watcher.Base.{
  ℕ, zero, suc, ◌+◌, ◌-◌, Bool, true, false, ◌&&◌, ◌||◌, Option, none, some, List, [], ◌∷◌, ◌++◌,
  if◌then◌else◌, ◌==◌, is_empty, Bytes, codes, bytes_eq, length, get_or, take, drop, Result, ok,
  err, ◌>>=◌, runtime_error,
}
use night_watcher.Base.Int.{ℤ, pos}
use night_watcher.Text.{trim, split, cut, cut_last, stoi, to_string}
use night_watcher.Settings.{
  SensorConfig, Config, default_config, LoadState, is, set_int, set_database, set_api, set_sensor,
  change_at, set_current, assign,
}

-- s.back(), of a text that is not empty.
unfoldable pub back : Bytes → ℕ
back s = get_or s (length s - 1) 0

-- What is behind a prefix, if the text starts with it.
unfoldable pub after_prefix : Bytes → Bytes → Option Bytes
after_prefix [] s = some s
after_prefix (p ∷ prefix) [] = none
after_prefix (p ∷ prefix) (c ∷ s) = if c == p then after_prefix prefix s else none

-- The section of a header line.
unfoldable pub section_of : Bytes → Bytes
unfolding trim
section_of s = trim (take (length s - 2) (drop 1 s))

unfoldable pub sensor_of : Bytes → Option SensorConfig
unfolding after_prefix trim
sensor_of section = elim (after_prefix (codes "sensor:") section) [
  | none ↦ none
  | some rest ↦ some (record { id = trim rest; transport = []; address = []; name = [] })
]

unfoldable pub enter : LoadState → Bytes → LoadState
unfolding sensor_of
enter st section = elim (sensor_of section) [
  | none ↦ record { cfg = st.cfg; section = section; current_sensor = none }
  | some sc ↦ record {
    cfg = record st.cfg { sensors = st.cfg.sensors ++ sc ∷ [] };
    section = section;
    current_sensor = some (length st.cfg.sensors);
  }
]

pub data Line : Type 0 where
  skipped : Line
  header : Bytes → Line
  setting : Bytes → Bytes → Line
  malformed : Line

-- The kind of a trimmed line.
unfoldable pub classify : Bytes → Line
unfolding back section_of cut trim
classify s =
    if is_empty s || get_or s 0 0 == b'#' || get_or s 0 0 == b';'
    then skipped
    else if get_or s 0 0 == b'[' && back s == b']'
    then header (section_of s)
    else elim (cut b'=' s) [
      | none ↦ malformed
      | some (key, value) ↦ setting (trim key) (trim value)
    ]

unfoldable pub malformed_line : Bytes → ℕ → Bytes → Bytes
unfolding to_string
malformed_line path lineno s =
    codes "malformed line "
    ++ (to_string lineno ++ (codes " in " ++ (path ++ (codes ": '" ++ (s ++ codes "'")))))

unfoldable pub on_line : Bytes → ℕ → Bytes → LoadState → Line → Result LoadState
unfolding enter assign malformed_line
on_line path lineno s st skipped = ok st
on_line path lineno s st (header section) = ok (enter st section)
on_line path lineno s st (setting key value) = do
  cfg ← assign st key value
  ok (record st { cfg = cfg })
on_line path lineno s st malformed = err (runtime_error (malformed_line path lineno s))

-- The loop, behind `lineno` lines.
unfoldable pub load_lines : Bytes → ℕ → LoadState → List Bytes → Result LoadState
unfolding on_line classify
load_lines path lineno st [] = ok st
load_lines path lineno st (l ∷ lines) = do
  st' ← on_line path (lineno + 1) (trim l) st (classify (trim l))
  load_lines path (lineno + 1) st' lines

unfoldable pub directory : Bytes → Bytes
directory path = elim (cut_last b'/' path) [ none ↦ codes "." | some (dir, file) ↦ dir ]

unfoldable pub with_tls_paths : Bytes → Config → Config
unfolding directory
with_tls_paths path cfg = record cfg {
  api_tls_cert =
      if is_empty cfg.api_tls_cert
      then directory path ++ codes "/tls/nightwatcher-cert.pem"
      else cfg.api_tls_cert;
  api_tls_key =
      if is_empty cfg.api_tls_key
      then directory path ++ codes "/tls/nightwatcher-key.pem"
      else cfg.api_tls_key;
}

unfoldable pub load : Bytes → Option Bytes → Result Config
unfolding load_lines with_tls_paths default_config split
load path none = err (runtime_error (codes "cannot open config file: " ++ path))
load path (some text) = do
  st ←
      load_lines path 0 (record { cfg = default_config; section = []; current_sensor = none })
        (split b'\n' text)
  ok (with_tls_paths path st.cfg)
