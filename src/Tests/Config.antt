-- ===== src/Tests/Config.antt =====
-- Loading a small configuration file.
use night_watcher.Base.{◌≡◌, refl, true, some, [], ◌∷◌, Bytes, codes, bytes_eq, map, ok}
use night_watcher.Base.Int.{pos}
use night_watcher.Config.{
  load, load_lines, classify, on_line, enter, sensor_of, section_of, back, after_prefix,
  with_tls_paths, directory,
}
use night_watcher.Settings.{
  Config, assign, set_api, set_database, set_current, set_sensor, change_at, set_int,
  default_config,
}
use night_watcher.Config.Sensors.{load-SensorLines}
use night_watcher.Config.SensorLines.{SensorLines}
use night_watcher.Text.{
  is_space, drop_while, drop_end_while, trim, split, cut, cut_last, stoi, strtol, signed, magnitude,
  starts_digit, digits_value, is_digit, in_range_or_throw,
}

abbrev text_sample : Bytes
text_sample =
    codes
      "# demo\n[daemon]\ninterval = 60\n[sensor: DSN003 ]\ntransport = tcp\n[api]\ntls = on\n[sensor:DSN004]\n"

abbrev config_sample : Config
config_sample = record {
  poll_interval_s = pos 60;
  db_host = codes "localhost";
  db_name = codes "nightwatcher";
  db_user = codes "nightwatcher";
  db_port = pos 3306;
  api_port = pos 8080;
  api_bind = codes "127.0.0.1";
  api_tls = true;
  api_tls_cert = codes "/etc/nw/tls/nightwatcher-cert.pem";
  api_tls_key = codes "/etc/nw/tls/nightwatcher-key.pem";
  schema_file = [];
  web_root = [];
  sensors =
      record { id = codes "DSN003"; transport = codes "tcp"; address = []; name = [] }
      ∷ record { id = codes "DSN004"; transport = []; address = []; name = [] }
      ∷ [];
}

load-sample : load (codes "/etc/nw/nw.conf") (some text_sample) ≡ ok config_sample
unfolding load load_lines classify on_line enter sensor_of section_of back after_prefix assign
    set_api set_database set_current set_sensor change_at set_int default_config with_tls_paths
    directory is_space drop_while drop_end_while trim split cut cut_last stoi strtol signed
    magnitude starts_digit digits_value is_digit in_range_or_throw bytes_eq
load-sample = refl

load-SensorLines_example :
    SensorLines (split b'\n' text_sample) (map (λ s. s.id) config_sample.sensors)
load-SensorLines_example =
    load-SensorLines (codes "/etc/nw/nw.conf") text_sample config_sample load-sample
