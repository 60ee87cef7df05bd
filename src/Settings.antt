-- ===== src/Settings.antt =====
-- src/daemon/config.hpp and config.cpp: the configuration, and what one setting of a section changes
-- in it.
use Prim.Native.String.{String}
use night_watcher.Base.{
  ℕ, zero, suc, Bool, false, ◌||◌, Option, none, some, List, [], ◌∷◌, if◌then◌else◌, Bytes, codes,
  bytes_eq, Result, ok, ◌>>=◌,
}
use night_watcher.Base.Int.{ℤ, pos}
use night_watcher.Text.{stoi}

pub record SensorConfig : Type 0 where
  pub id : Bytes
  pub transport : Bytes
  pub address : Bytes
  pub name : Bytes

pub record Config : Type 0 where
  pub poll_interval_s : ℤ
  pub db_host : Bytes
  pub db_name : Bytes
  pub db_user : Bytes
  pub db_port : ℤ
  pub api_port : ℤ
  pub api_bind : Bytes
  pub api_tls : Bool
  pub api_tls_cert : Bytes
  pub api_tls_key : Bytes
  pub schema_file : Bytes
  pub web_root : Bytes
  pub sensors : List SensorConfig

unfoldable pub default_config : Config
default_config = record {
  poll_interval_s = pos 300;
  db_host = codes "localhost";
  db_name = codes "nightwatcher";
  db_user = codes "nightwatcher";
  db_port = pos 3306;
  api_port = pos 8080;
  api_bind = codes "127.0.0.1";
  api_tls = false;
  api_tls_cert = [];
  api_tls_key = [];
  schema_file = [];
  web_root = [];
  sensors = [];
}

-- The variables of the loop; `current_sensor` is `none` for -1.
pub record LoadState : Type 0 where
  pub cfg : Config
  pub section : Bytes
  pub current_sensor : Option ℕ

abbrev pub is : Bytes → String → Bool
is s name = bytes_eq s (codes name)

-- `if (key == "interval") poll_interval_s = std::stoi(value)`, and the like.
unfoldable pub set_int : (ℤ → Config) → Bytes → Result Config
set_int with_value value = do v ← stoi value; ok (with_value v)

unfoldable pub set_database : Bytes → Bytes → Config → Result Config
unfolding set_int
set_database key value cfg =
    if is key "host"
    then ok (record cfg { db_host = value })
    else if is key "name"
    then ok (record cfg { db_name = value })
    else if is key "user"
    then ok (record cfg { db_user = value })
    else if is key "port"
    then set_int (λ v. record cfg { db_port = v }) value
    else ok cfg

unfoldable pub set_api : Bytes → Bytes → Config → Result Config
unfolding set_int
set_api key value cfg =
    if is key "port"
    then set_int (λ v. record cfg { api_port = v }) value
    else if is key "bind"
    then ok (record cfg { api_bind = value })
    else if is key "tls"
    then ok (record cfg {
      api_tls = is value "on" || is value "true" || is value "1" || is value "yes";
    })
    else if is key "tls_cert"
    then ok (record cfg { api_tls_cert = value })
    else if is key "tls_key"
    then ok (record cfg { api_tls_key = value })
    else if is key "schema_file"
    then ok (record cfg { schema_file = value })
    else if is key "web_root"
    then ok (record cfg { web_root = value })
    else ok cfg

unfoldable pub set_sensor : Bytes → Bytes → SensorConfig → SensorConfig
set_sensor key value sc =
    if is key "transport"
    then record sc { transport = value }
    else if is key "address"
    then record sc { address = value }
    else if is key "name"
    then record sc { name = value }
    else sc

-- `cfg.sensors[i]`, changed in place.
unfoldable pub change_at : ℕ → (SensorConfig → SensorConfig) → List SensorConfig → List SensorConfig
change_at i change [] = []
change_at zero change (sc ∷ sensors) = change sc ∷ sensors
change_at (suc i) change (sc ∷ sensors) = sc ∷ change_at i change sensors

unfoldable pub set_current : Option ℕ → Bytes → Bytes → Config → Config
unfolding change_at set_sensor
set_current none key value cfg = cfg
set_current (some i) key value cfg = record cfg {
  sensors = change_at i (set_sensor key value) cfg.sensors;
}

unfoldable pub assign : LoadState → Bytes → Bytes → Result Config
unfolding set_int set_database set_api set_current
assign st key value =
    if is st.section "daemon"
    then (if is key "interval"
        then set_int (λ v. record st.cfg { poll_interval_s = v }) value
        else ok st.cfg)
    else if is st.section "database"
    then set_database key value st.cfg
    else if is st.section "api"
    then set_api key value st.cfg
    else ok (set_current st.current_sensor key value st.cfg)
