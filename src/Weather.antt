-- ===== src/Weather.antt =====
-- src/weather/provider.cpp: the readings that the weather services give. The JSON library and the
-- arithmetic of `double` are parameters: `JsonObject` answers the lookups that the code makes.
pub mod Url
use night_watcher.Base.{
  ℕ, ◌+◌, ◌-◌, ◌/◌, ◌%◌, Bool, true, false, ◌&&◌, ◌||◌, Option, none, some, List, [], ◌∷◌, ◌++◌,
  if◌then◌else◌, ◌==◌, ltb, is_empty, Bytes, codes, bytes_eq, length, get_or, take, drop, Result,
  ok, err, runtime_error,
}
use night_watcher.Base.Int.{ℤ, pos}
use night_watcher.Db.{WeatherReadingRow}
use night_watcher.Text.{is_alpha, is_digit}

abbrev pub k_hex_upper : Bytes
k_hex_upper = codes "0123456789ABCDEF"

-- The bytes that stand for themselves in a URL.
unfoldable pub is_plain : ℕ → Bool
unfolding is_alpha is_digit
is_plain c = is_alpha c || is_digit c || c == b'-' || c == b'_' || c == b'.' || c == b'~'

unfoldable pub url_encode : Bytes → Bytes
unfolding is_plain
url_encode [] = []
url_encode (c ∷ s) =
    let rest = url_encode s in
    if is_plain c
    then c ∷ rest
    else b'%' ∷ get_or k_hex_upper (c / 16) 0 ∷ get_or k_hex_upper (c % 16) 0 ∷ rest

-- A JSON object: the number or the string under a key, if it has one, and its text.
pub record JsonObject (D : Type 0) : Type 0 where
  pub number : Bytes → Option D
  pub text : Bytes → Option Bytes
  pub dump : Bytes

-- The conversions of units, `lround` with its cast to int among them.
pub record Units (D : Type 0) : Type 0 where
  pub f2c : D → D
  pub inhg_to_hpa : D → D
  pub mph_to_ms : D → D
  pub in_to_mm : D → D
  pub kmh_to_ms : D → D
  pub to_degrees : D → ℤ

-- `dt.substr(0, 19)` with a space at index 10.
unfoldable pub sql_of_iso : Bytes → Bytes
sql_of_iso dt = if ltb (length dt) 19 then [] else take 10 dt ++ b' ' ∷ drop 11 (take 19 dt)

abbrev mapped : {A B : Type 0} → (A → B) → Option A → Option B
mapped f none = none
mapped f (some a) = some (f a)

module _ {D : Type 0} (units : Units D) where
  unfoldable pub iso_to_sql : JsonObject D → Bytes → Bytes
  unfolding sql_of_iso
  iso_to_sql j key = elim (j.text key) [ none ↦ [] | some dt ↦ sql_of_iso dt ]

  -- A row with its members left empty.
  abbrev blank_row : JsonObject D → Bytes → WeatherReadingRow D
  blank_row d ts = record {
    id = pos 0;
    station_id = [];
    ts_utc = ts;
    temp_c = none;
    humidity_pct = none;
    dew_point_c = none;
    pressure_hpa = none;
    pressure_abs_hpa = none;
    wind_speed_ms = none;
    wind_gust_ms = none;
    wind_dir_deg = none;
    rain_rate_mmh = none;
    rain_daily_mm = none;
    uv_index = none;
    solar_wm2 = none;
    cloud_cover_pct = none;
    source = [];
    raw = d.dump;
  }

  unfoldable pub parse_ambient : JsonObject D → WeatherReadingRow D
  unfolding iso_to_sql
  parse_ambient d = record (blank_row d (iso_to_sql d (codes "date"))) {
    temp_c = mapped units.f2c (d.number (codes "tempf"));
    humidity_pct = d.number (codes "humidity");
    dew_point_c = mapped units.f2c (d.number (codes "dewPoint"));
    pressure_hpa = mapped units.inhg_to_hpa (d.number (codes "baromrelin"));
    pressure_abs_hpa = mapped units.inhg_to_hpa (d.number (codes "baromabsin"));
    wind_speed_ms = mapped units.mph_to_ms (d.number (codes "windspeedmph"));
    wind_gust_ms = mapped units.mph_to_ms (d.number (codes "windgustmph"));
    wind_dir_deg = mapped units.to_degrees (d.number (codes "winddir"));
    rain_rate_mmh = mapped units.in_to_mm (d.number (codes "hourlyrainin"));
    rain_daily_mm = mapped units.in_to_mm (d.number (codes "dailyrainin"));
    uv_index = d.number (codes "uv");
    solar_wm2 = d.number (codes "solarradiation");
  }

  with_metric : Option (JsonObject D) → WeatherReadingRow D → WeatherReadingRow D
  with_metric none r = r
  with_metric (some m) r = record r {
    temp_c = m.number (codes "temp");
    dew_point_c = m.number (codes "dewpt");
    pressure_hpa = m.number (codes "pressure");
    wind_speed_ms = mapped units.kmh_to_ms (m.number (codes "windSpeed"));
    wind_gust_ms = mapped units.kmh_to_ms (m.number (codes "windGust"));
    rain_rate_mmh = m.number (codes "precipRate");
    rain_daily_mm = m.number (codes "precipTotal");
  }

  -- `metric` is the object under that key, if there is one.
  unfoldable pub parse_wunderground :
      JsonObject D → (metric : Option (JsonObject D)) → WeatherReadingRow D
  unfolding iso_to_sql with_metric
  parse_wunderground obs metric =
      with_metric metric (record (blank_row obs (iso_to_sql obs (codes "obsTimeUtc"))) {
        humidity_pct = obs.number (codes "humidity");
        wind_dir_deg = mapped units.to_degrees (obs.number (codes "winddir"));
        uv_index = obs.number (codes "uv");
        solar_wm2 = obs.number (codes "solarRadiation");
      })

-- The path that each provider asks for.
unfoldable pub ambient_path : Bytes → Bytes → Bytes
unfolding url_encode
ambient_path app_key api_key =
    codes "/v1/devices?applicationKey="
    ++ (url_encode app_key ++ (codes "&apiKey=" ++ url_encode api_key))

unfoldable pub wunderground_path : Bytes → Bytes → Bytes
unfolding url_encode
wunderground_path station_id api_key =
    codes "/v2/pws/observations/current?stationId="
    ++ (url_encode station_id ++ (codes "&format=json&units=m&apiKey=" ++ url_encode api_key))

pub data Provider : Type 0 where
  ambient_provider : Bytes → Bytes → Bytes → Provider
  wunderground_provider : Bytes → Bytes → Provider

-- For a configuration that parses: `value` is the string under a key, empty where it has none.
unfoldable pub make_provider : (value : Bytes → Bytes) → Bytes → Result Provider
unfolding bytes_eq
make_provider value provider =
    if bytes_eq provider (codes "ambientweather")
    then (if is_empty (value (codes "applicationKey")) || is_empty (value (codes "apiKey"))
        then err (runtime_error (codes "ambientweather requires applicationKey and apiKey"))
        else ok (
            ambient_provider (value (codes "applicationKey")) (value (codes "apiKey"))
              (value (codes "macAddress"))))
    else if bytes_eq provider (codes "wunderground")
    then (if is_empty (value (codes "stationId")) || is_empty (value (codes "apiKey"))
        then err (runtime_error (codes "wunderground requires stationId and apiKey"))
        else ok (wunderground_provider (value (codes "stationId")) (value (codes "apiKey"))))
    else err (runtime_error (codes "unknown weather provider: '" ++ provider ++ codes "'"))
