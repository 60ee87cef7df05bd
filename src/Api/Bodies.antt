-- ===== src/Api/Bodies.antt =====
-- src/api/http_server.cpp: what the bodies of a weather station and of an export target hold.
use night_watcher.Base.{Option, none, some, Bytes, codes, Result, ok, ◌>>=◌}
use night_watcher.Api.Json.{Json, object, lookup, members_of}
use night_watcher.Api.Sensors.{Getters, given}
use night_watcher.Database.Fields.{WeatherStationFields, ExportTargetFields}

-- The JSON library on texts: `none` where json::parse throws.
pub record JsonText (N : Type 0) : Type 0 where
  pub parse : Bytes → Option (Json N)
  pub dump : Json N → Bytes

module _ {N D : Type 0} (getters : Getters N D) (library : JsonText N) where
  -- `body["config"].dump()` for an object.
  unfoldable pub config_from_json : Json N → Option Bytes
  unfolding lookup members_of
  config_from_json body = elim (lookup (codes "config") (members_of body)) [
    | some (object ms) ↦ some (library.dump (object ms))
    | _ ↦ none
  ]

  -- `body["id"].get<std::string>()` of a body that has one.
  unfoldable pub id_from_json : Json N → Option (Result Bytes)
  unfolding lookup members_of
  id_from_json body = elim (lookup (codes "id") (members_of body)) [
    | none ↦ none
    | some v ↦ some (getters.get_string v)
  ]

  unfoldable pub wx_fields_from_json : Json N → Result (WeatherStationFields D)
  unfolding given
  wx_fields_from_json b = do
    name ← given getters.get_string "name" b
    site ← given getters.get_string "site" b
    model ← given getters.get_string "model" b
    provider ← given getters.get_string "provider" b
    transport ← given getters.get_string "transport" b
    address ← given getters.get_string "address" b
    latitude ← given getters.get_double "latitude" b
    longitude ← given getters.get_double "longitude" b
    elevation_m ← given getters.get_double "elevation_m" b
    timezone ← given getters.get_string "timezone" b
    poll_interval_s ← given getters.get_int "poll_interval_s" b
    status ← given getters.get_string "status" b
    installed_at ← given getters.get_string "installed_at" b
    notes ← given getters.get_string "notes" b
    ok (record {
      name = name;
      site = site;
      model = model;
      provider = provider;
      config = none;
      transport = transport;
      address = address;
      latitude = latitude;
      longitude = longitude;
      elevation_m = elevation_m;
      timezone = timezone;
      poll_interval_s = poll_interval_s;
      status = status;
      installed_at = installed_at;
      notes = notes;
    })

  unfoldable pub export_fields_from_json : Json N → Result ExportTargetFields
  unfolding given
  export_fields_from_json b = do
    sensor_id ← given getters.get_string "sensor_id" b
    name ← given getters.get_string "name" b
    target ← given getters.get_string "target" b
    schedule ← given getters.get_string "schedule" b
    schedule_time ← given getters.get_string "schedule_time" b
    interval_s ← given getters.get_int "interval_s" b
    schedule_day ← given getters.get_int "schedule_day" b
    status ← given getters.get_string "status" b
    notes ← given getters.get_string "notes" b
    ok (record {
      sensor_id = sensor_id;
      name = name;
      target = target;
      config = none;
      schedule = schedule;
      schedule_time = schedule_time;
      interval_s = interval_s;
      schedule_day = schedule_day;
      status = status;
      notes = notes;
    })
