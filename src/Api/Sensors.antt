-- ===== src/Api/Sensors.antt =====
-- src/api/http_server.cpp: the edits of a sensor. `Getters` are the conversions of the JSON
-- library, which throw where the value has another type.
use Prim.Native.String.{String}
use night_watcher.Base.{
  Bool, true, false, ◌||◌, Option, none, some, Bytes, codes, is_some, Result, ok, err, ◌>>=◌,
}
use night_watcher.Base.Int.{ℤ}
use night_watcher.Db.{SensorRow}
use night_watcher.Api.Json.{Json, null, lookup, members_of}
use night_watcher.Api.Names.{Reply, fails, sends}
use night_watcher.Database.Fields.{SensorFields}
use night_watcher.Database.Tables.{update_sensor, find_sensor}
use night_watcher.Database
use night_watcher.Database.{Db}

pub record Getters (N D : Type 0) : Type 0 where
  pub get_string : Json N → Result Bytes
  pub get_int : Json N → Result ℤ
  pub get_double : Json N → Result D

module _ {N : Type 0} where
  -- `b.contains(k)`.
  unfoldable pub contains : String → Json N → Bool
  unfolding lookup members_of
  contains k b = is_some (lookup (codes k) (members_of b))

  -- `if (b.contains(k) && !b[k].is_null()) o = b[k].get<...>()`, with `o` unset before.
  unfoldable pub given : {A : Type 0} → (Json N → Result A) → String → Json N → Result (Option A)
  unfolding lookup members_of
  given get k b = elim (lookup (codes k) (members_of b)) [
    | none ↦ ok none
    | some null ↦ ok none
    | some v ↦ get v >>= λ a. ok (some a)
  ]

  -- The keys of an edit that the daemon reloads for.
  unfoldable pub asks_reload : Json N → Bool
  unfolding contains
  asks_reload b =
      contains "poll_interval_s" b
      || (contains "transport" b || (contains "address" b || contains "status" b))

module _ {N D : Type 0} (getters : Getters N D) where
  -- The members up to the elevation, and those behind it.
  unfoldable pub described :
      Json N
      → Result (
          Option Bytes
          × Option Bytes
          × Option Bytes
          × Option Bytes
          × Option ℤ
          × Option ℤ
          × Option D
          × Option D
          × Option D)
  unfolding given
  described b = do
    name ← given getters.get_string "name" b
    site ← given getters.get_string "site" b
    serial_number ← given getters.get_string "serial_number" b
    model ← given getters.get_string "model" b
    protocol_ver ← given getters.get_int "protocol_ver" b
    feature_ver ← given getters.get_int "feature_ver" b
    latitude ← given getters.get_double "latitude" b
    longitude ← given getters.get_double "longitude" b
    elevation_m ← given getters.get_double "elevation_m" b
    ok (
      name, site, serial_number, model, protocol_ver, feature_ver, latitude, longitude, elevation_m,
    )

  unfoldable pub polled :
      Json N
      → Result (
          Option Bytes
          × Option Bytes
          × Option Bytes
          × Option ℤ
          × Option Bytes
          × Option Bytes
          × Option Bytes)
  unfolding given
  polled b = do
    timezone ← given getters.get_string "timezone" b
    transport ← given getters.get_string "transport" b
    address ← given getters.get_string "address" b
    poll_interval_s ← given getters.get_int "poll_interval_s" b
    status ← given getters.get_string "status" b
    installed_at ← given getters.get_string "installed_at" b
    notes ← given getters.get_string "notes" b
    ok (timezone, transport, address, poll_interval_s, status, installed_at, notes)

  unfoldable pub members_from_json : Json N → Result (SensorFields D)
  unfolding described polled
  members_from_json b = do
    d ← described b
    p ← polled b
    ok (record {
      name = d.0;
      site = d.1;
      serial_number = d.2;
      model = d.3;
      protocol_ver = d.4;
      feature_ver = d.5;
      latitude = d.6;
      longitude = d.7;
      elevation_m = d.8;
      timezone = p.0;
      transport = p.1;
      address = p.2;
      poll_interval_s = p.3;
      status = p.4;
      installed_at = p.5;
      notes = p.6;
    })

  -- The keys `tcp` and `serial`, which set the transport and the address.
  unfoldable pub with_address : String → Option Bytes → SensorFields D → SensorFields D
  with_address transport none f = f
  with_address transport (some a) f = record f {
    transport = some (codes transport);
    address = some a;
  }

  unfoldable pub sensor_fields_from_json : Json N → Result (SensorFields D)
  unfolding members_from_json given with_address
  sensor_fields_from_json b = do
    f ← members_from_json b
    tcp ← given getters.get_string "tcp" b
    serial ← given getters.get_string "serial" b
    ok (with_address "serial" serial (with_address "tcp" tcp f))

  -- The try block of PATCH /api/v1/sensors/<id>.
  unfoldable pub patch_found : (Bytes → D) → Bytes → Bool → Db (Reply (Option (SensorRow D)))
  unfolding find_sensor Database.◌>>=◌
  patch_found atof id false = Database.ret (fails 404 (codes "no such sensor"))
  patch_found atof id true = Database.◌>>=◌ (find_sensor atof id) (λ s. Database.ret (sends s))

  unfoldable pub patch_sensor :
      (Bytes → D) → (D → Bytes) → Bytes → Json N → Db (Reply (Option (SensorRow D)))
  unfolding sensor_fields_from_json update_sensor patch_found Database.◌>>=◌
  patch_sensor atof to_string id b = elim (sensor_fields_from_json b) [
    | err e ↦ Database.throw e
    | ok f ↦ Database.◌>>=◌ (update_sensor atof to_string id f) (patch_found atof id)
  ]

-- Whether the handler calls on_reload, for what its try block came to.
unfoldable pub patch_reloads : {N A : Type 0} → Json N → Result (Reply A) → Bool
unfolding asks_reload
patch_reloads b (ok (sends s)) = asks_reload b
patch_reloads b (ok (fails status message)) = false
patch_reloads b (err e) = false

-- Whether an edit changes how or how often the sensor is polled.
unfoldable pub affects_polling : {D : Type 0} → SensorFields D → Bool
affects_polling f =
    is_some f.poll_interval_s || (is_some f.transport || (is_some f.address || is_some f.status))
