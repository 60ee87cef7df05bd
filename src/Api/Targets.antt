-- ===== src/Api/Targets.antt =====
-- src/api/http_server.cpp: creating and editing weather stations and export targets. A handler is the
-- part that stores, which may stop with an error, and the answer from the row behind it; `on_reload`
-- is called between the two for an export target. Both stand in one try block.
pub mod Resent
use night_watcher.Base.{
  Bool, true, false, Option, none, some, Bytes, codes, if◌then◌else◌, is_some, Result, ok, err,
  ◌>>=◌, not,
}
use night_watcher.Base.Int.{ℤ}
use night_watcher.Db.{WeatherStationRow, ExportTargetRow}
use night_watcher.Api.Json.{Json, object, lookup, members_of, merge_config}
use night_watcher.Api.Names.{Reply, sends, fails}
use night_watcher.Api.Sensors.{Getters, given}
use night_watcher.Api.Settings.{Stop}
use night_watcher.Database.Fields.{WeatherStationFields, ExportTargetFields}
use night_watcher.Database.Tables.{
  upsert_weather_station, find_weather_station, update_weather_station, upsert_export_target,
  find_export_target, update_export_target,
}
use night_watcher.Database
use night_watcher.Database.{Db, ret}
use night_watcher.Api.Bodies.{
  JsonText, config_from_json, id_from_json, wx_fields_from_json, export_fields_from_json,
}

-- What is computed from the body before the database is asked.
abbrev pub lifted : {A B : Type 0} → Result A → (A → Db B) → Db B
lifted (ok a) next = next a
lifted (err e) next = Database.throw e

-- `!update...(...)`.
abbrev pub missing_unless : Bytes → Bool → Stop
missing_unless message found = if found then none else some (404, message)

module _ {N D : Type 0} (getters : Getters N D) (library : JsonText N) where
  -- `f.config = merge_config(existing->config, body["config"])`.
  unfoldable pub merged : Bytes → Json N → Bytes
  unfolding merge_config
  merged existing incoming = merge_config library.parse library.dump existing incoming

  -- POST /api/v1/export-targets for the body's id, up to the row.
  unfoldable pub create_target : Bytes → Json N → ExportTargetFields → Db Stop
  unfolding config_from_json upsert_export_target Database.◌>>◌
  create_target id body f =
      if not (is_some f.sensor_id)
      then ret (some (400, codes "missing 'sensor_id'"))
      else if not (is_some f.target)
      then ret (some (400, codes "missing 'target'"))
      else Database.◌>>◌
          (upsert_export_target id (record f { config = config_from_json getters library body }))
          (ret none)

  unfoldable pub post_target : Json N → Db Stop
  unfolding id_from_json export_fields_from_json create_target
  post_target body = elim (id_from_json getters library body) [
    | none ↦ ret (some (400, codes "missing 'id'"))
    | some r ↦
        lifted r
          (λ id. lifted (export_fields_from_json getters library body) (create_target id body))
  ]

  -- The end of PATCH /api/v1/export-targets/<id>, up to the row.
  unfoldable pub change_target : Bytes → ExportTargetFields → Db Stop
  unfolding update_export_target Database.◌>>=◌
  change_target id f =
      Database.◌>>=◌ (update_export_target id f)
        (λ found. ret (missing_unless (codes "no such export target") found))

  unfoldable pub merge_target :
      Bytes → ExportTargetFields → Json N → Option ExportTargetRow → Db Stop
  unfolding merged change_target
  merge_target id f incoming none = ret (some (404, codes "no such export target"))
  merge_target id f incoming (some existing) =
      change_target id (record f { config = some (merged existing.config incoming) })

  unfoldable pub patch_target_fields : Bytes → Json N → ExportTargetFields → Db Stop
  unfolding lookup members_of find_export_target merge_target change_target Database.◌>>=◌
  patch_target_fields id body f = elim (lookup (codes "config") (members_of body)) [
    | none ↦ change_target id f
    | some incoming ↦ Database.◌>>=◌ (find_export_target id) (merge_target id f incoming)
  ]

  unfoldable pub patch_target : Bytes → Json N → Db Stop
  unfolding export_fields_from_json patch_target_fields
  patch_target id body =
      lifted (export_fields_from_json getters library body) (patch_target_fields id body)

  module _ (atof : Bytes → D) (to_string : D → Bytes) where
    -- POST /api/v1/weather-stations for the body's id, up to the row.
    unfoldable pub create_station : Bytes → Json N → WeatherStationFields D → Db Stop
    unfolding config_from_json upsert_weather_station Database.◌>>◌
    create_station id body f =
        Database.◌>>◌
          (upsert_weather_station to_string id
            (record f { config = config_from_json getters library body }))
          (ret none)

    unfoldable pub post_station : Json N → Db Stop
    unfolding id_from_json wx_fields_from_json create_station
    post_station body = elim (id_from_json getters library body) [
      | none ↦ ret (some (400, codes "missing 'id'"))
      | some r ↦
          lifted r
            (λ id. lifted (wx_fields_from_json getters library body) (create_station id body))
    ]

    -- The end of PATCH /api/v1/weather-stations/<id>, up to the row.
    unfoldable pub change_station : Bytes → WeatherStationFields D → Db Stop
    unfolding update_weather_station Database.◌>>=◌
    change_station id f =
        Database.◌>>=◌ (update_weather_station atof to_string id f)
          (λ found. ret (missing_unless (codes "no such weather station") found))

    unfoldable pub merge_station :
        Bytes → WeatherStationFields D → Json N → Option (WeatherStationRow D) → Db Stop
    unfolding merged change_station
    merge_station id f incoming none = ret (some (404, codes "no such weather station"))
    merge_station id f incoming (some existing) =
        change_station id (record f { config = some (merged existing.config incoming) })

    unfoldable pub patch_station_fields : Bytes → Json N → WeatherStationFields D → Db Stop
    unfolding lookup members_of find_weather_station merge_station change_station Database.◌>>=◌
    patch_station_fields id body f = elim (lookup (codes "config") (members_of body)) [
      | none ↦ change_station id f
      | some incoming ↦ Database.◌>>=◌ (find_weather_station atof id) (merge_station id f incoming)
    ]

    unfoldable pub patch_station : Bytes → Json N → Db Stop
    unfolding wx_fields_from_json patch_station_fields
    patch_station id body =
        lifted (wx_fields_from_json getters library body) (patch_station_fields id body)

-- The whole try block for the row `id`: what is stored, then the answer.
unfoldable pub answer_target : Bytes → Stop → Db (Reply (Option ExportTargetRow))
unfolding find_export_target Database.◌>>=◌
answer_target id none = Database.◌>>=◌ (find_export_target id) (λ t. ret (sends t))
answer_target id (some (status, message)) = ret (fails status message)

unfoldable pub target_reply : Bytes → Db Stop → Db (Reply (Option ExportTargetRow))
unfolding answer_target Database.◌>>=◌
target_reply id stored = Database.◌>>=◌ stored (answer_target id)

module _ {D : Type 0} (atof : Bytes → D) where
  unfoldable pub answer_station : Bytes → Stop → Db (Reply (Option (WeatherStationRow D)))
  unfolding find_weather_station Database.◌>>=◌
  answer_station id none = Database.◌>>=◌ (find_weather_station atof id) (λ w. ret (sends w))
  answer_station id (some (status, message)) = ret (fails status message)

  unfoldable pub station_reply : Bytes → Db Stop → Db (Reply (Option (WeatherStationRow D)))
  unfolding answer_station Database.◌>>=◌
  station_reply id stored = Database.◌>>=◌ stored (answer_station id)

-- Whether the handler for an export target calls on_reload, for what storing came to.
unfoldable pub target_reloads : Result Stop → Bool
target_reloads (ok none) = true
target_reloads (ok (some e)) = false
target_reloads (err e) = false
