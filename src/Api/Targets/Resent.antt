-- ===== src/Api/Targets/Resent.antt =====
-- Settings that the API has served and that come back.
use night_watcher.Base.{false, some, ◌≡◌, ap, ◌∙◌, Bytes, is_empty}
use night_watcher.Db.{WeatherStationRow, ExportTargetRow}
use night_watcher.Api.Json.{
  Members, object, mask_config_json, mask_config, merge_config, merge_config_json, members_of,
}
use night_watcher.Api.Masking.{IsSorted, merge_config_json-mask}
use night_watcher.Api.Sensors.{Getters}
use night_watcher.Api.Targets.{merged, change_target, merge_target, change_station, merge_station}
use night_watcher.Api.Bodies.{JsonText}
use night_watcher.Database.Fields.{WeatherStationFields, ExportTargetFields}

module _ {N D : Type 0} (getters : Getters N D) (library : JsonText N) where
  module _ (stored : Bytes) (ms : Members N) (e : is_empty stored ≡ false)
      (p : library.parse stored ≡ some (object ms)) (h : IsSorted ms) where
    mask_config-object : mask_config library.parse stored ≡ mask_config_json (object ms)
    unfolding mask_config members_of
    mask_config-object = rw (e, p)

    -- The stored text, read and masked for an answer, then merged with itself.
    merged-mask_config :
        merged getters library stored (mask_config library.parse stored) ≡ library.dump (object ms)
    unfolding merged merge_config
    merged-mask_config =
        rw (e, p)
          (ap (λ m. library.dump (merge_config_json (object ms) m)) mask_config-object
            ∙ ap library.dump (merge_config_json-mask ms h))

    -- An edit of an export target or of a weather station that sends back the settings as the API
    -- served them stores the text of those very settings: no secret is lost to its mask. The stored
    -- text is not empty and reads as an object with the keys of each object in order.
    pub merge-mask_config :
        (atof : Bytes → D) (to_string : D → Bytes) (id : Bytes) (t : ExportTargetRow)
        (f : ExportTargetFields) (w : WeatherStationRow D) (g : WeatherStationFields D)
        → t.config ≡ stored
        → w.config ≡ stored
        → (merge_target getters library id f (mask_config library.parse stored) (some t)
            ≡ change_target getters library id
                (record f { config = some (library.dump (object ms)) }))
          × (merge_station getters library atof to_string id g
                (mask_config library.parse stored)
                (some w)
              ≡ change_station getters library atof to_string id
                  (record g { config = some (library.dump (object ms)) }))
    unfolding merge_target merge_station
    merge-mask_config atof to_string id t f w g c d = (
      ap (λ x. change_target getters library id (record f { config = some x })) (remasked c),
      ap (λ x. change_station getters library atof to_string id (record g { config = some x }))
          (remasked d),
    )
      where
        remasked :
            {text : Bytes}
            → text ≡ stored
            → merged getters library text (mask_config library.parse stored)
              ≡ library.dump (object ms)
        remasked e =
            ap (λ x. merged getters library x (mask_config library.parse stored)) e
            ∙ merged-mask_config
