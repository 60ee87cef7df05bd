-- ===== src/Tests/Targets.antt =====
-- An export target and a weather station whose settings come back masked.
use night_watcher.Base.{ℕ, ◌≡◌, refl, none, some, [], codes}
use night_watcher.Base.Int.{pos}
use night_watcher.Api.Json.{object, key_lt, mask_config}
use night_watcher.Api.Masking.{IsSorted}
use night_watcher.Api.Targets.{merge_target, change_target, merge_station, change_station}
use night_watcher.Api.Bodies.{JsonText}
use night_watcher.Api.Targets.Resent.{merge-mask_config}
use night_watcher.Database.Fields.{WeatherStationFields, ExportTargetFields}
use night_watcher.Db.{WeatherStationRow, ExportTargetRow}
use night_watcher.Tests.Api.{settings_with, getters}

-- It reads one text.
abbrev one_text : JsonText ℕ
one_text = record {
  parse = λ s. some (object (settings_with (codes "k1") (codes "t1")));
  dump = λ j. codes "{...}";
}

abbrev target_sample : ExportTargetRow
target_sample = record {
  id = codes "hook";
  sensor_id = codes "DSN003";
  name = [];
  target = codes "webhook";
  config = codes "{...}";
  schedule = codes "interval";
  schedule_time = [];
  interval_s = some (pos 600);
  schedule_day = none;
  last_export_ts = [];
  status = codes "active";
  notes = [];
  created_at = [];
}

abbrev station_sample : WeatherStationRow ℕ
station_sample = record {
  id = codes "roof";
  name = [];
  site = [];
  model = [];
  provider = codes "ambient";
  config = codes "{...}";
  transport = [];
  address = [];
  latitude = none;
  longitude = none;
  elevation_m = none;
  timezone = [];
  poll_interval_s = pos 300;
  status = codes "active";
  installed_at = [];
  notes = [];
  created_at = [];
}

abbrev no_fields : ExportTargetFields
no_fields = record {
  sensor_id = none;
  name = none;
  target = none;
  config = none;
  schedule = none;
  schedule_time = none;
  interval_s = none;
  schedule_day = none;
  status = none;
  notes = none;
}

abbrev renamed : WeatherStationFields ℕ
renamed = record {
  name = some (codes "Roof");
  site = none;
  model = none;
  provider = none;
  config = none;
  transport = none;
  address = none;
  latitude = none;
  longitude = none;
  elevation_m = none;
  timezone = none;
  poll_interval_s = none;
  status = none;
  installed_at = none;
  notes = none;
}

merge-mask_config_example :
    (merge_target getters one_text
        (codes "hook")
        no_fields
        (mask_config one_text.parse (codes "{...}"))
        (some target_sample)
      ≡ change_target getters one_text
          (codes "hook")
          (record no_fields { config = some (codes "{...}") }))
    × (merge_station getters one_text
          (λ s. 0)
          (λ n. codes "0")
          (codes "hook")
          renamed
          (mask_config one_text.parse (codes "{...}"))
          (some station_sample)
        ≡ change_station getters one_text
            (λ s. 0)
            (λ n. codes "0")
            (codes "hook")
            (record renamed { config = some (codes "{...}") }))
unfolding IsSorted key_lt
merge-mask_config_example =
    merge-mask_config getters one_text (codes "{...}") (settings_with (codes "k1") (codes "t1"))
      refl refl ((refl, (refl, tt)), (tt, ((refl, tt), ((tt, (tt, tt)), (tt, (tt, tt)))))) (λ s. 0)
      (λ n. codes "0") (codes "hook") target_sample no_fields station_sample renamed refl refl
