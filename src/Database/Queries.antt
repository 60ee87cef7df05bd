-- ===== src/Database/Queries.antt =====
-- The statements that upserts, updates and searches execute are sound.
use night_watcher.Base.{
  true, Option, none, some, List, ◌≡◌, refl, Bytes, All, is_empty, Bool-cases, inl, inr,
}
use Prim.Native.String.{String}
use night_watcher.Base.Int.{ℤ}
use night_watcher.Database.{Row, ◌>>◌, int_text, sql}
use night_watcher.Database.Columns.{
  Setting, text_setting, int_setting, double_setting, upsert, update_found, find, sets,
}
use night_watcher.Database.Fields.{
  SensorFields, WeatherStationFields, ExportTargetFields, sensor_settings, weather_settings,
  export_settings,
}
use night_watcher.Database.Tables
use night_watcher.Database.Lexer.{sound, tame, is_tame, is_quote, starts_code}
use night_watcher.Database.Fits.{
  Safe, tame-int_text, code-Fits, quoted-Fits, only-Safe, selected-Safe,
}
use night_watcher.Database.Composed.{
  Tame, IsSetting, upsert_statement-sound, update_statement-sound, find_statement-sound,
}

pub upsert-Safe :
    (table : String) (id : Bytes) (settings : List Setting)
    → Tame table
    → All IsSetting settings
    → Safe (upsert table id settings)
unfolding upsert ◌>>◌
upsert-Safe table id settings h k =
    only-Safe _ (λ _. tt) (upsert_statement-sound table id settings h k)

module _ {A : Type 0} where
  pub find-Safe :
      (from_row : Row → A) (cols table : String) (id : Bytes)
      → Tame cols
      → Tame table
      → Safe (find from_row cols table id)
  unfolding find
  find-Safe from_row cols table id h k = selected-Safe _ _ (find_statement-sound cols table id h k)

  pub update_found-Safe :
      (table : String) (id : Bytes) (settings : List Setting) (row : Option A)
      → Tame table
      → All IsSetting settings
      → Safe (update_found table id settings row)
  unfolding update_found ◌>>◌ Safe
  update_found-Safe table id settings none h k = tt
  update_found-Safe table id settings (some row) h k =
      elim (Bool-cases (is_empty (sets settings))) [
        | inl e ↦ rw e tt
        | inr e ↦ rw e (only-Safe _ (λ _. true) (update_statement-sound table id settings h k))
      ]

  pub all_of-Safe :
      (from_row : Row → A) (cols table : String)
      → Tame cols
      → Tame table
      → Safe (Tables.all_of from_row cols table)
  unfolding Tables.all_of Tables.all_statement sql sound tame is_tame is_quote starts_code
  all_of-Safe from_row cols table h k =
      selected-Safe (Tables.all_statement cols table) _ (rw (h, k) refl)

  pub active_of-Safe :
      (from_row : Row → A) (cols table : String)
      → Tame cols
      → Tame table
      → Safe (Tables.active_of from_row cols table)
  unfolding Tables.active_of Tables.active_statement sql sound tame is_tame is_quote starts_code
  active_of-Safe from_row cols table h k =
      selected-Safe (Tables.active_statement cols table) _ (rw (h, k) refl)

text_setting-IsSetting : (c : String) (v : Option Bytes) → Tame c → IsSetting (text_setting c v)
unfolding text_setting
text_setting-IsSetting c none h = h
text_setting-IsSetting c (some v) h = (h, quoted-Fits v)

int_setting-IsSetting : (c : String) (v : Option ℤ) → Tame c → IsSetting (int_setting c v)
unfolding int_setting
int_setting-IsSetting c none h = h
int_setting-IsSetting c (some v) h = (h, code-Fits (int_text v) (tame-int_text v))

-- Printed numbers hold no quote, backslash or zero byte.
abbrev pub IsTame : {D : Type 0} → (D → Bytes) → Type 0
IsTame show = (v : _) → tame (show v) ≡ true

module _ {D : Type 0} (show : D → Bytes) (show_tame : IsTame show) where
  double_setting-IsSetting :
      (c : String) (v : Option D) → Tame c → IsSetting (double_setting show c v)
  unfolding double_setting
  double_setting-IsSetting c none h = h
  double_setting-IsSetting c (some v) h = (h, code-Fits (show v) (show_tame v))

  pub sensor_settings-AreSettings : (f : SensorFields D) → All IsSetting (sensor_settings show f)
  unfolding sensor_settings tame is_tame is_quote
  sensor_settings-AreSettings f = (
    text_setting-IsSetting "name" f.name refl,
    (
      text_setting-IsSetting "site" f.site refl,
      (
        text_setting-IsSetting "serial_number" f.serial_number refl,
        (
          text_setting-IsSetting "model" f.model refl,
          (
            int_setting-IsSetting "protocol_ver" f.protocol_ver refl,
            (
              int_setting-IsSetting "feature_ver" f.feature_ver refl,
              (
                double_setting-IsSetting "latitude" f.latitude refl,
                (
                  double_setting-IsSetting "longitude" f.longitude refl,
                  (
                    double_setting-IsSetting "elevation_m" f.elevation_m refl,
                    (
                      text_setting-IsSetting "timezone" f.timezone refl,
                      (
                        text_setting-IsSetting "transport" f.transport refl,
                        (
                          text_setting-IsSetting "address" f.address refl,
                          (
                            int_setting-IsSetting "poll_interval_s" f.poll_interval_s refl,
                            (
                              text_setting-IsSetting "status" f.status refl,
                              (
                                text_setting-IsSetting "installed_at" f.installed_at refl,
                                (text_setting-IsSetting "notes" f.notes refl, tt),
                              ),
                            ),
                          ),
                        ),
                      ),
                    ),
                  ),
                ),
              ),
            ),
          ),
        ),
      ),
    ),
  )

  pub weather_settings-AreSettings :
      (f : WeatherStationFields D) → All IsSetting (weather_settings show f)
  unfolding weather_settings tame is_tame is_quote
  weather_settings-AreSettings f = (
    text_setting-IsSetting "name" f.name refl,
    (
      text_setting-IsSetting "site" f.site refl,
      (
        text_setting-IsSetting "model" f.model refl,
        (
          text_setting-IsSetting "provider" f.provider refl,
          (
            text_setting-IsSetting "config" f.config refl,
            (
              text_setting-IsSetting "transport" f.transport refl,
              (
                text_setting-IsSetting "address" f.address refl,
                (
                  double_setting-IsSetting "latitude" f.latitude refl,
                  (
                    double_setting-IsSetting "longitude" f.longitude refl,
                    (
                      double_setting-IsSetting "elevation_m" f.elevation_m refl,
                      (
                        text_setting-IsSetting "timezone" f.timezone refl,
                        (
                          int_setting-IsSetting "poll_interval_s" f.poll_interval_s refl,
                          (
                            text_setting-IsSetting "status" f.status refl,
                            (
                              text_setting-IsSetting "installed_at" f.installed_at refl,
                              (text_setting-IsSetting "notes" f.notes refl, tt),
                            ),
                          ),
                        ),
                      ),
                    ),
                  ),
                ),
              ),
            ),
          ),
        ),
      ),
    ),
  )

pub export_settings-AreSettings : (f : ExportTargetFields) → All IsSetting (export_settings f)
unfolding export_settings tame is_tame is_quote
export_settings-AreSettings f = (
  text_setting-IsSetting "sensor_id" f.sensor_id refl,
  (
    text_setting-IsSetting "name" f.name refl,
    (
      text_setting-IsSetting "target" f.target refl,
      (
        text_setting-IsSetting "config" f.config refl,
        (
          text_setting-IsSetting "schedule" f.schedule refl,
          (
            text_setting-IsSetting "schedule_time" f.schedule_time refl,
            (
              int_setting-IsSetting "interval_s" f.interval_s refl,
              (
                int_setting-IsSetting "schedule_day" f.schedule_day refl,
                (
                  text_setting-IsSetting "status" f.status refl,
                  (text_setting-IsSetting "notes" f.notes refl, tt),
                ),
              ),
            ),
          ),
        ),
      ),
    ),
  ),
)
