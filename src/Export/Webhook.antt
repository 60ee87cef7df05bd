-- ===== src/Export/Webhook.antt =====
-- src/export/exporter.cpp: the webhook exporter. Its configuration is an argument, as the JSON library
-- reads it; the answers to its POST requests come from a tape. A JSON body is its parts.
pub mod Sent
use night_watcher.Base.{
  ℕ, zero, suc, ◌*◌, Bool, true, false, ◌&&◌, ◌||◌, Option, none, some, List, [], ◌∷◌, ◌++◌, map,
  if◌then◌else◌, ◌==◌, leb, ltb, is_empty, Bytes, codes, length, take, drop, not, bytes_eq, Result,
  ok, err, runtime_error,
}
use night_watcher.Base.Int.{ℤ, pos, ltb_ℤ, pos_part}
use night_watcher.Db.{SensorRow, ReadingRow, WeatherReadingRow}
use night_watcher.Export.Run.{ExportContext, ExportResult}
use night_watcher.Text.{cut, to_string}

abbrev consed : ℕ → Option (Bytes × Bytes) → Option (Bytes × Bytes)
consed c none = none
consed c (some (before, behind)) = some (c ∷ before, behind)

-- The text up to and with the first "://", and what is behind it.
unfoldable pub cut_scheme : Bytes → Option (Bytes × Bytes)
cut_scheme (c ∷ d ∷ e ∷ s) =
    let later = consed c (cut_scheme (d ∷ e ∷ s)) in
    if c == b':' && d == b'/' && e == b'/' then some (c ∷ d ∷ e ∷ [], s) else later
cut_scheme _ = none

-- `before` has been passed; the path starts at the next slash.
unfoldable pub split_at_slash : Bytes → Bytes → Bytes × Bytes
unfolding cut
split_at_slash before rest = elim (cut b'/' rest) [
  | none ↦ (before ++ rest, codes "/")
  | some (host, path) ↦ (before ++ host, b'/' ∷ path)
]

unfoldable pub split_url : Bytes → Bytes × Bytes
unfolding cut_scheme split_at_slash
split_url url = elim (cut_scheme url) [
  | none ↦ split_at_slash [] url
  | some (scheme, rest) ↦ split_at_slash scheme rest
]

pub record WebhookConfig : Type 0 where
  pub url : Bytes
  pub token : Bytes
  pub site_id : Option Bytes
  pub insecure : Bool
  pub batch : ℤ

pub record Point (D : Type 0) : Type 0 where
  pub ts_utc : Bytes
  pub mag_arcsec2 : D
  pub temp_c : D
  pub quality : Bytes

-- The members of `sensor`; `none` is a member left out, for the numbers null.
pub record SensorMeta (D : Type 0) : Type 0 where
  pub id : Bytes
  pub name : Option Bytes
  pub latitude : Option D
  pub longitude : Option D
  pub elevation_m : Option D
  pub timezone : Option Bytes

-- A request: the body's members, `weather` left out if it is empty, with where it goes and its token.
pub record Request (D : Type 0) : Type 0 where
  pub base : Bytes
  pub path : Bytes
  pub bearer : Option Bytes
  pub site_id : Bytes
  pub sensor : SensorMeta D
  pub readings : List (Point D)
  pub weather : List (Bytes × D)

-- What a POST comes to: an error's text, or a status and a body.
pub data Answer : Type 0 where
  unanswered : Bytes → Answer
  answered : ℕ → Bytes → Answer

pub data PushOutcome : Type 0 where
  delivered : ExportResult → PushOutcome
  push_throws : Bytes → PushOutcome
  push_waits : PushOutcome

abbrev non_empty : Bytes → Option Bytes
non_empty [] = none
non_empty (c ∷ s) = some (c ∷ s)

unfoldable pub batch_of : ℤ → ℕ
batch_of batch = if ltb_ℤ batch (pos 1) then 2000 else pos_part batch

-- The ranges [i, end) of the loop; each is a batch long but for the last. Its fuel is the number of
-- readings.
unfoldable pub batches : {A : Type 0} → ℕ → ℕ → List A → List (List A)
batches zero batch rs = []
batches (suc fuel) batch [] = []
batches (suc fuel) batch (r ∷ rs) = take batch (r ∷ rs) ∷ batches fuel batch (drop batch (r ∷ rs))

module _ {D : Type 0} where
  unfoldable pub point : ReadingRow D → Point D
  point r = record {
    ts_utc = r.ts_utc;
    mag_arcsec2 = r.mag_arcsec2;
    temp_c = r.temp_c;
    quality = r.quality;
  }

  unfoldable pub sensor_meta : SensorRow D → SensorMeta D
  sensor_meta s = record {
    id = s.id;
    name = non_empty s.name;
    latitude = s.latitude;
    longitude = s.longitude;
    elevation_m = s.elevation_m;
    timezone = non_empty s.timezone;
  }

  unfoldable pub ambient : List (WeatherReadingRow D) → List (Bytes × D)
  ambient [] = []
  ambient (w ∷ weather) =
      let rest = ambient weather in elim w.temp_c [ none ↦ rest | some t ↦ (w.ts_utc, t) ∷ rest ]

  unfoldable pub request_of : WebhookConfig → ExportContext D → List (ReadingRow D) → Request D
  unfolding split_url point sensor_meta ambient
  request_of cfg ctx rows = record {
    base = (split_url cfg.url).0;
    path = (split_url cfg.url).1;
    bearer = non_empty cfg.token;
    site_id = elim cfg.site_id [ none ↦ ctx.sensor.id | some id ↦ id ];
    sensor = sensor_meta ctx.sensor;
    readings = map point rows;
    weather = ambient ctx.weather;
  }

  unfoldable pub result_of : WebhookConfig → ExportContext D → ExportResult
  result_of cfg ctx = record {
    file_name = codes "webhook";
    remote_id = cfg.url;
    row_count = length ctx.readings;
  }

  -- The loop over the batches: the requests that it makes, and what it comes to.
  unfoldable pub post_all :
      WebhookConfig
      → ExportContext D
      → List (List (ReadingRow D))
      → List Answer
      → List (Request D) × PushOutcome
  unfolding request_of result_of to_string
  post_all cfg ctx [] tape = ([], delivered (result_of cfg ctx))
  post_all cfg ctx (rows ∷ more) [] = (request_of cfg ctx rows ∷ [], push_waits)
  post_all cfg ctx (rows ∷ more) (unanswered why ∷ tape) = (
    request_of cfg ctx rows ∷ [],
    push_throws (codes "webhook POST to " ++ (cfg.url ++ (codes " failed: " ++ why))),
  )
  post_all cfg ctx (rows ∷ more) (answered status body ∷ tape) =
      let rest = post_all cfg ctx more tape in
      if ltb status 200 || leb 300 status
      then (
        request_of cfg ctx rows ∷ [],
        push_throws
            (codes "webhook POST returned HTTP " ++ (to_string status ++ (codes ": " ++ body))),
      )
      else (request_of cfg ctx rows ∷ rest.0, rest.1)

  unfoldable pub webhook_run :
      WebhookConfig → ExportContext D → List Answer → List (Request D) × PushOutcome
  unfolding post_all batches batch_of
  webhook_run cfg ctx tape =
      if is_empty cfg.url
      then ([], push_throws (codes "webhook export requires a 'url'"))
      else post_all cfg ctx (batches (length ctx.readings) (batch_of cfg.batch) ctx.readings) tape

pub data ExporterKind : Type 0 where
  dsn_exporter webhook_exporter : Bytes → ExporterKind

-- `parses` says whether the JSON library takes a text.
unfoldable pub make_exporter : (Bytes → Bool) → Bytes → Bytes → Result ExporterKind
unfolding bytes_eq
make_exporter parses target config_json =
    if not (is_empty config_json) && not (parses config_json)
    then err (runtime_error (target ++ codes ": invalid config JSON"))
    else if bytes_eq target (codes "dsn")
    then ok (dsn_exporter config_json)
    else if bytes_eq target (codes "webhook")
    then ok (webhook_exporter config_json)
    else if bytes_eq target (codes "globeatnight")
    then err (runtime_error (codes "globeatnight exporter is not implemented yet"))
    else err (runtime_error (codes "unknown export target: " ++ target))
