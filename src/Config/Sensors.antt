-- ===== src/Config/Sensors.antt =====
-- The sensors of a configuration: the sections of the file that name one, in order.
use mathlib.Core.List.{append_assoc, append-nil}
use night_watcher.Base.{
  subst, ok-injective, ℕ, zero, suc, ◌+◌, ◌≡◌, refl, sym, ap, ◌∙◌, Option, none, some, List, [],
  ◌∷◌, ◌++◌, arith, map, Bytes, Result, ok, err, Option-cases, inl, inr, ◌>>=◌,
}
use night_watcher.Config.{
  Line, skipped, header, setting, malformed, sensor_of, enter, classify, on_line, load_lines, load,
  with_tls_paths,
}
use night_watcher.Settings.{
  SensorConfig, Config, LoadState, set_database, set_api, set_sensor, change_at, set_current,
  assign, default_config, set_int,
}
use night_watcher.Text.{trim, split}
use night_watcher.Config.SensorLines.{named, sensor_ids, SensorLines, sensor_ids-SensorLines}

abbrev pub ids : Config → List Bytes
ids cfg = map (λ s. s.id) cfg.sensors

change_at-ids :
    (i : ℕ) (key value : Bytes) (sensors : List SensorConfig)
    → map (λ s. s.id) (change_at i (set_sensor key value) sensors) ≡ map (λ s. s.id) sensors
unfolding change_at set_sensor
change_at-ids i key value [] = refl
change_at-ids zero key value (sc ∷ sensors) = ground arith
change_at-ids (suc i) key value (sc ∷ sensors) = ap (◌∷◌ sc.id) (change_at-ids i key value sensors)

set_database-ids :
    (key value : Bytes) (cfg cfg' : Config)
    → set_database key value cfg ≡ ok cfg'
    → ids cfg' ≡ ids cfg
unfolding set_database set_int
set_database-ids key value cfg cfg' h = ground arith

set_api-ids :
    (key value : Bytes) (cfg cfg' : Config) → set_api key value cfg ≡ ok cfg' → ids cfg' ≡ ids cfg
unfolding set_api set_int
set_api-ids key value cfg cfg' h = ground arith

set_current-ids :
    (current : Option ℕ) (key value : Bytes) (cfg : Config)
    → ids (set_current current key value cfg) ≡ ids cfg
unfolding set_current
set_current-ids none key value cfg = refl
set_current-ids (some i) key value cfg = change_at-ids i key value cfg.sensors

assign-ids :
    (st : LoadState) (key value : Bytes) (cfg : Config)
    → assign st key value ≡ ok cfg
    → ids cfg ≡ ids st.cfg
unfolding assign set_int
assign-ids st key value cfg h = ground (
  arith,
  set_database-ids key value st.cfg cfg,
  set_api-ids key value st.cfg cfg,
  set_current-ids st.current_sensor key value st.cfg,
)

map-append :
    (xs ys : List SensorConfig)
    → map (λ s. s.id) (xs ++ ys) ≡ map (λ s. s.id) xs ++ map (λ s. s.id) ys
map-append [] ys = refl
map-append (x ∷ xs) ys = ap (◌∷◌ x.id) (map-append xs ys)

enter-ids :
    (st : LoadState) (section : Bytes)
    → ids (enter st section).cfg ≡ ids st.cfg ++ named (header section)
unfolding enter
enter-ids st section = elim (Option-cases (sensor_of section)) [
  | inl e ↦ rw (e, enter) (sym (append-nil (ids st.cfg)))
  | inr (sc, e) ↦ rw (e, enter) (map-append st.cfg.sensors (sc ∷ []))
]

-- A line adds the identifier that it names.
abbrev Adds : List Bytes → Config → Result LoadState → Type 0
Adds new cfg (ok st) = ids st.cfg ≡ ids cfg ++ new
Adds new cfg (err e) = Unit {0}

on_line-Adds :
    (path : Bytes) (lineno : ℕ) (s : Bytes) (st : LoadState) (line : Line)
    → Adds (named line) st.cfg (on_line path lineno s st line)
unfolding on_line
on_line-Adds path lineno s st skipped = sym (append-nil (ids st.cfg))
on_line-Adds path lineno s st (header section) = enter-ids st section
on_line-Adds path lineno s st malformed = tt
on_line-Adds path lineno s st (setting key value) =
    by_result (assign st key value) (assign-ids st key value)
  where
    by_result :
        (r : Result Config)
        → ((cfg : Config) → r ≡ ok cfg → ids cfg ≡ ids st.cfg)
        → Adds [] st.cfg (r >>= λ cfg. ok (record st { cfg = cfg }))
    by_result (ok cfg) h = h cfg refl ∙ sym (append-nil (ids st.cfg))
    by_result (err e) h = tt

load_lines-Adds :
    (path : Bytes) (lineno : ℕ) (st : LoadState) (lines : List Bytes)
    → Adds (sensor_ids lines) st.cfg (load_lines path lineno st lines)
unfolding load_lines
load_lines-Adds path lineno st [] = sym (append-nil (ids st.cfg))
load_lines-Adds path lineno st (l ∷ lines) =
    by_result (on_line path (lineno + 1) (trim l) st (classify (trim l)))
      (on_line-Adds path (lineno + 1) (trim l) st (classify (trim l)))
      (λ st'. load_lines-Adds path (lineno + 1) st' lines)
  where
    by_rest :
        (st' : LoadState) (r : Result LoadState)
        → ids st'.cfg ≡ ids st.cfg ++ named (classify (trim l))
        → Adds (sensor_ids lines) st'.cfg r
        → Adds (sensor_ids (l ∷ lines)) st.cfg r
    by_rest st' (ok last) h k =
        k
        ∙ ap (λ (xs : List Bytes). xs ++ sensor_ids lines) h
        ∙ append_assoc (ids st.cfg) (named (classify (trim l))) (sensor_ids lines)
    by_rest st' (err e) h k = tt

    by_result :
        (r : Result LoadState)
        → Adds (named (classify (trim l))) st.cfg r
        → ((st' : LoadState)
            → Adds (sensor_ids lines) st'.cfg (load_lines path (lineno + 1) st' lines))
        → Adds (sensor_ids (l ∷ lines)) st.cfg (r >>= λ st'. load_lines path (lineno + 1) st' lines)
    by_result (ok st') h k = by_rest st' (load_lines path (lineno + 1) st' lines) h (k st')
    by_result (err e) h k = tt

-- The sensors of a configuration that loads are those of the lines `[sensor: id ]` of the file, in the
-- file's order and with the identifiers given there, whatever else the file sets.
pub load-SensorLines :
    (path text : Bytes) (cfg : Config)
    → load path (some text) ≡ ok cfg
    → SensorLines (split b'\n' text) (map (λ s. s.id) cfg.sensors)
unfolding load with_tls_paths default_config
load-SensorLines path text cfg h =
    subst (SensorLines (split b'\n' text))
      (sym (
        by_result (load_lines path 0 start (split b'\n' text))
          (load_lines-Adds path 0 start (split b'\n' text)) h))
      (sensor_ids-SensorLines (split b'\n' text))
  where
    start : LoadState
    start = record { cfg = default_config; section = []; current_sensor = none }

    by_result :
        (r : Result LoadState)
        → Adds (sensor_ids (split b'\n' text)) default_config r
        → (r >>= λ st. ok (with_tls_paths path st.cfg)) ≡ ok cfg
        → ids cfg ≡ sensor_ids (split b'\n' text)
    by_result (ok st) a e = subst (λ c. ids c ≡ sensor_ids (split b'\n' text)) (ok-injective e) a
    by_result (err x) a e = cc
