-- ===== src/Api/Settings.antt =====
-- src/api/http_server.cpp: GET and PUT /api/v1/settings, behind authentication and parsing.
use night_watcher.Base.{
  ℕ, Bool, false, not, ◌&&◌, ◌||◌, Option, none, some, if◌then◌else◌, Bytes, codes, is_empty,
  bytes_eq, Result, ok, err,
}
use night_watcher.Base.Int.{ℤ, pos, ltb_ℤ, leb_ℤ}
use night_watcher.Text.{atoi}
use night_watcher.Api.Json.{Json, string, number, boolean, lookup, members_of}
use night_watcher.Api.Names.{valid_bind, Reply, fails, sends}
use night_watcher.Database.{Db, ret, throw, ◌>>=◌, ◌>>◌, int_text}
use night_watcher.Database.Accounts.{get_setting, set_setting}

-- What the server runs with, or what the settings configure.
pub record Listening : Type 0 where
  pub bind : Bytes
  pub port : ℤ
  pub tls : Bool

pub record SettingsReport : Type 0 where
  pub running : Listening
  pub configured : Listening
  pub restart_required : Bool

-- `if (auto v = db.get_setting(...); v && !v->empty()) c = *v`, and the like.
unfoldable pub nonempty_or : Bytes → Option Bytes → Bytes
nonempty_or d none = d
nonempty_or d (some v) = if is_empty v then d else v

unfoldable pub port_or : ℤ → Option Bytes → ℤ
port_or d none = d
port_or d (some v) = if is_empty v then d else atoi v

unfoldable pub tls_or : Bool → Option Bytes → Bool
tls_or d none = d
tls_or d (some v) = bytes_eq v (codes "on")

unfoldable pub same_port : ℤ → ℤ → Bool
same_port a b = leb_ℤ a b && leb_ℤ b a

unfoldable pub same_tls : Bool → Bool → Bool
same_tls a b = if a then b else not b

unfoldable pub report : Listening → Listening → SettingsReport
unfolding same_port same_tls
report run c = record {
  running = run;
  configured = c;
  restart_required =
      not (bytes_eq c.bind run.bind)
      || (not (same_port c.port run.port) || not (same_tls c.tls run.tls));
}

unfoldable pub settings_json : Listening → Db SettingsReport
unfolding get_setting nonempty_or port_or tls_or report ◌>>=◌
settings_json run = do
  bind ← get_setting (codes "api_bind")
  port ← get_setting (codes "api_port")
  tls ← get_setting (codes "api_tls")
  ret (
      report run (record {
        bind = nonempty_or run.bind bind;
        port = port_or run.port port;
        tls = tls_or run.tls tls;
      }))

-- An early return with its error, `none` where the handler goes on.
abbrev pub Stop : Type 0
Stop = Option (ℕ × Bytes)

unfoldable pub on_off : Bool → Bytes
on_off on = if on then codes "on" else codes "off"

module _ {N : Type 0} where
  -- For what `body["bind"]` is.
  unfoldable pub put_bind_value : Option (Json N) → Db Stop
  unfolding valid_bind set_setting ◌>>=◌ ◌>>◌
  put_bind_value (some (string b)) =
      if valid_bind b
      then (do set_setting (codes "api_bind") b; ret none)
      else ret (some (400, codes "invalid bind address"))
  put_bind_value _ = ret none

  unfoldable pub put_bind : Json N → Db Stop
  unfolding lookup members_of put_bind_value
  put_bind body = put_bind_value (lookup (codes "bind") (members_of body))

  unfoldable pub tls_of : Json N → Bool
  unfolding bytes_eq
  tls_of (boolean on) = on
  tls_of (string s) =
      bytes_eq s (codes "on")
      || (bytes_eq s (codes "true") || (bytes_eq s (codes "1") || bytes_eq s (codes "yes")))
  tls_of _ = false

  unfoldable pub put_tls : Json N → Db Unit
  unfolding lookup members_of tls_of on_off set_setting
  put_tls body = elim (lookup (codes "tls") (members_of body)) [
    | none ↦ ret tt
    | some v ↦ set_setting (codes "api_tls") (on_off (tls_of v))
  ]

-- The next step, unless the handler has answered.
unfoldable pub unless_stopped : Stop → Db (Reply SettingsReport) → Db (Reply SettingsReport)
unless_stopped none next = next
unless_stopped (some (status, message)) next = ret (fails status message)

unfoldable pub put_port_value : Result ℤ → Db Stop
unfolding set_setting int_text ◌>>=◌ ◌>>◌
put_port_value (err e) = throw e
put_port_value (ok p) =
    if ltb_ℤ p (pos 1) || ltb_ℤ (pos 65535) p
    then ret (some (400, codes "port out of range (1-65535)"))
    else (do set_setting (codes "api_port") (int_text p); ret none)

module _ {N : Type 0} (get_int : Json N → Result ℤ) where
  unfoldable pub port_of : Json N → Result ℤ
  port_of (number n) = get_int (number n)
  port_of (string s) = ok (atoi s)
  port_of _ = ok (pos 0)

  unfoldable pub put_port : Json N → Db Stop
  unfolding lookup members_of port_of put_port_value
  put_port body = elim (lookup (codes "port") (members_of body)) [
    | none ↦ ret none
    | some v ↦ put_port_value (port_of v)
  ]

  -- The try block of PUT /api/v1/settings.
  unfoldable pub put_settings : Listening → Json N → Db (Reply SettingsReport)
  unfolding put_bind put_port put_tls settings_json unless_stopped ◌>>=◌ ◌>>◌
  put_settings run body = do
    bind_stop ← put_bind body
    unless_stopped bind_stop (do
      port_stop ← put_port body
      unless_stopped port_stop (do put_tls body; report ← settings_json run; ret (sends report)))
